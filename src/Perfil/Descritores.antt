-- ===== src/Perfil/Descritores.antt =====
-- `Leitor.fd_dir`, `abrir` and `fechar_tudo` of bench/perfil_dataset.py. The calls of the system are
-- an argument and may answer differently each time: the state counts them. The open descriptors are
-- kept beside the object, since the process has them.
use engine_motor.Prelude.{
  ℕ, zero, suc, ◌+◌, Bool, true, false, not, ◌||◌, Option, none, some, List, [], ◌∷◌, ◌++◌, length,
  get_elem?, ltb, ◌==◌, if◌then◌else◌,
}
use engine_motor.Scan.{Nome, Arq, Errno, eperm, Motivo, nao_regular, motivo_de, motivo_diretorio}

-- A call of the system fails with `OSError` or gives a value.
pub data Chamada (A : Type 0) : Type 0 where
  oserror : Errno → Chamada A
  deu : A → Chamada A

-- What `fstat` says of an open file.
pub record EstadoArq : Type 0 where
  pub e_regular : Bool
  pub st_dev : ℕ
  pub st_ino : ℕ
  pub st_size : ℕ
  pub st_mtime_ns : ℕ

-- The calls, each with its number in the run; the descriptor of `open` and the flag O_NOATIME.
pub record Sistema : Type 0 where
  pub noatime : Bool
  pub abre_dir : ℕ → ℕ → Nome → Chamada ℕ
  pub abre_arq : ℕ → Bool → ℕ → Nome → Chamada ℕ
  pub fstat : ℕ → ℕ → Chamada EstadoArq
  pub pread : ℕ → ℕ → ℕ → ℕ → Chamada (List ℕ)

-- `Falha` with its reason (`none` is "substituido_durante_leitura", which no call of the system
-- gives), an `OSError` that nobody catches, an index that is not in `dirs`, or no rounds left.
pub data Resposta (A : Type 0) : Type 0 where
  ok : A → Resposta A
  falha : Option Motivo → Resposta A
  excecao : Errno → Resposta A
  indice : Resposta A
  sem_rodadas : Resposta A

pub record LeitorPerfil : Type 0 where
  pub cache : List (ℕ × ℕ)
  pub noatime_negados : ℕ
  pub abertos : List ℕ
  pub chamadas : ℕ

abbrev pub chamar : LeitorPerfil → LeitorPerfil
chamar s = record s { chamadas = s.chamadas + 1 }

abbrev pub remover : ℕ → List ℕ → List ℕ
remover fd [] = []
remover fd (x ∷ xs) = if x == fd then xs else x ∷ remover fd xs

-- `os.close`, which is taken to succeed.
unfoldable pub fechar_fd : ℕ → LeitorPerfil → LeitorPerfil
fechar_fd fd s = record s { abertos = remover fd s.abertos }

-- The dictionary, in the order in which its keys came.
unfoldable pub no_cache : ℕ → List (ℕ × ℕ) → Option ℕ
no_cache did [] = none
no_cache did ((k, fd) ∷ c) = if k == did then some fd else no_cache did c

unfoldable pub por_no_cache : ℕ → ℕ → List (ℕ × ℕ) → List (ℕ × ℕ)
por_no_cache did fd [] = (did, fd) ∷ []
por_no_cache did fd ((k, x) ∷ c) = if k == did then (k, fd) ∷ c else (k, x) ∷ por_no_cache did fd c

-- `os.close(self.cache.pop(next(iter(self.cache))))`.
unfoldable pub despejar : List (ℕ × ℕ) → LeitorPerfil → LeitorPerfil
unfolding fechar_fd
despejar [] s = s
despejar ((k, fd) ∷ c) s = fechar_fd fd (record s { cache = c })

-- The descriptor is in the cache, and the oldest one goes when there are more than 48.
unfoldable pub lembrar : ℕ → ℕ → LeitorPerfil → LeitorPerfil
unfolding por_no_cache despejar
lembrar did fd s =
    let c = por_no_cache did fd s.cache in
    let s' : LeitorPerfil = record s { cache = c; abertos = s.abertos ++ fd ∷ [] } in
    if ltb 48 (length c) then despejar c s' else s'

unfoldable pub dir_aberto : ℕ → Chamada ℕ → LeitorPerfil → Resposta ℕ × LeitorPerfil
unfolding lembrar
dir_aberto did (oserror e) s = (falha (some (motivo_diretorio e)), s)
dir_aberto did (deu fd) s = (ok fd, lembrar did fd s)

-- `open` behind the second `except`: a descriptor or a reason.
unfoldable pub arq_aberto : Chamada ℕ → LeitorPerfil → Resposta ℕ × LeitorPerfil
arq_aberto (oserror e) s = (falha (some (motivo_de e)), s)
arq_aberto (deu fd) s = (ok fd, record s { abertos = s.abertos ++ fd ∷ [] })

unfoldable pub e_eperm : Errno → Bool
e_eperm eperm = true
e_eperm e = false

module _ (sis : Sistema) (raiz_fd : ℕ) (dirs : List (ℕ × Nome)) where
  -- What stands behind the call for the parent.
  unfoldable pub abrir_dir : ℕ → Nome → Resposta ℕ × LeitorPerfil → Resposta ℕ × LeitorPerfil
  unfolding dir_aberto
  abrir_dir did nome (ok fdp, s) = dir_aberto did (sis.abre_dir s.chamadas fdp nome) (chamar s)
  abrir_dir did nome (falha m, s) = (falha m, s)
  abrir_dir did nome (excecao e, s) = (excecao e, s)
  abrir_dir did nome (indice, s) = (indice, s)
  abrir_dir did nome (sem_rodadas, s) = (sem_rodadas, s)

  unfoldable pub fora_do_cache :
      (ℕ → Resposta ℕ × LeitorPerfil)
      → ℕ
      → Option (ℕ × Nome)
      → LeitorPerfil
      → Resposta ℕ × LeitorPerfil
  unfolding abrir_dir
  fora_do_cache rec did none s = (indice, s)
  fora_do_cache rec did (some (pai, nome)) s = abrir_dir did nome (rec pai)

  unfoldable pub buscar_dir :
      (ℕ → Resposta ℕ × LeitorPerfil) → ℕ → Option ℕ → LeitorPerfil → Resposta ℕ × LeitorPerfil
  unfolding fora_do_cache
  buscar_dir rec did (some fd) s = (ok fd, s)
  buscar_dir rec did none s = fora_do_cache rec did (get_elem? dirs did) s

  -- `fd_dir`, with the depth of the recursion.
  unfoldable pub fd_dir : ℕ → ℕ → LeitorPerfil → Resposta ℕ × LeitorPerfil
  unfolding buscar_dir no_cache
  fd_dir zero did s = (sem_rodadas, s)
  fd_dir (suc n) did s =
      if did == 0
      then (ok raiz_fd, s)
      else buscar_dir (λ pai. fd_dir n pai s) did (no_cache did s.cache) s

  -- The first `open` asks for O_NOATIME; without the right to it the file is opened again.
  unfoldable pub abrir_primeiro : Chamada ℕ → ℕ → Nome → LeitorPerfil → Resposta ℕ × LeitorPerfil
  unfolding arq_aberto e_eperm
  abrir_primeiro (deu fd) fdd nome s = arq_aberto (deu fd) s
  abrir_primeiro (oserror e) fdd nome s =
      if not (e_eperm e) || not sis.noatime
      then arq_aberto (oserror e) s
      else arq_aberto (sis.abre_arq s.chamadas false fdd nome)
          (chamar (record s { noatime_negados = s.noatime_negados + 1 }))

  -- The checks on what `fstat` says; its own error stands outside every `try` and leaves the
  -- descriptor open.
  unfoldable pub conferido :
      Arq → ℕ → Chamada EstadoArq → LeitorPerfil → Resposta (ℕ × EstadoArq) × LeitorPerfil
  unfolding fechar_fd
  conferido arq fd (oserror e) s = (excecao e, s)
  conferido arq fd (deu st) s =
      if not st.e_regular
      then (falha (some nao_regular), fechar_fd fd s)
      else if not (st.st_dev == arq.dev) || not (st.st_ino == arq.ino)
      then (falha none, fechar_fd fd s)
      else (ok (fd, st), s)

  -- `fstat` of what was opened.
  unfoldable pub conferir :
      Arq → Resposta ℕ × LeitorPerfil → Resposta (ℕ × EstadoArq) × LeitorPerfil
  unfolding conferido
  conferir arq (ok fd, s) = conferido arq fd (sis.fstat s.chamadas fd) (chamar s)
  conferir arq (falha m, s) = (falha m, s)
  conferir arq (excecao e, s) = (excecao e, s)
  conferir arq (indice, s) = (indice, s)
  conferir arq (sem_rodadas, s) = (sem_rodadas, s)

  unfoldable pub abrir_em :
      Arq → Resposta ℕ × LeitorPerfil → Resposta (ℕ × EstadoArq) × LeitorPerfil
  unfolding abrir_primeiro conferir
  abrir_em arq (ok fdd, s) =
      conferir arq
        (abrir_primeiro (sis.abre_arq s.chamadas sis.noatime fdd arq.nome) fdd arq.nome (chamar s))
  abrir_em arq (falha m, s) = (falha m, s)
  abrir_em arq (excecao e, s) = (excecao e, s)
  abrir_em arq (indice, s) = (indice, s)
  abrir_em arq (sem_rodadas, s) = (sem_rodadas, s)

  -- `abrir`; a parent stands before its directory, so that the number of directories is depth enough.
  unfoldable pub abrir : Arq → LeitorPerfil → Resposta (ℕ × EstadoArq) × LeitorPerfil
  unfolding fd_dir abrir_em
  abrir arq s = abrir_em arq (fd_dir (suc arq.did) arq.did s)

-- `fechar_tudo`.
unfoldable pub fechar_todos : List (ℕ × ℕ) → LeitorPerfil → LeitorPerfil
unfolding fechar_fd
fechar_todos [] s = s
fechar_todos ((k, fd) ∷ c) s = fechar_todos c (fechar_fd fd s)

unfoldable pub fechar_tudo : LeitorPerfil → LeitorPerfil
unfolding fechar_todos
fechar_tudo s = record (fechar_todos s.cache s) { cache = [] }
