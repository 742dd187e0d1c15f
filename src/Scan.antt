-- ===== src/Scan.antt =====
-- The read-only scan of bench/perfil_dataset.py: `varrer_arvore` with its state `Varredura`, the
-- entries that `listar_dir` returns, and `motivo_de`. The file system is a finite tree.
pub mod Stack
pub mod Induction
pub mod Files
pub mod Counts
pub mod Ends
mod Tests
use mathlib.Core.Logic.{ite}
use native.Mathlib.Decide.{ℕ_discrete}
use engine_motor.Prelude.{
  ℕ, zero, suc, ◌+◌, ◌-◌, Bool, true, false, not, ◌&&◌, ◌||◌, Option, none, some, List, [], ◌∷◌,
  ◌++◌, length, get_elem?, ltb, leb, ◌==◌, if◌then◌else◌,
}

abbrev pub Nome : Type 0
Nome = List ℕ

-- The error numbers that the source names, and every other.
pub data Errno : Type 0 where
  eacces eperm enoent eloop enxio eisdir enotdir eio emfile enfile : Errno
  outro : ℕ → Errno

-- The reasons for which an entry is left out.
pub data Motivo : Type 0 where
  sem_permissao_leitura removido_durante_leitura link_simbolico nao_regular erro_io : Motivo
  muitos_arquivos_abertos sem_permissao_diretorio erro_stat profundidade_maxima : Motivo
  outro_dispositivo hardlink_repetido : Motivo
  erro : ℕ → Motivo

pub Motivo-discrete : Discrete Motivo
Motivo-discrete = hlevel ℕ_discrete

-- `MOTIVOS_ERRNO.get(e.errno, "erro_" + ...)`.
unfoldable pub motivo_de : Errno → Motivo
motivo_de eacces = sem_permissao_leitura
motivo_de eperm = sem_permissao_leitura
motivo_de enoent = removido_durante_leitura
motivo_de eloop = link_simbolico
motivo_de enxio = nao_regular
motivo_de eisdir = nao_regular
motivo_de enotdir = nao_regular
motivo_de eio = erro_io
motivo_de emfile = muitos_arquivos_abertos
motivo_de enfile = muitos_arquivos_abertos
motivo_de (outro n) = erro n

-- The test on `e.errno` that `entrar` and the loop share.
unfoldable pub motivo_diretorio : Errno → Motivo
unfolding motivo_de
motivo_diretorio eacces = sem_permissao_diretorio
motivo_diretorio eperm = sem_permissao_diretorio
motivo_diretorio e = motivo_de e

-- What `lstat` says of a file.
pub record Stat : Type 0 where
  pub st_dev : ℕ
  pub st_ino : ℕ
  pub st_nlink : ℕ
  pub st_size : ℕ
  pub st_mtime_ns : ℕ

-- The tree as the scan meets it: entries by name, the five types of `listar_dir`, and directories
-- that cannot be opened (`denied`) or listed (`unlisted`).
mutual
  pub data Entry : Type 0 where
    link other fails : Entry
    file : Stat → Entry
    dir : ℕ → Dir → Entry

  pub data Dir : Type 0 where
    denied unlisted : Errno → Dir
    listed : Entries → Dir

  pub data Entries : Type 0 where
    end : Entries
    entry : Nome → Entry → Entries → Entries

-- The fields of `Arq` that the scan fills.
pub record Arq : Type 0 where
  pub i : ℕ
  pub did : ℕ
  pub nome : Nome
  pub tam : ℕ
  pub mtime : ℕ
  pub dev : ℕ
  pub ino : ℕ

pub record Ignorado : Type 0 where
  pub motivo : Motivo
  pub caminho : List Nome
  pub tam : Option ℕ

-- `Varredura`, with the set `vistos` and the number of descriptors that the scan holds open.
pub record Varredura : Type 0 where
  pub arquivos : List Arq
  pub dirs : List (ℕ × Nome)
  pub ignorados : Motivo → ℕ
  pub ign_lista : List Ignorado
  pub truncada : Bool
  pub nomes_invalidos : ℕ
  pub dirs_inacessiveis : ℕ
  pub vistos : List (ℕ × ℕ)
  pub abertos : ℕ

-- A frame of `pilha`: the directory, its depth, and the subdirectories that are still to be entered.
pub record Quadro : Type 0 where
  pub did : ℕ
  pub prof : ℕ
  pub subdirs : List (Nome × Dir)

-- `Varredura()`: the root has parent -1 in the source, which nothing reads; here 0.
abbrev pub inicial : Varredura
inicial = record {
  arquivos = [];
  dirs = (0, []) ∷ [];
  ignorados = λ m. 0;
  ign_lista = [];
  truncada = false;
  nomes_invalidos = 0;
  dirs_inacessiveis = 0;
  vistos = [];
  abertos = 0;
}

-- The loop of `caminho`; a parent stands before its child, so `did` rounds are enough.
pub caminho_loop : List (ℕ × Nome) → ℕ → ℕ → List Nome → List Nome
caminho_loop dirs zero did partes = partes
caminho_loop dirs (suc fuel) zero partes = partes
caminho_loop dirs (suc fuel) (suc did) partes = elim (get_elem? dirs (suc did)) [
  | none ↦ partes
  | some (pai, n) ↦ caminho_loop dirs fuel pai (n ∷ partes)
]

-- `v.caminho(did, nome)`, as the parts that the source joins by "/".
unfoldable pub caminho : List (ℕ × Nome) → ℕ → Nome → List Nome
unfolding caminho_loop
caminho dirs did nome = caminho_loop dirs did did [] ++ nome ∷ []

abbrev pub increment : Motivo → (Motivo → ℕ) → Motivo → ℕ
increment m c k = c k + ite (Motivo-discrete k m) 1 0

unfoldable pub ignorar : Motivo → ℕ → Nome → Option ℕ → Varredura → Varredura
ignorar m did nome tam v = record v {
  ignorados = increment m v.ignorados;
  ign_lista =
      v.ign_lista ++ record { motivo = m; caminho = caminho v.dirs did nome; tam = tam } ∷ [];
}

-- `chave in vistos`.
unfoldable pub visto : ℕ → ℕ → List (ℕ × ℕ) → Bool
visto dev ino [] = false
visto dev ino ((d, n) ∷ vs) = (d == dev && n == ino) || visto dev ino vs

-- The arguments of `varrer_arvore`, the device of the root, and the test behind
-- `nome.decode("utf-8")`.
pub record Opcoes : Type 0 where
  pub max_arquivos : ℕ
  pub prof_max : ℕ
  pub mesmo_dispositivo : Bool
  pub dev_raiz : ℕ
  pub utf8 : Nome → Bool

module _ (o : Opcoes) where
  -- `nome.decode("utf-8")` and the append.
  unfoldable pub juntar : ℕ → Nome → Stat → Varredura → Varredura
  juntar did nome st v = record v {
    nomes_invalidos = if o.utf8 nome then v.nomes_invalidos else suc v.nomes_invalidos;
    arquivos =
        v.arquivos
        ++ record {
          i = length v.arquivos;
          did = did;
          nome = nome;
          tam = st.st_size;
          mtime = st.st_mtime_ns;
          dev = st.st_dev;
          ino = st.st_ino;
        }
          ∷ [];
  }

  -- The branch of `entrar` for a regular file.
  unfoldable pub arquivo : ℕ → Nome → Stat → Varredura → Varredura
  unfolding juntar ignorar visto
  arquivo did nome st v =
      if not (o.max_arquivos == 0) && leb o.max_arquivos (length v.arquivos)
      then record v { truncada = true }
      else if ltb 1 st.st_nlink
      then (if visto st.st_dev st.st_ino v.vistos
          then ignorar hardlink_repetido did nome (some st.st_size) v
          else juntar did nome st (record v { vistos = (st.st_dev, st.st_ino) ∷ v.vistos }))
      else juntar did nome st v

  -- The branch of `entrar` for a directory.
  unfoldable pub subdiretorio :
      Nome → ℕ → Dir → ℕ → ℕ → List (Nome × Dir) → Varredura → List (Nome × Dir) × Varredura
  unfolding ignorar
  subdiretorio nome dev d did prof subs v =
      if ltb o.prof_max (prof + 1)
      then (subs, ignorar profundidade_maxima did nome none v)
      else if o.mesmo_dispositivo && not (dev == o.dev_raiz)
      then (subs, ignorar outro_dispositivo did nome none v)
      else (subs ++ (nome, d) ∷ [], v)

  -- `for nome, tipo, st in ents`, with the subdirectories so far.
  unfoldable pub entradas :
      Entries → ℕ → ℕ → List (Nome × Dir) → Varredura → List (Nome × Dir) × Varredura
  unfolding arquivo ignorar subdiretorio
  entradas end did prof subs v = (subs, v)
  entradas (entry nome link es) did prof subs v =
      entradas es did prof subs (ignorar link_simbolico did nome none v)
  entradas (entry nome other es) did prof subs v =
      entradas es did prof subs (ignorar nao_regular did nome none v)
  entradas (entry nome fails es) did prof subs v =
      entradas es did prof subs (ignorar erro_stat did nome none v)
  entradas (entry nome (file st) es) did prof subs v =
      entradas es did prof subs (arquivo did nome st v)
  entradas (entry nome (dir dev d) es) did prof subs v =
      let (subs', v') = subdiretorio nome dev d did prof subs v in entradas es did prof subs' v'

  -- The parent and the name of a directory that could not be listed.
  unfoldable pub ilegivel : Errno → ℕ → Varredura → Varredura
  unfolding ignorar motivo_diretorio
  ilegivel e did v =
      let v' = record v { dirs_inacessiveis = suc v.dirs_inacessiveis; abertos = v.abertos - 1 } in
      elim (get_elem? v.dirs did) [
        | none ↦ v'
        | some (pai, n) ↦ ignorar (motivo_diretorio e) pai n none v'
      ]

  -- `entrar(did, fd, prof)` on an open descriptor: it is closed at once if the listing fails, and
  -- goes to the stack with its frame otherwise.
  unfoldable pub entrar : Dir → ℕ → ℕ → List Quadro → Varredura → List Quadro × Varredura
  unfolding entradas ilegivel
  entrar (denied e) did prof pilha v = (pilha, ilegivel e did v)
  entrar (unlisted e) did prof pilha v = (pilha, ilegivel e did v)
  entrar (listed es) did prof pilha v =
      let (subs, v') = entradas es did prof [] v in
      (record { did = did; prof = prof; subdirs = subs } ∷ pilha, v')

  -- One round of `while pilha`: the next subdirectory of the frame on top, or its end.
  unfoldable pub passo :
      Quadro → List Quadro → List (Nome × Dir) → Varredura → List Quadro × Varredura
  unfolding entrar ignorar motivo_diretorio
  passo fr resto [] v = (resto, record v { abertos = v.abertos - 1 })
  passo fr resto ((nome, denied e) ∷ subs) v = (
    record fr { subdirs = subs } ∷ resto,
    ignorar (motivo_diretorio e) fr.did nome none
        (record v { dirs_inacessiveis = suc v.dirs_inacessiveis }),
  )
  passo fr resto ((nome, d) ∷ subs) v =
      entrar d (length v.dirs) (fr.prof + 1) (record fr { subdirs = subs } ∷ resto)
        (record v { dirs = v.dirs ++ (fr.did, nome) ∷ []; abertos = suc v.abertos })

  -- The loop; `none` means that the fuel ran out.
  unfoldable pub rodar : ℕ → List Quadro → Varredura → Option Varredura
  unfolding passo
  rodar zero pilha v = none
  rodar (suc fuel) [] v = some v
  rodar (suc fuel) (fr ∷ resto) v =
      let (pilha', v') = passo fr resto fr.subdirs v in rodar fuel pilha' v'

  unfoldable pub varrer_arvore : ℕ → Dir → Option Varredura
  unfolding rodar entrar
  varrer_arvore fuel raiz =
      let (pilha, v) = entrar raiz 0 0 [] (record inicial { abertos = 1 }) in rodar fuel pilha v
