-- ===== src/Perfil/Fecho.antt =====
-- What `abrir` and `tarefa_classificar` of bench/perfil_dataset.py leave open.
use engine_motor.Prelude.{
  ℕ, suc, ◌-◌, ◌≡◌, ◌<◌, refl, true, not, ◌||◌, some, List, [], ◌∷◌, get_elem?, ◌==◌, arith,
  if_case,
}
use engine_motor.Scan.{Nome, Arq, Errno}
use engine_motor.Perfil.Descritores.{
  Chamada, oserror, deu, Sistema, EstadoArq, Resposta, ok, falha, excecao, indice, sem_rodadas,
  LeitorPerfil, chamar, fechar_fd, fd_dir, arq_aberto, e_eperm, abrir_primeiro, conferido, conferir,
  abrir_em, abrir, fechar_todos, fechar_tudo,
}
use engine_motor.Perfil.Contagem.{conta, valores, conta-append, conta-remover, IsTidy, Volta}
use engine_motor.Perfil.Volta.{fd_dir-Volta}

module _ (base : List ℕ) where
  -- Behind `open`: one more descriptor, or a failure.
  abbrev Opened : Resposta ℕ × LeitorPerfil → Type 0
  Opened (ok fd, s) = IsTidy (fd ∷ base) s
  Opened (falha m, s) = IsTidy base s
  Opened (excecao e, s) = ⊥
  Opened (indice, s) = IsTidy base s
  Opened (sem_rodadas, s) = ⊥

  pub fechar_fd-IsTidy :
      (fd : ℕ) (s : LeitorPerfil) → IsTidy (fd ∷ base) s → IsTidy base (fechar_fd fd s)
  unfolding fechar_fd
  fechar_fd-IsTidy fd s h = record {
    few = h.few;
    tally = λ x. omega (arith, h.tally x, conta-remover x fd s.abertos);
  }

  arq_aberto-Opened : (o : Chamada ℕ) (s : LeitorPerfil) → IsTidy base s → Opened (arq_aberto o s)
  unfolding arq_aberto
  arq_aberto-Opened (oserror e) s h = h
  arq_aberto-Opened (deu fd) s h = record {
    few = h.few;
    tally = λ x. omega (arith, h.tally x, conta-append x s.abertos (fd ∷ []));
  }

  module _ (sis : Sistema) where
    -- An `OSError` of `fstat`: its file stays open.
    abbrev pub Leaks : Errno → LeitorPerfil → Type 0
    Leaks e s = (fd : ℕ) × IsTidy (fd ∷ base) s × ((c : ℕ) × (sis.fstat c fd ≡ oserror e))

    -- Behind `abrir`, which returns the file that the scan saw.
    abbrev pub Checked : Arq → Resposta (ℕ × EstadoArq) × LeitorPerfil → Type 0
    Checked a (ok (fd, st), s) =
        IsTidy (fd ∷ base) s × (st.e_regular ≡ true) × (st.st_dev ≡ a.dev) × (st.st_ino ≡ a.ino)
    Checked a (falha m, s) = IsTidy base s
    Checked a (excecao e, s) = Leaks e s
    Checked a (indice, s) = IsTidy base s
    Checked a (sem_rodadas, s) = ⊥

  module _ (sis : Sistema) (raiz_fd : ℕ) (dirs : List (ℕ × Nome)) where
    abrir_primeiro-Opened :
        (o : Chamada ℕ) (fdd : ℕ) (nome : Nome) (s : LeitorPerfil)
        → IsTidy base s
        → Opened (abrir_primeiro sis raiz_fd dirs o fdd nome s)
    unfolding abrir_primeiro
    abrir_primeiro-Opened (deu fd) fdd nome s h = arq_aberto-Opened (deu fd) s h
    abrir_primeiro-Opened (oserror e) fdd nome s h =
        if_case Opened (not (e_eperm e) || not sis.noatime) _ _
          (λ q. arq_aberto-Opened (oserror e) s h)
          (λ q. arq_aberto-Opened _ _ (record { few = h.few; tally = h.tally }))

    conferido-Checked :
        (a : Arq) (fd c : ℕ) (o : Chamada EstadoArq) (s : LeitorPerfil)
        → sis.fstat c fd ≡ o
        → IsTidy (fd ∷ base) s
        → Checked sis a (conferido sis raiz_fd dirs a fd o s)
    unfolding conferido
    conferido-Checked a fd c (oserror e) s q h = (fd, h, (c, q))
    conferido-Checked a fd c (deu st) s q h =
        if_case (Checked sis a) (not st.e_regular) _ _ (λ p. fechar_fd-IsTidy fd s h)
          (λ p.
            if_case (Checked sis a) (not (st.st_dev == a.dev) || not (st.st_ino == a.ino)) _ _
              (λ d. fechar_fd-IsTidy fd s h) (λ d. (h, ground arith, ground arith, ground arith)))

    conferir-Checked :
        (a : Arq) (r : Resposta ℕ × LeitorPerfil)
        → Opened r
        → Checked sis a (conferir sis raiz_fd dirs a r)
    unfolding conferir
    conferir-Checked a (ok fd, s) h =
        conferido-Checked a fd s.chamadas (sis.fstat s.chamadas fd) (chamar s) refl
          (record { few = h.few; tally = h.tally })
    conferir-Checked a (falha m, s) h = h
    conferir-Checked a (excecao e, s) h = absurd h
    conferir-Checked a (indice, s) h = h
    conferir-Checked a (sem_rodadas, s) h = h

    module _
        (behind : (k pai : ℕ) (nome : Nome) → 0 < k → get_elem? dirs k ≡ some (pai, nome) → pai < k)
        (root_open : 0 < conta raiz_fd base) where
      abrir_em-Checked :
          (a : Arq) (s : LeitorPerfil) (r : Resposta ℕ × LeitorPerfil)
          → Volta base a.did s r.0 r.1
          → Checked sis a (abrir_em sis raiz_fd dirs a r)
      unfolding abrir_em
      abrir_em-Checked a s (ok fdd, s') v = conferir-Checked a _ (
          abrir_primeiro-Opened _ fdd a.nome (chamar s')
            (record { few = v.tidy.few; tally = v.tidy.tally }))
      abrir_em-Checked a s (falha m, s') v = v.tidy
      abrir_em-Checked a s (excecao e, s') v = absurd (v.calm e refl)
      abrir_em-Checked a s (indice, s') v = v.tidy
      abrir_em-Checked a s (sem_rodadas, s') v = v.ends refl

      -- `abrir` returns with one descriptor more than before, of a regular file with the device and the
      -- inode of the scan, or with no descriptor more, unless `fstat` fails.
      pub abrir-Checked :
          (a : Arq) (s : LeitorPerfil) → IsTidy base s → Checked sis a (abrir sis raiz_fd dirs a s)
      unfolding abrir
      abrir-Checked a s h =
          abrir_em-Checked a s (fd_dir sis raiz_fd dirs (suc a.did) a.did s) (
            fd_dir-Volta base sis raiz_fd dirs behind root_open (suc a.did) a.did s (omega arith) h)

module _ (base : List ℕ) where
  fechar_todos-tally :
      (c : List (ℕ × ℕ)) (s : LeitorPerfil) (x : ℕ)
      → conta x (fechar_todos c s).abertos ≡ conta x s.abertos - conta x (valores c)
  unfolding fechar_todos fechar_fd
  fechar_todos-tally [] s x = omega arith
  fechar_todos-tally ((k, fd) ∷ c) s x =
      omega (arith, fechar_todos-tally c (fechar_fd fd s) x, conta-remover x fd s.abertos)

  -- `fechar_tudo` leaves open what was open before the reader, and an empty cache.
  pub fechar_tudo-conta :
      (s : LeitorPerfil) (x : ℕ)
      → IsTidy base s
      → (conta x (fechar_tudo s).abertos ≡ conta x base) × ((fechar_tudo s).cache ≡ [])
  unfolding fechar_tudo
  fechar_tudo-conta s x h = (omega (arith, fechar_todos-tally s.cache s x, h.tally x), refl)
