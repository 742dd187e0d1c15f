-- ===== src/Perfil/Conclusao.antt =====
-- The reads and the results of `tarefa_classificar` in bench/perfil_dataset.py.
use engine_motor.Prelude.{
  ℕ, zero, suc, ◌-◌, ◌/◌, ◌≡◌, ◌<◌, refl, ap₂, ◌∙◌, Bool, ◌&&◌, Option, none, some, List, [], ◌∷◌,
  ◌++◌, length, length-append, map, min, get_elem?, ltb, ◌==◌, arith, if_case,
}
use engine_motor.Prelude.{ltb→lt}
use engine_motor.Scan.{Nome, Arq}
use engine_motor.Classifica.Amostra.{Medidas}
use engine_motor.Perfil.Descritores.{
  Chamada, oserror, deu, Sistema, EstadoArq, Resposta, ok, falha, excecao, indice, sem_rodadas,
  LeitorPerfil, chamar, fechar_fd,
}
use engine_motor.Perfil.Contagem.{conta, IsTidy}
use engine_motor.Perfil.Leitura.{
  ◌>>=◌, Janelas, janela, parte_lida, ler_partes, ler_em, janelas_arquivo,
}
use engine_motor.Perfil.Tarefa.{Saida, lida, classificar_aberto, classificar_um, tarefa_classificar}
use engine_motor.Perfil.Fecho.{Leaks, Checked, fechar_fd-IsTidy, abrir-Checked}

-- A step that leaves the cache and the open descriptors as they are.

abbrev Unmoved : LeitorPerfil → LeitorPerfil → Type 0
Unmoved s s' = (s'.cache ≡ s.cache) × (s'.abertos ≡ s.abertos)

-- Reads fail with a reason or give a value.
abbrev Quiet : {A : Type 0} → LeitorPerfil → Resposta A × LeitorPerfil → Type 0
Quiet s (ok x, s') = Unmoved s s'
Quiet s (falha m, s') = Unmoved s s'
Quiet s (excecao e, s') = ⊥
Quiet s (indice, s') = ⊥
Quiet s (sem_rodadas, s') = ⊥

Quiet-bind :
    {A B : Type 0} (s : LeitorPerfil) (r : Resposta A × LeitorPerfil)
    (f : A → LeitorPerfil → Resposta B × LeitorPerfil)
    → Quiet s r
    → ((a : A) (s' : LeitorPerfil) → Unmoved s s' → Quiet s (f a s'))
    → Quiet s (r >>= f)
Quiet-bind s (ok a, s') f h k = k a s' h
Quiet-bind s (falha m, s') f h k = h
Quiet-bind s (excecao e, s') f h k = h
Quiet-bind s (indice, s') f h k = h
Quiet-bind s (sem_rodadas, s') f h k = h

Quiet-later :
    {A : Type 0} (s s' : LeitorPerfil) (r : Resposta A × LeitorPerfil)
    → Unmoved s s'
    → Quiet s' r
    → Quiet s r
Quiet-later s s' (ok a, t) u q = (q.0 ∙ u.0, q.1 ∙ u.1)
Quiet-later s s' (falha m, t) u q = (q.0 ∙ u.0, q.1 ∙ u.1)
Quiet-later s s' (excecao e, t) u q = q
Quiet-later s s' (indice, t) u q = q
Quiet-later s s' (sem_rodadas, t) u q = q

module _ (sis : Sistema) where
  parte_lida-Quiet :
      (k fd off n : ℕ) (feito : List ℕ) (o : Chamada (List ℕ)) (s : LeitorPerfil)
      → ((more : List ℕ) (s' : LeitorPerfil)
          → length feito < length more
          → Quiet s' (ler_partes sis k fd off n more s'))
      → Quiet s (parte_lida sis (ler_partes sis k fd off n) feito o s)
  unfolding parte_lida
  parte_lida-Quiet k fd off n feito (oserror e) s h = (refl, refl)
  parte_lida-Quiet k fd off n feito (deu []) s h = (refl, refl)
  parte_lida-Quiet k fd off n feito (deu (b ∷ bs)) s h =
      h (feito ++ b ∷ bs) s (omega (arith, length-append feito (b ∷ bs)))

  ler_partes-Quiet :
      (k fd off n : ℕ) (feito : List ℕ) (s : LeitorPerfil)
      → n - length feito < k
      → Quiet s (ler_partes sis k fd off n feito s)
  unfolding ler_partes
  ler_partes-Quiet zero fd off n feito s h = absurd (omega arith)
  ler_partes-Quiet (suc k) fd off n feito s h =
      if_case (Quiet s) (ltb (length feito) n) _ (ok feito, s)
        (λ q.
          Quiet-later s (chamar s) _ (refl, refl)
            (parte_lida-Quiet k fd off n feito _ (chamar s) (λ more s' l.
              ler_partes-Quiet k fd off n more s' (omega (arith, ltb→lt (length feito) n q)))))
        (λ q. (refl, refl))

  ler_em-Quiet : (fd off n : ℕ) (s : LeitorPerfil) → Quiet s (ler_em sis fd off n s)
  unfolding ler_em
  ler_em-Quiet fd off n s = ler_partes-Quiet (suc n) fd off n [] s (omega arith)

  janelas_arquivo-Quiet :
      (fd tam : ℕ) (completa : Bool) (s : LeitorPerfil)
      → Quiet s (janelas_arquivo sis fd tam completa s)
  unfolding janelas_arquivo
  janelas_arquivo-Quiet fd tam completa s =
      let jan = janela completa in
      Quiet-bind s _ _ (ler_em-Quiet fd 0 (min tam jan) s) (λ head s1 u. Quiet-later s s1 _ u (
        if_case (Quiet s1) (completa && ltb 1048576 tam) _ _
          (λ q. Quiet-bind s1 _ _ (ler_em-Quiet fd ((tam - jan) / 2) jan s1) (λ b s2 v.
            Quiet-later s1 s2 _ v
              (Quiet-bind s2 _ _ (ler_em-Quiet fd (tam - jan) jan s2) (λ c s3 w. w))))
          (λ q. (refl, refl))))

-- Behind a task: the reader as tidy as it was, and an answer unless an index is out of range; or the
-- `OSError` of `fstat`, with its file left open.
abbrev pub Done :
    {A : Type 0} → Sistema → List ℕ → (A → Type 0) → Resposta A × LeitorPerfil → Type 0
Done sis base P (ok x, s) = IsTidy base s × P x
Done sis base P (falha m, s) = ⊥
Done sis base P (excecao e, s) = Leaks base sis e s
Done sis base P (indice, s) = IsTidy base s
Done sis base P (sem_rodadas, s) = ⊥

module _ (base : List ℕ) where
  Unmoved-IsTidy : (s s' : LeitorPerfil) → Unmoved s s' → IsTidy base s → IsTidy base s'
  Unmoved-IsTidy s s' u h = record { few = rw u.0 h.few; tally = λ x. rw (u.0, u.1) (h.tally x) }

module _ (m : Medidas) (nome_de : Nome → List ℕ) (sis : Sistema) (raiz_fd : ℕ)
    (dirs : List (ℕ × Nome)) (arqs : List Arq) (completa : Bool) (base : List ℕ) where
  por_fim-Done :
      (i fd : ℕ) (a : Arq) (st : EstadoArq) (s : LeitorPerfil) (r : Resposta Janelas × LeitorPerfil)
      → IsTidy (fd ∷ base) s
      → Quiet s r
      → Done sis base
          (λ x. x.i ≡ i)
          (
            (lida m nome_de sis raiz_fd dirs arqs completa i a st r).0,
            fechar_fd fd (lida m nome_de sis raiz_fd dirs arqs completa i a st r).1,
          )
  unfolding lida
  por_fim-Done i fd a st s (ok j, s') h q =
      (fechar_fd-IsTidy base fd s' (Unmoved-IsTidy (fd ∷ base) s s' q h), refl)
  por_fim-Done i fd a st s (falha f, s') h q =
      (fechar_fd-IsTidy base fd s' (Unmoved-IsTidy (fd ∷ base) s s' q h), refl)
  por_fim-Done i fd a st s (excecao e, s') h q = absurd q
  por_fim-Done i fd a st s (indice, s') h q = absurd q
  por_fim-Done i fd a st s (sem_rodadas, s') h q = q

  classificar_aberto-Done :
      (i : ℕ) (a : Arq) (r : Resposta (ℕ × EstadoArq) × LeitorPerfil)
      → Checked base sis a r
      → Done sis base
          (λ x. x.i ≡ i)
          (classificar_aberto m nome_de sis raiz_fd dirs arqs completa i a r)
  unfolding classificar_aberto
  classificar_aberto-Done i a (ok (fd, st), s) h =
      por_fim-Done i fd a st s (janelas_arquivo sis fd st.st_size completa s) h.0
        (janelas_arquivo-Quiet sis fd st.st_size completa s)
  classificar_aberto-Done i a (falha f, s) h = (h, refl)
  classificar_aberto-Done i a (excecao e, s) h = h
  classificar_aberto-Done i a (indice, s) h = h
  classificar_aberto-Done i a (sem_rodadas, s) h = h

  module _
      (behind : (k pai : ℕ) (nome : Nome) → 0 < k → get_elem? dirs k ≡ some (pai, nome) → pai < k)
      (root_open : 0 < conta raiz_fd base) where
    classificar_um-Done :
        (i : ℕ) (o : Option Arq) (s : LeitorPerfil)
        → IsTidy base s
        → Done sis base
            (λ x. x.i ≡ i)
            (classificar_um m nome_de sis raiz_fd dirs arqs completa i o s)
    unfolding classificar_um
    classificar_um-Done i none s h = h
    classificar_um-Done i (some a) s h =
        if_case (Done sis base (λ x. x.i ≡ i)) (a.tam == 0) _ _ (λ q. (h, refl))
          (λ q.
            classificar_aberto-Done i a _
              (abrir-Checked base sis raiz_fd dirs behind root_open a s h))

    seguinte-Done :
        (i : ℕ) (lote : List ℕ) (r : Resposta Saida × LeitorPerfil)
        → Done sis base (λ x. x.i ≡ i) r
        → ((s : LeitorPerfil)
            → IsTidy base s
            → Done sis base
                (λ xs. map (λ x. x.i) xs ≡ lote)
                (tarefa_classificar m nome_de sis raiz_fd dirs arqs completa lote s))
        → Done sis base
            (λ xs. map (λ x. x.i) xs ≡ i ∷ lote)
            (r >>= λ x s1.
              (tarefa_classificar m nome_de sis raiz_fd dirs arqs completa lote s1 >>= λ xs s2.
              (ok (x ∷ xs), s2)))
    seguinte-Done i lote (ok x, s) h k =
        ended (tarefa_classificar m nome_de sis raiz_fd dirs arqs completa lote s) (k s h.0)
      where
        ended :
            (r : Resposta (List Saida) × LeitorPerfil)
            → Done sis base (λ xs. map (λ y. y.i) xs ≡ lote) r
            → Done sis base (λ xs. map (λ y. y.i) xs ≡ i ∷ lote) (r >>= λ xs s2. (ok (x ∷ xs), s2))
        ended (ok xs, t) d = (d.0, ap₂ ◌∷◌ h.1 d.1)
        ended (falha f, t) d = d
        ended (excecao e, t) d = d
        ended (indice, t) d = d
        ended (sem_rodadas, t) d = d
    seguinte-Done i lote (falha f, s) h k = h
    seguinte-Done i lote (excecao e, s) h k = h
    seguinte-Done i lote (indice, s) h k = h
    seguinte-Done i lote (sem_rodadas, s) h k = h

    -- Where every parent stands before its directory, the root is open, the reader holds what its cache
    -- says and no close fails, the task ends on every answer of the system. Either the descriptors of
    -- files are closed, all others that it opened are those of the cache, which has 48 at most, and
    -- there is one result for each index, in the order of the batch, or an index was out of range; or
    -- `fstat` failed, the task raises its `OSError`, and exactly the file that it was asked of is still
    -- open besides.
    pub tarefa_classificar-Done :
        (lote : List ℕ) (s : LeitorPerfil)
        → IsTidy base s
        → Done sis base
            (λ xs. map (λ x. x.i) xs ≡ lote)
            (tarefa_classificar m nome_de sis raiz_fd dirs arqs completa lote s)
    unfolding tarefa_classificar
    tarefa_classificar-Done [] s h = (h, refl)
    tarefa_classificar-Done (i ∷ lote) s h =
        seguinte-Done i lote
          (classificar_um m nome_de sis raiz_fd dirs arqs completa i (get_elem? arqs i) s)
          (classificar_um-Done i (get_elem? arqs i) s h) (tarefa_classificar-Done lote)
