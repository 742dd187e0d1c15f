-- ===== src/Perfil/Pedacos.antt =====
-- The bytes that `ler` and `janelas_arquivo` of bench/perfil_dataset.py return.
use engine_motor.Prelude.{
  ℕ, zero, suc, ◌+◌, ◌-◌, ◌/◌, ◌≡◌, ◌≤◌, ◌<◌, refl, sym, ap, ap₂, ◌∙◌, min, Bool, false, ◌&&◌, List,
  [], ◌∷◌, ◌++◌, length, take, drop, ltb, ltb→lt, if◌then◌else◌, if_case, Bool-cases, inl, inr,
  arith, length-append, length-drop, take-add, drop-drop, take_all,
}
use engine_motor.Perfil.Descritores.{
  Chamada, oserror, deu, Sistema, Resposta, ok, falha, excecao, indice, sem_rodadas, LeitorPerfil,
  chamar,
}
use engine_motor.Perfil.Leitura.{
  ◌>>=◌, Janelas, janela, parte_lida, ler_partes, ler_em, janelas_arquivo,
}

-- What `pread` gives of an open file with the bytes `b`: a part of what stands at the place, at most
-- as long as was asked for, and empty only at the end of the file.
pub record Lends (sis : Sistema) (fd : ℕ) (b : List ℕ) : Type 0 where
  pub part :
      (c n off : ℕ) (r : List ℕ)
      → sis.pread c fd n off ≡ deu r
      → (r ≡ take (length r) (drop off b)) × (length r ≤ n)
  pub end : (c n off : ℕ) → sis.pread c fd n off ≡ deu [] → 0 < n → length b ≤ off

-- A read returns: with a reason, or with bytes that satisfy `P`.
abbrev pub Gives : {A : Type 0} → (A → Type 0) → Resposta A × LeitorPerfil → Type 0
Gives P (ok x, s) = P x
Gives P (falha m, s) = Unit {0}
Gives P (excecao e, s) = ⊥
Gives P (indice, s) = ⊥
Gives P (sem_rodadas, s) = ⊥

Gives-bind :
    {A B : Type 0} (P : A → Type 0) (Q : B → Type 0) (r : Resposta A × LeitorPerfil)
    (f : A → LeitorPerfil → Resposta B × LeitorPerfil)
    → Gives P r
    → ((a : A) (s : LeitorPerfil) → P a → Gives Q (f a s))
    → Gives Q (r >>= f)
Gives-bind P Q (ok a, s) f h k = k a s h
Gives-bind P Q (falha m, s) f h k = tt
Gives-bind P Q (excecao e, s) f h k = h
Gives-bind P Q (indice, s) f h k = h
Gives-bind P Q (sem_rodadas, s) f h k = h

full : (m n : ℕ) → ltb m n ≡ false → m ≤ n → m ≡ n
full m n q h = ground arith

-- The windows of a file: its start, and for a large file that is classified whole, its middle and its
-- end behind that.
abbrev pub Windows : List ℕ → ℕ → Bool → Janelas → Type 0
Windows b tam completa j =
    (j.head ≡ take (min tam (janela completa)) b)
    × (j.amostra ≡ (
        if completa && ltb 1048576 tam
        then j.head
          ++ (take (janela completa) (drop ((tam - janela completa) / 2) b)
              ++ take (janela completa) (drop (tam - janela completa) b))
        else j.head))
    × (j.lido ≡ length j.amostra)

module _ (sis : Sistema) (fd : ℕ) (b : List ℕ) (lends : Lends sis fd b) where
  -- What was read is the start of what was asked for.
  record IsStart (off n : ℕ) (feito : List ℕ) : Type 0 where
    start : feito ≡ take (length feito) (drop off b)
    within : length feito ≤ n

  complete :
      (off n : ℕ) (feito : List ℕ)
      → IsStart off n feito
      → length b ≤ off + length feito
      → feito ≡ take n (drop off b)
  complete off n feito h l =
      h.start
      ∙ take_all (length feito) (drop off b) (omega (arith, length-drop off b))
      ∙ sym (take_all n (drop off b) (omega (arith, length-drop off b, h.within)))

  more-IsStart :
      (off n : ℕ) (feito r : List ℕ)
      → IsStart off n feito
      → r ≡ take (length r) (drop (off + length feito) b)
      → length r ≤ n - length feito
      → IsStart off n (feito ++ r)
  more-IsStart off n feito r h e l = record {
    start = rw (length-append feito r) (
        ap₂ ◌++◌ h.start (e ∙ ap (λ t. take (length r) t) (sym (drop-drop (length feito) off b)))
        ∙ take-add (length feito) (length r) (drop off b));
    within = omega (arith, length-append feito r, h.within);
  }

  parte_lida-Gives :
      (k off n : ℕ) (feito : List ℕ) (o : Chamada (List ℕ)) (s : LeitorPerfil) (c : ℕ)
      → sis.pread c fd (n - length feito) (off + length feito) ≡ o
      → length feito < n
      → IsStart off n feito
      → ((more : List ℕ) (s' : LeitorPerfil)
          → length feito < length more
          → IsStart off n more
          → Gives (λ x. x ≡ take n (drop off b)) (ler_partes sis k fd off n more s'))
      → Gives (λ x. x ≡ take n (drop off b)) (parte_lida sis (ler_partes sis k fd off n) feito o s)
  unfolding parte_lida
  parte_lida-Gives k off n feito (oserror e) s c q l h ih = tt
  parte_lida-Gives k off n feito (deu []) s c q l h ih =
      complete off n feito h (lends.end c (n - length feito) (off + length feito) q (omega arith))
  parte_lida-Gives k off n feito (deu (x ∷ xs)) s c q l h ih =
      let (e, m) = lends.part c (n - length feito) (off + length feito) (x ∷ xs) q in
      ih (feito ++ x ∷ xs) s (omega (arith, length-append feito (x ∷ xs)))
        (more-IsStart off n feito (x ∷ xs) h e m)

  ler_partes-Gives :
      (k off n : ℕ) (feito : List ℕ) (s : LeitorPerfil)
      → n - length feito < k
      → IsStart off n feito
      → Gives (λ x. x ≡ take n (drop off b)) (ler_partes sis k fd off n feito s)
  unfolding ler_partes
  ler_partes-Gives zero off n feito s m h = absurd (omega arith)
  ler_partes-Gives (suc k) off n feito s m h =
      if_case (Gives (λ x. x ≡ take n (drop off b))) (ltb (length feito) n) _ _
        (λ q.
          parte_lida-Gives k off n feito _ (chamar s) s.chamadas refl (ltb→lt (length feito) n q) h
            (λ more s' g i.
              ler_partes-Gives k off n more s' (omega (arith, ltb→lt (length feito) n q)) i))
        (λ q. h.start ∙ ap (λ t. take t (drop off b)) (full (length feito) n q h.within))

  ler_em-Gives :
      (off n : ℕ) (s : LeitorPerfil) → Gives (λ x. x ≡ take n (drop off b)) (ler_em sis fd off n s)
  unfolding ler_em
  ler_em-Gives off n s =
      ler_partes-Gives (suc n) off n [] s (omega arith)
        (record { start = refl; within = omega arith })

  -- For every way in which `pread` cuts a read of an open file short, `janelas_arquivo` gives up with a
  -- reason or returns the start of the file and, for a large file that is classified whole, its middle
  -- and its end behind that, with the number of their bytes.
  pub janelas_arquivo-Windows :
      (tam : ℕ) (completa : Bool) (s : LeitorPerfil)
      → Gives (Windows b tam completa) (janelas_arquivo sis fd tam completa s)
  unfolding janelas_arquivo
  janelas_arquivo-Windows tam completa s =
      let jan = janela completa in
      Gives-bind (λ x. x ≡ take (min tam jan) b) (Windows b tam completa) _ _
        (ler_em-Gives 0 (min tam jan) s)
        (λ head s1 u. elim (Bool-cases (completa && ltb 1048576 tam)) [
          | inl q ↦ rw q (
              Gives-bind (λ x. x ≡ take jan (drop ((tam - jan) / 2) b)) (Windows b tam completa) _ _
                (ler_em-Gives ((tam - jan) / 2) jan s1)
                (λ meio s2 v.
                  Gives-bind (λ x. x ≡ take jan (drop (tam - jan) b)) (Windows b tam completa) _ _
                    (ler_em-Gives (tam - jan) jan s2)
                    (λ fim s3 w. (
                      u,
                      rw (q, v, w) refl,
                      omega (arith, length-append head (meio ++ fim), length-append meio fim),
                    ))))
          | inr q ↦ rw q (u, rw q refl, refl)
        ])
