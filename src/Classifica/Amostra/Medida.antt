-- ===== src/Classifica/Amostra/Medida.antt =====
-- The Boolean tests of `classificar_amostra` in bench/perfil_dataset.py as bounds.
use engine_motor.Prelude.{
  subst, sym, [], ◌∷◌, take, ℕ, ◌*◌, ◌-◌, ◌≤◌, ◌<◌, ◌⊎◌, inl, inr, ◌≡◌, Bool, true, false, ◌&&◌,
  ◌||◌, both, List, length, ltb, leb, leb→le, ltb→lt, ◌==◌, arith,
}
use engine_motor.Prelude.Texts.{count_byte, member, same, same_sound}
use engine_motor.Classifica.Amostra.{Medidas, imprimiveis, altos, densa, e_texto, aleatoria, utf16}
use engine_motor.Classifica.Amostra.Bytes.{
  quantos, printable, high, imprimiveis-quantos, altos-quantos,
}
use engine_motor.Classifica.Amostra.Sentido.{
  IsDense, IsPrintable, IsPrintableTar, IsText, IsUtf16, IsNoise,
}

below : (a b : ℕ) → leb a b ≡ false → a ≤ b → ⊥
below a b e h = ground arith

or_cases : (a b : Bool) → (a || b) ≡ true → (a ≡ true) ⊎ (b ≡ true)
or_cases a b h = ground arith

printable_false : (n k : ℕ) → (ltb 0 n && leb (88 * n) k) ≡ false → (0 < n) × (88 * n ≤ k) → ⊥
printable_false n k e h = let a = h.0 in let b = h.1 in ground arith

tar_true : (n k : ℕ) → (n == 0 || ltb k (95 * n)) ≡ true → (0 < n) × (95 * n ≤ k) → ⊥
tar_true n k e h = let a = h.0 in let b = h.1 in ground arith

tar_positive : (n k : ℕ) → (n == 0 || ltb k (95 * n)) ≡ false → 0 < n
tar_positive n k e = ground arith

tar_enough : (n k : ℕ) → (n == 0 || ltb k (95 * n)) ≡ false → 95 * n ≤ k
tar_enough n k e = ground arith

module _ (m : Medidas) (head amostra ext : List ℕ) where
  pub densa-IsDense : densa m amostra ≡ true → IsDense m head amostra ext
  unfolding densa
  densa-IsDense h = leb→le (73 * m.bit) (10 * m.corrigida amostra) h

  pub densa-false : densa m amostra ≡ false → IsDense m head amostra ext → ⊥
  unfolding densa
  densa-false h = below (73 * m.bit) (10 * m.corrigida amostra) h

  pub many_printable :
      (ltb 0 (length amostra) && leb (88 * length amostra) (100 * imprimiveis amostra)) ≡ true
      → IsPrintable m head amostra ext
  many_printable h =
      let (a, b) =
        both (ltb 0 (length amostra)) (leb (88 * length amostra) (100 * imprimiveis amostra)) h in
      (
        ltb→lt 0 (length amostra) a,
        subst (λ k. 88 * length amostra ≤ 100 * k) (imprimiveis-quantos amostra)
            (leb→le (88 * length amostra) (100 * imprimiveis amostra) b),
      )

  pub few_printable :
      (ltb 0 (length amostra) && leb (88 * length amostra) (100 * imprimiveis amostra)) ≡ false
      → IsPrintable m head amostra ext
      → ⊥
  few_printable h p =
      printable_false (length amostra) (100 * imprimiveis amostra) h
        (p.0, subst (λ k. 88 * length amostra ≤ 100 * k) (sym (imprimiveis-quantos amostra)) p.1)

  pub few_in_tar :
      (length amostra - count_byte 0 amostra == 0
          || ltb (100 * imprimiveis amostra) (95 * (length amostra - count_byte 0 amostra)))
        ≡ true
      → IsPrintableTar m head amostra ext
      → ⊥
  few_in_tar h p =
      let n = length amostra - count_byte 0 amostra in
      tar_true n (100 * imprimiveis amostra) h
        (p.0, subst (λ k. 95 * n ≤ 100 * k) (sym (imprimiveis-quantos amostra)) p.1)

  pub many_in_tar :
      (length amostra - count_byte 0 amostra == 0
          || ltb (100 * imprimiveis amostra) (95 * (length amostra - count_byte 0 amostra)))
        ≡ false
      → IsPrintableTar m head amostra ext
  many_in_tar h = (
    tar_positive (length amostra - count_byte 0 amostra) (100 * imprimiveis amostra) h,
    subst (λ k. 95 * (length amostra - count_byte 0 amostra) ≤ 100 * k)
        (imprimiveis-quantos amostra)
        (tar_enough (length amostra - count_byte 0 amostra) (100 * imprimiveis amostra) h),
  )

  pub aleatoria-IsNoise : aleatoria m amostra ≡ true → IsNoise m head amostra ext
  unfolding aleatoria
  aleatoria-IsNoise h =
      let (a, b) =
        both (leb 1024 (length amostra)) (leb (79 * m.bit) (10 * m.corrigida amostra)) h in
      (leb→le 1024 (length amostra) a, leb→le (79 * m.bit) (10 * m.corrigida amostra) b)

  pub utf16-IsUtf16 : utf16 m head amostra ≡ true → IsUtf16 m head amostra ext
  unfolding utf16
  utf16-IsUtf16 h =
      let nn = length amostra - count_byte 0 amostra in
      let (a, b) =
        both (member (take 2 head) ((0xff ∷ 0xfe ∷ []) ∷ (0xfe ∷ 0xff ∷ []) ∷ []))
          (ltb (95 * nn) (100 * imprimiveis amostra)) h in
      (
        mark a,
        subst (λ k. 95 * nn < 100 * k) (imprimiveis-quantos amostra)
            (ltb→lt (95 * nn) (100 * imprimiveis amostra) b),
      )
    where
      mark :
          member (take 2 head) ((0xff ∷ 0xfe ∷ []) ∷ (0xfe ∷ 0xff ∷ []) ∷ []) ≡ true
          → (take 2 head ≡ 0xff ∷ 0xfe ∷ []) ⊎ (take 2 head ≡ 0xfe ∷ 0xff ∷ [])
      mark a = elim (or_cases (same (take 2 head) (0xff ∷ 0xfe ∷ [])) _ a) [
        | inl e ↦ inl (same_sound (take 2 head) (0xff ∷ 0xfe ∷ []) e)
        | inr e ↦ elim (or_cases (same (take 2 head) (0xfe ∷ 0xff ∷ [])) false e) [
          | inl g ↦ inr (same_sound (take 2 head) (0xfe ∷ 0xff ∷ []) g)
          | inr g ↦ cc
        ]
      ]

  pub e_texto-IsText : e_texto m head amostra ≡ true → IsText m head amostra ext
  unfolding e_texto
  e_texto-IsText h =
      let n = length amostra in
      let (p, q) =
        both (ltb 0 n && leb (88 * n) (100 * imprimiveis amostra))
          (ltb (100 * count_byte 0 amostra) n
            && (ltb (m.corrigida amostra) (7 * m.bit)
                && (leb (100 * altos amostra) (30 * n) || m.utf8_valido head)))
          h in
      let (z, r) =
        both (ltb (100 * count_byte 0 amostra) n)
          (ltb (m.corrigida amostra) (7 * m.bit)
            && (leb (100 * altos amostra) (30 * n) || m.utf8_valido head))
          q in
      let (l, u) =
        both (ltb (m.corrigida amostra) (7 * m.bit))
          (leb (100 * altos amostra) (30 * n) || m.utf8_valido head) r in
      (
        many_printable p,
        ltb→lt (100 * count_byte 0 amostra) n z,
        ltb→lt (m.corrigida amostra) (7 * m.bit) l,
        few u,
      )
    where
      few :
          (leb (100 * altos amostra) (30 * length amostra) || m.utf8_valido head) ≡ true
          → (100 * quantos high amostra ≤ 30 * length amostra) ⊎ (m.utf8_valido head ≡ true)
      few u =
          elim (or_cases (leb (100 * altos amostra) (30 * length amostra)) (m.utf8_valido head) u) [
            | inl a ↦ inl (
                subst (λ k. 100 * k ≤ 30 * length amostra) (altos-quantos amostra)
                  (leb→le (100 * altos amostra) (30 * length amostra) a))
            | inr b ↦ inr b
          ]

  pub e_texto-false : e_texto m head amostra ≡ false → IsText m head amostra ext → ⊥
  unfolding e_texto
  e_texto-false h t =
      refused (length amostra) (quantos printable amostra) (count_byte 0 amostra)
        (m.corrigida amostra) (7 * m.bit) (quantos high amostra) (m.utf8_valido head)
        (rw (imprimiveis-quantos amostra, altos-quantos amostra) at h) t.0.0 t.0.1 t.1 t.2 t.3
    where
      refused :
          (n i z c b a : ℕ) (u : Bool)
          → ((ltb 0 n && leb (88 * n) (100 * i))
              && (ltb (100 * z) n && (ltb c b && (leb (100 * a) (30 * n) || u))))
            ≡ false
          → 0 < n
          → 88 * n ≤ 100 * i
          → 100 * z < n
          → c < b
          → (100 * a ≤ 30 * n) ⊎ (u ≡ true)
          → ⊥
      refused n i z c b a u e p q r s (inl t) = ground arith
      refused n i z c b a u e p q r s (inr t) = ground arith
