-- ===== src/Transform/Delta.antt =====
-- `delta_apply` and `delta_invert` of bench/plano_bloco.py.
use native.Mathlib.Nat.{mod-lt, mod-eq_of_lt, div-mul-le_self, one-le-pow}
use engine_motor.Prelude.{
  ℕ, suc, ◌+◌, ◌-◌, ◌*◌, ◌/◌, ◌%◌, ◌^◌, ◌≤◌, ◌<◌, ◌≡◌, refl, ap, ◌∙◌, inl, inr, List, [], ◌∷◌, ◌++◌,
  arith, length, drop, All, take-append-drop, length-splice, drop-splice, ◌==◌, false, Bool-cases,
}
use engine_motor.Bytes.{IsByte, words, bytes_of}
use engine_motor.Bytes.Words.{
  length-words, length-bytes_of, bytes_of-words, words-bytes_of, words-lt,
}
use engine_motor.Transform.{differences, delta_words, cumsum, delta_apply, delta_invert}

-- Adding the previous word back undoes the subtraction, across the wrap.
wrap_undo : (m prev x : ℕ) → prev < m → x < m → (prev + (x + m - prev) % m) % m ≡ x
wrap_undo m prev x hp hx = grind arith

differences-lt : (m prev : ℕ) (xs : List ℕ) → 0 < m → All (λ x. x < m) (differences m prev xs)
unfolding differences
differences-lt m prev [] h = tt
differences-lt m prev (x ∷ xs) h = (mod-lt (x + m - prev) h, differences-lt m x xs h)

pub delta_words-lt :
    (m : ℕ) (xs : List ℕ) → 0 < m → All (λ x. x < m) xs → All (λ x. x < m) (delta_words m xs)
unfolding delta_words
delta_words-lt m [] h k = tt
delta_words-lt m (x ∷ xs) h k = (k.0, differences-lt m x xs h)

length-differences : (m prev : ℕ) (xs : List ℕ) → length (differences m prev xs) ≡ length xs
unfolding differences
length-differences m prev [] = refl
length-differences m prev (x ∷ xs) = ap suc (length-differences m x xs)

pub length-delta_words : (m : ℕ) (xs : List ℕ) → length (delta_words m xs) ≡ length xs
unfolding delta_words
length-delta_words m [] = refl
length-delta_words m (x ∷ xs) = ap suc (length-differences m x xs)

cumsum-differences :
    (m prev : ℕ) (xs : List ℕ)
    → prev < m
    → All (λ x. x < m) xs
    → cumsum m prev (differences m prev xs) ≡ xs
unfolding cumsum differences
cumsum-differences m prev [] hp h = refl
cumsum-differences m prev (x ∷ xs) hp (hx, h) =
    rw (wrap_undo m prev x hp hx) (ap (λ t. x ∷ t) (cumsum-differences m x xs hx h))

pub cumsum-delta_words :
    (m : ℕ) (xs : List ℕ) → All (λ x. x < m) xs → cumsum m 0 (delta_words m xs) ≡ xs
unfolding cumsum delta_words
cumsum-delta_words m [] h = refl
cumsum-delta_words m (x ∷ xs) (hx, h) =
    let first : (0 + x) % m ≡ x = ap (λ t. t % m) plain ∙ mod-eq_of_lt hx in
    rw first (ap (λ t. x ∷ t) (cumsum-differences m x xs hx h))
  where
    plain : 0 + x ≡ x
    plain = omega arith

module _ (b : List ℕ) (w : ℕ) where
  abbrev count : ℕ
  count = length b / w

  abbrev body : List ℕ
  body = bytes_of w (delta_words (256 ^ w) (words w count b))

  pub count_fits : count * w ≤ length b
  count_fits = div-mul-le_self (length b) w

  length-body : length body ≡ count * w
  length-body = omega (
    arith,
    length-bytes_of w (delta_words (256 ^ w) (words w count b)),
    ap (λ t. t * w) (length-delta_words (256 ^ w) (words w count b) ∙ length-words w count b),
  )

  pub length-delta_apply : length (delta_apply b w) ≡ length b
  unfolding delta_apply
  length-delta_apply = elim (Bool-cases (count == 0)) [
    | inl none ↦ rw none
    | inr some ↦ rw some (length-splice body b (count * w) length-body count_fits)
  ]

-- The delta transform is undone by its inverse, for every width, on every byte string.
pub delta_invert-delta_apply :
    (b : List ℕ) (w : ℕ) → All IsByte b → delta_invert (delta_apply b w) w ≡ b
unfolding delta_invert
delta_invert-delta_apply b w bytes =
    rw (length-delta_apply b w) (elim (Bool-cases (count b w == 0)) [
      | inl none ↦ rw none (unfold delta_apply in rw none)
      | inr some ↦ rw some (unfold delta_apply in rw some (undone some))
    ])
  where
    ds : List ℕ
    ds = delta_words (256 ^ w) (words w (count b w) b)

    tail : List ℕ
    tail = drop (count b w * w) b

    sized : length ds ≡ count b w
    sized = length-delta_words (256 ^ w) (words w (count b w) b) ∙ length-words w (count b w) b

    in_range : All (λ x. x < 256 ^ w) (words w (count b w) b)
    in_range = words-lt w (count b w) b bytes (count_fits b w)

    reread : words w (count b w) (bytes_of w ds ++ tail) ≡ ds
    reread = rw sized at (
        words-bytes_of w ds tail
          (delta_words-lt (256 ^ w) _ (one-le-pow w 256 (omega arith)) in_range))

    undone :
        (count b w == 0) ≡ false
        → bytes_of w (cumsum (256 ^ w) 0 (words w (count b w) (bytes_of w ds ++ tail)))
            ++ drop (count b w * w) (bytes_of w ds ++ tail)
          ≡ b
    undone some =
        rw
          (
            reread,
            cumsum-delta_words (256 ^ w) (words w (count b w) b) in_range,
            bytes_of-words w (count b w) b bytes (count_fits b w),
            drop-splice (bytes_of w ds) tail (count b w * w) (length-body b w),
          )
          (take-append-drop (count b w * w) b)
