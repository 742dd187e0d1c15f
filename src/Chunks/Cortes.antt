-- ===== src/Chunks/Cortes.antt =====
-- The fixed cuts of `chunkear` in bench/dedup.py.
use engine_motor.Prelude.{
  ℕ, zero, suc, ◌+◌, ◌-◌, ◌≤◌, ◌<◌, min, ◌≡◌, refl, sym, ap, ap₂, ◌∙◌, Bool-cases, inl, inr, List,
  [], ◌∷◌, ◌++◌, length, take, drop, ltb, leb, leb→le, arith, take-append-drop, take_all, drop_all,
  drop-drop, length-drop,
}
use engine_motor.Chunks.{cortes_fixos, fixo, chunkear}
use engine_motor.Chunks.Refs.{juntar}

take-min : (n : ℕ) (xs : List ℕ) → take (min n (length xs)) xs ≡ take n xs
take-min n xs = elim (Bool-cases (leb (length xs) n)) [
  | inl e ↦
      let le = leb→le (length xs) n e in
      take_all (min n (length xs)) xs (omega arith) ∙ sym (take_all n xs le)
  | inr e ↦ let gt : n ≤ length xs = ground arith in ap (λ k. take k xs) (omega arith)
]

juntar-cortes_fixos :
    (fuel tam o : ℕ) (d : List ℕ)
    → 0 < tam
    → length d ≤ fuel + o
    → juntar d (cortes_fixos fuel tam (length d) o) ≡ drop o d
unfolding cortes_fixos
juntar-cortes_fixos zero tam o d pos enough = sym (drop_all o d (omega arith))
juntar-cortes_fixos (suc fuel) tam o d pos enough = elim (Bool-cases (ltb o (length d))) [
  | inl e ↦
      let rest = juntar-cortes_fixos fuel tam (o + tam) d pos (omega arith) in
      let size : min tam (length d - o) ≡ min tam (length (drop o d)) =
        omega (arith, length-drop o d) in
      rw e (
        ap₂ ◌++◌ (ap (λ k. take k (drop o d)) size ∙ take-min tam (drop o d))
          (rest ∙ sym (drop-drop tam o d))
        ∙ take-append-drop tam (drop o d))
  | inr e ↦ let over : length d ≤ o = ground arith in rw e (sym (drop_all o d over))
]

-- For a positive size the chunks of the fixed cuts are the file, in order and without a gap.
pub juntar-chunkear :
    (fastcdc : ℕ → List ℕ → List (ℕ × ℕ)) (alvo : ℕ) (d : List ℕ)
    → 0 < alvo
    → juntar d (chunkear fastcdc (fixo alvo) d) ≡ d
unfolding chunkear
juntar-chunkear fastcdc alvo [] pos = refl
juntar-chunkear fastcdc alvo (b ∷ bs) pos =
    juntar-cortes_fixos (suc (length bs)) alvo 0 (b ∷ bs) pos (omega arith)
