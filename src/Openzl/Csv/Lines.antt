-- ===== src/Openzl/Csv/Lines.antt =====
-- `split` and `join` as `t_csv` and `t_csv_inv` of bench/openzl_bench.py use them.
use engine_motor.Prelude.{
  ℕ, ◌≡◌, ◌≢◌, refl, sym, ap, ap₂, ◌∙◌, inl, inr, true, List, [], ◌∷◌, ◌++◌, map, ◌==◌, ==_iff,
  Bool-cases,
}
use engine_motor.Openzl.Csv.{put_first, split, join, ends_with, without_last}

join-empty_first : (d : ℕ) (ps : List (List ℕ)) → ps ≢ [] → join d ([] ∷ ps) ≡ d ∷ join d ps
unfolding join
join-empty_first d [] h = absurd (h refl)
join-empty_first d (p ∷ ps) h = refl

join-put_first : (d x : ℕ) (ps : List (List ℕ)) → join d (put_first x ps) ≡ x ∷ join d ps
unfolding join
join-put_first d x [] = refl
join-put_first d x (p ∷ []) = refl
join-put_first d x (p ∷ q ∷ ps) = refl

put_first-ne-nil : (x : ℕ) (ps : List (List ℕ)) → put_first x ps ≢ []
put_first-ne-nil x [] e = cc
put_first-ne-nil x (p ∷ ps) e = cc

split-ne-nil : (d : ℕ) (bs : List ℕ) → split d bs ≢ []
unfolding split
split-ne-nil d [] = λ e. cc
split-ne-nil d (x ∷ bs) = elim (Bool-cases (x == d)) [
  | inl same ↦ rw same (λ e. cc)
  | inr other ↦ rw other (put_first-ne-nil x (split d bs))
]

pub join-split : (d : ℕ) (bs : List ℕ) → join d (split d bs) ≡ bs
unfolding split
join-split d [] = unfold join in refl
join-split d (x ∷ bs) = elim (Bool-cases (x == d)) [
  | inl same ↦
      let e : x ≡ d = (==_iff x d).0 same in
      rw same
        (join-empty_first d (split d bs) (split-ne-nil d bs) ∙ ap₂ ◌∷◌ (sym e) (join-split d bs))
  | inr other ↦ rw other (join-put_first d x (split d bs) ∙ ap (λ t. x ∷ t) (join-split d bs))
]

pub map-join-split : (d : ℕ) (lines : List (List ℕ)) → map (join d) (map (split d) lines) ≡ lines
map-join-split d [] = refl
map-join-split d (l ∷ lines) = ap₂ ◌∷◌ (join-split d l) (map-join-split d lines)

-- A byte string that ends in `x` is its front and `x`.
pub without_last-append :
    (x : ℕ) (bs : List ℕ) → ends_with x bs ≡ true → without_last bs ++ x ∷ [] ≡ bs
unfolding ends_with without_last
without_last-append x [] h = cc
without_last-append x (y ∷ []) h = ap (λ t. t ∷ []) (sym ((==_iff y x).0 h))
without_last-append x (y ∷ z ∷ bs) h = ap (λ t. y ∷ t) (without_last-append x (z ∷ bs) h)
