-- ===== src/Openzl/Blocos/Linhas.antt =====
-- Where a search of bench/openzl_bench.py for a byte ends.
use mathlib.Core.Option.{some_inj}
use engine_motor.Prelude.{
  ℕ, suc, ◌<◌, ◌≡◌, ◌≢◌, refl, ap, subst, false, Bool-cases, inl, inr, Option, Option-cases, none,
  some, List, [], ◌∷◌, ◌++◌, All, length, take, ◌==◌, ==_iff, arith,
}
use engine_motor.Prelude.Texts.{find_byte}

differs : (x y : ℕ) → (x == y) ≡ false → x ≢ y
differs x y e h = ground arith

none_behind : (o : Option ℕ) → (elim o [ none ↦ none | some n ↦ some (suc n) ]) ≡ none → o ≡ none
none_behind none g = refl
none_behind (some n) g = cc

no_zero : (n : ℕ) → some n ≡ none → ⊥
no_zero n h = cc

pub find_byte-none : (y : ℕ) (xs : List ℕ) → find_byte y xs ≡ none → All (λ c. c ≢ y) xs
find_byte-none y [] h = tt
find_byte-none y (x ∷ xs) h = elim (Bool-cases (x == y)) [
  | inl e ↦ absurd (no_zero 0 (rw e at h))
  | inr e ↦ (differs x y e, find_byte-none y xs (none_behind (find_byte y xs) (rw e at h)))
]

-- The byte at the place that was found, and none before it.
pub record IsFound (y : ℕ) (xs : List ℕ) (j : ℕ) : Type 0 where
  pub inside : j < length xs
  pub at_end : take (suc j) xs ≡ take j xs ++ y ∷ []
  pub before : All (λ c. c ≢ y) (take j xs)

pub find_byte-IsFound : (y : ℕ) (xs : List ℕ) (j : ℕ) → find_byte y xs ≡ some j → IsFound y xs j
find_byte-IsFound y [] j h = cc
find_byte-IsFound y (x ∷ xs) j h = elim (Bool-cases (x == y)) [
  | inl e ↦
      let h' : some 0 ≡ some j = rw e at h in
      subst (IsFound y (x ∷ xs)) (some_inj.0 h')
        (record { inside = omega arith; at_end = ap (λ t. t ∷ []) ((==_iff x y).0 e); before = tt })
  | inr e ↦ elim (Option-cases (find_byte y xs)) [
    | inl q ↦ let h' : none ≡ some j = rw (e, q) at h in cc
    | inr (k, q) ↦
        let h' : some (suc k) ≡ some j = rw (e, q) at h in
        let rest = find_byte-IsFound y xs k q in
        subst (IsFound y (x ∷ xs)) (some_inj.0 h') (record {
          inside = omega (arith, rest.inside);
          at_end = ap (λ t. x ∷ t) rest.at_end;
          before = (differs x y e, rest.before);
        })
  ]
]
