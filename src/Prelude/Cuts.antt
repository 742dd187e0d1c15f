-- ===== src/Prelude/Cuts.antt =====
-- Ranges of numbers, and parts of a part of a list.
use Prim.Native.Nat.{ℕ, zero, suc, ◌+◌, ◌≤◌}
use mathlib.Core.Path.{◌≡◌, refl, ap, ap₂}
use mathlib.Core.List.{List, [], ◌∷◌, ◌++◌}
use native.Mathlib.Omega.{arith}
use engine_motor.Prelude.Lists.{length, length-append, take, drop}

-- `range(lo, lo + n)`.
abbrev pub faixa : ℕ → ℕ → List ℕ
faixa lo zero = []
faixa lo (suc n) = lo ∷ faixa (suc lo) n

pub faixa_add : (lo m n : ℕ) → faixa lo (m + n) ≡ faixa lo m ++ faixa (lo + m) n
faixa_add lo zero n = ap₂ faixa (omega arith) (omega arith)
faixa_add lo (suc m) n =
    let e : suc m + n ≡ suc (m + n) = omega arith in
    let e' : lo + suc m ≡ suc lo + m = omega arith in
    rw (e, e') (ap (λ t. lo ∷ t) (faixa_add (suc lo) m n))

pub take-drop-take :
    {A : Type 0} (a i n : ℕ) (xs : List A)
    → i + a ≤ n
    → take a (drop i (take n xs)) ≡ take a (drop i xs)
take-drop-take zero zero n xs h = refl
take-drop-take (suc a) zero zero xs h = absurd (omega arith)
take-drop-take (suc a) zero (suc n) [] h = refl
take-drop-take (suc a) zero (suc n) (x ∷ xs) h =
    ap (λ t. x ∷ t) (take-drop-take a zero n xs (omega arith))
take-drop-take a (suc i) zero xs h = absurd (omega arith)
take-drop-take a (suc i) (suc n) [] h = refl
take-drop-take a (suc i) (suc n) (x ∷ xs) h = take-drop-take a i n xs (omega arith)

pub length-snoc : {A : Type 0} (vs : List A) (v : A) → length (vs ++ v ∷ []) ≡ suc (length vs)
length-snoc vs v = omega (arith, length-append vs (v ∷ []))
