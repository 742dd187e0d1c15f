-- ===== src/Prelude/Texts.antt =====
-- What the Python code uses of `bytes` and `str`, on lists of numbers.
use Prim.Native.Char.{code}
use Prim.Native.String.{String}
use Prim.Native.Nat.{ℕ, suc, ◌+◌}
use mathlib.Core.Path.{◌≡◌, refl, sym, ap₂, ◌∙◌}
use mathlib.Core.Logic.{inl, inr}
use mathlib.Core.Bool.{Bool, true, false, ◌&&◌, ◌||◌}
use mathlib.Core.List.{List, [], ◌∷◌}
use mathlib.Core.Option.{Option, none, some}
use engine_motor.Prelude.Tests.{◌==◌, ==_iff, leb, if◌then◌else◌, Bool-cases}

-- The code points of a literal, which are its bytes if it is ASCII.
abbrev pub codes : String → List ℕ
codes String.[] = []
codes (String.◌∷◌ c s) = code c ∷ codes s

-- `==` on two byte strings.
abbrev pub same : List ℕ → List ℕ → Bool
same [] [] = true
same [] (y ∷ ys) = false
same (x ∷ xs) [] = false
same (x ∷ xs) (y ∷ ys) = x == y && same xs ys

-- `x in (a, b, ...)`.
abbrev pub member : List ℕ → List (List ℕ) → Bool
member x [] = false
member x (y ∷ ys) = same x y || member x ys

-- `xs.startswith(ys)`.
abbrev pub starts_with : List ℕ → List ℕ → Bool
starts_with xs [] = true
starts_with [] (y ∷ ys) = false
starts_with (x ∷ xs) (y ∷ ys) = x == y && starts_with xs ys

-- `xs.count(y)` of one byte, and of a byte string that does not overlap itself.
abbrev pub count_byte : ℕ → List ℕ → ℕ
count_byte y [] = 0
count_byte y (x ∷ xs) = (if x == y then 1 else 0) + count_byte y xs

abbrev pub count_text : List ℕ → List ℕ → ℕ
count_text ys [] = 0
count_text ys (x ∷ xs) = (if starts_with (x ∷ xs) ys then 1 else 0) + count_text ys xs

-- `xs.find(y)` of one byte.
abbrev pub find_byte : ℕ → List ℕ → Option ℕ
find_byte y [] = none
find_byte y (x ∷ xs) =
    let rest = find_byte y xs in
    if x == y then some 0 else elim rest [ none ↦ none | some n ↦ some (suc n) ]

-- What `strip()` takes off a byte string.
abbrev pub espacos : List ℕ
espacos = 9 ∷ 10 ∷ 11 ∷ 12 ∷ 13 ∷ 32 ∷ []

-- `xs.lstrip(cs)` and `xs.rstrip(cs)`.
abbrev pub has_byte : ℕ → List ℕ → Bool
has_byte y [] = false
has_byte y (x ∷ xs) = x == y || has_byte y xs

abbrev pub left_strip : List ℕ → List ℕ → List ℕ
left_strip cs [] = []
left_strip cs (x ∷ xs) = let rest = left_strip cs xs in if has_byte x cs then rest else x ∷ xs

abbrev pub right_strip : List ℕ → List ℕ → List ℕ
right_strip cs [] = []
right_strip cs (x ∷ xs) = drop_last cs x (right_strip cs xs)
  where
    drop_last : List ℕ → ℕ → List ℕ → List ℕ
    drop_last cs x [] = if has_byte x cs then [] else x ∷ []
    drop_last cs x (y ∷ ys) = x ∷ y ∷ ys

-- `lower()` on ASCII.
abbrev pub lower : List ℕ → List ℕ
lower [] = []
lower (c ∷ cs) = (if leb b'A' c && leb c b'Z' then c + 32 else c) ∷ lower cs

pub same_sound : (xs ys : List ℕ) → same xs ys ≡ true → xs ≡ ys
same_sound [] [] h = refl
same_sound [] (y ∷ ys) h = cc
same_sound (x ∷ xs) [] h = cc
same_sound (x ∷ xs) (y ∷ ys) h = elim (Bool-cases (x == y)) [
  | inl e ↦
      let h' : same xs ys ≡ true = rw e at h in ap₂ ◌∷◌ ((==_iff x y).0 e) (same_sound xs ys h')
  | inr e ↦ let h' : false ≡ true = rw e at h in cc
]

pub same_refl : (xs : List ℕ) → same xs xs ≡ true
same_refl [] = refl
same_refl (x ∷ xs) = rw ((==_iff x x).1 refl) (same_refl xs)

pub same_of_eq : (x y : List ℕ) → x ≡ y → same x y ≡ true
same_of_eq x y e = rw e (same_refl y)

pub same_sym : (x y : List ℕ) → same x y ≡ same y x
same_sym x y = elim (Bool-cases (same x y)) [
  | inl e ↦ rw (same_sound x y e) refl
  | inr e ↦ elim (Bool-cases (same y x)) [ inl f ↦ rw (same_sound y x f) refl | inr f ↦ e ∙ sym f ]
]
