-- ===== src/Bytes/Words.antt =====
-- Laws of little-endian words.
use mathlib.Core.List.{append_assoc}
use native.Mathlib.Nat.{pow-suc}
use engine_motor.Prelude.{
  ℕ, zero, suc, ◌+◌, ◌*◌, ◌/◌, ◌%◌, ◌^◌, ◌≤◌, ◌<◌, ◌≡◌, refl, sym, ap, ◌∙◌, List, [], ◌∷◌, ◌++◌,
  arith, length, take, drop, All, All-append, All-take, All-drop, take-add, length-append,
  length-take, length-drop, take-append, take-append_le, drop-append_le, take-append-drop,
  drop-append,
}
use engine_motor.Bytes.{IsByte, from_le, to_le, words, bytes_of}

pub length-to_le : (w x : ℕ) → length (to_le w x) ≡ w
unfolding to_le
length-to_le zero x = refl
length-to_le (suc w) x = ap suc (length-to_le w (x / 256))

pub to_le-IsByte : (w x : ℕ) → All IsByte (to_le w x)
unfolding to_le
to_le-IsByte zero x = tt
to_le-IsByte (suc w) x = (omega arith, to_le-IsByte w (x / 256))

pub to_le-from_le : (bs : List ℕ) → All IsByte bs → to_le (length bs) (from_le bs) ≡ bs
unfolding to_le from_le
to_le-from_le [] h = refl
to_le-from_le (b ∷ bs) (hb, hs) =
    let low : (b + 256 * from_le bs) % 256 ≡ b = omega arith in
    let high : (b + 256 * from_le bs) / 256 ≡ from_le bs = omega arith in
    rw (low, high) (ap (λ t. b ∷ t) (to_le-from_le bs hs))

pub from_le-lt : (bs : List ℕ) → All IsByte bs → from_le bs < 256 ^ length bs
unfolding from_le
from_le-lt [] h = omega arith
from_le-lt (b ∷ bs) (hb, hs) = omega (arith, from_le-lt bs hs, pow-suc 256 (length bs))

pub from_le-to_le : (w x : ℕ) → x < 256 ^ w → from_le (to_le w x) ≡ x
unfolding to_le from_le
from_le-to_le zero x h = omega arith
from_le-to_le (suc w) x h =
    let rest : x / 256 < 256 ^ w = omega (arith, pow-suc 256 w) in
    omega (arith, from_le-to_le w (x / 256) rest)

pub length-bytes_of : (w : ℕ) (xs : List ℕ) → length (bytes_of w xs) ≡ length xs * w
unfolding bytes_of
length-bytes_of w [] = omega arith
length-bytes_of w (x ∷ xs) =
    omega (arith, length-append (to_le w x) (bytes_of w xs), length-to_le w x, length-bytes_of w xs)

pub bytes_of-IsByte : (w : ℕ) (xs : List ℕ) → All IsByte (bytes_of w xs)
unfolding bytes_of
bytes_of-IsByte w [] = tt
bytes_of-IsByte w (x ∷ xs) =
    All-append IsByte (to_le w x) (bytes_of w xs) (to_le-IsByte w x) (bytes_of-IsByte w xs)

pub length-words : (w n : ℕ) (b : List ℕ) → length (words w n b) ≡ n
unfolding words
length-words w zero b = refl
length-words w (suc n) b = ap suc (length-words w n (drop w b))

-- Reading `n` words and writing them again gives the first `n * w` bytes.
pub bytes_of-words :
    (w n : ℕ) (b : List ℕ)
    → All IsByte b
    → n * w ≤ length b
    → bytes_of w (words w n b) ≡ take (n * w) b
unfolding bytes_of words
bytes_of-words w zero b h fits = let e : 0 * w ≡ 0 = omega arith in rw e
bytes_of-words w (suc n) b h fits =
    rw
      (
        first,
        bytes_of-words w n (drop w b) (All-drop IsByte w b h) (omega (arith, length-drop w b)),
      )
      (take-add w (n * w) b ∙ ap (λ k. take k b) whole)
  where
    size : length (take w b) ≡ w
    size = omega (arith, length-take w b)

    whole : w + n * w ≡ suc n * w
    whole = omega arith

    first : to_le w (from_le (take w b)) ≡ take w b
    first = (rw size at (to_le-from_le (take w b) (All-take IsByte w b h)))

-- Writing words that fit and reading them again gives the words.
pub words-bytes_of :
    (w : ℕ) (xs rest : List ℕ)
    → All (λ x. x < 256 ^ w) xs
    → words w (length xs) (bytes_of w xs ++ rest) ≡ xs
unfolding words bytes_of
words-bytes_of w [] rest h = refl
words-bytes_of w (x ∷ xs) rest (hx, h) =
    rw append_assoc (rw (cut_drop, here, words-bytes_of w xs rest h) refl)
  where
    tail : List ℕ
    tail = bytes_of w xs ++ rest

    cut_take : take w (to_le w x ++ tail) ≡ to_le w x
    cut_take = rw length-to_le at (take-append (to_le w x) tail)

    cut_drop : drop w (to_le w x ++ tail) ≡ tail
    cut_drop = rw length-to_le at (drop-append (to_le w x) tail)

    here : from_le (take w (to_le w x ++ tail)) ≡ x
    here = rw cut_take (from_le-to_le w x hx)

pub words-lt :
    (w n : ℕ) (b : List ℕ) → All IsByte b → n * w ≤ length b → All (λ x. x < 256 ^ w) (words w n b)
unfolding words
words-lt w zero b h fits = tt
words-lt w (suc n) b h fits = (
  rw size at (from_le-lt (take w b) (All-take IsByte w b h)),
  words-lt w n (drop w b) (All-drop IsByte w b h) (omega (arith, length-drop w b)),
)
  where
    size : length (take w b) ≡ w
    size = omega (arith, length-take w b)

pub words-append :
    (w n : ℕ) (xs ys : List ℕ) → n * w ≤ length xs → words w n (xs ++ ys) ≡ words w n xs
unfolding words
words-append w zero xs ys h = refl
words-append w (suc n) xs ys h =
    let room : w ≤ length xs = omega arith in
    let rest : n * w ≤ length (drop w xs) = omega (arith, length-drop w xs) in
    rw (
      take-append_le w xs ys room,
      drop-append_le w xs ys room,
      words-append w n (drop w xs) ys rest,
    )

-- The words of a byte string stand in its first `n * w` bytes.
pub words-take :
    (w n : ℕ) (b : List ℕ) → n * w ≤ length b → words w n (take (n * w) b) ≡ words w n b
words-take w n b h =
    sym (words-append w n (take (n * w) b) (drop (n * w) b) (omega (arith, length-take (n * w) b)))
    ∙ ap (words w n) (take-append-drop (n * w) b)
