-- ===== src/Prelude/Bits.antt =====
-- `&` and `|` of Python on natural numbers, as the arithmetic that masks and shifts stand for.
use Prim.Native.Nat.{bit_and, bit_or, digits, bit_and-bitwise, bit_or-bitwise, min, max}
use Prim.Native.Nat.{ℕ, zero, suc, ◌+◌, ◌*◌, ◌/◌, ◌%◌, ◌^◌, ◌≤◌, ◌<◌}
use mathlib.Core.Path.{◌≡◌, refl, ap, ◌∙◌}
use native.Mathlib.Nat.{pow-suc}
use native.Mathlib.Omega.{arith}

-- More fuel than the first operand changes no digit.
module _ (z : ℕ → ℕ) (op : ℕ → ℕ → ℕ) where
  enough : (m n x y : ℕ) → x ≤ n → x ≤ m → digits z op n x y ≡ digits z op m x y
  enough zero zero x y hn hm = refl
  enough (suc m) zero (suc x) y hn hm = absurd (omega arith)
  enough (suc m) zero zero y hn hm = refl
  enough zero (suc n) (suc x) y hn hm = absurd (omega arith)
  enough zero (suc n) zero y hn hm = refl
  enough (suc m) (suc n) zero y hn hm = refl
  enough (suc m) (suc n) (suc x) y hn hm =
      let half : suc x / 2 ≤ x = omega arith in
      rw (enough m n (suc x / 2) (y / 2) (omega arith) (omega arith))

or_digit : (x y : ℕ) → bit_or x y ≡ bit_or (x / 2) (y / 2) * 2 + max (x % 2) (y % 2)
or_digit zero y = simp bit_or-bitwise (omega arith)
or_digit (suc x) y =
    let same = enough (λ t. t) max (suc x / 2) x (suc x / 2) (y / 2) (omega arith) (omega arith) in
    simp bit_or-bitwise (omega (arith, same))

and_digit : (x y : ℕ) → bit_and x y ≡ bit_and (x / 2) (y / 2) * 2 + min (x % 2) (y % 2)
and_digit zero y = simp bit_and-bitwise (omega arith)
and_digit (suc x) y =
    let same = enough (λ t. 0) min (suc x / 2) x (suc x / 2) (y / 2) (omega arith) (omega arith) in
    simp bit_and-bitwise (omega (arith, same))

zero-or : (y : ℕ) → bit_or 0 y ≡ y
zero-or y = bit_or-bitwise 0 y

-- `v | (g << s)` is a sum where `v` stands below bit `s`.
pub or_shifted : (s v g : ℕ) → v < 2 ^ s → bit_or v (g * 2 ^ s) ≡ v + g * 2 ^ s
or_shifted zero zero g h = zero-or (g * 2 ^ 0) ∙ omega arith
or_shifted zero (suc v) g h = absurd (omega arith)
or_shifted (suc s) v g h =
    let double : g * 2 ^ suc s ≡ g * 2 ^ s * 2 =
      omega (arith, ap (λ (t : ℕ). g * t) (pow-suc 2 s)) in
    let halved : g * 2 ^ suc s / 2 ≡ g * 2 ^ s = omega arith in
    let below : v / 2 < 2 ^ s = omega (arith, pow-suc 2 s) in
    or_digit v (g * 2 ^ suc s) ∙ rw halved (omega (arith, or_shifted s (v / 2) g below))

and-zero_below : (n x : ℕ) → x ≤ n → bit_and x 0 ≡ 0
and-zero_below n zero h = refl
and-zero_below zero (suc x) h = absurd (omega arith)
and-zero_below (suc n) (suc x) h =
    omega (arith, and_digit (suc x) 0, and-zero_below n (suc x / 2) (omega arith))

and_one : (v : ℕ) → bit_and v 1 ≡ v % 2
and_one v = omega (arith, and_digit v 1, and-zero_below (v / 2) (v / 2) (omega arith))

and_two_bits : (v : ℕ) → bit_and v 3 ≡ v % 4
and_two_bits v = omega (arith, and_digit v 3, and_one (v / 2))

and_three_bits : (v : ℕ) → bit_and v 7 ≡ v % 8
and_three_bits v = omega (arith, and_digit v 7, and_two_bits (v / 2))

and_four_bits : (v : ℕ) → bit_and v 15 ≡ v % 16
and_four_bits v = omega (arith, and_digit v 15, and_three_bits (v / 2))

and_five_bits : (v : ℕ) → bit_and v 31 ≡ v % 32
and_five_bits v = omega (arith, and_digit v 31, and_four_bits (v / 2))

and_six_bits : (v : ℕ) → bit_and v 63 ≡ v % 64
and_six_bits v = omega (arith, and_digit v 63, and_five_bits (v / 2))

-- `v & 0x7F` keeps seven bits.
pub and_seven_bits : (v : ℕ) → bit_and v 127 ≡ v % 128
and_seven_bits v = omega (arith, and_digit v 127, and_six_bits (v / 2))

-- `b | 0x80` sets the eighth bit of a number of seven bits.
pub or_top_bit : (b : ℕ) → b < 128 → bit_or b 128 ≡ b + 128
or_top_bit b h = or_shifted 7 b 1 h
