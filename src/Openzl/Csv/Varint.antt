-- ===== src/Openzl/Csv/Varint.antt =====
-- `varint` of bench/openzl_bench.py, and `ler`, which reads it.
use Prim.Native.Nat.{bit_and, bit_or}
use mathlib.Core.List.{append-nil, append_assoc}
use native.Mathlib.Nat.{div-add-mod, mul-le-mul_right}
use native.Mathlib.Numerals.{towards_suc}
use engine_motor.Prelude.{
  ℕ, zero, suc, ◌+◌, ◌*◌, ◌/◌, ◌%◌, ◌^◌, ◌<◌, ◌≡◌, sym, ap, ◌∙◌, inl, inr, some, List, [], ◌∷◌,
  ◌++◌, arith, true, false, ◌==◌, ltb, Bool-cases,
}
use engine_motor.Prelude.Bits.{or_shifted, and_seven_bits, or_top_bit}
use engine_motor.Openzl.Csv.{varint_loop, varint, ler_loop, ler}

varint_loop-append :
    (fuel v : ℕ) (saida : List ℕ) → varint_loop fuel v saida ≡ saida ++ varint_loop fuel v []
unfolding varint_loop
varint_loop-append zero v saida = sym (append-nil saida)
varint_loop-append (suc fuel) v saida = elim (Bool-cases (v / 128 == 0)) [
  | inl last ↦ rw last
  | inr more ↦
      let b = bit_or (bit_and v 0x7f) 0x80 in
      rw more (
        varint_loop-append fuel (v / 128) (saida ++ b ∷ [])
        ∙ append_assoc saida (b ∷ []) (varint_loop fuel (v / 128) [])
        ∙ ap (λ t. saida ++ t) (sym (varint_loop-append fuel (v / 128) (b ∷ []))))
]

pub varint-append : (v : ℕ) (saida : List ℕ) → varint v saida ≡ saida ++ varint v []
unfolding varint
varint-append v saida = varint_loop-append (suc v) v saida

seven_more : (s : ℕ) → 2 ^ (s + 7) ≡ 128 * 2 ^ s
seven_more s = simp towards_suc (omega arith)

-- The last byte of a number, and a byte that has others behind it.
ler_last :
    (w v sh : ℕ) (rest : List ℕ)
    → w < 128
    → v < 2 ^ sh
    → ler_loop (bit_and w 0x7f ∷ rest) v sh ≡ some (v + w * 2 ^ sh, rest)
unfolding ler_loop
ler_last w v sh rest hw hv =
    let seven : bit_and w 0x7f ≡ w = omega (arith, and_seven_bits w) in
    let small : ltb w 0x80 ≡ true = ground arith in rw (seven, seven, small, or_shifted sh v w hv)

ler_inner :
    (w v sh : ℕ) (rest : List ℕ)
    → v < 2 ^ sh
    → ler_loop (bit_or (bit_and w 0x7f) 0x80 ∷ rest) v sh
      ≡ ler_loop rest (v + w % 128 * 2 ^ sh) (sh + 7)
unfolding ler_loop
ler_inner w v sh rest hv =
    let low : bit_and w 0x7f ≡ w % 128 = and_seven_bits w in
    let byte : bit_or (w % 128) 0x80 ≡ w % 128 + 128 = or_top_bit (w % 128) (omega arith) in
    let large : ltb (w % 128 + 128) 0x80 ≡ false = ground arith in
    let again : bit_and (w % 128 + 128) 0x7f ≡ w % 128 =
      and_seven_bits (w % 128 + 128) ∙ omega arith in
    rw (low, byte, large, again, or_shifted sh v (w % 128) hv)

ler_loop-varint_loop :
    (fuel w v sh : ℕ) (rest : List ℕ)
    → w < fuel
    → v < 2 ^ sh
    → ler_loop (varint_loop fuel w [] ++ rest) v sh ≡ some (v + w * 2 ^ sh, rest)
unfolding varint_loop
ler_loop-varint_loop zero w v sh rest hw hv = absurd (omega arith)
ler_loop-varint_loop (suc fuel) w v sh rest hw hv = elim (Bool-cases (w / 128 == 0)) [
  | inl last ↦ rw last (ler_last w v sh rest (ground arith) hv)
  | inr more ↦
      let b = bit_or (bit_and w 0x7f) 0x80 in
      let smaller : w / 128 < fuel = ground arith in
      let bound : v + w % 128 * 2 ^ sh < 2 ^ (sh + 7) =
        omega
          (arith, seven_more sh, mul-le-mul_right {m = w % 128} {n = 127} (2 ^ sh) (omega arith)) in
      let value : v + w % 128 * 2 ^ sh + w / 128 * 2 ^ (sh + 7) ≡ v + w * 2 ^ sh = omega (
        arith,
        ap (λ (t : ℕ). w / 128 * t) (seven_more sh),
        ap (λ (t : ℕ). t * 2 ^ sh) (div-add-mod w 128),
      ) in
      rw (more, varint_loop-append fuel (w / 128) (b ∷ []))
        (ler_inner w v sh (varint_loop fuel (w / 128) [] ++ rest) hv
          ∙ ler_loop-varint_loop fuel (w / 128) (v + w % 128 * 2 ^ sh) (sh + 7) rest smaller bound
          ∙ ap (λ t. some (t, rest)) value)
]

-- `ler` reads the number that `varint` wrote, and leaves what follows.
pub ler-varint : (v : ℕ) (rest : List ℕ) → ler (varint v [] ++ rest) ≡ some (v, rest)
unfolding ler varint
ler-varint v rest =
    ler_loop-varint_loop (suc v) v 0 0 rest (omega arith) (omega arith)
    ∙ ap (λ t. some (t, rest)) (omega arith)
