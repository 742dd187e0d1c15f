-- ===== src/Transform/Tests.antt =====
-- Runs of the transforms, and their theorems at concrete bytes.
use engine_motor.Prelude.{ℕ, ◌≡◌, refl, List, [], ◌∷◌, arith}
use engine_motor.Bytes.{words, bytes_of}
use engine_motor.Transform.{
  delta, bsplit, aplicar, inverter, delta_apply, delta_invert, bsplit_apply, delta_words, cumsum,
  delta_ref, bsplit_ref,
}
use engine_motor.Transform.Arrays.{grid}
use engine_motor.Transform.Inverse.{reference, inverter-aplicar, aplicar-eq-reference}

abbrev sample : List ℕ
sample = 5 ∷ 1 ∷ 3 ∷ 2 ∷ 9 ∷ 1 ∷ 7 ∷ []

-- Words of two bytes, the second smaller than the first; the seventh byte is kept.
delta_run : delta_apply sample 2 ≡ 5 ∷ 1 ∷ 254 ∷ 0 ∷ 6 ∷ 255 ∷ 7 ∷ []
unfolding delta_apply delta_words words bytes_of
delta_run = refl

delta_ref_run : delta_ref sample 2 ≡ 5 ∷ 1 ∷ 254 ∷ 0 ∷ 6 ∷ 255 ∷ 7 ∷ []
unfolding delta_ref words bytes_of
delta_ref_run = refl

delta_invert_run : delta_invert (5 ∷ 1 ∷ 254 ∷ 0 ∷ 6 ∷ 255 ∷ 7 ∷ []) 2 ≡ sample
unfolding delta_invert cumsum words bytes_of
delta_invert_run = refl

split_run : bsplit_apply sample 2 ≡ 5 ∷ 3 ∷ 9 ∷ 1 ∷ 2 ∷ 1 ∷ 7 ∷ []
unfolding bsplit_apply grid
split_run = refl

split_ref_run : bsplit_ref sample 2 ≡ 5 ∷ 3 ∷ 9 ∷ 1 ∷ 2 ∷ 1 ∷ 7 ∷ []
unfolding bsplit_ref
split_ref_run = refl

inverter-aplicar_example : inverter (aplicar sample delta 2) delta 2 ≡ sample
inverter-aplicar_example = inverter-aplicar sample delta 2 (omega arith)

aplicar-eq-reference_example : aplicar sample bsplit 2 ≡ reference sample bsplit 2
aplicar-eq-reference_example = aplicar-eq-reference sample bsplit 2 (omega arith)
