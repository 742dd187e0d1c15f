-- ===== src/Transform/Inverse.antt =====
-- `aplicar` and `inverter` of bench/plano_bloco.py over both kinds of transform, and what
-- `autoteste_transforms` checks of them.
use engine_motor.Prelude.{ℕ, ◌≡◌, List, length, All}
use engine_motor.Bytes.{IsByte}
use engine_motor.Transform.{Kind, delta, bsplit, aplicar, inverter, delta_ref, bsplit_ref}
use engine_motor.Transform.Delta.{length-delta_apply, delta_invert-delta_apply}
use engine_motor.Transform.Split.{length-bsplit_apply, bsplit_invert-bsplit_apply}
use engine_motor.Transform.Reference.{delta_apply-eq-delta_ref, bsplit_apply-eq-bsplit_ref}

-- `ref = delta_ref(b, w) if tipo == "delta" else bsplit_ref(b, w)` of the self test.
pub reference : List ℕ → Kind → ℕ → List ℕ
reference b delta w = delta_ref b w
reference b bsplit w = bsplit_ref b w

-- Inverting a transform of any kind and width gives back the byte string, with its partial last
-- word.
pub inverter-aplicar :
    (b : List ℕ) (k : Kind) (w : ℕ) → All IsByte b → inverter (aplicar b k w) k w ≡ b
unfolding aplicar inverter
inverter-aplicar b delta w h = delta_invert-delta_apply b w h
inverter-aplicar b bsplit w h = bsplit_invert-bsplit_apply b w

-- A transform of any kind and width keeps the length.
pub length-aplicar : (b : List ℕ) (k : Kind) (w : ℕ) → length (aplicar b k w) ≡ length b
unfolding aplicar
length-aplicar b delta w = length-delta_apply b w
length-aplicar b bsplit w = length-bsplit_apply b w

-- On every byte string, kind and width the vectorised transform gives what the byte-by-byte
-- reference gives.
pub aplicar-eq-reference :
    (b : List ℕ) (k : Kind) (w : ℕ) → All IsByte b → aplicar b k w ≡ reference b k w
unfolding aplicar reference
aplicar-eq-reference b delta w h = delta_apply-eq-delta_ref b w h
aplicar-eq-reference b bsplit w h = bsplit_apply-eq-bsplit_ref b w
