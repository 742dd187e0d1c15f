-- ===== src/Bytes.antt =====
-- Byte strings as lists of numbers, and the little-endian words that numpy and `int.from_bytes`
-- read in them (bench/plano_bloco.py, bench/openzl_bench.py).
pub mod Words
use engine_motor.Prelude.{
  ℕ, zero, suc, ◌+◌, ◌*◌, ◌/◌, ◌%◌, ◌^◌, ◌<◌, List, [], ◌∷◌, ◌++◌, take, drop,
}

abbrev pub IsByte : ℕ → Type 0
IsByte b = b < 256

-- `int.from_bytes(bs, "little")`.
unfoldable pub from_le : List ℕ → ℕ
from_le [] = 0
from_le (b ∷ bs) = b + 256 * from_le bs

-- `x.to_bytes(w, "little")` of the low `w` bytes of `x`.
unfoldable pub to_le : ℕ → ℕ → List ℕ
to_le zero x = []
to_le (suc w) x = x % 256 ∷ to_le w (x / 256)

-- `np.frombuffer(b, dtype="<u%d" % w, count=n)`.
unfoldable pub words : ℕ → ℕ → List ℕ → List ℕ
unfolding from_le
words w zero b = []
words w (suc n) b = from_le (take w b) ∷ words w n (drop w b)

-- `tobytes()` of an array of such words.
unfoldable pub bytes_of : ℕ → List ℕ → List ℕ
unfolding to_le
bytes_of w [] = []
bytes_of w (x ∷ xs) = to_le w x ++ bytes_of w xs
