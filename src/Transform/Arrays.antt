-- ===== src/Transform/Arrays.antt =====
-- What the transforms use of two-dimensional numpy arrays: `reshape`, `.T` and the row-by-row bytes.
use native.Mathlib.Nat.{mul-le-mul_right}
use engine_motor.Prelude.{
  ℕ, zero, suc, ◌+◌, ◌*◌, ◌/◌, ◌%◌, ◌≤◌, ◌<◌, ◌≡◌, refl, sym, ap, ap₂, ◌∙◌, List, [], ◌∷◌, ◌++◌,
  arith, length, get_or, length-append, get_or-append_left, get_or-append_right, get_or_ext,
}

pub record Matrix : Type 0 where
  pub rows : ℕ
  pub cols : ℕ
  pub at : ℕ → ℕ → ℕ

-- `a.reshape(rows, cols)` of a flat array.
abbrev pub reshape : ℕ → ℕ → List ℕ → Matrix
reshape rows cols a = record { rows = rows; cols = cols; at = λ i j. get_or a (i * cols + j) 0 }

abbrev pub transpose : Matrix → Matrix
transpose m = record { rows = m.cols; cols = m.rows; at = λ i j. m.at j i }

-- `n` values `f i`, `f (i + 1)`, …
unfoldable pub tabulate : ℕ → ℕ → (ℕ → ℕ) → List ℕ
tabulate zero i f = []
tabulate (suc n) i f = f i ∷ tabulate n (i + 1) f

-- `rows` rows of `cols` values, from row `i` on.
unfoldable pub grid : ℕ → ℕ → ℕ → (ℕ → ℕ → ℕ) → List ℕ
unfolding tabulate
grid zero cols i f = []
grid (suc rows) cols i f = tabulate cols 0 (f i) ++ grid rows cols (i + 1) f

-- `np.ascontiguousarray(m).tobytes()`.
abbrev pub to_bytes : Matrix → List ℕ
to_bytes m = grid m.rows m.cols 0 m.at

pub length-tabulate : (n i : ℕ) (f : ℕ → ℕ) → length (tabulate n i f) ≡ n
unfolding tabulate
length-tabulate zero i f = refl
length-tabulate (suc n) i f = ap suc (length-tabulate n (i + 1) f)

pub length-grid : (r c i : ℕ) (f : ℕ → ℕ → ℕ) → length (grid r c i f) ≡ r * c
unfolding grid
length-grid zero c i f = omega arith
length-grid (suc r) c i f = omega (
  arith,
  length-append (tabulate c 0 (f i)) (grid r c (i + 1) f),
  length-tabulate c 0 (f i),
  length-grid r c (i + 1) f,
)

pub get_or-tabulate : (n i j : ℕ) (f : ℕ → ℕ) → j < n → get_or (tabulate n i f) j 0 ≡ f (i + j)
unfolding tabulate
get_or-tabulate zero i j f h = absurd (omega arith)
get_or-tabulate (suc n) i zero f h = ap f (omega arith)
get_or-tabulate (suc n) i (suc j) f h = get_or-tabulate n (i + 1) j f (omega arith) ∙ ap f shift
  where
    shift : i + 1 + j ≡ i + suc j
    shift = omega arith

-- The value in row `k` and column `j` stands at place `k * c + j`.
pub get_or-grid :
    (r c i k j : ℕ) (f : ℕ → ℕ → ℕ)
    → k < r
    → j < c
    → get_or (grid r c i f) (k * c + j) 0 ≡ f (i + k) j
unfolding grid
get_or-grid zero c i k j f hk hj = absurd (omega arith)
get_or-grid (suc r) c i zero j f hk hj = rw place (
    get_or-append_left row rest j 0 (rw length-tabulate hj)
    ∙ get_or-tabulate c 0 j (f i) hj
    ∙ ap₂ f here col)
  where
    row : List ℕ
    row = tabulate c 0 (f i)

    rest : List ℕ
    rest = grid r c (i + 1) f

    place : 0 * c + j ≡ j
    place = omega arith

    here : i ≡ i + 0
    here = omega arith

    col : 0 + j ≡ j
    col = omega arith
get_or-grid (suc r) c i (suc k) j f hk hj = rw place (
    get_or-append_right row rest (k * c + j) 0
    ∙ get_or-grid r c (i + 1) k j f (omega arith) hj
    ∙ ap (λ t. f t j) shift)
  where
    row : List ℕ
    row = tabulate c 0 (f i)

    rest : List ℕ
    rest = grid r c (i + 1) f

    place : suc k * c + j ≡ length row + (k * c + j)
    place = omega (arith, length-tabulate c 0 (f i))

    shift : i + 1 + k ≡ i + suc k
    shift = omega arith

-- Row and column of a place in a grid.
pub place-lt : (r c k j : ℕ) → k < r → j < c → k * c + j < r * c
place-lt r c k j hk hj = omega (arith, mul-le-mul_right c hk)

pub row-lt : (r c x : ℕ) → x < r * c → x / c < r
row-lt r c x h = grind arith

pub col-lt : (r c x : ℕ) → x < r * c → x % c < c
col-lt r c x h = grind arith

pub row-col : (c x : ℕ) → x / c * c + x % c ≡ x
row-col c x = grind arith

-- A grid is known by its values.
pub grid_ext :
    (r c : ℕ) (f : ℕ → ℕ → ℕ) (xs : List ℕ)
    → length xs ≡ r * c
    → ((k j : ℕ) → k < r → j < c → get_or xs (k * c + j) 0 ≡ f k j)
    → grid r c 0 f ≡ xs
grid_ext r c f xs e h = get_or_ext 0 (grid r c 0 f) xs (length-grid r c 0 f ∙ sym e) λ x p.
    let q : x < r * c = omega (arith, length-grid r c 0 f) in
    let k = x / c in
    let j = x % c in
    let place : k * c + j ≡ x = row-col c x in
    rw place at (
      get_or-grid r c 0 k j f (row-lt r c x q) (col-lt r c x q)
      ∙ ap (λ t. f t j) (zero_add k)
      ∙ sym (h k j (row-lt r c x q) (col-lt r c x q)))
  where
    zero_add : (k : ℕ) → 0 + k ≡ k
    zero_add k = omega arith

pub tabulate_ext :
    (n i : ℕ) (f g : ℕ → ℕ)
    → ((j : ℕ) → i ≤ j → j < i + n → f j ≡ g j)
    → tabulate n i f ≡ tabulate n i g
unfolding tabulate
tabulate_ext zero i f g h = refl
tabulate_ext (suc n) i f g h =
    ap₂ ◌∷◌ (h i (omega arith) (omega arith))
      (tabulate_ext n (i + 1) f g (λ j lo hi. h j (omega arith) (omega arith)))
