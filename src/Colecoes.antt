-- ===== src/Colecoes.antt =====
-- What the Python tools use of the language: the stable sort, and the `defaultdict(list)` whose
-- entries stand in the order in which their keys came.
pub mod Laws
use engine_motor.Prelude.{ℕ, Bool, true, false, List, [], ◌∷◌, ◌++◌, if◌then◌else◌}

-- `sort` of Python, which is stable: `antes y x` says that the key of y is at most that of x, and x
-- goes behind every such y.
module _ {ℓ} {A : Type ℓ} (antes : A → A → Bool) where
  unfoldable pub inserir : A → List A → List A
  inserir x [] = x ∷ []
  inserir x (y ∷ ys) = if antes y x then y ∷ inserir x ys else x ∷ y ∷ ys

  unfoldable pub ordenar_de : List A → List A → List A
  unfolding inserir
  ordenar_de feito [] = feito
  ordenar_de feito (x ∷ xs) = ordenar_de (inserir x feito) xs

  unfoldable pub ordenar : List A → List A
  unfolding ordenar_de
  ordenar xs = ordenar_de [] xs

module _ {ℓ κ} {K : Type ℓ} {A : Type κ} (igual : K → K → Bool) where
  -- `grupos[k].append(a)` on a `defaultdict(list)`.
  unfoldable pub acrescentar : K → A → List (K × List A) → List (K × List A)
  acrescentar k a [] = (k, a ∷ []) ∷ []
  acrescentar k a ((c, ms) ∷ gs) =
      if igual c k then (c, ms ++ a ∷ []) ∷ gs else (c, ms) ∷ acrescentar k a gs

  unfoldable pub agrupar : (A → K) → List A → List (K × List A) → List (K × List A)
  unfolding acrescentar
  agrupar chave [] gs = gs
  agrupar chave (a ∷ ms) gs = agrupar chave ms (acrescentar (chave a) a gs)
