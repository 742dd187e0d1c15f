-- ===== src/Capacidade/Processos.antt =====
-- `descendentes` and `percentil` of bench/capacidade_local.py. A table of processes is a list of
-- numbers with their parents; a set is a list without repetitions.
pub mod Alcance
mod Tests
use engine_motor.Prelude.{
  ℕ, zero, suc, ◌+◌, ◌-◌, ◌*◌, ◌/◌, min, Bool, true, false, not, ◌&&◌, Option, none, some, List, [],
  ◌∷◌, length, get_or, ltb, leb, ◌==◌, if◌then◌else◌,
}
use engine_motor.Colecoes.{ordenar}

abbrev pub TabelaProcessos : Type 0
TabelaProcessos = List (ℕ × ℕ)

abbrev pub pertence : ℕ → List ℕ → Bool
pertence x [] = false
pertence x (y ∷ ys) = if y == x then true else pertence x ys

-- `ppid in conjunto and pid not in conjunto`.
unfoldable pub entra : ℕ → ℕ → List ℕ → Bool
entra pid ppid c = pertence ppid c && not (pertence pid c)

-- `for pid, (_, ppid, _) in tab.items()`, with the set and `mudou`.
unfoldable pub passada : TabelaProcessos → List ℕ → Bool → List ℕ × Bool
passada [] c mudou = (c, mudou)
passada ((pid, ppid) ∷ t) c mudou =
    passada t (if entra pid ppid c then pid ∷ c else c) (if entra pid ppid c then true else mudou)

-- `while mudou`, with fuel.
unfoldable pub fechar_conjunto : ℕ → TabelaProcessos → List ℕ → Option (List ℕ)
unfolding passada
fechar_conjunto zero tab c = none
fechar_conjunto (suc k) tab c = elim (passada tab c false).1 [
  | true ↦ fechar_conjunto k tab (passada tab c false).0
  | false ↦ some (passada tab c false).0
]

-- `conjunto.discard(raiz)`.
unfoldable pub descartar : ℕ → List ℕ → List ℕ
descartar r [] = []
descartar r (x ∷ xs) = if x == r then descartar r xs else x ∷ descartar r xs

-- Each pass but the last one adds a process of the table.
unfoldable pub descendentes : TabelaProcessos → ℕ → Option (List ℕ)
unfolding fechar_conjunto descartar
descendentes tab raiz = elim (fechar_conjunto (suc (length tab)) tab (raiz ∷ [])) [
  | none ↦ none
  | some c ↦ some (descartar raiz c)
]

-- `percentil`, where `arredondar` is `int(round(p / 100.0 * n))`.
unfoldable pub percentil : (ℕ → ℕ) → List ℕ → Option ℕ
percentil arredondar [] = none
percentil arredondar (x ∷ xs) =
    let n = length (x ∷ xs) - 1 in some (get_or (ordenar leb (x ∷ xs)) (min n (arredondar n)) 0)
