-- ===== src/Capacidade/Processos/Tests.antt =====
-- A tree of processes below 5, one beside it, and a cycle that the root does not reach.
use engine_motor.Prelude.{ℕ, ◌≡◌, ◌≢◌, ◌↔◌, refl, true, some, List, [], ◌∷◌}
use engine_motor.Colecoes.{ordenar}
use engine_motor.Capacidade.Processos.{TabelaProcessos, pertence, entra, descendentes, percentil}
use engine_motor.Capacidade.Processos.Alcance.{Descende, descendentes-iff-Descende}

abbrev tabela : TabelaProcessos
tabela = (9, 8) ∷ (8, 5) ∷ (5, 1) ∷ (7, 1) ∷ (20, 21) ∷ (21, 20) ∷ []

below_five : descendentes tabela 5 ≡ some (9 ∷ 8 ∷ [])
unfolding descendentes entra
below_five = refl

descendentes-iff-Descende_example :
    (c : List ℕ) × (descendentes tabela 5 ≡ some c)
    × ((x : ℕ) → (pertence x c ≡ true) ↔ (Descende tabela 5 x × (x ≢ 5)))
descendentes-iff-Descende_example = descendentes-iff-Descende tabela 5

last_of_three : percentil (λ n. n) (3 ∷ 9 ∷ 4 ∷ []) ≡ some 9
unfolding percentil ordenar
last_of_three = refl
