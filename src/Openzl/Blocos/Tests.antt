-- ===== src/Openzl/Blocos/Tests.antt =====
-- Cuts of a small text with three lines, and of 8,192 zeros.
use engine_motor.Prelude.{
  ℕ, ◌≡◌, ◌≤◌, ◌⊎◌, refl, true, false, List, [], ◌∷◌, ◌++◌, All, length, replicate, arith,
}
use engine_motor.Prelude.Texts.{codes}
use engine_motor.Openzl.Blocos.{particionar, dividir_em_blocos, cortar_blocos, fatias, posicoes}
use engine_motor.Openzl.Blocos.Divisao.{concatenar, concatenar-dividir_em_blocos}
use engine_motor.Openzl.Blocos.Cortes.{IsBlock, IsRest, tamanho_alinhado, cortar_blocos_lem}

abbrev linhas : List ℕ
linhas = codes "um" ++ 10 ∷ codes "dois" ++ 10 ∷ codes "tres" ++ 10 ∷ []

at_a_line : particionar linhas 1 0 true ≡ 8
unfolding particionar
at_a_line = refl

-- A file that is shorter than its header is cut at 0.
short_file : particionar (1 ∷ 2 ∷ []) 28 28 false ≡ 0
unfolding particionar
short_file = refl

two_cuts : posicoes linhas 3 1 0 true 2 1 0 ≡ 8 ∷ 13 ∷ 13 ∷ []
unfolding posicoes
two_cuts = refl

parts :
    fatias linhas 0 (8 ∷ 13 ∷ 13 ∷ [])
    ≡ (codes "um" ++ 10 ∷ codes "dois" ++ 10 ∷ []) ∷ (codes "tres" ++ 10 ∷ []) ∷ []
unfolding fatias
parts = refl

abbrev zeros : List ℕ
zeros = replicate 8192 0

concatenar-dividir_em_blocos_example : concatenar (dividir_em_blocos zeros 2 8 0 false) ≡ zeros
concatenar-dividir_em_blocos_example = concatenar-dividir_em_blocos zeros 2 8 0 false (omega arith)

by_lines :
    cortar_blocos linhas 5 4 2 true
    ≡ (codes "um" ++ 10 ∷ codes "dois" ++ 10 ∷ []) ∷ (codes "tres" ++ 10 ∷ []) ∷ []
unfolding cortar_blocos
by_lines = refl

cortar_blocos_lem_example :
    let bs = cortar_blocos linhas 5 2 2 true in
    (length bs ≤ 2)
    × All (IsBlock (tamanho_alinhado 5 2) true) bs
    × ((resto : List ℕ) × (concatenar bs ++ resto ≡ linhas)
        × ((length bs ≡ 2) ⊎ IsRest (tamanho_alinhado 5 2) true resto))
cortar_blocos_lem_example = cortar_blocos_lem linhas 5 2 2 true
