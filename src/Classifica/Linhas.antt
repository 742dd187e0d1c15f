-- ===== src/Classifica/Linhas.antt =====
-- `contar_linhas_validas` of bench/perfil_dataset.py, and tests over its lines.
use engine_motor.Prelude.{
  ℕ, ◌+◌, Bool, true, false, not, ◌&&◌, ◌||◌, List, [], ◌∷◌, length, ltb, if◌then◌else◌,
}
use engine_motor.Prelude.Texts.{espacos, has_byte, right_strip}
use engine_motor.Openzl.Csv.{split}

-- `l.strip()` is not empty.
unfoldable pub com_texto : List ℕ → Bool
com_texto [] = false
com_texto (c ∷ cs) = not (has_byte c espacos) || com_texto cs

unfoldable pub sem_ultima : List (List ℕ) → List (List ℕ)
sem_ultima [] = []
sem_ultima (l ∷ []) = []
sem_ultima (l ∷ m ∷ ls) = l ∷ sem_ultima (m ∷ ls)

unfoldable pub validas : List (List ℕ) → List (List ℕ)
unfolding com_texto
validas [] = []
validas (l ∷ ls) =
    let resto = validas ls in if com_texto l then right_strip (13 ∷ []) l ∷ resto else resto

unfoldable pub contar_linhas_validas : List ℕ → Bool → List (List ℕ)
unfolding split sem_ultima validas
contar_linhas_validas head completo =
    let linhas = split 10 head in
    validas (if not completo && ltb 1 (length linhas) then sem_ultima linhas else linhas)

abbrev pub todas : (List ℕ → Bool) → List (List ℕ) → Bool
todas p [] = true
todas p (l ∷ ls) = p l && todas p ls

abbrev pub quantas : (List ℕ → Bool) → List (List ℕ) → ℕ
quantas p [] = 0
quantas p (l ∷ ls) = (if p l then 1 else 0) + quantas p ls
