-- ===== src/Openzl/Blocos.antt =====
-- `particionar`, `dividir_em_blocos` and `cortar_blocos` of bench/openzl_bench.py. In the table
-- ALINHAMENTO a base is 0 or one unit of the alignment, so that no cut is below 0.
pub mod Divisao
pub mod Linhas
pub mod Cortes
pub mod Particao
mod Tests
use engine_motor.Prelude.{
  ℕ, zero, suc, ◌+◌, ◌-◌, ◌*◌, ◌/◌, max, Bool, true, false, ◌||◌, Option, none, some, List, [], ◌∷◌,
  length, drop, slice, ltb, leb, if◌then◌else◌,
}
use engine_motor.Prelude.Texts.{find_byte}

-- `dados.find(b"\n", c)`.
unfoldable pub nova_linha : List ℕ → ℕ → Option ℕ
nova_linha dados c = elim (find_byte 10 (drop c dados)) [ none ↦ none | some j ↦ some (c + j) ]

-- `base + ((x - base) // alinhamento) * alinhamento`: the quotient is rounded down, also below 0.
unfoldable pub alinhado : ℕ → ℕ → ℕ → ℕ
alinhado x alinhamento base =
    if leb base x
    then base + ((x - base) / alinhamento) * alinhamento
    else base - ((base - x + (alinhamento - 1)) / alinhamento) * alinhamento

-- The middle between the base and the end, `base + (n - base) // 2`.
unfoldable pub metade : ℕ → ℕ → ℕ
metade n base = if leb base n then base + (n - base) / 2 else base - (base - n + 1) / 2

unfoldable pub particionar : List ℕ → ℕ → ℕ → Bool → ℕ
unfolding alinhado metade nova_linha
particionar dados alinhamento base por_linha =
    let corte = alinhado (metade (length dados) base) alinhamento base in
    if por_linha then elim (nova_linha dados corte) [ none ↦ corte | some j ↦ j + 1 ] else corte

-- The cut of round `i` behind the last one.
unfoldable pub posicao : List ℕ → ℕ → ℕ → ℕ → Bool → ℕ → ℕ → ℕ
unfolding alinhado nova_linha
posicao dados k alinhamento base por_linha i ultima =
    let c = max (alinhado ((length dados * i) / k) alinhamento base) ultima in
    if por_linha then elim (nova_linha dados c) [ none ↦ length dados | some j ↦ j + 1 ] else c

-- `for i in range(1, k)` from `i` with `left` rounds left, and `pos.append(n)`.
unfoldable pub posicoes : List ℕ → ℕ → ℕ → ℕ → Bool → ℕ → ℕ → ℕ → List ℕ
unfolding posicao
posicoes dados k alinhamento base por_linha zero i ultima = length dados ∷ []
posicoes dados k alinhamento base por_linha (suc left) i ultima =
    let p = posicao dados k alinhamento base por_linha i ultima in
    p ∷ posicoes dados k alinhamento base por_linha left (i + 1) p

-- `dados[pos[i] : pos[i + 1]]` where that is not empty.
unfoldable pub fatias : List ℕ → ℕ → List ℕ → List (List ℕ)
fatias dados p [] = []
fatias dados p (q ∷ qs) =
    let resto = fatias dados q qs in if ltb p q then slice p q dados ∷ resto else resto

unfoldable pub dividir_em_blocos : List ℕ → ℕ → ℕ → ℕ → Bool → List (List ℕ)
unfolding posicoes fatias
dividir_em_blocos dados k alinhamento base por_linha =
    if leb k 1 || ltb (length dados) (k * 4096)
    then dados ∷ []
    else fatias dados 0 (posicoes dados k alinhamento base por_linha (k - 1) 1 0)

-- The end of a block, behind the guards of the round.
unfoldable pub fim_do_bloco : List ℕ → ℕ → Bool → ℕ → Option ℕ
unfolding nova_linha
fim_do_bloco dados tamanho por_linha pos =
    let fim = pos + tamanho in
    if leb (length dados) fim
    then none
    else if por_linha
    then elim (nova_linha dados fim) [ none ↦ none | some j ↦ some (j + 1) ]
    else some fim

-- The loop, with `left` blocks that are still allowed.
unfoldable pub cortar : List ℕ → ℕ → Bool → ℕ → ℕ → List (List ℕ)
unfolding fim_do_bloco
cortar dados tamanho por_linha zero pos = []
cortar dados tamanho por_linha (suc left) pos =
    if leb (length dados) pos then [] else elim (fim_do_bloco dados tamanho por_linha pos) [
      | none ↦ []
      | some fim ↦ slice pos fim dados ∷ cortar dados tamanho por_linha left fim
    ]

unfoldable pub cortar_blocos : List ℕ → ℕ → ℕ → ℕ → Bool → List (List ℕ)
unfolding cortar
cortar_blocos dados tamanho maximo alinhamento por_linha =
    cortar dados (max alinhamento (tamanho / alinhamento * alinhamento)) por_linha maximo 0
