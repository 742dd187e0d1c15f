-- ===== src/Tar/Campos.antt =====
-- `tamanho_tar`, `registros_pax` and `grupo_de` of bench/plano_bloco.py, with the `int` of Python that
-- they call. What `decode("utf-8", "replace")` returns is an argument.
pub mod Registros
mod Tests
use engine_motor.Prelude.{
  ℕ, zero, suc, ◌+◌, ◌-◌, ◌*◌, ◌%◌, Bool, true, false, not, ◌&&◌, ◌||◌, Option, none, some, List,
  [], ◌∷◌, ◌++◌, length, take, drop, slice, ltb, leb, ◌==◌, if◌then◌else◌,
}
use engine_motor.Prelude.Texts.{espacos, same, has_byte, left_strip, right_strip, find_byte}
use engine_motor.Openzl.Csv.{split}
use engine_motor.Openzl.Cbor.{big_endian}

-- How a function ends: with a value, with `ValueError`, with a negative number, for which what
-- follows is not modelled, or never.
pub data Fim {ℓ} (A : Type ℓ) : Type ℓ where
  bom : A → Fim A
  erro_de_valor negativo sem_fim : Fim A

abbrev pub entao {ℓ κ} : {A : Type ℓ} {B : Type κ} → Fim A → (A → Fim B) → Fim B
entao (bom a) k = k a
entao erro_de_valor k = erro_de_valor
entao negativo k = negativo
entao sem_fim k = sem_fim

abbrev pub aparado : List ℕ → List ℕ
aparado t = left_strip espacos (right_strip espacos t)

-- What a character is to `int` in a base of ten or less.
pub data Sinal : Type 0 where
  algarismo : ℕ → Sinal
  traco outro : Sinal

abbrev pub sinal : ℕ → ℕ → Sinal
sinal base c =
    if c == b'_' then traco else if leb 48 c && ltb c (48 + base) then algarismo (c - 48) else outro

-- Digits with single underscores between them.
unfoldable pub digitos : ℕ → Bool → ℕ → List ℕ → Option ℕ
digitos base true acc [] = some acc
digitos base false acc [] = none
digitos base ultimo acc (c ∷ cs) = elim (sinal base c) [
  | algarismo d ↦ digitos base true (acc * base + d) cs
  | traco ↦ elim ultimo [ true ↦ digitos base false acc cs | false ↦ none ]
  | outro ↦ none
]

-- The prefix `0o` that base eight allows, with an underscore behind it.
abbrev pub sem_prefixo : ℕ → List ℕ → List ℕ
sem_prefixo base (c ∷ d ∷ cs) =
    if (base == 8 && c == b'0') && (d == b'o' || d == b'O')
    then elim cs [ [] ↦ [] | e ∷ es ↦ if e == b'_' then es else e ∷ es ]
    else c ∷ d ∷ cs
sem_prefixo base cs = cs

abbrev pub sem_sinal : ℕ → List ℕ → Fim ℕ
sem_sinal base t = elim (digitos base false 0 (sem_prefixo base t)) [
  | none ↦ erro_de_valor
  | some n ↦ bom n
]

-- Minus zero is zero.
abbrev pub oposto : Fim ℕ → Fim ℕ
oposto (bom zero) = bom 0
oposto (bom (suc n)) = negativo
oposto r = r

-- `int(t, base)`.
unfoldable pub inteiro : ℕ → List ℕ → Fim ℕ
unfolding digitos
inteiro base t = elim (aparado t) [
  | [] ↦ erro_de_valor
  | c ∷ cs ↦
      if c == b'-'
      then oposto (sem_sinal base cs)
      else if c == b'+'
      then sem_sinal base cs
      else sem_sinal base (c ∷ cs)
]

-- `campo.split(b"\0")[0]`.
unfoldable pub ate_nul : List ℕ → List ℕ
ate_nul [] = []
ate_nul (c ∷ cs) = let resto = ate_nul cs in if c == 0 then [] else c ∷ resto

-- A field of a header has twelve bytes, so that it has a first; `campo[0] & 0x80` of a byte is a test
-- against 128.
unfoldable pub tamanho_tar : List ℕ → Fim ℕ
unfolding ate_nul inteiro big_endian
tamanho_tar [] = erro_de_valor
tamanho_tar (c ∷ cs) =
    if leb 128 c
    then bom (big_endian 0 (c % 128 ∷ cs))
    else elim (aparado (ate_nul (c ∷ cs))) [ [] ↦ bom 0 | d ∷ ds ↦ inteiro 8 (d ∷ ds) ]

-- `reg.partition(b"=")`, without its middle.
unfoldable pub partition : List ℕ → List ℕ × List ℕ
partition reg = elim (find_byte b'=' reg) [
  | none ↦ (reg, [])
  | some j ↦ (take j reg, drop (j + 1) reg)
]

-- `saida[k] = v`.
unfoldable pub anotar : List ℕ → List ℕ → List (List ℕ × List ℕ) → List (List ℕ × List ℕ)
anotar k v [] = (k, v) ∷ []
anotar k v ((j, u) ∷ saida) =
    let resto = anotar k v saida in if same j k then (j, v) ∷ saida else (j, u) ∷ resto

module _ (decode : List ℕ → List ℕ) where
  -- The loop from `i` on, with fuel. The end `i + n - 1` of the slice is below 0 only for `i = n = 0`,
  -- where the loop does not end.
  unfoldable pub registros : ℕ → List ℕ → ℕ → List (List ℕ × List ℕ) → Fim (List (List ℕ × List ℕ))
  unfolding inteiro partition anotar
  registros zero dados i saida = sem_fim
  registros (suc f) dados i saida = elim (ltb i (length dados)) [
    | false ↦ bom saida
    | true ↦ elim (find_byte b' ' (drop i dados)) [
      | none ↦ erro_de_valor
      | some d ↦ entao (inteiro 10 (take d (drop i dados))) λ n.
          let reg = slice (i + d + 1) (i + n - 1) dados in
          registros f dados (i + n) (anotar (decode (partition reg).0) (partition reg).1 saida)
    ]
  ]

  unfoldable pub registros_pax : List ℕ → Fim (List (List ℕ × List ℕ))
  unfolding registros
  registros_pax dados = registros (suc (length dados)) dados 0 []

  -- `nome.strip("/").split("/")[1:]` of the decoded name, and the two parts of the key.
  unfoldable pub grupo_de : List ℕ → List ℕ × List ℕ
  unfolding split
  grupo_de nome =
      elim (split b'/' (left_strip (b'/' ∷ []) (right_strip (b'/' ∷ []) (decode nome)))) [
        | [] ↦ (b'r' ∷ b'a' ∷ b'i' ∷ b'z' ∷ [], b'_' ∷ [])
        | _ ∷ [] ↦ (b'r' ∷ b'a' ∷ b'i' ∷ b'z' ∷ [], b'_' ∷ [])
        | _ ∷ _ ∷ [] ↦ (b'r' ∷ b'a' ∷ b'i' ∷ b'z' ∷ [], b'_' ∷ [])
        | _ ∷ top ∷ sub ∷ [] ↦ (top, b'_' ∷ [])
        | _ ∷ top ∷ sub ∷ _ ∷ _ ↦ (top, sub)
      ]
