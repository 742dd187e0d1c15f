-- ===== src/Openzl/Cbor.antt =====
-- `decodificar_cbor` of bench/openzl_bench.py. The pair `b, i` is the suffix `b[i:]`: the source reads
-- `b` only from `i` on, and what it returns is the value and where it stopped.
pub mod Codigo
pub mod Cabeca
pub mod Passos
pub mod Fim
pub mod RoundTrip
mod Tests
use engine_motor.Prelude.{
  ℕ, zero, suc, ◌+◌, ◌*◌, ◌/◌, ◌%◌, Bool, true, false, ◌&&◌, Option, none, some, List, [], ◌∷◌,
  length, take, drop, ltb, ◌==◌, if◌then◌else◌,
}
use engine_motor.Prelude.Texts.{same}

-- What Python raises: `IndexError`, `struct.error`, `TypeError`, `ValueError`.
pub data Erro : Type 0 where
  fora_do_indice fora_da_palavra de_tipo ai_invalido : Erro

-- `negativo n` is `-1 - n`, and `texto` holds what `decode("utf-8", "replace")` returns.
mutual
  pub data Valor : Type 0 where
    natural negativo : ℕ → Valor
    octetos texto : List ℕ → Valor
    logico : Bool → Valor
    nulo : Valor
    lista : Itens → Valor
    mapa : Pares → Valor

  pub data Itens : Type 0 where
    sem_itens : Itens
    item : Valor → Itens → Itens

  pub data Pares : Type 0 where
    sem_pares : Pares
    par : Valor → Valor → Pares → Pares

-- A value and the suffix behind it, an error, or no fuel left.
pub data Leitura {ℓ} (A : Type ℓ) : Type ℓ where
  lido : A → List ℕ → Leitura A
  erro : Erro → Leitura A
  esgotado : Leitura A

-- What comes behind a value that was read, or the error.
abbrev pub seguir {ℓ κ} :
    {A : Type ℓ} {B : Type κ} → Leitura A → (A → List ℕ → Leitura B) → Leitura B
seguir (lido a b) k = k a b
seguir (erro e) k = erro e
seguir esgotado k = esgotado

-- `out.append(x)`.
unfoldable pub acrescentar : Itens → Valor → Itens
acrescentar sem_itens v = item v sem_itens
acrescentar (item u vs) v = item u (acrescentar vs v)

abbrev como_numero : Bool → ℕ
como_numero b = if b then 1 else 0

-- Two keys of a dict are one: `1` and `True` are equal, and so are `0` and `False`.
unfoldable pub mesma_chave : Valor → Valor → Bool
mesma_chave (natural n) (natural m) = n == m
mesma_chave (natural n) (logico b) = n == como_numero b
mesma_chave (logico b) (natural n) = n == como_numero b
mesma_chave (logico b) (logico c) = como_numero b == como_numero c
mesma_chave (negativo n) (negativo m) = n == m
mesma_chave (octetos a) (octetos b) = same a b
mesma_chave (texto a) (texto b) = same a b
mesma_chave nulo nulo = true
mesma_chave k j = false

-- A list and a dict are not keys.
abbrev pub hashable : Valor → Bool
hashable (lista vs) = false
hashable (mapa ps) = false
hashable v = true

-- `out[k] = v` for a key: the first key that is equal stays, with the new value.
unfoldable pub guardar : Valor → Valor → Pares → Pares
unfolding mesma_chave
guardar k v sem_pares = par k v sem_pares
guardar k v (par j u ps) =
    let resto = guardar k v ps in if mesma_chave k j then par j v ps else par j u resto

-- `struct.unpack(">...", b[i : i + k])`, which wants `k` bytes.
unfoldable pub big_endian : ℕ → List ℕ → ℕ
big_endian acc [] = acc
big_endian acc (x ∷ xs) = big_endian (acc * 256 + x) xs

unfoldable pub palavra : ℕ → List ℕ → Leitura (Option ℕ)
unfolding big_endian
palavra k b =
    if ltb (length b) k
    then erro fora_da_palavra
    else lido (some (big_endian 0 (take k b))) (drop k b)

abbrev pub octeto : List ℕ → Leitura (Option ℕ)
octeto [] = erro fora_do_indice
octeto (x ∷ b) = lido (some x) b

-- `val`: none stands for the indefinite length.
unfoldable pub ler_val : ℕ → List ℕ → Leitura (Option ℕ)
unfolding palavra
ler_val ai b =
    if ltb ai 24
    then lido (some ai) b
    else if ai == 24
    then octeto b
    else if ai == 25
    then palavra 2 b
    else if ai == 26
    then palavra 4 b
    else if ai == 27
    then palavra 8 b
    else if ai == 31
    then lido none b
    else erro ai_invalido

-- The value of `mt`.
pub data Maior : Type 0 where
  de_natural de_negativo de_octetos de_texto de_lista de_mapa de_etiqueta de_simples : Maior

unfoldable pub maior : ℕ → Maior
maior mt =
    if mt == 0
    then de_natural
    else if mt == 1
    then de_negativo
    else if mt == 2
    then de_octetos
    else if mt == 3
    then de_texto
    else if mt == 4
    then de_lista
    else if mt == 5
    then de_mapa
    else if mt == 6
    then de_etiqueta
    else de_simples

abbrev pub simples : ℕ → Option ℕ → Valor
simples ai none = nulo
simples ai (some val) =
    if ai == 20
    then logico false
    else if ai == 21
    then logico true
    else if ai == 22
    then nulo
    else natural val

module _ (dec : List ℕ → Leitura Valor) where
  -- `for _ in range(val)` over a list.
  unfoldable pub repetir : ℕ → Itens → List ℕ → Leitura Valor
  unfolding acrescentar
  repetir zero out b = lido (lista out) b
  repetir (suc n) out b = seguir (dec b) λ x b'. repetir n (acrescentar out x) b'

  -- `while b[i] != 0xFF` over a list.
  unfoldable pub ate_quebra : ℕ → Itens → List ℕ → Leitura Valor
  unfolding acrescentar
  ate_quebra zero out b = esgotado
  ate_quebra (suc g) out [] = erro fora_do_indice
  ate_quebra (suc g) out (c ∷ b) = elim (c == 0xff) [
    | true ↦ lido (lista out) b
    | false ↦ seguir (dec (c ∷ b)) λ x b'. ate_quebra g (acrescentar out x) b'
  ]

  -- The two values of a round over a dict, and `out[k] = v`.
  unfoldable pub ler_par : Pares → List ℕ → Leitura Pares
  unfolding guardar
  ler_par out b = seguir (dec b) λ k b'.
      seguir (dec b') λ v b''. if hashable k then lido (guardar k v out) b'' else erro de_tipo

  unfoldable pub repetir_pares : ℕ → Pares → List ℕ → Leitura Valor
  unfolding ler_par
  repetir_pares zero out b = lido (mapa out) b
  repetir_pares (suc n) out b = seguir (ler_par out b) λ out' b'. repetir_pares n out' b'

  unfoldable pub pares_ate_quebra : ℕ → Pares → List ℕ → Leitura Valor
  unfolding ler_par
  pares_ate_quebra zero out b = esgotado
  pares_ate_quebra (suc g) out [] = erro fora_do_indice
  pares_ate_quebra (suc g) out (c ∷ b) = elim (c == 0xff) [
    | true ↦ lido (mapa out) b
    | false ↦ seguir (ler_par out (c ∷ b)) λ out' b'. pares_ate_quebra g out' b'
  ]

  -- The tests on `mt`, behind `val`. A loop to 0xFF has a round for each byte.
  unfoldable pub corpo : (List ℕ → List ℕ) → Maior → ℕ → Option ℕ → List ℕ → Leitura Valor
  unfolding repetir ate_quebra repetir_pares pares_ate_quebra
  corpo decode de_natural ai none b = lido nulo b
  corpo decode de_natural ai (some val) b = lido (natural val) b
  corpo decode de_negativo ai none b = erro de_tipo
  corpo decode de_negativo ai (some val) b = lido (negativo val) b
  corpo decode de_octetos ai none b = erro de_tipo
  corpo decode de_octetos ai (some val) b = lido (octetos (take val b)) (drop val b)
  corpo decode de_texto ai none b = erro de_tipo
  corpo decode de_texto ai (some val) b = lido (texto (decode (take val b))) (drop val b)
  corpo decode de_lista ai none b = ate_quebra (suc (length b)) sem_itens b
  corpo decode de_lista ai (some val) b = repetir val sem_itens b
  corpo decode de_mapa ai none b = pares_ate_quebra (suc (length b)) sem_pares b
  corpo decode de_mapa ai (some val) b = repetir_pares val sem_pares b
  corpo decode de_etiqueta ai val b = dec b
  corpo decode de_simples ai val b = lido (simples ai val) b

module _ (decode : List ℕ → List ℕ) where
  -- The fuel bounds how deep the values are nested.
  unfoldable pub decodificar : ℕ → List ℕ → Leitura Valor
  unfolding ler_val maior corpo
  decodificar zero b = esgotado
  decodificar (suc f) [] = erro fora_do_indice
  decodificar (suc f) (ib ∷ b) =
      seguir (ler_val (ib % 32) b)
        λ val b'. corpo (decodificar f) decode (maior (ib / 32)) (ib % 32) val b'

  unfoldable pub decodificar_cbor : List ℕ → Leitura Valor
  unfolding decodificar
  decodificar_cbor b = decodificar (suc (length b)) b
