-- ===== src/Tar/Campos/Registros.antt =====
-- The loop of `registros_pax` in bench/plano_bloco.py, on records that are well formed and on one of
-- length zero.
use engine_motor.Prelude.{
  ℕ, zero, suc, ◌+◌, ◌-◌, ◌<◌, ◌≡◌, refl, ◌∙◌, none, some, List, [], ◌∷◌, ◌++◌, length, take, drop,
  slice, lt→ltb, arith,
}
use engine_motor.Prelude.Texts.{find_byte}
use engine_motor.Tar.Campos.{inteiro, partition, anotar, registros}
use engine_motor.Tar.Campos.Fim.{bom, sem_fim}

-- The digits of the length, the key and the value.
pub record Registro : Type 0 where
  pub tamanho : List ℕ
  pub chave : List ℕ
  pub valor : List ℕ

-- `chave=valor`.
abbrev pub campo : Registro → List ℕ
campo r = r.chave ++ b'=' ∷ r.valor

abbrev pub bytes_do : Registro → List ℕ
bytes_do r = r.tamanho ++ b' ' ∷ (campo r ++ 10 ∷ [])

abbrev pub bytes_dos : List Registro → List ℕ
bytes_dos [] = []
bytes_dos (r ∷ rs) = bytes_do r ++ bytes_dos rs

-- The digits stand for the length of the record, with themselves, the space and the newline.
pub record IsRegistro (r : Registro) : Type 0 where
  pub counted : inteiro 10 r.tamanho ≡ bom (length (bytes_do r))
  pub no_space : find_byte b' ' r.tamanho ≡ none
  pub no_equals : find_byte b'=' r.chave ≡ none

abbrev pub AllRegistro : List Registro → Type 0
AllRegistro [] = Unit
AllRegistro (r ∷ rs) = IsRegistro r × AllRegistro rs

-- What a round finds at a record: the space, the digits, the field and the next record.
record IsNext (dados : List ℕ) (i : ℕ) (r : Registro) (rest : List ℕ) : Type 0 where
  inside : i < length dados
  space : find_byte b' ' (drop i dados) ≡ some (length r.tamanho)
  digits : take (length r.tamanho) (drop i dados) ≡ r.tamanho
  field : slice (i + length r.tamanho + 1) (i + length (bytes_do r) - 1) dados ≡ campo r
  next : drop (i + length (bytes_do r)) dados ≡ rest

module _ (decode : List ℕ → List ℕ) where
  abbrev pub anotados : List Registro → List (List ℕ × List ℕ) → List (List ℕ × List ℕ)
  anotados [] saida = saida
  anotados (r ∷ rs) saida = anotados rs (anotar (decode r.chave) r.valor saida)

  -- A round of the loop.
  registros-next :
      (f : ℕ) (dados : List ℕ) (i d n : ℕ) (saida : List (List ℕ × List ℕ))
      → i < length dados
      → find_byte b' ' (drop i dados) ≡ some d
      → inteiro 10 (take d (drop i dados)) ≡ bom n
      → registros decode (suc f) dados i saida ≡ (
          let reg = slice (i + d + 1) (i + n - 1) dados in
          registros decode f dados
            (i + n)
            (anotar (decode (partition reg).0) (partition reg).1 saida))
  unfolding registros
  registros-next f dados i d n saida less space number =
      rw (lt→ltb i (length dados) less, registros, space, number) refl

  -- `registros_pax` never returns on data that begin with a record of length zero, whatever stands
  -- behind it: no fuel is enough.
  pub registros_zero :
      (f : ℕ) (rest : List ℕ) (saida : List (List ℕ × List ℕ))
      → registros decode f (b'0' ∷ b' ' ∷ rest) 0 saida ≡ sem_fim
  unfolding registros inteiro
  registros_zero zero rest saida = refl
  registros_zero (suc f) rest saida =
      registros-next f (b'0' ∷ b' ' ∷ rest) 0 1 0 saida (omega arith) refl refl
      ∙ registros_zero f rest _
