-- ===== src/Plano/Rotulos.antt =====
-- `rotular_bloco` of bench/plano_bloco.py. The codecs, `sha` and the float comparison
-- `t < (1.0 - limiar) * ref` are arguments. A size of −1, which says that a candidate was not
-- measured, is `none`, and so is the transform −1; names of candidates are their indexes in CANDS.
use engine_motor.Prelude.{
  ℕ, zero, suc, ◌+◌, min, Bool, false, not, ◌&&◌, Option, none, some, List, [], ◌∷◌, ◌++◌, map,
  length, ltb, if◌then◌else◌,
}
use engine_motor.Prelude.Texts.{same}
use engine_motor.Transform.{Kind, delta, bsplit, aplicar, inverter}

pub record Codec : Type 0 where
  pub comprime : List ℕ → List ℕ
  pub expande : List ℕ → List ℕ

-- `fabricar_codecs`.
pub record Codecs : Type 0 where
  pub zstd_1 : Codec
  pub zstd_3 : Codec
  pub zstd_19 : Codec
  pub xz_9e : Codec
  pub bzip2_9 : Codec

abbrev pub transforms : List (Kind × ℕ)
transforms = (delta, 1) ∷ (delta, 2) ∷ (delta, 4) ∷ (delta, 8) ∷ (bsplit, 4) ∷ (bsplit, 8) ∷ []

-- An entry of `tam` and `ok`.
pub record Medida : Type 0 where
  pub tam : Option ℕ
  pub ok : Bool

pub data FalhaRotulo : Type 0 where
  nao_reversivel : ℕ → FalhaRotulo
  sha_divergente : ℕ → FalhaRotulo

pub record RotuloBloco : Type 0 where
  pub medidas : List Medida
  pub ts : Option ℕ
  pub falhas : List FalhaRotulo

-- `np.argmin`: the first of the least, and the least.
unfoldable pub primeiro_menor : List ℕ → ℕ → ℕ → ℕ → ℕ × ℕ
primeiro_menor [] i menor vencedor = (vencedor, menor)
primeiro_menor (x ∷ xs) i menor vencedor =
    primeiro_menor xs (i + 1) (if ltb x menor then x else menor)
      (if ltb x menor then i else vencedor)

unfoldable pub menor_tamanho : List ℕ → ℕ × ℕ
unfolding primeiro_menor
menor_tamanho [] = (0, 0)
menor_tamanho (x ∷ xs) = primeiro_menor xs 1 x 0

unfoldable pub reversivel : List ℕ → Kind × ℕ → Bool
reversivel x (k, w) = same (inverter (aplicar x k w) k w) x

unfoldable pub nao_reversiveis : List ℕ → ℕ → List (Kind × ℕ) → List FalhaRotulo
unfolding reversivel
nao_reversiveis x ti [] = []
nao_reversiveis x ti (t ∷ ts) =
    if reversivel x t
    then nao_reversiveis x (ti + 1) ts
    else nao_reversivel ti ∷ nao_reversiveis x (ti + 1) ts

-- `tam[j] >= 0 and not ok[j]`.
unfoldable pub diverge : Medida → Bool
diverge m = elim m.tam [ none ↦ false | some n ↦ not m.ok ]

unfoldable pub divergentes : ℕ → List Medida → List FalhaRotulo
unfolding diverge
divergentes j [] = []
divergentes j (m ∷ ms) =
    if diverge m then sha_divergente j ∷ divergentes (j + 1) ms else divergentes (j + 1) ms

abbrev pub transform_em : List (Kind × ℕ) → ℕ → Kind × ℕ
transform_em [] i = (delta, 1)
transform_em (t ∷ ts) zero = t
transform_em (t ∷ ts) (suc i) = transform_em ts i

module _ (sha : List ℕ → List ℕ) (abaixo : ℕ → ℕ → Bool) where
  abbrev pub com_tamanho : List ℕ → List ℕ → List ℕ → Medida
  com_tamanho x c r = record { tam = some (length c); ok = same (sha r) (sha x) }

  unfoldable pub medir : List ℕ → Codec → Medida
  medir x c = com_tamanho x (c.comprime x) (c.expande (c.comprime x))

  -- The loop over TRANSFORMS, whose test of `rev` stands before the digests.
  unfoldable pub medir_transform : List ℕ → Codec → Kind × ℕ → Medida
  unfolding reversivel
  medir_transform x c (k, w) =
      let cy = c.comprime (aplicar x k w) in
      record {
        tam = some (length cy);
        ok = reversivel x (k, w) && same (sha (inverter (c.expande cy) k w)) (sha x);
      }

  -- The asynchronous codecs behind the transform that was chosen.
  unfoldable pub medir_escolhido : List ℕ → Codec → Kind × ℕ → Medida
  medir_escolhido x c (k, w) =
      let cy = c.comprime (aplicar x k w) in com_tamanho x cy (inverter (c.expande cy) k w)

  unfoldable pub tamanhos_apos : List ℕ → Codec → List ℕ
  tamanhos_apos x c = map (λ (t : Kind × ℕ). length (c.comprime (aplicar x t.0 t.1))) transforms

  unfoldable pub escolher_ts : List ℕ → Codec → Option ℕ
  unfolding menor_tamanho tamanhos_apos
  escolher_ts x c =
      let (mi, t) = menor_tamanho (tamanhos_apos x c) in
      if abaixo t (min (length (c.comprime x)) (length x)) then some mi else none

  unfoldable pub com_escolhido : List ℕ → Codecs → Option ℕ → List Medida
  unfolding medir_escolhido
  com_escolhido x cod none =
      record { tam = none; ok = false } ∷ record { tam = none; ok = false } ∷ []
  com_escolhido x cod (some ts) =
      medir_escolhido x cod.zstd_19 (transform_em transforms ts)
      ∷ medir_escolhido x cod.xz_9e (transform_em transforms ts)
      ∷ []

  unfoldable pub medidas_de : List ℕ → Codecs → Option ℕ → List Medida
  unfolding medir medir_transform com_escolhido
  medidas_de x cod ts =
      com_tamanho x x x
        ∷ medir x cod.zstd_1
        ∷ medir x cod.zstd_3
        ∷ map (medir_transform x cod.zstd_3) transforms
      ++ medir x cod.zstd_19 ∷ medir x cod.xz_9e ∷ medir x cod.bzip2_9 ∷ com_escolhido x cod ts

  unfoldable pub rotular_bloco : List ℕ → Codecs → RotuloBloco
  unfolding medidas_de escolher_ts nao_reversiveis divergentes
  rotular_bloco x cod =
      let ts = escolher_ts x cod.zstd_3 in
      let ms = medidas_de x cod ts in
      record { medidas = ms; ts = ts; falhas = nao_reversiveis x 0 transforms ++ divergentes 0 ms }
