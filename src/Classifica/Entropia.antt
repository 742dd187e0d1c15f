-- ===== src/Classifica/Entropia.antt =====
-- `entropia_plano_medio` and `entropia_transform_minima` of bench/perfil_dataset.py. The entropy of a
-- byte string is an argument, a number of units of which a byte has a fixed number.
pub mod Minimo
use engine_motor.Prelude.{
  ℕ, zero, suc, ◌+◌, ◌*◌, ◌/◌, Option, none, some, List, [], ◌∷◌, ◌++◌, length, get_or, ltb,
  if◌then◌else◌,
}
use engine_motor.Transform.{delta_apply}

pub data Forma : Type 0 where
  delta delta_plano plano : Forma

-- A transform, the width of its words and the entropy behind it, in eighths of the unit, so that the
-- mean over 2, 4 or 8 planes is a number of them.
pub record Candidato : Type 0 where
  pub forma : Forma
  pub largura : ℕ
  pub valor : ℕ

-- `a[:, i]` of `n` rows of `w` bytes.
unfoldable pub coluna : List ℕ → ℕ → ℕ → ℕ → List ℕ
coluna b w i zero = []
coluna b w i (suc n) = get_or b i 0 ∷ coluna b w (i + w) n

module _ (entropia : List ℕ → ℕ) where
  unfoldable pub soma_planos : List ℕ → ℕ → ℕ → ℕ → ℕ
  unfolding coluna
  soma_planos b w n zero = 0
  soma_planos b w n (suc i) = entropia (coluna b w i n) + soma_planos b w n i

  -- The mean over the planes, in eighths: the width divides 8.
  unfoldable pub entropia_plano_medio : List ℕ → ℕ → Option ℕ
  unfolding soma_planos
  entropia_plano_medio b w =
      let n = length b / w in if ltb n 256 then none else some (soma_planos b w n w * (8 / w))

  unfoldable pub com_plano : Forma → ℕ → Option ℕ → List Candidato
  com_plano f w none = []
  com_plano f w (some e) = record { forma = f; largura = w; valor = e } ∷ []

  -- `cand` for one width.
  unfoldable pub candidatos : List ℕ → ℕ → List Candidato
  unfolding com_plano entropia_plano_medio
  candidatos b w =
      let d = delta_apply b w in
      let primeiro : Candidato = record { forma = delta; largura = w; valor = 8 * entropia d } in
      let planos =
        com_plano delta_plano w (entropia_plano_medio d w)
        ++ com_plano plano w (entropia_plano_medio b w) in
      if ltb (length b / w) 256 then [] else primeiro ∷ (if ltb 1 w then planos else [])

  -- `if melhor is None or c[2] < melhor[2]`.
  unfoldable pub menor : Option Candidato → Candidato → Option Candidato
  menor none c = some c
  menor (some m) c = if ltb c.valor m.valor then some c else some m

  unfoldable pub menor_de : List Candidato → Option Candidato → Option Candidato
  unfolding menor
  menor_de [] melhor = melhor
  menor_de (c ∷ cs) melhor = menor_de cs (menor melhor c)

  abbrev pub todos_candidatos : List ℕ → List ℕ → List Candidato
  todos_candidatos b [] = []
  todos_candidatos b (w ∷ ws) = candidatos b w ++ todos_candidatos b ws

  unfoldable pub larguras : List ℕ → List ℕ → Option Candidato → Option Candidato
  unfolding candidatos menor_de
  larguras b [] melhor = melhor
  larguras b (w ∷ ws) melhor = larguras b ws (menor_de (candidatos b w) melhor)

  unfoldable pub entropia_transform_minima : List ℕ → Option Candidato
  unfolding larguras
  entropia_transform_minima b = larguras b (1 ∷ 2 ∷ 4 ∷ 8 ∷ []) none
