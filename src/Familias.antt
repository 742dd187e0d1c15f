-- ===== src/Familias.antt =====
-- The families of versions of bench/perfil_dataset.py: `montar_cadeias`, `etapa_familias` and
-- `alocar_pares`. The keys of the three modes and the natural order of the paths, which the source
-- computes with regular expressions, are arguments: what is proved holds for all of them. The
-- tolerance on the sizes is a ratio `num / den` (3 / 2 by default).
pub mod Contagem
pub mod Cadeias
pub mod Etapa
pub mod Pares
pub mod Cotas
mod Tests
use engine_motor.Prelude.{
  ℕ, zero, suc, ◌+◌, ◌-◌, ◌*◌, ◌/◌, min, max, Bool, true, false, not, ◌&&◌, ◌||◌, Option, none,
  some, List, [], ◌∷◌, ◌++◌, length, ltb, leb, ◌==◌, if◌then◌else◌,
}
use engine_motor.Colecoes.{ordenar, agrupar}

-- The fields of `Arq` that the stage reads and writes; `legivel` stands for `legivel(a)`.
pub record Ficha : Type 0 where
  pub i : ℕ
  pub tam : ℕ
  pub legivel : Bool
  pub redundante : Bool
  pub familia : Option ℕ
  pub base : Bool

-- The three keys of `chave_familia`.
pub data Modo : Type 0 where
  por_nome por_radical por_radical_e_diretorio : Modo

-- `max(a.tam, ant.tam) <= tol * min(a.tam, ant.tam)`.
unfoldable pub proximo : ℕ → ℕ → Ficha → Ficha → Bool
proximo num den ant a = leb (max a.tam ant.tam * den) (num * min a.tam ant.tam)

module _ {ℓ} {K : Type ℓ} where
  -- `if len(cadeia) >= 2: achadas.append((chave, cadeia))`.
  unfoldable pub fechar : K → List Ficha → List (K × List Ficha) → List (K × List Ficha)
  fechar chave cadeia achadas =
      if leb 2 (length cadeia) then achadas ++ (chave, cadeia) ∷ [] else achadas

  -- The body of `for a in membros[1:]`: the chain goes on, or is closed and another begins.
  unfoldable pub avancar :
      Bool → K → Ficha → List Ficha → List (K × List Ficha) → List Ficha × List (K × List Ficha)
  unfolding fechar
  avancar true chave a cadeia achadas = (cadeia ++ a ∷ [], achadas)
  avancar false chave a cadeia achadas = (a ∷ [], fechar chave cadeia achadas)

  module _ (num den : ℕ) where
    -- The loop; `ant` is the last of the chain.
    unfoldable pub encadear :
        K → Ficha → List Ficha → List Ficha → List (K × List Ficha) → List (K × List Ficha)
    unfolding avancar proximo fechar
    encadear chave ant cadeia [] achadas = fechar chave cadeia achadas
    encadear chave ant cadeia (a ∷ ms) achadas =
        let (cadeia', achadas') = avancar (proximo num den ant a) chave a cadeia achadas in
        encadear chave a cadeia' ms achadas'

    -- One group, in its order.
    unfoldable pub encadear_grupo : K → List Ficha → List (K × List Ficha) → List (K × List Ficha)
    unfolding encadear
    encadear_grupo chave [] achadas = achadas
    encadear_grupo chave (m ∷ ms) achadas = encadear chave m (m ∷ []) ms achadas

    module _ (antes : Ficha → Ficha → Bool) where
      unfoldable pub montar_cadeias_de :
          List (K × List Ficha) → List (K × List Ficha) → List (K × List Ficha)
      unfolding encadear_grupo ordenar
      montar_cadeias_de [] achadas = achadas
      montar_cadeias_de ((chave, membros) ∷ gs) achadas = montar_cadeias_de gs (
          if ltb (length membros) 2
          then achadas
          else encadear_grupo chave (ordenar antes membros) achadas)

      unfoldable pub montar_cadeias : List (K × List Ficha) → List (K × List Ficha)
      unfolding montar_cadeias_de
      montar_cadeias grupos = montar_cadeias_de grupos []

-- `a.i in usados`, for the members of the chains.
unfoldable pub contem : ℕ → List Ficha → Bool
contem n [] = false
contem n (a ∷ ms) = (a.i == n) || contem n ms

unfoldable pub usado {ℓ} : {K : Type ℓ} → ℕ → List (K × List Ficha) → Bool
unfolding contem
usado n [] = false
usado n ((k, c) ∷ fs) = contem n c || usado n fs

-- `[a for a in livres if a.i not in usados]`.
unfoldable pub sem_usados {ℓ} : {K : Type ℓ} → List (K × List Ficha) → List Ficha → List Ficha
unfolding usado
sem_usados fs [] = []
sem_usados fs (a ∷ ms) = let resto = sem_usados fs ms in if usado a.i fs then resto else a ∷ resto

-- The files that the stage starts from.
unfoldable pub livres : List Ficha → List Ficha
livres [] = []
livres (a ∷ ms) =
    let resto = livres ms in
    if ltb 0 a.tam && (a.legivel && not a.redundante) then a ∷ resto else resto

-- `f[1][0].i`; a family is not empty.
unfoldable pub primeiro : List Ficha → ℕ
primeiro [] = 0
primeiro (a ∷ ms) = a.i

-- `a.familia = k; a.base = j == 0` in the file of that index.
unfoldable pub marcar : ℕ → Bool → ℕ → List Ficha → List Ficha
marcar n cabeca k [] = []
marcar n cabeca k (f ∷ fs) =
    (if f.i == n then record f { familia = some k; base = cabeca } else f) ∷ marcar n cabeca k fs

unfoldable pub marcar_cadeia : Bool → ℕ → List Ficha → List Ficha → List Ficha
unfolding marcar
marcar_cadeia cabeca k [] fs = fs
marcar_cadeia cabeca k (a ∷ ms) fs = marcar_cadeia false k ms (marcar a.i cabeca k fs)

unfoldable pub marcar_familias {ℓ} :
    {K : Type ℓ} → ℕ → List (K × List Ficha) → List Ficha → List Ficha
unfolding marcar_cadeia
marcar_familias k [] fs = fs
marcar_familias k ((chave, c) ∷ cs) fs = marcar_familias (suc k) cs (marcar_cadeia true k c fs)

-- The arguments of the stage that the source computes from the names.
pub record Regras {ℓ} (K : Type ℓ) : Type ℓ where
  pub igual : K → K → Bool
  pub chave : Modo → Ficha → K
  pub antes : Ficha → Ficha → Bool
  pub num : ℕ
  pub den : ℕ

module _ {ℓ} {K : Type ℓ} (r : Regras K) where
  -- The body of `for modo in ("A", "B", "C")`.
  unfoldable pub rodada :
      Modo → List (K × List Ficha) × List Ficha → List (K × List Ficha) × List Ficha
  unfolding montar_cadeias agrupar sem_usados
  rodada modo (familias, ls) =
      let achadas = montar_cadeias r.num r.den r.antes (agrupar r.igual (r.chave modo) ls []) in
      (familias ++ achadas, sem_usados achadas ls)

  -- The families in the order of their first member.
  unfoldable pub familias_de : List Ficha → List (K × List Ficha)
  unfolding rodada livres ordenar primeiro
  familias_de arquivos =
      let (familias, ls) =
        rodada por_radical_e_diretorio
          (rodada por_radical (rodada por_nome ([], livres arquivos))) in
      ordenar (λ f g. leb (primeiro f.1) (primeiro g.1)) familias

  -- `etapa_familias`: the families, and the files with their marks.
  unfoldable pub etapa_familias : List Ficha → List (K × List Ficha) × List Ficha
  unfolding familias_de marcar_familias
  etapa_familias arquivos =
      let familias = familias_de arquivos in (familias, marcar_familias 0 familias arquivos)
