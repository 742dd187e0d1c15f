-- ===== src/Chunks.antt =====
-- The chunk index of bench/dedup.py: `chunkear` and the scan of `varrer_chunks` with the index of
-- unique chunks, the references of each file and what is counted. The digest, the codec and the cuts
-- by content of bench/cdc.c are arguments. The references of the flat array `rec` from `ini[j]` to
-- `ini[j + 1]` are the list of the file j. The sizes at level 19 and the report are left out.
pub mod Cortes
pub mod Refs
pub mod RoundTrip
pub mod Contas
pub mod Inteiro
mod Tests
use engine_motor.Prelude.{
  ℕ, zero, suc, ◌+◌, ◌-◌, min, Bool, true, false, ◌&&◌, Option, none, some, List, [], ◌∷◌, ◌++◌,
  length, map, take, drop, get_elem?, get_or, ltb, leb, ◌/◌, ◌==◌, if◌then◌else◌,
}

-- `range(0, n, tam)` with the sizes `min(tam, n - o)`, from the offset `o`.
unfoldable pub cortes_fixos : ℕ → ℕ → ℕ → ℕ → List (ℕ × ℕ)
cortes_fixos zero tam n o = []
cortes_fixos (suc fuel) tam n o =
    let resto = cortes_fixos fuel tam n (o + tam) in
    if ltb o n then (o, min tam (n - o)) ∷ resto else []

-- The entries of `CHUNKERS`, with their target size.
pub data Corte : Type 0 where
  fixo cdc : ℕ → Corte

-- `chunkear`; `fastcdc` is the C function, for a target and the bytes, where its capacity is enough.
unfoldable pub chunkear : (ℕ → List ℕ → List (ℕ × ℕ)) → Corte → List ℕ → List (ℕ × ℕ)
unfolding cortes_fixos
chunkear fastcdc c [] = []
chunkear fastcdc (fixo alvo) (b ∷ bs) = let n = suc (length bs) in cortes_fixos n alvo n 0
chunkear fastcdc (cdc alvo) (b ∷ bs) =
    let n = suc (length bs) in if leb n (alvo / 4) then (0, n) ∷ [] else fastcdc alvo (b ∷ bs)

-- `u_ver`, `u_obj`, `u_off`, `u_tam` and `u_c3` of a unique chunk.
pub record Unico : Type 0 where
  pub ver : ℕ
  pub obj : ℕ
  pub off : ℕ
  pub tam : ℕ
  pub c3 : ℕ

-- What the scan fills; `referencias` stands for the `rec` of the version at hand.
pub record Indice (H : Type 0) : Type 0 where
  pub dic : List (H × ℕ)
  pub unicos : List Unico
  pub n_chunks : ℕ → ℕ
  pub vs_v1 : ℕ
  pub dup_total : ℕ
  pub codec_ok : Bool

pub record Opcoes (H : Type 0) : Type 0 where
  pub resumo : List ℕ → H
  pub igual_h : H → H → Bool
  pub corte : Corte
  pub fastcdc : ℕ → List ℕ → List (ℕ × ℕ)
  pub comprimir : List ℕ → List ℕ
  pub descomprimir : List ℕ → List ℕ
  pub igual : List ℕ → List ℕ → Bool

abbrev pub vazio : {H : Type 0} → Indice H
vazio = record {
  dic = [];
  unicos = [];
  n_chunks = λ ver. 0;
  vs_v1 = 0;
  dup_total = 0;
  codec_ok = true;
}

-- `mv[o : o + s]`.
abbrev pub pedaco : List ℕ → ℕ → ℕ → List ℕ
pedaco dados o s = take s (drop o dados)

-- `u_ver[u]`.
unfoldable pub versao_de : List Unico → ℕ → ℕ
versao_de us u = elim (get_elem? us u) [ none ↦ 0 | some x ↦ x.ver ]

-- `n_chunks[ver] += len(offs)`.
unfoldable pub contar : {H : Type 0} → ℕ → ℕ → Indice H → Indice H
contar ver k x = record x { n_chunks = λ w. if w == ver then x.n_chunks w + k else x.n_chunks w }

module _ {H : Type 0} (op : Opcoes H) where
  -- `dic.get(h)`.
  unfoldable pub buscar : H → List (H × ℕ) → Option ℕ
  buscar h [] = none
  buscar h ((k, u) ∷ ds) = if op.igual_h k h then some u else buscar h ds

  -- A chunk that is not in the index.
  unfoldable pub novo : ℕ → ℕ → ℕ → ℕ → List ℕ → H → Indice H → Indice H
  novo ver i o s v h x =
      let c = op.comprimir v in
      record x {
        dic = x.dic ++ (h, length x.unicos) ∷ [];
        unicos = x.unicos ++ record { ver = ver; obj = i; off = o; tam = s; c3 = length c } ∷ [];
        codec_ok = x.codec_ok && op.igual (op.descomprimir c) v;
      }

  -- A chunk that is in the index at `u`.
  unfoldable pub repetido : ℕ → ℕ → ℕ → Indice H → Indice H
  unfolding versao_de
  repetido ver u s x =
      if ver == 1
      then record x {
        dup_total = x.dup_total + s;
        vs_v1 = if versao_de x.unicos u == 0 then x.vs_v1 + s else x.vs_v1;
      }
      else x

  -- The body of `for o, s in zip(...)`: the reference and the index.
  unfoldable pub incluir : ℕ → ℕ → List ℕ → ℕ → ℕ → Indice H → ℕ × Indice H
  unfolding buscar novo repetido
  incluir ver i dados o s x =
      let v = pedaco dados o s in
      elim (buscar (op.resumo v) x.dic) [
        | none ↦ (length x.unicos, novo ver i o s v (op.resumo v) x)
        | some u ↦ (u, repetido ver u s x)
      ]

  unfoldable pub incluir_todos : ℕ → ℕ → List ℕ → List (ℕ × ℕ) → Indice H → List ℕ × Indice H
  unfolding incluir
  incluir_todos ver i dados [] x = ([], x)
  incluir_todos ver i dados ((o, s) ∷ cs) x =
      let (u, x') = incluir ver i dados o s x in
      let (us, x'') = incluir_todos ver i dados cs x' in (u ∷ us, x'')

  -- `for i in range(f.n)` of one version: the references of each file.
  unfoldable pub varrer_versao : ℕ → ℕ → List (List ℕ) → Indice H → List (List ℕ) × Indice H
  unfolding incluir_todos chunkear contar
  varrer_versao ver i [] x = ([], x)
  varrer_versao ver i (dados ∷ fs) x =
      let cs = chunkear op.fastcdc op.corte dados in
      let (us, x') = incluir_todos ver i dados cs (contar ver (length cs) x) in
      let (uss, x'') = varrer_versao ver (suc i) fs x' in (us ∷ uss, x'')

-- `for ver in (0, 1)`: the references of both versions, and the index.
unfoldable pub varrer_chunks :
    {H : Type 0}
    → Opcoes H
    → List (List ℕ)
    → List (List ℕ)
    → (List (List ℕ) × List (List ℕ)) × Indice H
unfolding varrer_versao
varrer_chunks op v1 v2 =
    let (r1, x1) = varrer_versao op 0 0 v1 vazio in
    let (r2, x2) = varrer_versao op 1 0 v2 x1 in ((r1, r2), x2)

-- `fontes[ver].ler(i)`.
unfoldable pub ler : List (List ℕ) → List (List ℕ) → ℕ → ℕ → List ℕ
ler v1 v2 ver i = if ver == 0 then get_or v1 i [] else get_or v2 i []

-- The bytes of a reference, and of a file from its references.
unfoldable pub ler_unico : List (List ℕ) → List (List ℕ) → List Unico → ℕ → List ℕ
unfolding ler
ler_unico v1 v2 us u = elim (get_elem? us u) [
  | none ↦ []
  | some x ↦ pedaco (ler v1 v2 x.ver x.obj) x.off x.tam
]

unfoldable pub reconstruir : List (List ℕ) → List (List ℕ) → List Unico → List ℕ → List ℕ
unfolding ler_unico
reconstruir v1 v2 us [] = []
reconstruir v1 v2 us (u ∷ refs) = ler_unico v1 v2 us u ++ reconstruir v1 v2 us refs
