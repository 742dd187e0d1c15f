-- ===== src/Dedup.antt =====
-- The duplicates of bench/perfil_dataset.py: `tarefa_hash_amostra`, `tarefa_hash_completo`,
-- `etapa_dedup`. The digest of blake2b, the content behind a name and
-- the order in which the pool of `executar` delivers are arguments.
pub mod Leitura
pub mod Grupos
pub mod Iguais
mod Tests
use engine_motor.Prelude.{
  ℕ, zero, suc, ◌+◌, ◌-◌, ◌*◌, ◌/◌, ◌⊎◌, inl, inr, Bool, true, false, not, ◌&&◌, ◌||◌, Option, none,
  some, List, [], ◌∷◌, ◌++◌, length, take, drop, slice, ltb, leb, ◌==◌, if◌then◌else◌,
}
use engine_motor.Bytes.{to_le}
use engine_motor.Colecoes.{ordenar, agrupar}
use engine_motor.Scan.{Motivo}

-- The fields of `Arq` that the stage reads; `legivel` stands for `legivel(a)`.
pub record Item : Type 0 where
  pub i : ℕ
  pub tam : ℕ
  pub legivel : Bool

-- `JANELA_HASH` and `MIB`.
abbrev pub janela_hash : ℕ
janela_hash = 65536

abbrev pub mib : ℕ
mib = 1048576

-- `L.ler(fd, off, n)`: the slice that its loop over short reads of `pread` puts together.
abbrev pub ler : List ℕ → ℕ → ℕ → List ℕ
ler b off n = take n (drop off b)

-- What `tarefa_hash_amostra` feeds to the digest, and whether that is the whole file.
unfoldable pub entrada_amostra : ℕ → List ℕ → List ℕ × Bool
entrada_amostra tam b = if leb tam (3 * janela_hash) then (to_le 8 tam ++ ler b 0 tam, true) else (
  to_le 8 tam
      ++ ler b 0 janela_hash
      ++ ler b ((tam - janela_hash) / 2) janela_hash
      ++ ler b (tam - janela_hash) janela_hash,
  false,
)

-- The loop of `tarefa_hash_completo`: a block at a time, until a read is empty. More rounds than the
-- file has bytes are enough.
unfoldable pub ler_tudo : ℕ → List ℕ → ℕ → List ℕ
ler_tudo zero b off = []
ler_tudo (suc fuel) b off =
    let bloco = ler b off mib in
    let resto = ler_tudo fuel b (off + length bloco) in
    if length bloco == 0 then [] else bloco ++ resto

unfoldable pub entrada_completa : ℕ → List ℕ → List ℕ
unfolding ler_tudo
entrada_completa tam b = to_le 8 tam ++ ler_tudo (suc (length b)) b 0

-- A group of copies: the digest, the files, their size.
pub record Grupo (H : Type 0) : Type 0 where
  pub h : H
  pub ids : List Item
  pub tam : ℕ

-- What the environment gives: the content of a file or the reason for which it cannot be read, the
-- digests of 16 and 32 bytes, the test of `==` on them, and the orders of delivery.
pub record Ambiente (H : Type 0) : Type 0 where
  pub abrir : Item → Motivo ⊎ List ℕ
  pub curto : List ℕ → H
  pub longo : List ℕ → H
  pub igual_h : H → H → Bool
  pub entrega_amostra : List (Item × Option (H × Bool)) → List (Item × Option (H × Bool))
  pub entrega_completo : List (Item × Option H) → List (Item × Option H)

-- The files that the stage starts from.
unfoldable pub elegiveis : List Item → List Item
elegiveis [] = []
elegiveis (a ∷ xs) =
    let resto = elegiveis xs in if ltb 0 a.tam && a.legivel then a ∷ resto else resto

-- The files of the groups with more than one.
unfoldable pub candidatos : {K : Type 0} → List (K × List Item) → List Item
candidatos [] = []
candidatos ((k, ids) ∷ gs) =
    let resto = candidatos gs in if ltb 1 (length ids) then ids ++ resto else resto

-- `if h is None: ... else: ...`: what has a digest stays.
unfoldable pub com_hash : {R : Type 0} → List (Item × Option R) → List (Item × R)
com_hash [] = []
com_hash ((a, none) ∷ xs) = com_hash xs
com_hash ((a, some r) ∷ xs) = (a, r) ∷ com_hash xs

unfoldable pub so_itens : {R : Type 0} → List (Item × R) → List Item
so_itens [] = []
so_itens ((a, r) ∷ xs) = a ∷ so_itens xs

module _ {H : Type 0} where
  -- `res[ids[0]][1]`.
  unfoldable pub primeiro_completo : List (Item × (H × Bool)) → Bool
  primeiro_completo [] = false
  primeiro_completo ((a, (h, completo)) ∷ xs) = completo

  -- One entry of `gr` after the samples: copies that were read whole are a group, others wait.
  unfoldable pub separar_um :
      ℕ → H → List (Item × (H × Bool)) → List (Grupo H) × List Item → List (Grupo H) × List Item
  unfolding so_itens primeiro_completo
  separar_um tam h ids (grupos, pend) =
      if ltb (length ids) 2
      then (grupos, pend)
      else if primeiro_completo ids
      then (grupos ++ record { h = h; ids = so_itens ids; tam = tam } ∷ [], pend)
      else (grupos, pend ++ so_itens ids)

  unfoldable pub separar :
      List ((ℕ × H) × List (Item × (H × Bool)))
      → List (Grupo H) × List Item
      → List (Grupo H) × List Item
  unfolding separar_um
  separar [] s = s
  separar (((tam, h), ids) ∷ gs) s = separar gs (separar_um tam h ids s)

  -- `for (tam, h), ids in gr.items()` after the whole files.
  unfoldable pub fechar_grupos : List ((ℕ × H) × List (Item × H)) → List (Grupo H) → List (Grupo H)
  unfolding so_itens ordenar
  fechar_grupos [] grupos = grupos
  fechar_grupos (((tam, h), ids) ∷ gs) grupos = fechar_grupos gs (
      if leb 2 (length ids)
      then grupos
        ++ record {
          h = h;
          ids = ordenar (λ (x : Item) (y : Item). leb x.i y.i) (so_itens ids);
          tam = tam;
        }
          ∷ []
      else grupos)

  unfoldable pub primeiro_id : Grupo H → ℕ
  primeiro_id g = elim g.ids [ [] ↦ 0 | a ∷ xs ↦ a.i ]

module _ {H : Type 0} (e : Ambiente H) where
  -- One file of `tarefa_hash_amostra`; `none` stands for the tuple with a reason.
  unfoldable pub resumo_amostra : Item → Option (H × Bool)
  unfolding entrada_amostra
  resumo_amostra a = elim (e.abrir a) [
    | inl motivo ↦ none
    | inr b ↦ some (e.curto (entrada_amostra a.tam b).0, (entrada_amostra a.tam b).1)
  ]

  unfoldable pub tarefa_hash_amostra : List Item → List (Item × Option (H × Bool))
  unfolding resumo_amostra
  tarefa_hash_amostra [] = []
  tarefa_hash_amostra (a ∷ xs) = (a, resumo_amostra a) ∷ tarefa_hash_amostra xs

  unfoldable pub resumo_completo : Item → Option H
  unfolding entrada_completa
  resumo_completo a = elim (e.abrir a) [
    | inl motivo ↦ none
    | inr b ↦ some (e.longo (entrada_completa a.tam b))
  ]

  unfoldable pub tarefa_hash_completo : List Item → List (Item × Option H)
  unfolding resumo_completo
  tarefa_hash_completo [] = []
  tarefa_hash_completo (a ∷ xs) = (a, resumo_completo a) ∷ tarefa_hash_completo xs

  -- `==` on the keys `(tam, h)`.
  unfoldable pub igual_chave : ℕ × H → ℕ × H → Bool
  igual_chave (t, h) (u, k) = (t == u) && e.igual_h h k

  -- The first pass: the samples.
  unfoldable pub passo_amostra : List Item → List (Grupo H) × List Item
  unfolding tarefa_hash_amostra com_hash ordenar agrupar igual_chave separar
  passo_amostra cand =
      let res = com_hash (e.entrega_amostra (tarefa_hash_amostra cand)) in
      let em_ordem =
        ordenar (λ (x : Item × (H × Bool)) (y : Item × (H × Bool)). leb x.0.i y.0.i) res in
      separar (agrupar igual_chave (λ (x : Item × (H × Bool)). (x.0.tam, x.1.0)) em_ordem [])
        ([], [])

  -- The second pass: the whole files.
  unfoldable pub passo_completo : List Item → List (Grupo H) → List (Grupo H)
  unfolding tarefa_hash_completo com_hash agrupar igual_chave fechar_grupos
  passo_completo pend grupos =
      let res = com_hash (e.entrega_completo (tarefa_hash_completo pend)) in
      fechar_grupos (agrupar igual_chave (λ (x : Item × H). (x.0.tam, x.1)) res []) grupos

  -- `etapa_dedup`, with the option `hash_completo`.
  unfoldable pub etapa_dedup : Bool → List Item → List (Grupo H)
  unfolding elegiveis candidatos agrupar passo_amostra passo_completo ordenar primeiro_id
  etapa_dedup hash_completo arquivos =
      let cand = candidatos (agrupar ◌==◌ (λ (a : Item). a.tam) (elegiveis arquivos) []) in
      let (grupos, pend) = if hash_completo then ([], cand) else passo_amostra cand in
      ordenar (λ f g. leb (primeiro_id f) (primeiro_id g)) (passo_completo pend grupos)
