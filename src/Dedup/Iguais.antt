-- ===== src/Dedup/Iguais.antt =====
-- The contents of the files of a group of `etapa_dedup` in bench/perfil_dataset.py.
use engine_motor.Prelude.{
  ℕ, ◌≡◌, sym, ap, ◌∙◌, inl, inr, Bool, true, false, Option, List, [], ◌∷◌, length, All, leb, ◌==◌,
}
use engine_motor.Colecoes.{ordenar, agrupar}
use engine_motor.Colecoes.Laws.{All-ordenar, agrupar-All}
use engine_motor.Dedup.{
  Item, Grupo, Ambiente, entrada_amostra, entrada_completa, elegiveis, candidatos, com_hash,
  tarefa_hash_amostra, tarefa_hash_completo, igual_chave, passo_amostra, passo_completo,
  primeiro_id, etapa_dedup,
}
use engine_motor.Dedup.Leitura.{entrada_completa_inj, entrada_amostra_inj}
use engine_motor.Dedup.Grupos.{
  OfSome, com_hash-All, Amostrado, Lido, tarefa_hash_amostra-All, tarefa_hash_completo-All, Pequeno,
  Grande, IsEvident, chave_amostra, chave_completo, igual_chave-sound, separar-All,
  fechar_grupos-All,
}

-- The documented behaviour of what the stage calls: `==` on digests, digests without collisions,
-- a pool that delivers what the tasks returned, and files that did not change since the scan.
pub record IsSound {H : Type 0} (e : Ambiente H) : Type 1 where
  pub sound : (h k : H) → e.igual_h h k ≡ true → h ≡ k
  pub curto_inj : (x y : List ℕ) → e.curto x ≡ e.curto y → x ≡ y
  pub longo_inj : (x y : List ℕ) → e.longo x ≡ e.longo y → x ≡ y
  pub delivers_amostra :
      (P : Item × Option (H × Bool) → Type 0) (xs : List (Item × Option (H × Bool)))
      → All P xs
      → All P (e.entrega_amostra xs)
  pub delivers_completo :
      (P : Item × Option H → Type 0) (xs : List (Item × Option H))
      → All P xs
      → All P (e.entrega_completo xs)
  pub stable : (a : Item) (b : List ℕ) → e.abrir a ≡ inr b → length b ≡ a.tam

module _ {H : Type 0} (e : Ambiente H) where
  abbrev pub SameContent : Grupo H → Type 0
  SameContent g = All (λ x. All (λ y. e.abrir x ≡ e.abrir y) g.ids) g.ids

All-map {ℓ κ μ} :
    {A : Type ℓ} {P : A → Type κ} {Q : A → Type μ}
    → ((x : A) → P x → Q x)
    → (xs : List A) → All P xs
    → All Q xs
All-map f [] h = tt
All-map f (x ∷ xs) h = (f x h.0, All-map f xs h.1)

module _ {H : Type 0} (e : Ambiente H) (s : IsSound e) where
  passo_amostra-All : (cand : List Item) → All (IsEvident e) (passo_amostra e cand).0
  unfolding passo_amostra
  passo_amostra-All cand =
      let res = com_hash (e.entrega_amostra (tarefa_hash_amostra e cand)) in
      let antes = λ (x : Item × (H × Bool)) (y : Item × (H × Bool)). leb x.0.i y.0.i in
      let read = com_hash-All (Amostrado e) (e.entrega_amostra (tarefa_hash_amostra e cand)) (
        s.delivers_amostra (OfSome (Amostrado e)) (tarefa_hash_amostra e cand)
          (tarefa_hash_amostra-All e cand)) in
      separar-All e s.sound (agrupar (igual_chave e) (chave_amostra e) (ordenar antes res) [])
        ([], [])
        (agrupar-All (igual_chave e) (igual_chave-sound e s.sound) (chave_amostra e) (Amostrado e)
          (ordenar antes res) [] (All-ordenar antes (Amostrado e) res read) tt)
        tt

  passo_completo-All :
      (pend : List Item) (grupos : List (Grupo H))
      → All (IsEvident e) grupos
      → All (IsEvident e) (passo_completo e pend grupos)
  unfolding passo_completo
  passo_completo-All pend grupos ok =
      let res = com_hash (e.entrega_completo (tarefa_hash_completo e pend)) in
      let read = com_hash-All (Lido e) (e.entrega_completo (tarefa_hash_completo e pend)) (
        s.delivers_completo (OfSome (Lido e)) (tarefa_hash_completo e pend)
          (tarefa_hash_completo-All e pend)) in
      fechar_grupos-All e s.sound (agrupar (igual_chave e) (chave_completo e) res []) grupos
        (agrupar-All (igual_chave e) (igual_chave-sound e s.sound) (chave_completo e) (Lido e) res
          [] read tt)
        ok

  etapa_dedup-IsEvident :
      (hash_completo : Bool) (arquivos : List Item)
      → All (IsEvident e) (etapa_dedup e hash_completo arquivos)
  unfolding etapa_dedup
  etapa_dedup-IsEvident hash_completo arquivos = go hash_completo
    where
      antes : Grupo H → Grupo H → Bool
      antes f g = leb (primeiro_id f) (primeiro_id g)

      cand : List Item
      cand = candidatos (agrupar ◌==◌ (λ (a : Item). a.tam) (elegiveis arquivos) [])

      go : (b : Bool) → All (IsEvident e) (etapa_dedup e b arquivos)
      go true =
          All-ordenar antes (IsEvident e) (passo_completo e cand []) (passo_completo-All cand [] tt)
      go false =
          let (grupos, pend) = passo_amostra e cand in
          All-ordenar antes (IsEvident e) (passo_completo e pend grupos)
            (passo_completo-All pend grupos (passo_amostra-All cand))

  pequenos_same :
      (tam : ℕ) (h : H) (x y : Item) → Pequeno e tam h x → Pequeno e tam h y → e.abrir x ≡ e.abrir y
  pequenos_same tam h x y (tx, small, (b, ob, db)) (ty, small', (c, oc, dc)) =
      let same : b ≡ c =
        entrada_amostra_inj tam b c small (s.stable x b ob ∙ tx) (s.stable y c oc ∙ ty)
          (s.curto_inj (entrada_amostra tam b).0 (entrada_amostra tam c).0 (sym db ∙ dc)) in
      ob ∙ ap inr same ∙ sym oc

  grandes_same :
      (tam : ℕ) (h : H) (x y : Item) → Grande e tam h x → Grande e tam h y → e.abrir x ≡ e.abrir y
  grandes_same tam h x y (tx, (b, ob, db)) (ty, (c, oc, dc)) =
      let same : b ≡ c =
        entrada_completa_inj tam b c
          (s.longo_inj (entrada_completa tam b) (entrada_completa tam c) (sym db ∙ dc)) in
      ob ∙ ap inr same ∙ sym oc

  evident_same : (g : Grupo H) → IsEvident e g → SameContent e g
  evident_same g (inl small) =
      All-map (λ x px. All-map (λ y py. pequenos_same g.tam g.h x y px py) g.ids small) g.ids small
  evident_same g (inr large) =
      All-map (λ x px. All-map (λ y py. grandes_same g.tam g.h x y px py) g.ids large) g.ids large

  -- With digests that do not collide, a pool that delivers what the tasks returned, and files that
  -- have the size of the scan, any two files in one group of copies have the same content, in both
  -- modes and for each order of delivery.
  pub etapa_dedup-SameContent :
      (hash_completo : Bool) (arquivos : List Item)
      → All (SameContent e) (etapa_dedup e hash_completo arquivos)
  etapa_dedup-SameContent hash_completo arquivos =
      All-map evident_same (etapa_dedup e hash_completo arquivos)
        (etapa_dedup-IsEvident hash_completo arquivos)
