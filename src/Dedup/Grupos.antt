-- ===== src/Dedup/Grupos.antt =====
-- The groups of `etapa_dedup` in bench/perfil_dataset.py.
use engine_motor.Prelude.{
  ℕ, ◌*◌, ◌≡◌, refl, sym, ap, ap₂, subst, ◌∙◌, ◌⊎◌, inl, inr, Bool, true, false, Bool-cases, Option,
  none, some, List, [], ◌∷◌, ◌++◌, length, All, All-append, ltb, leb, ◌==◌, ==_iff,
}
use engine_motor.Scan.{Motivo}
use engine_motor.Colecoes.{ordenar}
use engine_motor.Colecoes.Laws.{All-ordenar, IsGroup, IsMember}
use engine_motor.Dedup.{
  Item, Grupo, Ambiente, janela_hash, entrada_amostra, entrada_completa, com_hash, so_itens,
  primeiro_completo, separar_um, separar, fechar_grupos, resumo_amostra, tarefa_hash_amostra,
  resumo_completo, tarefa_hash_completo, igual_chave,
}
use engine_motor.Dedup.Leitura.{entrada_amostra_flag}

-- What holds of every result that has a digest.
abbrev pub OfSome : {R : Type 0} → (Item × R → Type 0) → Item × Option R → Type 0
OfSome P (a, none) = Unit
OfSome P (a, some r) = P (a, r)

pub com_hash-All :
    {R : Type 0} (P : Item × R → Type 0) (xs : List (Item × Option R))
    → All (OfSome P) xs
    → All P (com_hash xs)
unfolding com_hash
com_hash-All P [] h = tt
com_hash-All P ((a, none) ∷ xs) h = com_hash-All P xs h.1
com_hash-All P ((a, some r) ∷ xs) h = (h.0, com_hash-All P xs h.1)

module _ {H : Type 0} (e : Ambiente H) where
  -- What the digest of the sample says of a file, and what that of the whole file says.
  abbrev pub Amostrado : Item × (H × Bool) → Type 0
  Amostrado (a, (h, completo)) =
      (b : List ℕ) × (e.abrir a ≡ inr b)
      × (h ≡ e.curto (entrada_amostra a.tam b).0)
      × (completo ≡ leb a.tam (3 * janela_hash))

  abbrev pub Lido : Item × H → Type 0
  Lido (a, h) = (b : List ℕ) × (e.abrir a ≡ inr b) × (h ≡ e.longo (entrada_completa a.tam b))

  resumo_amostra-some :
      (a : Item) (b : List ℕ)
      → e.abrir a ≡ inr b
      → resumo_amostra e a ≡ some (e.curto (entrada_amostra a.tam b).0, (entrada_amostra a.tam b).1)
  unfolding resumo_amostra
  resumo_amostra-some a b q = rw (q, resumo_amostra)

  resumo_amostra-none : (a : Item) (m : Motivo) → e.abrir a ≡ inl m → resumo_amostra e a ≡ none
  unfolding resumo_amostra
  resumo_amostra-none a m q = rw (q, resumo_amostra)

  resumo_completo-some :
      (a : Item) (b : List ℕ)
      → e.abrir a ≡ inr b
      → resumo_completo e a ≡ some (e.longo (entrada_completa a.tam b))
  unfolding resumo_completo
  resumo_completo-some a b q = rw (q, resumo_completo)

  resumo_completo-none : (a : Item) (m : Motivo) → e.abrir a ≡ inl m → resumo_completo e a ≡ none
  unfolding resumo_completo
  resumo_completo-none a m q = rw (q, resumo_completo)

  pub tarefa_hash_amostra-All : (xs : List Item) → All (OfSome Amostrado) (tarefa_hash_amostra e xs)
  unfolding tarefa_hash_amostra
  tarefa_hash_amostra-All [] = tt
  tarefa_hash_amostra-All (a ∷ xs) = (one (e.abrir a) refl, tarefa_hash_amostra-All xs)
    where
      one : (r : Motivo ⊎ List ℕ) → e.abrir a ≡ r → OfSome Amostrado (a, resumo_amostra e a)
      one (inl m) q = subst (λ t. OfSome Amostrado (a, t)) (sym (resumo_amostra-none a m q)) tt
      one (inr b) q =
          subst (λ t. OfSome Amostrado (a, t)) (sym (resumo_amostra-some a b q))
            (b, q, refl, entrada_amostra_flag a.tam b)

  pub tarefa_hash_completo-All : (xs : List Item) → All (OfSome Lido) (tarefa_hash_completo e xs)
  unfolding tarefa_hash_completo
  tarefa_hash_completo-All [] = tt
  tarefa_hash_completo-All (a ∷ xs) = (one (e.abrir a) refl, tarefa_hash_completo-All xs)
    where
      one : (r : Motivo ⊎ List ℕ) → e.abrir a ≡ r → OfSome Lido (a, resumo_completo e a)
      one (inl m) q = subst (λ t. OfSome Lido (a, t)) (sym (resumo_completo-none a m q)) tt
      one (inr b) q =
          subst (λ t. OfSome Lido (a, t)) (sym (resumo_completo-some a b q)) (b, q, refl)

  -- A group is of files that were sampled whole, or of files that were read whole.
  abbrev pub Pequeno : ℕ → H → Item → Type 0
  Pequeno tam h a =
      (a.tam ≡ tam)
      × (leb tam (3 * janela_hash) ≡ true)
      × ((b : List ℕ) × (e.abrir a ≡ inr b) × (h ≡ e.curto (entrada_amostra tam b).0))

  abbrev pub Grande : ℕ → H → Item → Type 0
  Grande tam h a =
      (a.tam ≡ tam) × ((b : List ℕ) × (e.abrir a ≡ inr b) × (h ≡ e.longo (entrada_completa tam b)))

  abbrev pub IsEvident : Grupo H → Type 0
  IsEvident g = All (Pequeno g.tam g.h) g.ids ⊎ All (Grande g.tam g.h) g.ids

  abbrev pub chave_amostra : Item × (H × Bool) → ℕ × H
  chave_amostra x = (x.0.tam, x.1.0)

  abbrev pub chave_completo : Item × H → ℕ × H
  chave_completo x = (x.0.tam, x.1)

  module _ (sound : (h k : H) → e.igual_h h k ≡ true → h ≡ k) where
    pub igual_chave-sound : (a b : ℕ × H) → igual_chave e a b ≡ true → a ≡ b
    unfolding igual_chave
    igual_chave-sound (t, h) (u, k) q = elim (Bool-cases (t == u)) [
      | inl same ↦
          let q' : e.igual_h h k ≡ true = rw same at q in
          ap₂ (λ x y. (x, y)) ((==_iff t u).0 same) (sound h k q')
      | inr other ↦ let q' : false ≡ true = rw other at q in cc
    ]

    Pequeno-of :
        (tam : ℕ) (h : H) (x : Item × (H × Bool))
        → leb tam (3 * janela_hash) ≡ true
        → IsMember (igual_chave e) igual_chave-sound chave_amostra Amostrado (tam, h) x
        → Pequeno tam h x.0
    Pequeno-of tam h (a, (k, completo)) small ((key), (b, opened, digest, flag)) =
        let size : a.tam ≡ tam = ap (λ p. p.0) key in
        let same : k ≡ h = ap (λ p. p.1) key in
        (
          size,
          small,
          (b, opened, sym same ∙ subst (λ t. k ≡ e.curto (entrada_amostra t b).0) size digest),
        )

    Grande-of :
        (tam : ℕ) (h : H) (x : Item × H)
        → IsMember (igual_chave e) igual_chave-sound chave_completo Lido (tam, h) x
        → Grande tam h x.0
    Grande-of tam h (a, k) (key, (b, opened, digest)) =
        let size : a.tam ≡ tam = ap (λ p. p.0) key in
        let same : k ≡ h = ap (λ p. p.1) key in
        (size, (b, opened, sym same ∙ subst (λ t. k ≡ e.longo (entrada_completa t b)) size digest))

    pequenos :
        (tam : ℕ) (h : H) (ids : List (Item × (H × Bool)))
        → leb tam (3 * janela_hash) ≡ true
        → IsGroup (igual_chave e) igual_chave-sound chave_amostra Amostrado ((tam, h), ids)
        → All (Pequeno tam h) (so_itens ids)
    unfolding so_itens
    pequenos tam h [] small g = tt
    pequenos tam h (x ∷ xs) small g = (Pequeno-of tam h x small g.0, pequenos tam h xs small g.1)

    grandes :
        (tam : ℕ) (h : H) (ids : List (Item × H))
        → IsGroup (igual_chave e) igual_chave-sound chave_completo Lido ((tam, h), ids)
        → All (Grande tam h) (so_itens ids)
    unfolding so_itens
    grandes tam h [] g = tt
    grandes tam h (x ∷ xs) g = (Grande-of tam h x g.0, grandes tam h xs g.1)

    -- The flag of the first member says that the size is small.
    small_of :
        (tam : ℕ) (h : H) (ids : List (Item × (H × Bool)))
        → IsGroup (igual_chave e) igual_chave-sound chave_amostra Amostrado ((tam, h), ids)
        → primeiro_completo ids ≡ true
        → leb tam (3 * janela_hash) ≡ true
    unfolding primeiro_completo
    small_of tam h [] g q = cc
    small_of tam h ((a, (k, completo)) ∷ xs) g q =
        subst (λ t. leb t (3 * janela_hash) ≡ true) (ap (λ p. p.0) g.0.0) (sym g.0.1.3 ∙ q)

    separar_um-All :
        (tam : ℕ) (h : H) (ids : List (Item × (H × Bool))) (s : List (Grupo H) × List Item)
        → IsGroup (igual_chave e) igual_chave-sound chave_amostra Amostrado ((tam, h), ids)
        → All IsEvident s.0
        → All IsEvident (separar_um tam h ids s).0
    unfolding separar_um
    separar_um-All tam h ids (grupos, pend) g ok = elim (Bool-cases (ltb (length ids) 2)) [
      | inl q ↦ rw q ok
      | inr q ↦ elim (Bool-cases (primeiro_completo ids)) [
        | inl whole ↦
            rw (q, whole)
              (All-append IsEvident grupos (record { h = h; ids = so_itens ids; tam = tam } ∷ []) ok
                (inl (pequenos tam h ids (small_of tam h ids g whole) g), tt))
        | inr part ↦ rw (q, part) ok
      ]
    ]

    pub separar-All :
        (gs : List ((ℕ × H) × List (Item × (H × Bool)))) (s : List (Grupo H) × List Item)
        → All (IsGroup (igual_chave e) igual_chave-sound chave_amostra Amostrado) gs
        → All IsEvident s.0
        → All IsEvident (separar gs s).0
    unfolding separar
    separar-All [] s g ok = ok
    separar-All (((tam, h), ids) ∷ gs) s g ok =
        separar-All gs (separar_um tam h ids s) g.1 (separar_um-All tam h ids s g.0 ok)

    pub fechar_grupos-All :
        (gs : List ((ℕ × H) × List (Item × H))) (grupos : List (Grupo H))
        → All (IsGroup (igual_chave e) igual_chave-sound chave_completo Lido) gs
        → All IsEvident grupos
        → All IsEvident (fechar_grupos gs grupos)
    unfolding fechar_grupos
    fechar_grupos-All [] grupos g ok = ok
    fechar_grupos-All (((tam, h), ids) ∷ gs) grupos g ok = elim (Bool-cases (leb 2 (length ids))) [
      | inl q ↦
          let antes = λ (x : Item) (y : Item). leb x.i y.i in
          let novo : Grupo H = record { h = h; ids = ordenar antes (so_itens ids); tam = tam } in
          rw q (
            fechar_grupos-All gs (grupos ++ novo ∷ []) g.1 (
              All-append IsEvident grupos (novo ∷ []) ok (
                inr (All-ordenar antes (Grande tam h) (so_itens ids) (grandes tam h ids g.0)),
                tt,
              )))
      | inr q ↦ rw q (fechar_grupos-All gs grupos g.1 ok)
    ]
