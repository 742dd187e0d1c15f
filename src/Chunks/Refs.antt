-- ===== src/Chunks/Refs.antt =====
-- The references of `varrer_versao` in bench/dedup.py.
use mathlib.Core.List.{append-nil, append_assoc}
use engine_motor.Prelude.{
  ℕ, zero, suc, ◌≡◌, refl, sym, ap, ap₂, ◌∙◌, subst, true, Bool-cases, inl, inr, Option-cases, none,
  some, List, [], ◌∷◌, ◌++◌, length, map, get_elem?, All, All-append, ◌==◌,
}
use engine_motor.Chunks.{
  Unico, Indice, Opcoes, pedaco, buscar, novo, repetido, incluir, ler, ler_unico, reconstruir,
}

-- The chunks of the cuts, one behind the other.
abbrev pub juntar : List ℕ → List (ℕ × ℕ) → List ℕ
juntar dados [] = []
juntar dados ((o, s) ∷ cs) = pedaco dados o s ++ juntar dados cs

get_elem?-append {ℓ} :
    {A : Type ℓ} (xs ys : List A) (k : ℕ) (a : A)
    → get_elem? xs k ≡ some a
    → get_elem? (xs ++ ys) k ≡ some a
get_elem?-append [] ys k a h = cc
get_elem?-append (x ∷ xs) ys zero a h = h
get_elem?-append (x ∷ xs) ys (suc k) a h = get_elem?-append xs ys k a h

get_elem?-length {ℓ} :
    {A : Type ℓ} (xs : List A) (a : A) → get_elem? (xs ++ a ∷ []) (length xs) ≡ some a
get_elem?-length [] a = refl
get_elem?-length (x ∷ xs) a = get_elem?-length xs a

module _ (v1 v2 : List (List ℕ)) where
  abbrev pub bytes : Unico → List ℕ
  bytes y = pedaco (ler v1 v2 y.ver y.obj) y.off y.tam

  -- The reference `u` stands for the chunk `v`.
  abbrev pub Resolves : List Unico → ℕ → List ℕ → Type 0
  Resolves us u v = (y : Unico) × (get_elem? us u ≡ some y) × (bytes y ≡ v)

  -- The references give the bytes of `dados`.
  abbrev pub Restores : List Unico → List ℕ → List ℕ → Type 0
  Restores us [] dados = dados ≡ []
  Restores us (u ∷ refs) dados =
      (v : List ℕ) × (resto : List ℕ) × Resolves us u v
      × Restores us refs resto
      × (dados ≡ v ++ resto)

  abbrev pub RestoresAll : List Unico → List (List ℕ) → List (List ℕ) → Type 0
  RestoresAll us [] [] = Unit
  RestoresAll us [] (f ∷ fs) = ⊥
  RestoresAll us (r ∷ rs) [] = ⊥
  RestoresAll us (r ∷ rs) (f ∷ fs) = Restores us r f × RestoresAll us rs fs

  pub Resolves-more :
      (us ext : List Unico) (u : ℕ) (v : List ℕ) → Resolves us u v → Resolves (us ++ ext) u v
  Resolves-more us ext u v (y, found, same) = (y, get_elem?-append us ext u y found, same)

  Restores-more :
      (us ext : List Unico) (refs dados : List ℕ)
      → Restores us refs dados
      → Restores (us ++ ext) refs dados
  Restores-more us ext [] dados h = h
  Restores-more us ext (u ∷ refs) dados (v, resto, one, more, eq) =
      (v, resto, Resolves-more us ext u v one, Restores-more us ext refs resto more, eq)

  RestoresAll-more :
      (us ext : List Unico) (rs fs : List (List ℕ))
      → RestoresAll us rs fs
      → RestoresAll (us ++ ext) rs fs
  RestoresAll-more us ext [] [] h = h
  RestoresAll-more us ext [] (f ∷ fs) h = h
  RestoresAll-more us ext (r ∷ rs) [] h = h
  RestoresAll-more us ext (r ∷ rs) (f ∷ fs) h =
      (Restores-more us ext r f h.0, RestoresAll-more us ext rs fs h.1)

  ler_unico-eq :
      (us : List Unico) (u : ℕ) (y : Unico)
      → get_elem? us u ≡ some y
      → ler_unico v1 v2 us u ≡ bytes y
  unfolding ler_unico
  ler_unico-eq us u y found = rw (found, ler_unico)

  Restores-reconstruir :
      (us : List Unico) (refs dados : List ℕ)
      → Restores us refs dados
      → reconstruir v1 v2 us refs ≡ dados
  unfolding reconstruir
  Restores-reconstruir us [] dados h = sym h
  Restores-reconstruir us (u ∷ refs) dados (v, resto, (y, found, same), more, eq) =
      (ap₂ ◌++◌ (ler_unico-eq us u y found ∙ same) (Restores-reconstruir us refs resto more)
        ∙ sym eq)

  pub RestoresAll-reconstruir :
      (us : List Unico) (rs fs : List (List ℕ))
      → RestoresAll us rs fs
      → map (reconstruir v1 v2 us) rs ≡ fs
  RestoresAll-reconstruir us [] [] h = refl
  RestoresAll-reconstruir us [] (f ∷ fs) h = elim h [ ]
  RestoresAll-reconstruir us (r ∷ rs) [] h = elim h [ ]
  RestoresAll-reconstruir us (r ∷ rs) (f ∷ fs) h =
      ap₂ ◌∷◌ (Restores-reconstruir us r f h.0) (RestoresAll-reconstruir us rs fs h.1)

  module _ {H : Type 0} (op : Opcoes H) (sound : (h k : H) → op.igual_h h k ≡ true → h ≡ k)
      (resumo_inj : (x y : List ℕ) → op.resumo x ≡ op.resumo y → x ≡ y) where
    -- An entry of the index names a chunk with its digest.
    abbrev pub IsEntry : List Unico → H × ℕ → Type 0
    IsEntry us (h, u) = (v : List ℕ) × Resolves us u v × (h ≡ op.resumo v)

    abbrev pub IsIndex : Indice H → Type 0
    IsIndex x = All (IsEntry x.unicos) x.dic

    entries_more :
        (us ext : List Unico) (ds : List (H × ℕ))
        → All (IsEntry us) ds
        → All (IsEntry (us ++ ext)) ds
    entries_more us ext [] h = tt
    entries_more us ext ((k, u) ∷ ds) ((v, r, e), t) =
        ((v, Resolves-more us ext u v r, e), entries_more us ext ds t)

    buscar-Resolves :
        (us : List Unico) (v : List ℕ) (ds : List (H × ℕ)) (u : ℕ)
        → All (IsEntry us) ds
        → buscar op (op.resumo v) ds ≡ some u
        → Resolves us u v
    unfolding buscar
    buscar-Resolves us v [] u h e = cc
    buscar-Resolves us v ((k, w) ∷ ds) u h e = elim (Bool-cases (op.igual_h k (op.resumo v))) [
      | inl q ↦
          let e' : some w ≡ some u = rw q at e in
          let same : w ≡ u = cc in
          let (c, r, d) = h.0 in
          let content : c ≡ v = resumo_inj c v (sym d ∙ sound k (op.resumo v) q) in
          subst (λ t. Resolves us t v) same (subst (λ t. Resolves us w t) content r)
      | inr q ↦ let e' = rw q at e in buscar-Resolves us v ds u h.1 e'
    ]

    abbrev pub Grows : Indice H → Indice H → Type 0
    Grows x x' = (ext : List Unico) × (x'.unicos ≡ x.unicos ++ ext)

    pub Grows-refl : (x x' : Indice H) → x'.unicos ≡ x.unicos → Grows x x'
    Grows-refl x x' e = ([], e ∙ sym (append-nil x.unicos))

    pub Grows-trans : (x y z : Indice H) → Grows x y → Grows y z → Grows x z
    Grows-trans x y z (e, p) (f, q) = (e ++ f, q ∙ ap (λ t. t ++ f) p ∙ append_assoc x.unicos e f)

    pub Restores-grow :
        (x x' : Indice H) (refs dados : List ℕ)
        → Grows x x'
        → Restores x.unicos refs dados
        → Restores x'.unicos refs dados
    Restores-grow x x' refs dados (ext, p) r =
        subst (λ t. Restores t refs dados) (sym p) (Restores-more x.unicos ext refs dados r)

    pub RestoresAll-grow :
        (x x' : Indice H) (rs fs : List (List ℕ))
        → Grows x x'
        → RestoresAll x.unicos rs fs
        → RestoresAll x'.unicos rs fs
    RestoresAll-grow x x' rs fs (ext, p) r =
        subst (λ t. RestoresAll t rs fs) (sym p) (RestoresAll-more x.unicos ext rs fs r)

    -- What one chunk does: its reference resolves, and the index stays right.
    abbrev pub Includes : Indice H → ℕ × Indice H → List ℕ → Type 0
    Includes x r v = IsIndex r.1 × Grows x r.1 × Resolves r.1.unicos r.0 v

    novo-Includes :
        (ver i o s : ℕ) (v : List ℕ) (x : Indice H)
        → pedaco (ler v1 v2 ver i) o s ≡ v
        → IsIndex x
        → Includes x (length x.unicos, novo op ver i o s v (op.resumo v) x) v
    unfolding novo
    novo-Includes ver i o s v x same ok =
        let y : Unico = record {
          ver = ver;
          obj = i;
          off = o;
          tam = s;
          c3 = length (op.comprimir v);
        } in
        let here : Resolves (x.unicos ++ y ∷ []) (length x.unicos) v =
          (y, get_elem?-length x.unicos y, same) in
        (
          All-append (IsEntry (x.unicos ++ y ∷ [])) x.dic ((op.resumo v, length x.unicos) ∷ [])
              (entries_more x.unicos (y ∷ []) x.dic ok) ((v, here, refl), tt),
          (y ∷ [], refl),
          here,
        )

    repetido_keeps :
        (ver u s : ℕ) (x : Indice H)
        → ((repetido op ver u s x).unicos ≡ x.unicos) × ((repetido op ver u s x).dic ≡ x.dic)
    unfolding repetido
    repetido_keeps ver u s x = elim (Bool-cases (ver == 1)) [
      | inl e ↦ rw e (refl, refl)
      | inr e ↦ rw e (refl, refl)
    ]

    incluir-none :
        (ver i : ℕ) (dados : List ℕ) (o s : ℕ) (x : Indice H)
        → buscar op (op.resumo (pedaco dados o s)) x.dic ≡ none
        → incluir op ver i dados o s x
          ≡ (length x.unicos, novo op ver i o s (pedaco dados o s) (op.resumo (pedaco dados o s)) x)
    unfolding incluir
    incluir-none ver i dados o s x q = rw (q, incluir)

    incluir-some :
        (ver i : ℕ) (dados : List ℕ) (o s : ℕ) (x : Indice H) (u : ℕ)
        → buscar op (op.resumo (pedaco dados o s)) x.dic ≡ some u
        → incluir op ver i dados o s x ≡ (u, repetido op ver u s x)
    unfolding incluir
    incluir-some ver i dados o s x u q = rw (q, incluir)

    pub incluir-Includes :
        (ver i : ℕ) (dados : List ℕ) (o s : ℕ) (x : Indice H)
        → ler v1 v2 ver i ≡ dados
        → IsIndex x
        → Includes x (incluir op ver i dados o s x) (pedaco dados o s)
    incluir-Includes ver i dados o s x source ok =
        elim (Option-cases (buscar op (op.resumo v) x.dic)) [
          | inl q ↦
              subst (λ r. Includes x r v) (sym (incluir-none ver i dados o s x q))
                (novo-Includes ver i o s v x (ap (λ d. pedaco d o s) source) ok)
          | inr (u, q) ↦
              let (kept, index) = repetido_keeps ver u s x in
              let found : Resolves x.unicos u v = buscar-Resolves x.unicos v x.dic u ok q in
              subst (λ r. Includes x r v) (sym (incluir-some ver i dados o s x u q))
                (
                  subst (λ t. All (IsEntry t) (repetido op ver u s x).dic) (sym kept)
                      (subst (λ t. All (IsEntry x.unicos) t) (sym index) ok),
                  Grows-refl x (repetido op ver u s x) kept,
                  subst (λ t. Resolves t u v) (sym kept) found,
                )
        ]
      where
        v : List ℕ
        v = pedaco dados o s
