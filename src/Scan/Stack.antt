-- ===== src/Scan/Stack.antt =====
-- The states of `varrer_arvore` in bench/perfil_dataset.py, and its open descriptors.
use engine_motor.Prelude.{
  ℕ, zero, suc, ◌+◌, ◌-◌, ◌≤◌, ◌<◌, ◌≡◌, refl, ap, sym, subst, ◌∙◌, inl, inr, Bool-cases,
  Option-cases, not, ◌&&◌, Option, none, some, List, [], ◌∷◌, ◌++◌, arith, ltb, ◌==◌, length,
  get_elem?,
}
use engine_motor.Scan.{
  Nome, Errno, Stat, Dir, Entries, Quadro, Varredura, Opcoes, link, other, fails, file, dir, denied,
  unlisted, listed, end, entry, Motivo, subdiretorio, entradas, entrar, passo, rodar, varrer_arvore,
  ignorar, arquivo, ilegivel, inicial, link_simbolico, nao_regular, erro_stat,
}

module _ (o : Opcoes) (raiz : Dir) where
  abbrev pub aberta : List Quadro × Varredura
  aberta = entrar o raiz 0 0 [] (record inicial { abertos = 1 })

  -- The stack and the record at the head of `while pilha`.
  pub data Alcanca : List Quadro → Varredura → Type 0 where
    comeca : {pilha : List Quadro} {v : Varredura} → (pilha, v) ≡ aberta → Alcanca pilha v
    segue :
        {fr : Quadro} {resto pilha : List Quadro} {v w : Varredura}
        → Alcanca (fr ∷ resto) v
        → (pilha, w) ≡ passo o fr resto fr.subdirs v
        → Alcanca pilha w

  -- A scan that returns has come to the empty stack.
  rodar-Alcanca :
      (fuel : ℕ) (pilha : List Quadro) (v : Varredura) {w : Varredura}
      → Alcanca pilha v
      → rodar o fuel pilha v ≡ some w
      → Alcanca [] w
  unfolding rodar
  rodar-Alcanca zero pilha v r e = cc
  rodar-Alcanca (suc fuel) [] v {w} r e = let same : v ≡ w = cc in subst (Alcanca []) same r
  rodar-Alcanca (suc fuel) (fr ∷ resto) v r e =
      let (pilha', v') = passo o fr resto fr.subdirs v in
      rodar-Alcanca fuel pilha' v' (segue r refl) e

  pub varrer_arvore-Alcanca :
      (fuel : ℕ) {w : Varredura} → varrer_arvore o fuel raiz ≡ some w → Alcanca [] w
  unfolding varrer_arvore
  varrer_arvore-Alcanca fuel e =
      let (pilha, v) = aberta in rodar-Alcanca fuel pilha v (comeca refl) e

-- Files, links and errors leave the descriptors alone.
module _ (o : Opcoes) where
  abertos-ignorar :
      (m : Motivo) (did : ℕ) (nome : Nome) (tam : Option ℕ) (v : Varredura)
      → (ignorar m did nome tam v).abertos ≡ v.abertos
  unfolding ignorar
  abertos-ignorar m did nome tam v = refl

  abertos-arquivo :
      (did : ℕ) (nome : Nome) (st : Stat) (v : Varredura)
      → (arquivo o did nome st v).abertos ≡ v.abertos
  unfolding arquivo
  abertos-arquivo did nome st v = ground arith

  abertos-subdiretorio :
      (nome : Nome) (dev : ℕ) (d : Dir) (did prof : ℕ) (subs : List (Nome × Dir)) (v : Varredura)
      → (subdiretorio o nome dev d did prof subs v).1.abertos ≡ v.abertos
  unfolding subdiretorio
  abertos-subdiretorio nome dev d did prof subs v = ground arith

  abertos-entradas :
      (es : Entries) (did prof : ℕ) (subs : List (Nome × Dir)) (v : Varredura)
      → (entradas o es did prof subs v).1.abertos ≡ v.abertos
  unfolding entradas
  abertos-entradas end did prof subs v = refl
  abertos-entradas (entry nome link es) did prof subs v =
      abertos-entradas es did prof subs (ignorar link_simbolico did nome none v)
      ∙ abertos-ignorar link_simbolico did nome none v
  abertos-entradas (entry nome other es) did prof subs v =
      abertos-entradas es did prof subs (ignorar nao_regular did nome none v)
      ∙ abertos-ignorar nao_regular did nome none v
  abertos-entradas (entry nome fails es) did prof subs v =
      abertos-entradas es did prof subs (ignorar erro_stat did nome none v)
      ∙ abertos-ignorar erro_stat did nome none v
  abertos-entradas (entry nome (file st) es) did prof subs v =
      abertos-entradas es did prof subs (arquivo o did nome st v) ∙ abertos-arquivo did nome st v
  abertos-entradas (entry nome (dir dev d) es) did prof subs v =
      let (subs', v') = subdiretorio o nome dev d did prof subs v in
      abertos-entradas es did prof subs' v' ∙ abertos-subdiretorio nome dev d did prof subs v

  abertos-ilegivel :
      (e : Errno) (did : ℕ) (v : Varredura) → (ilegivel o e did v).abertos ≡ v.abertos - 1
  unfolding ilegivel
  abertos-ilegivel e did v = elim (Option-cases (get_elem? v.dirs did)) [
    | inl missing ↦ rw (missing, ilegivel)
    | inr (p, found) ↦ rw (found, ilegivel)
  ]

  -- A frame that still has subdirectories stands above the depth limit.
  abbrev Fits : ℕ → List (Nome × Dir) → Type 0
  Fits prof [] = Unit
  Fits prof (x ∷ subs) = prof < o.prof_max

  Fits-tail :
      (prof : ℕ) (x : Nome × Dir) (subs : List (Nome × Dir)) → Fits prof (x ∷ subs) → Fits prof subs
  Fits-tail prof x [] h = tt
  Fits-tail prof x (y ∷ subs) h = h

  Fits-append :
      (prof : ℕ) (subs : List (Nome × Dir)) (x : Nome × Dir)
      → prof < o.prof_max
      → Fits prof (subs ++ x ∷ [])
  Fits-append prof [] x h = h
  Fits-append prof (y ∷ subs) x h = h

  subdiretorio-Fits :
      (nome : Nome) (dev : ℕ) (d : Dir) (did prof : ℕ) (subs : List (Nome × Dir)) (v : Varredura)
      → Fits prof subs
      → Fits prof (subdiretorio o nome dev d did prof subs v).0
  unfolding subdiretorio
  subdiretorio-Fits nome dev d did prof subs v h = elim (Bool-cases (ltb o.prof_max (prof + 1))) [
    | inl deep ↦ rw deep h
    | inr near ↦ rw near (elim (Bool-cases (o.mesmo_dispositivo && not (dev == o.dev_raiz))) [
      | inl away ↦ rw away h
      | inr here ↦ rw here (Fits-append prof subs (nome, d) (ground arith))
    ])
  ]

  entradas-Fits :
      (es : Entries) (did prof : ℕ) (subs : List (Nome × Dir)) (v : Varredura)
      → Fits prof subs
      → Fits prof (entradas o es did prof subs v).0
  unfolding entradas
  entradas-Fits end did prof subs v h = h
  entradas-Fits (entry nome link es) did prof subs v h = entradas-Fits es did prof subs _ h
  entradas-Fits (entry nome other es) did prof subs v h = entradas-Fits es did prof subs _ h
  entradas-Fits (entry nome fails es) did prof subs v h = entradas-Fits es did prof subs _ h
  entradas-Fits (entry nome (file st) es) did prof subs v h = entradas-Fits es did prof subs _ h
  entradas-Fits (entry nome (dir dev d) es) did prof subs v h =
      let (subs', v') = subdiretorio o nome dev d did prof subs v in
      entradas-Fits es did prof subs' v' (subdiretorio-Fits nome dev d did prof subs v h)

  -- The frames count down to the root, at depth 0.
  abbrev Depths : List Quadro → Type 0
  Depths [] = Unit
  Depths (fr ∷ resto) =
      (fr.prof ≡ length resto) × (fr.prof ≤ o.prof_max) × Fits fr.prof fr.subdirs × Depths resto

  record IsBalanced (pilha : List Quadro) (v : Varredura) : Type 0 where
    held : v.abertos ≡ length pilha
    depths : Depths pilha

  entrar-IsBalanced :
      (d : Dir) (did prof : ℕ) (pilha : List Quadro) (v : Varredura)
      → v.abertos ≡ suc (length pilha)
      → prof ≡ length pilha
      → prof ≤ o.prof_max
      → Depths pilha
      → let (pilha', v') = entrar o d did prof pilha v in IsBalanced pilha' v'
  unfolding entrar
  entrar-IsBalanced (denied e) did prof pilha v h p q ds = record {
    held = omega (arith, abertos-ilegivel e did v);
    depths = ds;
  }
  entrar-IsBalanced (unlisted e) did prof pilha v h p q ds = record {
    held = omega (arith, abertos-ilegivel e did v);
    depths = ds;
  }
  entrar-IsBalanced (listed es) did prof pilha v h p q ds = record {
    held = abertos-entradas es did prof [] v ∙ h;
    depths = (p, q, entradas-Fits es did prof [] v tt, ds);
  }

  passo-IsBalanced :
      (fr : Quadro) (resto : List Quadro) (subs : List (Nome × Dir)) (v : Varredura)
      → v.abertos ≡ suc (length resto)
      → fr.prof ≡ length resto
      → fr.prof ≤ o.prof_max
      → Fits fr.prof subs
      → Depths resto
      → let (pilha', v') = passo o fr resto subs v in IsBalanced pilha' v'
  unfolding passo
  passo-IsBalanced fr resto [] v h p q f ds = record { held = omega arith; depths = ds }
  passo-IsBalanced fr resto ((nome, denied e) ∷ subs) v h p q f ds = record {
    held = h;
    depths = (p, q, Fits-tail fr.prof (nome, denied e) subs f, ds);
  }
  passo-IsBalanced fr resto ((nome, d) ∷ subs) v h p q f ds =
      entrar-IsBalanced d (length v.dirs) (fr.prof + 1) (record fr { subdirs = subs } ∷ resto)
        (record v { dirs = v.dirs ++ (fr.did, nome) ∷ []; abertos = suc v.abertos }) (ap suc h)
        (omega arith) (omega arith) (p, q, Fits-tail fr.prof (nome, d) subs f, ds)

  Alcanca-IsBalanced :
      {raiz : Dir} {pilha : List Quadro} {v : Varredura}
      → Alcanca o raiz pilha v
      → IsBalanced pilha v
  Alcanca-IsBalanced {raiz} (comeca e) =
      subst (λ (s : List Quadro × Varredura). IsBalanced s.0 s.1) (sym e)
        (entrar-IsBalanced raiz 0 0 [] (record inicial { abertos = 1 }) refl refl (omega arith) tt)
  Alcanca-IsBalanced (segue {fr} {resto} {v = v} r e) =
      let b = Alcanca-IsBalanced r in
      subst (λ (s : List Quadro × Varredura). IsBalanced s.0 s.1) (sym e)
        (passo-IsBalanced fr resto fr.subdirs v b.held b.depths.0 b.depths.1 b.depths.2 b.depths.3)

  stack_bound : (pilha : List Quadro) → Depths pilha → length pilha ≤ o.prof_max + 1
  stack_bound [] ds = omega arith
  stack_bound (fr ∷ resto) ds = omega (arith, ds.0, ds.1)

  -- In every state that the scan reaches it holds one descriptor for each frame of its stack, and
  -- there are at most `prof_max` + 1 of them.
  pub Alcanca-descriptors :
      (raiz : Dir) (pilha : List Quadro) (v : Varredura)
      → Alcanca o raiz pilha v
      → (v.abertos ≡ length pilha) × (v.abertos ≤ o.prof_max + 1)
  Alcanca-descriptors raiz pilha v r =
      let b = Alcanca-IsBalanced r in
      let bound = stack_bound pilha b.depths in (b.held, omega (arith, b.held, bound))

  -- A scan that returns has closed every descriptor that it opened, whatever could not be opened or
  -- listed on the way.
  pub varrer_arvore_closes :
      (fuel : ℕ) (raiz : Dir) (w : Varredura) → varrer_arvore o fuel raiz ≡ some w → w.abertos ≡ 0
  varrer_arvore_closes fuel raiz w e =
      (Alcanca-IsBalanced (varrer_arvore-Alcanca o raiz fuel e)).held
