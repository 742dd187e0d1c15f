-- ===== src/Scan/Ends.antt =====
-- The rounds of `varrer_arvore` in bench/perfil_dataset.py.
use engine_motor.Prelude.{
  ℕ, zero, suc, ◌+◌, ◌≤◌, ◌<◌, ◌≡◌, refl, inl, inr, Bool-cases, not, ◌&&◌, none, some, List, [],
  ◌∷◌, ◌++◌, arith, ltb, ◌==◌, length,
}
use engine_motor.Scan.{
  Nome, Entry, Dir, Entries, Quadro, Varredura, Opcoes, link, other, fails, file, dir, denied,
  unlisted, listed, end, entry, subdiretorio, entradas, entrar, passo, rodar, varrer_arvore,
  ignorar, arquivo, inicial, link_simbolico, nao_regular, erro_stat,
}

-- The rounds that a directory takes: one to open it, and where it is listed one to leave it.
unfoldable mutual
  pub custo : Dir → ℕ
  custo (denied e) = 1
  custo (unlisted e) = 1
  custo (listed es) = 2 + custo_entries es

  pub custo_entry : Entry → ℕ
  custo_entry link = 0
  custo_entry other = 0
  custo_entry fails = 0
  custo_entry (file st) = 0
  custo_entry (dir dev d) = custo d

  pub custo_entries : Entries → ℕ
  custo_entries end = 0
  custo_entries (entry nome x es) = custo_entry x + custo_entries es

abbrev custo_subs : List (Nome × Dir) → ℕ
custo_subs [] = 0
custo_subs ((nome, d) ∷ subs) = custo d + custo_subs subs

abbrev custo_pilha : List Quadro → ℕ
custo_pilha [] = 0
custo_pilha (fr ∷ resto) = suc (custo_subs fr.subdirs) + custo_pilha resto

custo_subs-append :
    (subs : List (Nome × Dir)) (nome : Nome) (d : Dir)
    → custo_subs (subs ++ (nome, d) ∷ []) ≡ custo_subs subs + custo d
custo_subs-append [] nome d = omega arith
custo_subs-append ((n, x) ∷ subs) nome d = omega (arith, custo_subs-append subs nome d)

module _ (o : Opcoes) where
  subdiretorio-custo :
      (nome : Nome) (dev : ℕ) (d : Dir) (did prof : ℕ) (subs : List (Nome × Dir)) (v : Varredura)
      → custo_subs (subdiretorio o nome dev d did prof subs v).0 ≤ custo_subs subs + custo d
  unfolding subdiretorio
  subdiretorio-custo nome dev d did prof subs v = elim (Bool-cases (ltb o.prof_max (prof + 1))) [
    | inl deep ↦ rw deep (omega arith)
    | inr near ↦ rw near (elim (Bool-cases (o.mesmo_dispositivo && not (dev == o.dev_raiz))) [
      | inl away ↦ rw away (omega arith)
      | inr here ↦ rw here (omega (arith, custo_subs-append subs nome d))
    ])
  ]

  entradas-custo :
      (es : Entries) (did prof : ℕ) (subs : List (Nome × Dir)) (v : Varredura)
      → custo_subs (entradas o es did prof subs v).0 ≤ custo_subs subs + custo_entries es
  unfolding entradas custo_entries
  entradas-custo end did prof subs v = omega arith
  entradas-custo (entry nome link es) did prof subs v =
      omega (arith, entradas-custo es did prof subs (ignorar link_simbolico did nome none v))
  entradas-custo (entry nome other es) did prof subs v =
      omega (arith, entradas-custo es did prof subs (ignorar nao_regular did nome none v))
  entradas-custo (entry nome fails es) did prof subs v =
      omega (arith, entradas-custo es did prof subs (ignorar erro_stat did nome none v))
  entradas-custo (entry nome (file st) es) did prof subs v =
      omega (arith, entradas-custo es did prof subs (arquivo o did nome st v))
  entradas-custo (entry nome (dir dev d) es) did prof subs v =
      let (subs', v') = subdiretorio o nome dev d did prof subs v in
      omega
        (arith, entradas-custo es did prof subs' v', subdiretorio-custo nome dev d did prof subs v)

  entrar-custo :
      (d : Dir) (did prof : ℕ) (pilha : List Quadro) (v : Varredura)
      → custo_pilha (entrar o d did prof pilha v).0 < custo_pilha pilha + custo d
  unfolding entrar custo
  entrar-custo (denied e) did prof pilha v = omega arith
  entrar-custo (unlisted e) did prof pilha v = omega arith
  entrar-custo (listed es) did prof pilha v = omega (arith, entradas-custo es did prof [] v)

  passo-custo :
      (fr : Quadro) (resto : List Quadro) (subs : List (Nome × Dir)) (v : Varredura)
      → custo_pilha (passo o fr resto subs v).0 < suc (custo_subs subs) + custo_pilha resto
  unfolding passo
  passo-custo fr resto [] v = omega arith
  passo-custo fr resto ((nome, denied e) ∷ subs) v = unfold custo in omega arith
  passo-custo fr resto ((nome, d) ∷ subs) v = omega (
    arith,
    entrar-custo d (length v.dirs) (fr.prof + 1) (record fr { subdirs = subs } ∷ resto)
        (record v { dirs = v.dirs ++ (fr.did, nome) ∷ []; abertos = suc v.abertos }),
  )

  rodar-IsSome :
      (fuel : ℕ) (pilha : List Quadro) (v : Varredura)
      → custo_pilha pilha < fuel
      → (w : Varredura) × (rodar o fuel pilha v ≡ some w)
  unfolding rodar
  rodar-IsSome zero pilha v h = absurd (omega arith)
  rodar-IsSome (suc fuel) [] v h = (v, refl)
  rodar-IsSome (suc fuel) (fr ∷ resto) v h =
      let (pilha', v') = passo o fr resto fr.subdirs v in
      rodar-IsSome fuel pilha' v' (omega (arith, passo-custo fr resto fr.subdirs v))

  -- With more rounds than the tree costs, the scan returns, whatever fails on the way.
  pub varrer_arvore-IsSome :
      (raiz : Dir) (fuel : ℕ)
      → custo raiz < fuel
      → (w : Varredura) × (varrer_arvore o fuel raiz ≡ some w)
  unfolding varrer_arvore
  varrer_arvore-IsSome raiz fuel h =
      let (pilha, v) = entrar o raiz 0 0 [] (record inicial { abertos = 1 }) in
      rodar-IsSome fuel pilha v
        (omega (arith, entrar-custo raiz 0 0 [] (record inicial { abertos = 1 })))
