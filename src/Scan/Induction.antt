-- ===== src/Scan/Induction.antt =====
-- What `ignorar` and the branch for files keep holds in every state of the scan.
use engine_motor.Prelude.{
  ℕ, suc, ◌+◌, ◌-◌, sym, subst, inl, inr, Bool-cases, Option-cases, not, ◌&&◌, Option, none, List,
  [], ◌∷◌, ◌++◌, ltb, ◌==◌, length, get_elem?,
}
use engine_motor.Scan.{
  Nome, Errno, Stat, Dir, Entries, Motivo, Quadro, Varredura, Opcoes, link, other, fails, file, dir,
  denied, unlisted, listed, end, entry, subdiretorio, entradas, entrar, passo, ignorar, arquivo,
  motivo_diretorio, profundidade_maxima, outro_dispositivo, ilegivel, inicial, link_simbolico,
  nao_regular, erro_stat,
}
use engine_motor.Scan.Stack.{Alcanca, comeca, segue}

module _ (o : Opcoes) (P : Varredura → Type 0)
    (on_ignorar : (m : Motivo) (did : ℕ) (nome : Nome) (tam : Option ℕ) (v : Varredura)
      → P v
      → P (ignorar m did nome tam v))
    (on_arquivo : (did : ℕ) (nome : Nome) (st : Stat) (v : Varredura)
      → P v
      → P (arquivo o did nome st v))
    (on_counters : (v : Varredura) (dirs : List (ℕ × Nome)) (n a : ℕ)
      → P v
      → P (record v { dirs = dirs; dirs_inacessiveis = n; abertos = a })) where
  keep_subdiretorio :
      (nome : Nome) (dev : ℕ) (d : Dir) (did prof : ℕ) (subs : List (Nome × Dir)) (v : Varredura)
      → P v
      → P (subdiretorio o nome dev d did prof subs v).1
  unfolding subdiretorio
  keep_subdiretorio nome dev d did prof subs v h = elim (Bool-cases (ltb o.prof_max (prof + 1))) [
    | inl deep ↦ rw deep (on_ignorar profundidade_maxima did nome none v h)
    | inr near ↦ rw near (elim (Bool-cases (o.mesmo_dispositivo && not (dev == o.dev_raiz))) [
      | inl away ↦ rw away (on_ignorar outro_dispositivo did nome none v h)
      | inr here ↦ rw here h
    ])
  ]

  keep_entradas :
      (es : Entries) (did prof : ℕ) (subs : List (Nome × Dir)) (v : Varredura)
      → P v
      → P (entradas o es did prof subs v).1
  unfolding entradas
  keep_entradas end did prof subs v h = h
  keep_entradas (entry nome link es) did prof subs v h =
      keep_entradas es did prof subs _ (on_ignorar link_simbolico did nome none v h)
  keep_entradas (entry nome other es) did prof subs v h =
      keep_entradas es did prof subs _ (on_ignorar nao_regular did nome none v h)
  keep_entradas (entry nome fails es) did prof subs v h =
      keep_entradas es did prof subs _ (on_ignorar erro_stat did nome none v h)
  keep_entradas (entry nome (file st) es) did prof subs v h =
      keep_entradas es did prof subs _ (on_arquivo did nome st v h)
  keep_entradas (entry nome (dir dev d) es) did prof subs v h =
      let (subs', v') = subdiretorio o nome dev d did prof subs v in
      keep_entradas es did prof subs' v' (keep_subdiretorio nome dev d did prof subs v h)

  keep_ilegivel : (e : Errno) (did : ℕ) (v : Varredura) → P v → P (ilegivel o e did v)
  unfolding ilegivel
  keep_ilegivel e did v h = elim (Option-cases (get_elem? v.dirs did)) [
    | inl missing ↦ rw (missing, ilegivel) closed
    | inr (p, found) ↦ rw (found, ilegivel) (on_ignorar (motivo_diretorio e) p.0 p.1 none _ closed)
  ]
    where
      closed : P (record v { dirs_inacessiveis = suc v.dirs_inacessiveis; abertos = v.abertos - 1 })
      closed = on_counters v v.dirs (suc v.dirs_inacessiveis) (v.abertos - 1) h

  keep_entrar :
      (d : Dir) (did prof : ℕ) (pilha : List Quadro) (v : Varredura)
      → P v
      → P (entrar o d did prof pilha v).1
  unfolding entrar
  keep_entrar (denied e) did prof pilha v h = keep_ilegivel e did v h
  keep_entrar (unlisted e) did prof pilha v h = keep_ilegivel e did v h
  keep_entrar (listed es) did prof pilha v h = keep_entradas es did prof [] v h

  keep_passo :
      (fr : Quadro) (resto : List Quadro) (subs : List (Nome × Dir)) (v : Varredura)
      → P v
      → P (passo o fr resto subs v).1
  unfolding passo
  keep_passo fr resto [] v h = on_counters v v.dirs v.dirs_inacessiveis (v.abertos - 1) h
  keep_passo fr resto ((nome, denied e) ∷ subs) v h =
      on_ignorar (motivo_diretorio e) fr.did nome none _
        (on_counters v v.dirs (suc v.dirs_inacessiveis) v.abertos h)
  keep_passo fr resto ((nome, d) ∷ subs) v h =
      keep_entrar d (length v.dirs) (fr.prof + 1) (record fr { subdirs = subs } ∷ resto) _
        (on_counters v (v.dirs ++ (fr.did, nome) ∷ []) v.dirs_inacessiveis (suc v.abertos) h)

  pub keep_Alcanca :
      P inicial → {raiz : Dir} {pilha : List Quadro} {v : Varredura} → Alcanca o raiz pilha v → P v
  keep_Alcanca start {raiz} (comeca e) =
      subst (λ (s : List Quadro × Varredura). P s.1) (sym e)
        (keep_entrar raiz 0 0 [] _ (on_counters inicial inicial.dirs 0 1 start))
  keep_Alcanca start (segue {fr} {resto} {v = v} r e) =
      subst (λ (s : List Quadro × Varredura). P s.1) (sym e)
        (keep_passo fr resto fr.subdirs v (keep_Alcanca start r))
