-- ===== src/Chunks/Contas.antt =====
-- The bytes that `varrer_chunks` of bench/dedup.py counts for the second version.
use engine_motor.Prelude.{
  ℕ, suc, ◌+◌, ◌≤◌, ◌≡◌, Bool-cases, inl, inr, Option-cases, List, [], ◌∷◌, ◌++◌, length, ◌==◌,
  if◌then◌else◌, arith,
}
use engine_motor.Chunks.{
  Unico, Indice, Opcoes, vazio, pedaco, versao_de, buscar, contar, novo, repetido, incluir,
  incluir_todos, chunkear, varrer_versao, varrer_chunks,
}

abbrev pub segunda : ℕ → ℕ → ℕ
segunda ver s = if ver == 1 then s else 0

-- The bytes of the unique chunks that the second version brought.
abbrev pub novos : List Unico → ℕ
novos [] = 0
novos (y ∷ us) = segunda y.ver y.tam + novos us

abbrev pub tamanhos : List (ℕ × ℕ) → ℕ
tamanhos [] = 0
tamanhos ((o, s) ∷ cs) = s + tamanhos cs

novos-snoc : (us : List Unico) (y : Unico) → novos (us ++ y ∷ []) ≡ novos us + segunda y.ver y.tam
novos-snoc [] y = omega arith
novos-snoc (x ∷ us) y = omega (arith, novos-snoc us y)

segunda-add : (ver a b : ℕ) → segunda ver (a + b) ≡ segunda ver a + segunda ver b
segunda-add ver a b = elim (Bool-cases (ver == 1)) [ inl e ↦ rw e | inr e ↦ rw e ]

segunda-zero : (ver : ℕ) → segunda ver 0 ≡ 0
segunda-zero ver = elim (Bool-cases (ver == 1)) [ inl e ↦ rw e | inr e ↦ rw e ]

module _ {H : Type 0} (op : Opcoes H) where
  -- The bytes that an index accounts for, and what it keeps below them.
  abbrev pub conta : Indice H → ℕ
  conta x = x.dup_total + novos x.unicos

  abbrev pub Adds : Indice H → Indice H → ℕ → Type 0
  Adds x x' n = (conta x' ≡ conta x + n) × (x.vs_v1 ≤ x.dup_total → x'.vs_v1 ≤ x'.dup_total)

  repetido-Adds : (ver u s : ℕ) (x : Indice H) → Adds x (repetido op ver u s x) (segunda ver s)
  unfolding repetido
  repetido-Adds ver u s x = elim (Bool-cases (ver == 1)) [
    | inl e ↦ rw e (
      omega arith,
      λ h. elim (Bool-cases (versao_de x.unicos u == 0)) [
        | inl q ↦ rw q (omega arith)
        | inr q ↦ rw q (omega arith)
      ],
    )
    | inr e ↦ rw e (omega arith, λ h. h)
  ]

  novo-Adds :
      (ver i o s : ℕ) (v : List ℕ) (h : H) (x : Indice H)
      → Adds x (novo op ver i o s v h x) (segunda ver s)
  unfolding novo
  novo-Adds ver i o s v h x = (
    omega (
      arith,
      novos-snoc x.unicos
          (record { ver = ver; obj = i; off = o; tam = s; c3 = length (op.comprimir v) }),
    ),
    λ k. k,
  )

  incluir-Adds :
      (ver i : ℕ) (dados : List ℕ) (o s : ℕ) (x : Indice H)
      → Adds x (incluir op ver i dados o s x).1 (segunda ver s)
  unfolding incluir
  incluir-Adds ver i dados o s x =
      elim (Option-cases (buscar op (op.resumo (pedaco dados o s)) x.dic)) [
        | inl q ↦
            rw (q, incluir)
              (novo-Adds ver i o s (pedaco dados o s) (op.resumo (pedaco dados o s)) x)
        | inr (u, q) ↦ rw (q, incluir) (repetido-Adds ver u s x)
      ]

  incluir_todos-Adds :
      (ver i : ℕ) (dados : List ℕ) (cs : List (ℕ × ℕ)) (x : Indice H)
      → Adds x (incluir_todos op ver i dados cs x).1 (segunda ver (tamanhos cs))
  unfolding incluir_todos
  incluir_todos-Adds ver i dados [] x = (omega (arith, segunda-zero ver), λ h. h)
  incluir_todos-Adds ver i dados ((o, s) ∷ cs) x =
      let (u, x') = incluir op ver i dados o s x in
      let (sum, keeps) = incluir-Adds ver i dados o s x in
      let (sum', keeps') = incluir_todos-Adds ver i dados cs x' in
      (omega (arith, sum, sum', segunda-add ver s (tamanhos cs)), λ h. keeps' (keeps h))

  -- The bytes in the cuts of some files.
  abbrev pub cortado : List (List ℕ) → ℕ
  cortado [] = 0
  cortado (d ∷ fs) = tamanhos (chunkear op.fastcdc op.corte d) + cortado fs

  varrer_versao-Adds :
      (ver i : ℕ) (fs : List (List ℕ)) (x : Indice H)
      → Adds x (varrer_versao op ver i fs x).1 (segunda ver (cortado fs))
  unfolding varrer_versao contar
  varrer_versao-Adds ver i [] x = (omega (arith, segunda-zero ver), λ h. h)
  varrer_versao-Adds ver i (d ∷ fs) x =
      let cs = chunkear op.fastcdc op.corte d in
      let start = contar ver (length cs) x in
      let (us, x') = incluir_todos op ver i d cs start in
      let (sum, keeps) = incluir_todos-Adds ver i d cs start in
      let (sum', keeps') = varrer_versao-Adds ver (suc i) fs x' in
      (omega (arith, sum, sum', segunda-add ver (tamanhos cs) (cortado fs)), λ h. keeps' (keeps h))

  -- Every byte in the cuts of the second version is counted once: in `dup_total`, or in a unique chunk
  -- that the second version brought; and what was already in the first is a part of `dup_total`.
  pub varrer_chunks_accounts :
      (v1 v2 : List (List ℕ))
      → let x = (varrer_chunks op v1 v2).1 in
        (x.dup_total + novos x.unicos ≡ cortado v2) × (x.vs_v1 ≤ x.dup_total)
  unfolding varrer_chunks
  varrer_chunks_accounts v1 v2 =
      let (r1, x1) = varrer_versao op 0 0 v1 vazio in
      let (sum, keeps) = varrer_versao-Adds 0 0 v1 vazio in
      let (sum', keeps') = varrer_versao-Adds 1 0 v2 x1 in
      (omega (arith, sum, sum'), keeps' (keeps (omega arith)))
