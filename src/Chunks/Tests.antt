-- ===== src/Chunks/Tests.antt =====
-- Two versions of a small set of files, cut in chunks of two bytes, with the chunk as its digest.
use engine_motor.Prelude.{
  ℕ, ◌+◌, ◌≤◌, ◌≡◌, refl, ap₂, Bool, true, false, ◌&&◌, Bool-cases, inl, inr, List, [], ◌∷◌, map,
  ◌==◌, ==_iff, arith,
}
use engine_motor.Chunks.{Opcoes, fixo, varrer_chunks, reconstruir}
use engine_motor.Chunks.Cortes.{juntar-chunkear}
use engine_motor.Chunks.Contas.{novos, cortado, varrer_chunks_accounts}
use engine_motor.Chunks.RoundTrip.{varrer_chunks-reconstruir}

abbrev iguais : List ℕ → List ℕ → Bool
iguais [] [] = true
iguais [] (y ∷ ys) = false
iguais (x ∷ xs) [] = false
iguais (x ∷ xs) (y ∷ ys) = (x == y) && iguais xs ys

iguais_eq : (xs ys : List ℕ) → iguais xs ys ≡ true → xs ≡ ys
iguais_eq [] [] h = refl
iguais_eq [] (y ∷ ys) h = cc
iguais_eq (x ∷ xs) [] h = cc
iguais_eq (x ∷ xs) (y ∷ ys) h = elim (Bool-cases (x == y)) [
  | inl e ↦
      let h' : iguais xs ys ≡ true = rw e at h in ap₂ ◌∷◌ ((==_iff x y).0 e) (iguais_eq xs ys h')
  | inr e ↦ let h' : false ≡ true = rw e at h in cc
]

abbrev sem_cortes : ℕ → List ℕ → List (ℕ × ℕ)
sem_cortes alvo d = []

abbrev opcoes : Opcoes (List ℕ)
opcoes = record {
  resumo = λ v. v;
  igual_h = iguais;
  corte = fixo 2;
  fastcdc = sem_cortes;
  comprimir = λ v. v;
  descomprimir = λ v. v;
  igual = iguais;
}

abbrev antes : List (List ℕ)
antes = (1 ∷ 2 ∷ 3 ∷ 4 ∷ 5 ∷ []) ∷ []

abbrev depois : List (List ℕ)
depois = (9 ∷ 9 ∷ []) ∷ (1 ∷ 2 ∷ 3 ∷ 4 ∷ 6 ∷ []) ∷ []

resultado : (List (List ℕ) × List (List ℕ)) × (ℕ × ℕ)
unfolding varrer_chunks
resultado = let r = varrer_chunks opcoes antes depois in (r.0, (r.1.vs_v1, r.1.dup_total))

two_versions : resultado ≡ (((0 ∷ 1 ∷ 2 ∷ []) ∷ [], (3 ∷ []) ∷ (0 ∷ 1 ∷ 4 ∷ []) ∷ []), (4, 4))
unfolding resultado
two_versions = refl

varrer_chunks-reconstruir_example :
    let r = varrer_chunks opcoes antes depois in
    (map (reconstruir antes depois r.1.unicos) r.0.0 ≡ antes)
    × (map (reconstruir antes depois r.1.unicos) r.0.1 ≡ depois)
varrer_chunks-reconstruir_example =
    varrer_chunks-reconstruir antes depois opcoes iguais_eq (λ x y h. h)
      (λ d. juntar-chunkear sem_cortes 2 d (omega arith))

varrer_chunks_accounts_example :
    let x = (varrer_chunks opcoes antes depois).1 in
    (x.dup_total + novos x.unicos ≡ cortado opcoes depois) × (x.vs_v1 ≤ x.dup_total)
varrer_chunks_accounts_example = varrer_chunks_accounts opcoes antes depois
