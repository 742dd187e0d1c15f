-- ===== src/Chunks/RoundTrip.antt =====
-- `varrer_chunks` of bench/dedup.py over both versions, and what its references give.
use engine_motor.Prelude.{
  ℕ, suc, ◌+◌, ◌≡◌, refl, sym, ap, ◌∙◌, subst, true, List, [], ◌∷◌, length, map, get_or, arith,
}
use engine_motor.Chunks.{
  Indice, Opcoes, vazio, pedaco, incluir, incluir_todos, chunkear, contar, varrer_versao,
  varrer_chunks, ler, reconstruir,
}
use engine_motor.Chunks.Refs.{
  juntar, Resolves, Resolves-more, Restores, RestoresAll, RestoresAll-reconstruir, IsIndex, Grows,
  Grows-refl, Grows-trans, Restores-grow, RestoresAll-grow, incluir-Includes,
}

module _ (v1 v2 : List (List ℕ)) {H : Type 0} (op : Opcoes H)
    (sound : (h k : H) → op.igual_h h k ≡ true → h ≡ k)
    (resumo_inj : (x y : List ℕ) → op.resumo x ≡ op.resumo y → x ≡ y) where
  incluir_todos_lem :
      (ver i : ℕ) (dados : List ℕ) (cs : List (ℕ × ℕ)) (x : Indice H)
      → ler v1 v2 ver i ≡ dados
      → IsIndex v1 v2 op sound resumo_inj x
      → let r = incluir_todos op ver i dados cs x in
        IsIndex v1 v2 op sound resumo_inj r.1
        × Grows v1 v2 op sound resumo_inj x r.1
        × Restores v1 v2 r.1.unicos r.0 (juntar dados cs)
  unfolding incluir_todos
  incluir_todos_lem ver i dados [] x source ok =
      (ok, Grows-refl v1 v2 op sound resumo_inj x x refl, refl)
  incluir_todos_lem ver i dados ((o, s) ∷ cs) x source ok =
      let (u, x') = incluir op ver i dados o s x in
      let (ok', grows, (y, found, same)) =
        incluir-Includes v1 v2 op sound resumo_inj ver i dados o s x source ok in
      let (us, x'') = incluir_todos op ver i dados cs x' in
      let (ok'', (ext, more), rest) = incluir_todos_lem ver i dados cs x' source ok' in
      let one : Resolves v1 v2 x''.unicos u (pedaco dados o s) =
        subst (λ t. Resolves v1 v2 t u (pedaco dados o s)) (sym more)
          (Resolves-more v1 v2 x'.unicos ext u (pedaco dados o s) (y, found, same)) in
      (
        ok'',
        Grows-trans v1 v2 op sound resumo_inj x x' x'' grows (ext, more),
        (pedaco dados o s, juntar dados cs, one, rest, refl),
      )

  -- The files of one version from the place `i` on.
  abbrev Source : ℕ → ℕ → List (List ℕ) → Type 0
  Source ver i [] = Unit
  Source ver i (f ∷ fs) = (ler v1 v2 ver i ≡ f) × Source ver (suc i) fs

  varrer_versao_lem :
      (cuts : (d : List ℕ) → juntar d (chunkear op.fastcdc op.corte d) ≡ d) (ver i : ℕ)
      (fs : List (List ℕ)) (x : Indice H)
      → Source ver i fs
      → IsIndex v1 v2 op sound resumo_inj x
      → let r = varrer_versao op ver i fs x in
        IsIndex v1 v2 op sound resumo_inj r.1
        × Grows v1 v2 op sound resumo_inj x r.1
        × RestoresAll v1 v2 r.1.unicos r.0 fs
  unfolding varrer_versao contar
  varrer_versao_lem cuts ver i [] x source ok =
      (ok, Grows-refl v1 v2 op sound resumo_inj x x refl, tt)
  varrer_versao_lem cuts ver i (dados ∷ fs) x source ok =
      let cs = chunkear op.fastcdc op.corte dados in
      let start : Indice H = contar ver (length cs) x in
      let (us, x') = incluir_todos op ver i dados cs start in
      let (ok', (ext, grown), whole) = incluir_todos_lem ver i dados cs start source.0 ok in
      let (uss, x'') = varrer_versao op ver (suc i) fs x' in
      let (ok'', more, rest) = varrer_versao_lem cuts ver (suc i) fs x' source.1 ok' in
      (
        ok'',
        Grows-trans v1 v2 op sound resumo_inj x x' x'' (ext, grown) more,
        (
          subst (λ d. Restores v1 v2 x''.unicos us d) (cuts dados)
              (Restores-grow v1 v2 op sound resumo_inj x' x'' us (juntar dados cs) more whole),
          rest,
        ),
      )

  Source-of :
      (ver : ℕ) (fs : List (List ℕ)) (i : ℕ)
      → ((k : ℕ) → ler v1 v2 ver (i + k) ≡ get_or fs k [])
      → Source ver i fs
  Source-of ver [] i h = tt
  Source-of ver (f ∷ fs) i h = (
    ap (ler v1 v2 ver) (omega arith) ∙ h 0,
    Source-of ver fs (suc i) (λ k. ap (ler v1 v2 ver) (next i k) ∙ h (suc k)),
  )
    where
      next : (i k : ℕ) → suc i + k ≡ i + suc k
      next i k = omega arith

  first_source : (k : ℕ) → ler v1 v2 0 (0 + k) ≡ get_or v1 k []
  unfolding ler
  first_source k = ap (λ t. get_or v1 t []) (omega arith)

  second_source : (k : ℕ) → ler v1 v2 1 (0 + k) ≡ get_or v2 k []
  unfolding ler
  second_source k = ap (λ t. get_or v2 t []) (omega arith)

  -- With a digest that does not collide and cuts whose chunks make up each file, every file of both
  -- versions is what its references give.
  pub varrer_chunks-reconstruir :
      ((d : List ℕ) → juntar d (chunkear op.fastcdc op.corte d) ≡ d)
      → let r = varrer_chunks op v1 v2 in
        (map (reconstruir v1 v2 r.1.unicos) r.0.0 ≡ v1)
        × (map (reconstruir v1 v2 r.1.unicos) r.0.1 ≡ v2)
  unfolding varrer_chunks
  varrer_chunks-reconstruir cuts =
      let (r1, x1) = varrer_versao op 0 0 v1 vazio in
      let (ok1, grown1, all1) =
        varrer_versao_lem cuts 0 0 v1 vazio (Source-of 0 v1 0 first_source) tt in
      let (r2, x2) = varrer_versao op 1 0 v2 x1 in
      let (ok2, more, all2) =
        varrer_versao_lem cuts 1 0 v2 x1 (Source-of 1 v2 0 second_source) ok1 in
      (
        RestoresAll-reconstruir v1 v2 x2.unicos r1 v1
            (RestoresAll-grow v1 v2 op sound resumo_inj x1 x2 r1 v1 more all1),
        RestoresAll-reconstruir v1 v2 x2.unicos r2 v2 all2,
      )
