-- ===== src/Chunks/Inteiro/Exato.antt =====
-- The check of `tarefa_arquivo_inteiro` in bench/dedup.py that the second version comes back.
use engine_motor.Prelude.{
  false-ne-true, or_left, or_right, ℕ, suc, ◌+◌, ◌≡◌, ◌↔◌, refl, sym, ap, subst, ◌∙◌, Bool, true,
  false, some, List, [], ◌∷◌, get_elem?, All, All-append, if_case, inl, inr, arith, Bool-cases,
}
use engine_motor.Prelude.Texts.{same_of_eq, same, same_sound, same_refl, member}
use engine_motor.Chunks.Inteiro.{
  ItemFonte, IndiceInteiro, indice_vazio, tem, onde, Ferramentas, incluir_arquivo, incluir_versao,
  hashes, ler_fonte, devolvido, confere_sha, exatos, indexar, tarefa_arquivo_inteiro,
}
use engine_motor.Chunks.Inteiro.Contas.{incluir_versao-Knows, nothing}

next : (i k : ℕ) → i + 1 + k ≡ i + suc k
next i k = omega arith

zero_add : (k : ℕ) → 0 + k ≡ k
zero_add k = omega arith

module _ (p : Ferramentas) (f1 f2 : List ItemFonte) where
  -- An entry of the index stands for a file with its digest.
  record IsHeld (e : List ℕ × ℕ × ℕ × ℕ) : Type 0 where
    held : ItemFonte
    at : ler_fonte f1 f2 e.1 e.2 ≡ some held
    digest : p.resumo held.conteudo ≡ e.0

  incluir_arquivo-IsHeld :
      (ver i : ℕ) (x : ItemFonte) (z : IndiceInteiro)
      → ler_fonte f1 f2 ver i ≡ some x
      → All IsHeld z.dic_arquivos
      → All IsHeld (incluir_arquivo p ver i x z).dic_arquivos
  unfolding incluir_arquivo
  incluir_arquivo-IsHeld ver i x z e h =
      if_case (λ (w : IndiceInteiro). All IsHeld w.dic_arquivos)
        (tem (p.resumo x.conteudo) z.dic_arquivos) z _ (λ q. h)
        (λ q. All-append IsHeld z.dic_arquivos _ h (record { held = x; at = e; digest = refl }, tt))

  incluir_versao-IsHeld :
      (ver i : ℕ) (xs : List ItemFonte) (z : IndiceInteiro)
      → ((k : ℕ) (y : ItemFonte) → get_elem? xs k ≡ some y → ler_fonte f1 f2 ver (i + k) ≡ some y)
      → All IsHeld z.dic_arquivos
      → All IsHeld (incluir_versao p ver i xs z).dic_arquivos
  unfolding incluir_versao
  incluir_versao-IsHeld ver i [] z e h = h
  incluir_versao-IsHeld ver i (x ∷ xs) z e h =
      let here : i + 0 ≡ i = omega arith in
      incluir_versao-IsHeld ver (i + 1) xs (incluir_arquivo p ver i x z)
        (λ k y q. ap (λ j. ler_fonte f1 f2 ver j) (next i k) ∙ e (suc k) y q)
        (incluir_arquivo-IsHeld ver i x z (ap (λ j. ler_fonte f1 f2 ver j) (sym here) ∙ e 0 x refl)
          h)

  indexar-IsHeld : All IsHeld (indexar p f1 f2).dic_arquivos
  unfolding indexar
  indexar-IsHeld =
      incluir_versao-IsHeld 1 0 f2 _ (λ k y e. ap (λ j. get_elem? f2 j) (zero_add k) ∙ e)
        (incluir_versao-IsHeld 0 0 f1 indice_vazio
          (λ k y e. ap (λ j. get_elem? f1 j) (zero_add k) ∙ e) tt)

  onde-IsHeld :
      (h : List ℕ) (d : List (List ℕ × ℕ × ℕ × ℕ))
      → All IsHeld d
      → tem h d ≡ true
      → (ver : ℕ) × (i : ℕ) × (n : ℕ) × (onde h d ≡ some (ver, i, n)) × IsHeld (h, ver, i, n)
  unfolding onde tem
  onde-IsHeld h [] a e = cc
  onde-IsHeld h ((k, ver, i, n) ∷ d) a e = elim (Bool-cases (same k h)) [
    | inl q ↦ (ver, i, n, rw q refl, subst (λ j. IsHeld (j, ver, i, n)) (same_sound k h q) a.0)
    | inr q ↦ let (v, j, m, o, s) = onde-IsHeld h d a.1 (rw q at e) in (v, j, m, rw q o, s)
  ]

  module _ (collision_free : (x y : List ℕ) → p.resumo x ≡ p.resumo y → x ≡ y) where
    -- The same_of_eq digest of a file is that of its bytes.
    abbrev pub IsListed : ItemFonte → Type 0
    IsListed x = p.sha256 x.conteudo ≡ x.s

    confere_sha-devolvido :
        (x : ItemFonte) (d : List (List ℕ × ℕ × ℕ × ℕ))
        → All IsHeld d
        → tem (p.resumo x.conteudo) d ≡ true
        → confere_sha p x (devolvido p f1 f2 d x) ≡ same (p.sha256 x.conteudo) x.s
    unfolding devolvido confere_sha
    confere_sha-devolvido x d a e =
        let (ver, i, n, o, s) = onde-IsHeld (p.resumo x.conteudo) d a e in
        rw (o, devolvido, s.at, collision_free s.held.conteudo x.conteudo s.digest) refl

    exatos-IsListed :
        (xs : List ItemFonte) (d : List (List ℕ × ℕ × ℕ × ℕ)) (ok : Bool)
        → All IsHeld d
        → ((h : List ℕ) → member h (hashes p xs) ≡ true → tem h d ≡ true)
        → (exatos p f1 f2 d xs ok ≡ true) ↔ ((ok ≡ true) × All IsListed xs)
    unfolding exatos
    exatos-IsListed [] d ok a k = (λ e. (e, tt), λ h. h.0)
    exatos-IsListed (x ∷ xs) d ok a k =
        let h = p.resumo x.conteudo in
        let e =
          confere_sha-devolvido x d a
            (k h (or_left (same h h) (member h (hashes p xs)) (same_refl h))) in
        let rest : (j : List ℕ) → member j (hashes p xs) ≡ true → tem j d ≡ true =
          λ j m. k j (or_right (same j h) (member j (hashes p xs)) m) in
        elim (Bool-cases (same (p.sha256 x.conteudo) x.s)) [
          | inl q ↦
              let (f, g) = exatos-IsListed xs d ok a rest in
              rw (e, q)
                (
                  λ r. ((f r).0, (same_sound (p.sha256 x.conteudo) x.s q, (f r).1)),
                  λ r. g (r.0, r.1.1),
                )
          | inr q ↦
              let (f, g) = exatos-IsListed xs d false a rest in
              rw (e, q)
                (
                  λ r. absurd (false-ne-true (f r).0),
                  λ r. absurd (false-ne-true (sym q ∙ same_of_eq (p.sha256 x.conteudo) x.s r.1.0)),
                )
        ]

    -- `reconstrucao_v2_ok` holds exactly if the bytes of each file of the second version have the digest
    -- that the listing gives: the index never hands over another file, for a digest without collisions.
    pub reconstrucao-iff-IsListed :
        ((tarefa_arquivo_inteiro p f1 f2).reconstrucao_v2_ok ≡ true) ↔ All IsListed f2
    unfolding tarefa_arquivo_inteiro indexar
    reconstrucao-iff-IsListed =
        let knows =
          incluir_versao-Knows p 1 0 f2 (incluir_versao p 0 0 f1 indice_vazio) (hashes p f1)
            (incluir_versao-Knows p 0 0 f1 indice_vazio [] (λ h. nothing h)) in
        let (f, g) =
          exatos-IsListed f2 (indexar p f1 f2).dic_arquivos true indexar-IsHeld
            (λ h m. knows h ∙ or_right (member h (hashes p f1)) (member h (hashes p f2)) m) in
        (λ e. (f e).1, λ a. g (refl, a))
