-- ===== src/Chunks/Inteiro/Contas.antt =====
-- The sums of `tarefa_arquivo_inteiro` in bench/dedup.py.
use engine_motor.Prelude.{
  or_right, ℕ, ◌+◌, ◌≡◌, ◌≤◌, refl, sym, ◌∙◌, Bool, true, false, ◌||◌, List, [], ◌∷◌, ◌++◌, length,
  All, if◌then◌else◌, inl, inr, arith, Bool-cases,
}
use engine_motor.Prelude.Texts.{same_sym, same, same_sound, member}
use engine_motor.Chunks.Inteiro.{
  ItemFonte, IndiceInteiro, indice_vazio, tem, Ferramentas, incluir_arquivo, incluir_versao, hashes,
  em_v1, duplicados, total_t, bytes_no_dic, indexar, tarefa_arquivo_inteiro,
}

abbrev Dic : Type 0
Dic = List (List ℕ × ℕ × ℕ × ℕ)

-- The size of a file of the listing is that of its bytes.
abbrev pub IsMeasured : ItemFonte → Type 0
IsMeasured x = x.t ≡ length x.conteudo

bytes_no_dic-append : (d e : Dic) → bytes_no_dic (d ++ e) ≡ bytes_no_dic d + bytes_no_dic e
bytes_no_dic-append [] e = omega arith
bytes_no_dic-append ((h, ver, i, n) ∷ d) e = omega (arith, bytes_no_dic-append d e)

pub tem-snoc :
    (h k : List ℕ) (ver i n : ℕ) (d : Dic)
    → tem h (d ++ (k, ver, i, n) ∷ []) ≡ (same k h || tem h d)
unfolding tem
tem-snoc h k ver i n [] = ground arith
tem-snoc h k ver i n ((j, v, a, b) ∷ d) = ground (arith, tem-snoc h k ver i n d)

less :
    (a b : Bool) (n t : ℕ)
    → (a ≡ true → b ≡ true)
    → (if a then t else 0) + n ≤ (if b then n + t else n)
less true b n t h = rw (h refl) (omega arith)
less false b n t h = ground arith

pub nothing : (h : List ℕ) → tem h [] ≡ false
unfolding tem
nothing h = refl

seen :
    (k : List ℕ) (d : Dic) (visto : List (List ℕ)) (h : List ℕ)
    → ((j : List ℕ) → tem j d ≡ member j visto)
    → tem k d ≡ true
    → tem h d ≡ (same h k || member h visto)
seen k d visto h f e = elim (Bool-cases (same h k)) [
  | inl q ↦ rw (q, same_sound h k q) e
  | inr q ↦ rw q (f h)
]

module _ (p : Ferramentas) where
  -- The index knows the digests that the loop has seen.
  abbrev pub Knows : Dic → List (List ℕ) → Type 0
  Knows d visto = (h : List ℕ) → tem h d ≡ member h visto

  incluir_arquivo-Knows :
      (ver i : ℕ) (x : ItemFonte) (z : IndiceInteiro) (visto : List (List ℕ))
      → Knows z.dic_arquivos visto
      → Knows (incluir_arquivo p ver i x z).dic_arquivos (p.resumo x.conteudo ∷ visto)
  unfolding incluir_arquivo
  incluir_arquivo-Knows ver i x z visto k h =
      elim (Bool-cases (tem (p.resumo x.conteudo) z.dic_arquivos)) [
        | inl e ↦
            let old : tem h z.dic_arquivos ≡ (same h (p.resumo x.conteudo) || member h visto) =
              seen (p.resumo x.conteudo) z.dic_arquivos visto h k e in
            rw (e, incluir_arquivo) old
        | inr e ↦
            rw
              (
                e,
                incluir_arquivo,
                tem-snoc h (p.resumo x.conteudo) ver i (length x.conteudo) z.dic_arquivos,
                same_sym (p.resumo x.conteudo) h,
                k h,
              )
              refl
      ]

  -- The loop of a version knows what it knew and the digests of its files.
  pub incluir_versao-Knows :
      (ver i : ℕ) (xs : List ItemFonte) (z : IndiceInteiro) (visto : List (List ℕ))
      → Knows z.dic_arquivos visto
      → (h : List ℕ)
      → tem h (incluir_versao p ver i xs z).dic_arquivos
        ≡ (member h visto || member h (hashes p xs))
  unfolding incluir_versao
  incluir_versao-Knows ver i [] z visto k h = ground (arith, k h)
  incluir_versao-Knows ver i (x ∷ xs) z visto k h = ground (
    arith,
    incluir_versao-Knows ver (i + 1) xs (incluir_arquivo p ver i x z) (p.resumo x.conteudo ∷ visto)
        (incluir_arquivo-Knows ver i x z visto k) h,
  )

  incluir_arquivo_accounts :
      (ver i : ℕ) (x : ItemFonte) (z : IndiceInteiro) (visto : List (List ℕ)) (n : ℕ)
      → Knows z.dic_arquivos visto
      → IsMeasured x
      → bytes_no_dic (incluir_arquivo p ver i x z).dic_arquivos
          + (if member (p.resumo x.conteudo) visto then n + x.t else n)
        ≡ bytes_no_dic z.dic_arquivos + x.t + n
  unfolding incluir_arquivo
  incluir_arquivo_accounts ver i x z visto n k m =
      let h = p.resumo x.conteudo in
      let e' = bytes_no_dic-append z.dic_arquivos ((h, ver, i, length x.conteudo) ∷ []) in
      elim (Bool-cases (tem h z.dic_arquivos)) [
        | inl e ↦ rw (e, incluir_arquivo, sym (k h) ∙ e) (omega arith)
        | inr e ↦ rw (e, incluir_arquivo, sym (k h) ∙ e) (omega (arith, e'))
      ]

  -- Each file of a version is in the unique bytes or counted as a copy.
  incluir_versao_accounts :
      (ver i : ℕ) (xs : List ItemFonte) (z : IndiceInteiro) (visto : List (List ℕ)) (n : ℕ)
      → Knows z.dic_arquivos visto
      → All IsMeasured xs
      → bytes_no_dic (incluir_versao p ver i xs z).dic_arquivos + duplicados p visto xs n
        ≡ bytes_no_dic z.dic_arquivos + total_t xs + n
  unfolding incluir_versao duplicados incluir_arquivo
  incluir_versao_accounts ver i [] z visto n k m = omega arith
  incluir_versao_accounts ver i (x ∷ xs) z visto n k m =
      let h = p.resumo x.conteudo in
      let ih =
        incluir_versao_accounts ver (i + 1) xs (incluir_arquivo p ver i x z) (h ∷ visto)
          (if member h visto then n + x.t else n) (incluir_arquivo-Knows ver i x z visto k) m.1 in
      omega (arith, ih, incluir_arquivo_accounts ver i x z visto n k m.0)

  em_v1-le-duplicados :
      (h1 visto : List (List ℕ)) (xs : List ItemFonte) (n : ℕ)
      → ((h : List ℕ) → member h h1 ≡ true → member h visto ≡ true)
      → em_v1 p h1 xs + n ≤ duplicados p visto xs n
  unfolding em_v1 duplicados
  em_v1-le-duplicados h1 visto [] n s = omega arith
  em_v1-le-duplicados h1 visto (x ∷ xs) n s =
      let h = p.resumo x.conteudo in
      let ih =
        em_v1-le-duplicados h1 (h ∷ visto) xs (if member h visto then n + x.t else n)
          (λ j e. or_right (same j h) (member j visto) (s j e)) in
      omega (arith, ih, less (member h h1) (member h visto) n x.t (s h))

  -- In `tarefa_arquivo_inteiro` the unique bytes of both versions and the bytes of the copies in the
  -- second are the unique bytes of the first and all of the second, where the listing has the sizes of
  -- the files; and what the first version has already is a part of the copies.
  pub tarefa_arquivo_inteiro_accounts :
      (f1 f2 : List ItemFonte)
      → All IsMeasured f2
      → ((tarefa_arquivo_inteiro p f1 f2).bytes_unicos
            + (tarefa_arquivo_inteiro p f1 f2).bytes_v2_duplicados_total
          ≡ bytes_no_dic (incluir_versao p 0 0 f1 indice_vazio).dic_arquivos + total_t f2)
        × ((tarefa_arquivo_inteiro p f1 f2).bytes_v2_ja_em_v1
            ≤ (tarefa_arquivo_inteiro p f1 f2).bytes_v2_duplicados_total)
  unfolding tarefa_arquivo_inteiro indexar
  tarefa_arquivo_inteiro_accounts f1 f2 m =
      let z = incluir_versao p 0 0 f1 indice_vazio in
      let a =
        incluir_versao_accounts 1 0 f2 z (hashes p f1) 0
          (incluir_versao-Knows 0 0 f1 indice_vazio [] (λ h. nothing h)) m in
      (
        omega (arith, a),
        omega (arith, em_v1-le-duplicados (hashes p f1) (hashes p f1) f2 0 (λ h e. e)),
      )
