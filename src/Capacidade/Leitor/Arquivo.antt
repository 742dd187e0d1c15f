-- ===== src/Capacidade/Leitor/Arquivo.antt =====
-- What `Leitor` of bench/capacidade_local.py returns from a file of frames.
use mathlib.Core.List.{append_assoc}
use engine_motor.Prelude.{
  ℕ, zero, suc, ◌+◌, ◌-◌, ◌^◌, ◌≤◌, ◌<◌, ◌≡◌, refl, sym, ap, ◌∙◌, inl, inr, Bool, true, false, ◌||◌,
  Bool-cases, either, some, List, [], ◌∷◌, ◌++◌, length, length-drop, length-take, take, drop,
  get_or, drop-drop, leb, leb→le, ◌==◌, ==_iff, if◌then◌else◌, arith,
}
use engine_motor.Capacidade.Leitor.{Leitor, lido_do_arquivo, ler_bloco, proximo}
use engine_motor.Capacidade.Leitor.Quadros.{
  quadro_de, some_left, behind_frame, decidir_whole, decidir_part,
}

take-drop-length : (k : ℕ) (xs : List ℕ) → take k xs ++ drop (length (take k xs)) xs ≡ xs
take-drop-length zero xs = refl
take-drop-length (suc k) [] = refl
take-drop-length (suc k) (x ∷ xs) = ap (λ ys. x ∷ ys) (take-drop-length k xs)

module _ (fds : List (List ℕ)) (tamanhos : List ℕ) (mib : ℕ) where
  abbrev pub arquivo_de : Leitor → List ℕ
  arquivo_de s = get_or fds s.f []

  -- What is still to come of the file in hand.
  abbrev pub resto_de : Leitor → List ℕ
  resto_de s = drop s.p s.pend ++ drop s.off (arquivo_de s)

  -- The index is inside the buffer, and the flag is set at the end of the file only.
  pub record IsReading (s : Leitor) : Type 0 where
    pub inside : s.p ≤ length s.pend
    pub ended : s.fim_arq ≡ true → length (arquivo_de s) ≤ s.off

  -- A frame was returned, and the rest of the file is still to come.
  pub record IsFrame (k : ℕ) (s : Leitor) (corpo rest : List ℕ) : Type 0 where
    pub seguinte : Leitor
    pub returns : proximo fds tamanhos mib k s ≡ some (corpo, seguinte)
    pub left : resto_de seguinte ≡ rest
    pub reading : IsReading seguinte
    pub same_file : seguinte.f ≡ s.f

  ler_bloco-resto_de : (s : Leitor) → resto_de (ler_bloco fds tamanhos mib s) ≡ resto_de s
  unfolding ler_bloco
  ler_bloco-resto_de s =
      let dados = lido_do_arquivo fds tamanhos mib s in
      append_assoc (drop s.p s.pend) dados (drop (s.off + length dados) (arquivo_de s))
      ∙ ap (λ ys. drop s.p s.pend ++ ys)
          (ap (λ ys. dados ++ ys) (sym (drop-drop (length dados) s.off (arquivo_de s)))
            ∙ take-drop-length (s.off + mib - s.off) (drop s.off (arquivo_de s)))

  ler_bloco-IsReading :
      (s : Leitor)
      → 0 < mib
      → length (arquivo_de s) ≤ get_or tamanhos s.f 0
      → IsReading s
      → IsReading (ler_bloco fds tamanhos mib s)
  unfolding ler_bloco
  ler_bloco-IsReading s some_room size h = record {
    inside = omega arith;
    ended = at_end (length (lido_do_arquivo fds tamanhos mib s)) refl s.fim_arq h.ended;
  }
    where
      none_left :
          (m : ℕ)
          → m ≡ length (lido_do_arquivo fds tamanhos mib s)
          → m ≡ 0
          → length (arquivo_de s) ≤ s.off
      none_left m e z = omega (
        arith,
        length-take (s.off + mib - s.off) (drop s.off (arquivo_de s)),
        length-drop s.off (arquivo_de s),
      )

      at_end :
          (m : ℕ)
          → m ≡ length (lido_do_arquivo fds tamanhos mib s)
          → (b : Bool) → (b ≡ true → length (arquivo_de s) ≤ s.off)
          → (if m == 0 || leb (get_or tamanhos s.f 0) (s.off + m) then true else b) ≡ true
          → length (arquivo_de s) ≤ s.off + m
      at_end m e b before g =
          elim (Bool-cases (m == 0 || leb (get_or tamanhos s.f 0) (s.off + m))) [
            | inl now ↦ elim (either (m == 0) (leb (get_or tamanhos s.f 0) (s.off + m)) now) [
              | inl z ↦ let le = none_left m e ((==_iff m 0).0 z) in omega arith
              | inr le ↦ let le' = leb→le (get_or tamanhos s.f 0) (s.off + m) le in omega arith
            ]
            | inr later ↦ let le = before (rw later at g) in omega arith
          ]

  ler_bloco_less :
      (s : Leitor)
      → 0 < mib
      → 0 < length (drop s.off (arquivo_de s))
      → length (drop (ler_bloco fds tamanhos mib s).off (arquivo_de s))
        < length (drop s.off (arquivo_de s))
  unfolding ler_bloco
  ler_bloco_less s some_room more = omega (
    arith,
    length-take (s.off + mib - s.off) (drop s.off (arquivo_de s)),
    length-drop s.off (arquivo_de s),
    length-drop (s.off + length (lido_do_arquivo fds tamanhos mib s)) (arquivo_de s),
  )

  -- At a frame whose sizes fit in their words and whose first is not zero, `proximo` returns its bytes,
  -- and what comes behind it is still to come; a read for each byte that the file has left is enough.
  pub proximo-IsFrame :
      (k : ℕ) (s : Leitor) (olen : ℕ) (corpo rest : List ℕ)
      → 0 < mib
      → length (arquivo_de s) ≤ get_or tamanhos s.f 0
      → IsReading s
      → 0 < olen
      → olen < 256 ^ 4
      → length corpo < 256 ^ 4
      → resto_de s ≡ quadro_de olen corpo ++ rest
      → length (drop s.off (arquivo_de s)) < k
      → IsFrame k s corpo rest
  unfolding proximo
  proximo-IsFrame zero s olen corpo rest room size h some_bytes olen_short short at fuel =
      absurd (omega arith)
  proximo-IsFrame (suc k) s olen corpo rest room size h some_bytes olen_short short at fuel =
      elim (Bool-cases (leb (8 + length corpo) (length (drop s.p s.pend)))) [
        | inl e ↦
            let le = leb→le (8 + length corpo) (length (drop s.p s.pend)) e in
            let whole = decidir_whole s olen corpo rest x short olen_short some_bytes at le in
            record {
              seguinte = record s { p = s.p + (8 + length corpo) };
              returns = rw (proximo, whole) refl;
              left =
                  ap (λ ys. ys ++ x) (sym (drop-drop (8 + length corpo) s.p s.pend))
                  ∙ behind_frame olen corpo rest (drop s.p s.pend) x short olen_short at le;
              reading = record {
                inside = omega (arith, h.inside, length-drop s.p s.pend);
                ended = h.ended;
              };
              same_file = refl;
            }
        | inr e ↦
            let less = not_all (8 + length corpo) (length (drop s.p s.pend)) e in
            let more = some_left olen corpo rest (drop s.p s.pend) x short olen_short at less in
            let part =
              decidir_part s olen corpo rest x short olen_short some_bytes at less
                (not_ended more) in
            let fewer = ler_bloco_less s room more in
            let next : IsFrame k (ler_bloco fds tamanhos mib s) corpo rest =
              proximo-IsFrame k (ler_bloco fds tamanhos mib s) olen corpo rest room size
                (ler_bloco-IsReading s room size h) some_bytes olen_short short
                (ler_bloco-resto_de s ∙ at) (omega arith) in
            record {
              seguinte = next.seguinte;
              returns = rw (proximo, part) next.returns;
              left = next.left;
              reading = next.reading;
              same_file = next.same_file;
            }
      ]
    where
      x : List ℕ
      x = drop s.off (arquivo_de s)

      not_all : (m n : ℕ) → leb m n ≡ false → n < m
      not_all m n e = ground arith

      ends : (b : Bool) → (b ≡ true → length (arquivo_de s) ≤ s.off) → 0 < length x → b ≡ false
      ends false g more = refl
      ends true g more = let le = g refl in absurd (omega (arith, length-drop s.off (arquivo_de s)))

      not_ended : 0 < length x → s.fim_arq ≡ false
      not_ended more = ends s.fim_arq h.ended more
