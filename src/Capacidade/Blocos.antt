-- ===== src/Capacidade/Blocos.antt =====
-- The blocks of `Escritor` in bench/capacidade_local.py.
use mathlib.Core.List.{append-nil, append_assoc}
use native.Mathlib.Nat.{add-mul}
use engine_motor.Prelude.{
  ℕ, zero, suc, ◌+◌, ◌-◌, ◌*◌, ◌≤◌, ◌<◌, min, ◌≡◌, refl, sym, ap, ◌∙◌, ◌⊎◌, inl, inr, true, false,
  Bool-cases, List, [], ◌∷◌, ◌++◌, length, take, drop, replicate, All, All-append, leb, ltb, ltb→lt,
  ◌==◌, ==_iff, arith, length-append, length-take, length-drop, length-replicate, take-append-drop,
}
use engine_motor.Capacidade.{
  Escritor, descarregar, preencher, escrever_loop, escrever, fechar, blocos, conteudo,
}

blocos-append : (gs hs : List (ℕ × List ℕ)) → blocos (gs ++ hs) ≡ blocos gs ++ blocos hs
blocos-append [] hs = refl
blocos-append ((o, b) ∷ gs) hs =
    ap (λ t. b ++ t) (blocos-append gs hs) ∙ sym (append_assoc b (blocos gs) (blocos hs))

empty_of_length : (xs : List ℕ) → length xs ≡ 0 → xs ≡ []
empty_of_length [] h = refl
empty_of_length (x ∷ xs) h = absurd (omega arith)

module _ (mib : ℕ) where
  -- A block is whole, and stands at 0 or below the cap.
  abbrev pub IsBlock : ℕ → ℕ × List ℕ → Type 0
  IsBlock cap (o, b) = ((o ≡ 0) ⊎ (o < cap)) × (length b ≡ mib)

  -- The state between calls.
  pub record IsReady (e : Escritor) : Type 0 where
    pub room : length e.buf < mib
    pub place : (e.off ≡ 0) ⊎ (e.off < e.cap)
    pub whole : All (IsBlock e.cap) e.gravados
    pub counted : e.escritos ≡ length e.gravados * mib

  descarregar-IsReady :
      (e : Escritor)
      → 0 < mib
      → length e.buf ≡ mib
      → (e.off ≡ 0) ⊎ (e.off < e.cap)
      → All (IsBlock e.cap) e.gravados
      → e.escritos ≡ length e.gravados * mib
      → IsReady (descarregar mib e)
  unfolding descarregar
  descarregar-IsReady e pos full place whole counted = record {
    room = pos;
    place = elim (Bool-cases (leb e.cap (e.off + mib))) [
      | inl q ↦ rw q (inl refl)
      | inr q ↦ rw q (inr (ground arith))
    ];
    whole = All-append (IsBlock e.cap) e.gravados ((e.off, e.buf) ∷ []) whole ((place, full), tt);
    counted =
        let n : length (e.gravados ++ (e.off, e.buf) ∷ []) ≡ length e.gravados + 1 =
          length-append e.gravados ((e.off, e.buf) ∷ []) in
        omega (arith, ap (λ (t : ℕ). t * mib) n, add-mul (length e.gravados) 1 mib);
  }

  descarregar-conteudo : (e : Escritor) → conteudo (descarregar mib e) ≡ conteudo e
  unfolding descarregar
  descarregar-conteudo e =
      append-nil (blocos (e.gravados ++ (e.off, e.buf) ∷ []))
      ∙ blocos-append e.gravados ((e.off, e.buf) ∷ [])
      ∙ ap (λ t. blocos e.gravados ++ t) (append-nil e.buf)

  -- The buffer with the bytes of one round.
  abbrev filled : List ℕ → Escritor → Escritor
  filled dados e = record e { buf = e.buf ++ take (min (mib - length e.buf) (length dados)) dados }

  length-filled :
      (dados : List ℕ) (e : Escritor)
      → length (filled dados e).buf ≡ length e.buf + min (mib - length e.buf) (length dados)
  length-filled dados e =
      let k = min (mib - length e.buf) (length dados) in
      omega (arith, length-append e.buf (take k dados), length-take k dados)

  preencher-IsReady :
      (dados : List ℕ) (e : Escritor) → 0 < mib → IsReady e → IsReady (preencher mib dados e).1
  unfolding preencher
  preencher-IsReady dados e pos r = elim (Bool-cases (length (filled dados e).buf == mib)) [
    | inl q ↦
        rw q
          (descarregar-IsReady (filled dados e) pos ((==_iff _ mib).0 q) r.place r.whole r.counted)
    | inr q ↦ rw q (record {
      room = below (length (filled dados e).buf) q (omega (arith, length-filled dados e, r.room));
      place = r.place;
      whole = r.whole;
      counted = r.counted;
    })
  ]
    where
      below : (n : ℕ) → (n == mib) ≡ false → n ≤ mib → n < mib
      below n q h = ground arith

  filled-conteudo :
      (dados : List ℕ) (e : Escritor)
      → conteudo (filled dados e) ++ drop (min (mib - length e.buf) (length dados)) dados
        ≡ conteudo e ++ dados
  filled-conteudo dados e =
      let k = min (mib - length e.buf) (length dados) in
      ap (λ t. t ++ drop k dados) (sym (append_assoc (blocos e.gravados) e.buf (take k dados)))
      ∙ append_assoc (conteudo e) (take k dados) (drop k dados)
      ∙ ap (λ t. conteudo e ++ t) (take-append-drop k dados)

  preencher-conteudo :
      (dados : List ℕ) (e : Escritor)
      → let r = preencher mib dados e in conteudo r.1 ++ r.0 ≡ conteudo e ++ dados
  unfolding preencher
  preencher-conteudo dados e = elim (Bool-cases (length (filled dados e).buf == mib)) [
    | inl q ↦ rw q (
        ap (λ t. t ++ drop (min (mib - length e.buf) (length dados)) dados)
          (descarregar-conteudo (filled dados e))
        ∙ filled-conteudo dados e)
    | inr q ↦ rw q (filled-conteudo dados e)
  ]

  length-preencher :
      (b : ℕ) (bs : List ℕ) (e : Escritor)
      → IsReady e
      → length (preencher mib (b ∷ bs) e).0 ≤ length bs
  unfolding preencher
  length-preencher b bs e r =
      omega (arith, r.room, length-drop (min (mib - length e.buf) (length (b ∷ bs))) (b ∷ bs))

  escrever_loop_lem :
      (fuel : ℕ) (dados : List ℕ) (e : Escritor)
      → 0 < mib
      → length dados ≤ fuel
      → IsReady e
      → let r = escrever_loop mib fuel dados e in
        (r.0 ≡ []) × IsReady r.1 × (conteudo r.1 ≡ conteudo e ++ dados)
  unfolding escrever_loop
  escrever_loop_lem zero [] e pos h r = (refl, r, sym (append-nil (conteudo e)))
  escrever_loop_lem zero (b ∷ bs) e pos h r = absurd (omega arith)
  escrever_loop_lem (suc fuel) [] e pos h r = (refl, r, sym (append-nil (conteudo e)))
  escrever_loop_lem (suc fuel) (b ∷ bs) e pos h r =
      let (resto, e') = preencher mib (b ∷ bs) e in
      let (done, ready, same) =
        escrever_loop_lem fuel resto e' pos (omega (arith, length-preencher b bs e r))
          (preencher-IsReady (b ∷ bs) e pos r) in
      (done, ready, same ∙ preencher-conteudo (b ∷ bs) e)

  -- `escrever` takes all the data: what was written and what waits in the buffer grow by it, every
  -- block is whole and stands at 0 or below the cap, `escritos` counts the written bytes, and the
  -- buffer is not full.
  pub escrever_lem :
      (dados : List ℕ) (e : Escritor)
      → 0 < mib
      → IsReady e
      → let r = escrever mib dados e in
        (r.0 ≡ []) × IsReady r.1 × (conteudo r.1 ≡ conteudo e ++ dados)
  unfolding escrever
  escrever_lem dados e pos r = escrever_loop_lem (length dados) dados e pos (omega arith) r

  -- `fechar(True)` leaves nothing in the buffer: the last block is filled with zeros, fewer than a
  -- block has bytes.
  pub fechar_lem :
      (e : Escritor)
      → 0 < mib
      → IsReady e
      → let f = fechar mib true e in
        IsReady f
        × (f.buf ≡ [])
        × ((k : ℕ) × (k < mib) × (conteudo f ≡ conteudo e ++ replicate k 0))
  unfolding fechar
  fechar_lem e pos r = elim (Bool-cases (ltb 0 (length e.buf))) [
    | inl q ↦
        let some_left : 0 < length e.buf = ltb→lt 0 (length e.buf) q in
        rw q (
          descarregar-IsReady padded pos full r.place r.whole r.counted,
          refl,
          (
            pad,
            omega (arith, r.room),
            descarregar-conteudo padded
                ∙ sym (append_assoc (blocos e.gravados) e.buf (replicate pad 0)),
          ),
        )
    | inr q ↦
        let none_left : length e.buf ≡ 0 = empty (length e.buf) q in
        rw q (r, empty_of_length e.buf none_left, (0, pos, sym (append-nil (conteudo e))))
  ]
    where
      pad : ℕ
      pad = mib - length e.buf

      padded : Escritor
      padded = record e { buf = e.buf ++ replicate pad 0 }

      full : length padded.buf ≡ mib
      full =
          omega
            (arith, length-append e.buf (replicate pad 0), length-replicate {A = ℕ} pad 0, r.room)

      empty : (n : ℕ) → ltb 0 n ≡ false → n ≡ 0
      empty n q = ground arith
