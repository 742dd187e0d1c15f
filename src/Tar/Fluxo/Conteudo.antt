-- ===== src/Tar/Fluxo/Conteudo.antt =====
-- What is still to be read from a `Fluxo` of bench/plano_bloco.py, as one byte string.
use mathlib.Core.List.{append-nil, append_assoc}
use engine_motor.Prelude.{
  ℕ, ◌+◌, ◌-◌, ◌*◌, ◌^◌, ◌≤◌, ◌≡◌, refl, sym, ap, ◌∙◌, ◌⊎◌, inl, inr, Bool, true, false, not, ◌&&◌,
  ◌||◌, Bool-cases, both, if_case, List, [], ◌∷◌, ◌++◌, length, length-append, length-drop,
  length-take, take, drop, slice, drop_all, drop-drop, drop-append_le, take-append_le, ltb, leb,
  leb→le, ◌==◌, if◌then◌else◌, arith,
}
use engine_motor.Tar.Fluxo.{Pedaco, Fluxo, falta_ler, receber, encher_de, encher, aparar, ler}

-- What the reads still bring: up to an empty one, or the one at which the decompressor ends.
abbrev pub corrente : List Pedaco → List ℕ
corrente [] = []
corrente (p ∷ ps) =
    let resto = corrente ps in
    if p.tamanho == 0 then [] else p.saida ++ (if p.acaba then [] else resto)

abbrev pub pendente : Fluxo → List ℕ
pendente s = if s.fim || s.eof then [] else corrente s.fonte

abbrev pub conteudo : Fluxo → List ℕ
conteudo s = drop s.i s.buf ++ pendente s

-- Enough bytes wait, or there are no more.
pub record IsFull (n : ℕ) (s t : Fluxo) : Type 0 where
  pub same : conteudo t ≡ conteudo s
  pub at : t.pos ≡ s.pos
  pub fits : t.i ≤ length t.buf
  pub enough : (n ≤ length (drop t.i t.buf)) ⊎ (pendente t ≡ [])

ended : (s : Fluxo) (xs : List ℕ) → corrente s.fonte ≡ [] → pendente s ≡ []
ended s xs e = if_case (λ ys. ys ≡ []) (s.fim || s.eof) [] (corrente s.fonte) (λ _. refl) (λ _. e)

-- The last read: `fim` is set, and nothing was to come.
stopped :
    (n : ℕ) (s : Fluxo) (ps : List Pedaco)
    → s.i ≤ length s.buf
    → corrente s.fonte ≡ []
    → IsFull n s (record s { fonte = ps; fim = true })
stopped n s ps le e = record {
  same = ap (λ t. drop s.i s.buf ++ t) (sym (ended s [] e));
  at = refl;
  fits = le;
  enough = inr refl;
}

waiting : (n : ℕ) (s : Fluxo) → s.i ≤ length s.buf → falta_ler n s ≡ false → IsFull n s s
unfolding falta_ler
waiting n s le h = record { same = refl; at = refl; fits = le; enough = split s.fim refl }
  where
    wide : (x : ℕ) → (ltb x n && true) ≡ false → n ≤ x
    wide x g = ground arith

    split : (b : Bool) → s.fim ≡ b → (n ≤ length (drop s.i s.buf)) ⊎ (pendente s ≡ [])
    split true e = inr (rw e refl)
    split false e =
        let h' : (ltb (length s.buf - s.i) n && true) ≡ false = rw e at h in
        inl (omega (arith, length-drop s.i s.buf, wide (length s.buf - s.i) h'))

record IsReceived (ps : List Pedaco) (s t : Fluxo) : Type 0 where
  same : conteudo t ≡ conteudo s
  at : t.pos ≡ s.pos
  fits : t.i ≤ length t.buf
  left : t.fonte ≡ ps

receber-IsReceived :
    (p : Pedaco) (ps : List Pedaco) (s : Fluxo)
    → s.fonte ≡ p ∷ ps
    → s.fim ≡ false
    → (p.tamanho == 0) ≡ false
    → s.i ≤ length s.buf
    → IsReceived ps s (receber p ps s)
unfolding receber
receber-IsReceived p ps s e open_yet some_bytes le = by_eof s.eof refl
  where
    all_of : (b : Bool) → corrente (p ∷ ps) ≡ p.saida ++ (if p.acaba then [] else corrente ps)
    all_of b = rw some_bytes refl

    both_ways : (b : Bool) → (if b || b then [] else corrente ps) ≡ (if b then [] else corrente ps)
    both_ways true = refl
    both_ways false = refl

    by_eof : (b : Bool) → s.eof ≡ b → IsReceived ps s (receber p ps s)
    by_eof true h = rw h (record {
      same = ap (λ t. drop s.i s.buf ++ t) (sym (rw open_yet refl));
      at = refl;
      fits = le;
      left = refl;
    })
    by_eof false h = rw h (record {
      same =
          ap (λ t. t ++ (if p.acaba || p.acaba then [] else corrente ps))
            (drop-append_le s.i s.buf p.saida le)
          ∙ (append_assoc (drop s.i s.buf) p.saida (if p.acaba || p.acaba then [] else corrente ps)
              ∙ ap (λ t. drop s.i s.buf ++ t)
                  (ap (λ t. p.saida ++ t) (both_ways p.acaba)
                    ∙ sym (rw open_yet (ap corrente e ∙ all_of true))));
      at = refl;
      fits = omega (arith, length-append s.buf p.saida);
      left = refl;
    })

falta_fim : (n : ℕ) (s : Fluxo) → falta_ler n s ≡ true → not s.fim ≡ true
unfolding falta_ler
falta_fim n s h = (both (ltb (length s.buf - s.i) n) (not s.fim) h).1

encher_de-IsFull :
    (ps : List Pedaco) (n : ℕ) (s : Fluxo)
    → s.fonte ≡ ps
    → s.i ≤ length s.buf
    → IsFull n s (encher_de ps n s)
unfolding encher_de
encher_de-IsFull [] n s e le =
    if_case (IsFull n s) (falta_ler n s) _ _ (λ _. stopped n s [] le (ap corrente e))
      (λ h. waiting n s le h)
encher_de-IsFull (p ∷ ps) n s e le = elim (Bool-cases (falta_ler n s)) [
  | inr h ↦ rw (h, encher_de) (waiting n s le h)
  | inl h ↦ elim (Bool-cases (p.tamanho == 0)) [
    | inl empty ↦ rw (h, empty, encher_de) (stopped n s ps le (ap corrente e ∙ rw empty refl))
    | inr some_bytes ↦
        let got = receber-IsReceived p ps s e (not_ended h) some_bytes le in
        let full = encher_de-IsFull ps n (receber p ps s) got.left got.fits in
        rw (h, some_bytes, encher_de)
          (record {
            same = full.same ∙ got.same;
            at = full.at ∙ got.at;
            fits = full.fits;
            enough = full.enough;
          })
  ]
]
  where
    not_false : (b : Bool) → not b ≡ true → b ≡ false
    not_false true h = cc
    not_false false h = refl

    not_ended : falta_ler n s ≡ true → s.fim ≡ false
    not_ended h = not_false s.fim (falta_fim n s h)

aparar-conteudo : (s : Fluxo) → (conteudo (aparar s) ≡ conteudo s) × ((aparar s).pos ≡ s.pos)
unfolding aparar
aparar-conteudo s =
    if_case (λ (t : Fluxo). (conteudo t ≡ conteudo s) × (t.pos ≡ s.pos)) (ltb (4 * 2 ^ 20) s.i) _ _
      (λ _. (refl, refl)) (λ _. (refl, refl))

aparar_fits : (s : Fluxo) → s.i ≤ length s.buf → (aparar s).i ≤ length (aparar s).buf
unfolding aparar
aparar_fits s le =
    if_case (λ (t : Fluxo). t.i ≤ length t.buf) (ltb (4 * 2 ^ 20) s.i) _ _ (λ _. omega arith)
      (λ _. le)

-- The first `n` bytes of what waits and of what is to come, where enough waits or nothing is to come.
take_front :
    (n : ℕ) (xs ys : List ℕ)
    → (n ≤ length xs) ⊎ (ys ≡ [])
    → (take n xs ≡ take n (xs ++ ys)) × (drop (length (take n xs)) xs ++ ys ≡ drop n (xs ++ ys))
take_front n xs ys (inl h) =
    let size : length (take n xs) ≡ n = omega (arith, length-take n xs) in
    (
      sym (take-append_le n xs ys h),
      ap (λ k. drop k xs ++ ys) size ∙ sym (drop-append_le n xs ys h),
    )
take_front n xs ys (inr e) = rw e (
  ap (take n) (sym (append-nil xs)),
  append-nil (drop (length (take n xs)) xs)
      ∙ (short (Bool-cases (leb n (length xs))) ∙ ap (drop n) (sym (append-nil xs))),
)
  where
    short :
        ((leb n (length xs) ≡ true) ⊎ (leb n (length xs) ≡ false))
        → drop (length (take n xs)) xs ≡ drop n xs
    short (inl h) =
        let le = leb→le n (length xs) h in ap (λ k. drop k xs) (omega (arith, length-take n xs))
    short (inr h) =
        let over : length xs ≤ n = ground arith in
        drop_all (length (take n xs)) xs (omega (arith, length-take n xs))
        ∙ sym (drop_all n xs over)

-- `ler n` returns the first `n` bytes of what is still to be read, or all of it where that is less;
-- the rest is still to be read, and `pos` grows by as many bytes as are returned.
pub conteudo-ler :
    (n : ℕ) (s : Fluxo)
    → s.i ≤ length s.buf
    → ((ler n s).0 ≡ take n (conteudo s))
      × (conteudo (ler n s).1 ≡ drop n (conteudo s))
      × ((ler n s).1.pos ≡ s.pos + length (ler n s).0)
      × ((ler n s).1.i ≤ length (ler n s).1.buf)
unfolding ler encher
conteudo-ler n s le =
    let full = encher_de-IsFull s.fonte n s refl le in
    let cheio : Fluxo = encher_de s.fonte n s in
    let (front, back) = take_front n (drop cheio.i cheio.buf) (pendente cheio) full.enough in
    let out : List ℕ = slice cheio.i (cheio.i + n) cheio.buf in
    let it : out ≡ take n (drop cheio.i cheio.buf) =
      ap (λ k. take k (drop cheio.i cheio.buf)) (around cheio.i n) in
    let lido : Fluxo = record cheio { i = cheio.i + length out; pos = cheio.pos + length out } in
    let rest : conteudo lido ≡ drop n (conteudo cheio) =
      ap (λ xs. xs ++ pendente cheio)
        (sym (drop-drop (length out) cheio.i cheio.buf)
          ∙ ap (λ k. drop k (drop cheio.i cheio.buf)) (ap length it))
      ∙ back in
    (
      it ∙ (front ∙ ap (take n) full.same),
      (aparar-conteudo lido).0 ∙ (rest ∙ ap (drop n) full.same),
      (aparar-conteudo lido).1 ∙ ap (λ k. k + length out) full.at,
      aparar_fits lido (
          omega (
            arith,
            full.fits,
            ap length it,
            length-take n (drop cheio.i cheio.buf),
            length-drop cheio.i cheio.buf,
          )),
    )
  where
    around : (a b : ℕ) → a + b - a ≡ b
    around a b = omega arith
