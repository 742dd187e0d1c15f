-- ===== src/Capacidade/Leitor/Quadros.antt =====
-- The frames that `Leitor` of bench/capacidade_local.py returns.
use mathlib.Core.List.{append_assoc}
use engine_motor.Prelude.{
  ℕ, ◌+◌, ◌-◌, ◌^◌, ◌≤◌, ◌<◌, ◌≡◌, refl, sym, ap, ap₂, ◌∙◌, inl, inr, true, false, Bool-cases, List,
  ◌++◌, length, length-append, length-drop, take, drop, slice, drop-drop, drop-append, take-append,
  take-splice, drop-splice, take-append_le, drop-append_le, leb, leb→le, ◌==◌, arith,
}
use engine_motor.Bytes.{from_le, to_le}
use engine_motor.Bytes.Words.{length-to_le, from_le-to_le}
use engine_motor.Capacidade.Leitor.{Leitor, decidir}
use engine_motor.Capacidade.Leitor.Acao.{devolve, bloco}

-- A frame: the size before and after compression, and the compressed bytes.
abbrev pub quadro_de : ℕ → List ℕ → List ℕ
quadro_de olen corpo = to_le 4 olen ++ (to_le 4 (length corpo) ++ corpo)

module _ (olen : ℕ) (corpo rest d x : List ℕ) (short : length corpo < 256 ^ 4)
    (olen_short : olen < 256 ^ 4) (at : d ++ x ≡ quadro_de olen corpo ++ rest) where
  -- What the first bytes of a frame say, when they are there.
  field_olen : 8 ≤ length d → from_le (take 4 d) ≡ olen
  field_olen h =
      ap from_le (
        sym (take-append_le 4 d x (omega arith))
        ∙ (ap (take 4) (at ∙ append_assoc (to_le 4 olen) (to_le 4 (length corpo) ++ corpo) rest)
            ∙ take-splice (to_le 4 olen) ((to_le 4 (length corpo) ++ corpo) ++ rest) 4
                (length-to_le 4 olen)))
      ∙ from_le-to_le 4 olen olen_short

  behind_olen : drop 4 (d ++ x) ≡ to_le 4 (length corpo) ++ (corpo ++ rest)
  behind_olen =
      ap (drop 4) (at ∙ append_assoc (to_le 4 olen) (to_le 4 (length corpo) ++ corpo) rest)
      ∙ (drop-splice (to_le 4 olen) ((to_le 4 (length corpo) ++ corpo) ++ rest) 4
            (length-to_le 4 olen)
          ∙ append_assoc (to_le 4 (length corpo)) corpo rest)

  field_clen : 8 ≤ length d → from_le (take 4 (drop 4 d)) ≡ length corpo
  field_clen h =
      ap from_le (
        sym (take-append_le 4 (drop 4 d) x (omega (arith, length-drop 4 d)))
        ∙ (ap (take 4) (sym (drop-append_le 4 d x (omega arith)) ∙ behind_olen)
            ∙ take-splice (to_le 4 (length corpo)) (corpo ++ rest) 4
                (length-to_le 4 (length corpo))))
      ∙ from_le-to_le 4 (length corpo) short

  behind_head : drop 8 (d ++ x) ≡ corpo ++ rest
  behind_head =
      sym (drop-drop 4 4 (d ++ x))
      ∙ (ap (drop 4) behind_olen
          ∙ drop-splice (to_le 4 (length corpo)) (corpo ++ rest) 4 (length-to_le 4 (length corpo)))

  field_corpo : 8 + length corpo ≤ length d → take (length corpo) (drop 8 d) ≡ corpo
  field_corpo h =
      sym (take-append_le (length corpo) (drop 8 d) x (omega (arith, length-drop 8 d)))
      ∙ (ap (take (length corpo)) (sym (drop-append_le 8 d x (omega arith)) ∙ behind_head)
          ∙ take-append corpo rest)

  pub behind_frame : 8 + length corpo ≤ length d → drop (8 + length corpo) d ++ x ≡ rest
  behind_frame h =
      sym (drop-append_le (8 + length corpo) d x h)
      ∙ (sym (drop-drop (length corpo) 8 (d ++ x))
          ∙ (ap (drop (length corpo)) behind_head ∙ drop-append corpo rest))

  pub some_left : length d < 8 + length corpo → 0 < length x
  some_left h = omega (
    arith,
    ap length at,
    length-append d x,
    length-append (quadro_de olen corpo) rest,
    length-append (to_le 4 olen) (to_le 4 (length corpo) ++ corpo),
    length-append (to_le 4 (length corpo)) corpo,
    length-to_le 4 olen,
    length-to_le 4 (length corpo),
  )

leb_of_le : (x y : ℕ) → x ≤ y → leb x y ≡ true
leb_of_le x y h = ground arith

not_leb : (x y : ℕ) → y < x → leb x y ≡ false
not_leb x y h = ground arith

not_zero : (n : ℕ) → 0 < n → (n == 0) ≡ false
not_zero n h = ground arith

slice_from :
    (p a b : ℕ) (xs : List ℕ) → slice (p + a) (p + b) xs ≡ take (b - a) (drop a (drop p xs))
slice_from p a b xs = ap₂ take (gap p a b) (sym (drop-drop a p xs))
  where
    gap : (p a b : ℕ) → p + b - (p + a) ≡ b - a
    gap p a b = omega arith

-- The frame that a state stands at: it is whole in the buffer, or not yet.
module _ (s : Leitor) (olen : ℕ) (corpo rest x : List ℕ) (short : length corpo < 256 ^ 4)
    (olen_short : olen < 256 ^ 4) (some_bytes : 0 < olen)
    (at : drop s.p s.pend ++ x ≡ quadro_de olen corpo ++ rest) where
  olen_of : 8 ≤ length (drop s.p s.pend) → from_le (slice s.p (s.p + 4) s.pend) ≡ olen
  olen_of h =
      ap from_le (ap (λ k. take k (drop s.p s.pend)) (around s.p))
      ∙ field_olen olen corpo rest (drop s.p s.pend) x short olen_short at h
    where
      around : (p : ℕ) → p + 4 - p ≡ 4
      around p = omega arith

  clen_of : 8 ≤ length (drop s.p s.pend) → from_le (slice (s.p + 4) (s.p + 8) s.pend) ≡ length corpo
  clen_of h =
      ap from_le (slice_from s.p 4 8 s.pend)
      ∙ field_clen olen corpo rest (drop s.p s.pend) x short olen_short at h

  pub decidir_whole :
      8 + length corpo ≤ length (drop s.p s.pend)
      → decidir s ≡ devolve corpo (record s { p = s.p + (8 + length corpo) })
  unfolding decidir
  decidir_whole h =
      let size = length-drop s.p s.pend in
      let head : 8 ≤ length (drop s.p s.pend) = omega arith in
      let body : slice (s.p + 8) (s.p + 8 + length corpo) s.pend ≡ corpo =
        ap (λ j. slice (s.p + 8) j s.pend) (sum s.p (length corpo))
        ∙ (slice_from s.p 8 (8 + length corpo) s.pend
            ∙ (ap (λ k. take k (drop 8 (drop s.p s.pend))) (less (length corpo))
                ∙ field_corpo olen corpo rest (drop s.p s.pend) x short olen_short at h)) in
      rw
        (
          decidir,
          leb_of_le 8 (length s.pend - s.p) (omega arith),
          olen_of head,
          not_zero olen some_bytes,
          clen_of head,
          leb_of_le (8 + length corpo) (length s.pend - s.p) (omega arith),
          body,
        )
        refl
    where
      sum : (p n : ℕ) → p + 8 + n ≡ p + (8 + n)
      sum p n = omega arith

      less : (n : ℕ) → 8 + n - 8 ≡ n
      less n = omega arith

  pub decidir_part :
      length (drop s.p s.pend) < 8 + length corpo → s.fim_arq ≡ false → decidir s ≡ bloco
  unfolding decidir
  decidir_part h more = elim (Bool-cases (leb 8 (length s.pend - s.p))) [
    | inr e ↦ rw (decidir, e, more) refl
    | inl e ↦
        let size = length-drop s.p s.pend in
        let le = leb→le 8 (length s.pend - s.p) e in
        let head : 8 ≤ length (drop s.p s.pend) = omega arith in
        rw
          (
            decidir,
            e,
            olen_of head,
            not_zero olen some_bytes,
            clen_of head,
            not_leb (8 + length corpo) (length s.pend - s.p) (omega arith),
            more,
          )
          refl
  ]
