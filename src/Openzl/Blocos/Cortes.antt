-- ===== src/Openzl/Blocos/Cortes.antt =====
-- The blocks of `cortar_blocos` in bench/openzl_bench.py.
use mathlib.Core.List.{append_assoc}
use engine_motor.Prelude.{
  ℕ, zero, suc, ◌+◌, ◌-◌, ◌*◌, ◌/◌, ◌≤◌, ◌<◌, max, ◌≡◌, ◌≢◌, ◌⊎◌, refl, sym, ap, subst, ◌∙◌, Bool,
  true, false, Bool-cases, inl, inr, Option, Option-cases, none, some, List, [], ◌∷◌, ◌++◌, All,
  length, length-drop, length-take, take, take-add, drop, slice, drop-drop, take-append-drop, leb,
  leb→le, if◌then◌else◌, arith,
}
use engine_motor.Prelude.Texts.{find_byte}
use engine_motor.Openzl.Blocos.{nova_linha, fim_do_bloco, cortar, cortar_blocos}
use engine_motor.Openzl.Blocos.Divisao.{concatenar}
use engine_motor.Openzl.Blocos.Linhas.{find_byte-none, find_byte-IsFound}

-- A block has the size; by lines it has that, bytes that end no line, and the end of the line.
abbrev pub IsBlock : ℕ → Bool → List ℕ → Type 0
IsBlock tam true b =
    (inicio : List ℕ) × (meio : List ℕ) × (b ≡ inicio ++ (meio ++ 10 ∷ []))
    × (length inicio ≡ tam)
    × All (λ c. c ≢ 10) meio
IsBlock tam false b = length b ≡ tam

-- What is left has no room for a block with a byte behind it, or, by lines, none in which a line ends.
abbrev pub IsRest : ℕ → Bool → List ℕ → Type 0
IsRest tam true resto = (length resto ≤ tam) ⊎ All (λ c. c ≢ 10) (drop tam resto)
IsRest tam false resto = length resto ≤ tam

record IsEnd (dados : List ℕ) (tam : ℕ) (por_linha : Bool) (pos fim : ℕ) : Type 0 where
  block : IsBlock tam por_linha (slice pos fim dados)
  behind : pos ≤ fim

by_size :
    (dados : List ℕ) (tam pos : ℕ)
    → pos + tam < length dados
    → IsBlock tam false (slice pos (pos + tam) dados)
by_size dados tam pos less =
    omega (arith, length-take (pos + tam - pos) (drop pos dados), length-drop pos dados)

by_line :
    (dados : List ℕ) (tam pos k : ℕ)
    → pos + tam < length dados
    → find_byte 10 (drop (pos + tam) dados) ≡ some k
    → IsBlock tam true (slice pos (pos + tam + k + 1) dados)
by_line dados tam pos k less e =
    let f = find_byte-IsFound 10 (drop (pos + tam) dados) k e in
    let there = drop-drop tam pos dados in
    let size : pos + tam + k + 1 - pos ≡ tam + suc k = omega arith in
    (
      take tam (drop pos dados),
      take k (drop (pos + tam) dados),
      ap (λ n. take n (drop pos dados)) size
          ∙ sym (take-add tam (suc k) (drop pos dados))
          ∙ ap (λ t. take tam (drop pos dados) ++ take (suc k) t) there
          ∙ ap (λ t. take tam (drop pos dados) ++ t) f.at_end,
      omega (arith, length-take tam (drop pos dados), length-drop pos dados),
      f.before,
    )

module _ (dados : List ℕ) (tam : ℕ) where
  Found : Bool → ℕ → Option ℕ → Type 0
  Found t pos none = IsRest tam t (drop pos dados)
  Found t pos (some fim) = IsEnd dados tam t pos fim

  fim_do_bloco-Found :
      (por_linha : Bool) (pos : ℕ) → Found por_linha pos (fim_do_bloco dados tam por_linha pos)
  unfolding fim_do_bloco Found nova_linha
  fim_do_bloco-Found por_linha pos = elim (Bool-cases (leb (length dados) (pos + tam))) [
    | inl e ↦ rw e (short por_linha (leb→le (length dados) (pos + tam) e))
    | inr e ↦ rw e (room por_linha (more (length dados) (pos + tam) e))
  ]
    where
      more : (x y : ℕ) → leb x y ≡ false → y < x
      more x y e = ground arith

      short : (t : Bool) → length dados ≤ pos + tam → IsRest tam t (drop pos dados)
      short true h = inl (omega (arith, length-drop pos dados))
      short false h = omega (arith, length-drop pos dados)

      room :
          (t : Bool)
          → pos + tam < length dados
          → Found t pos (
              if t
              then elim (nova_linha dados (pos + tam)) [ none ↦ none | some j ↦ some (j + 1) ]
              else some (pos + tam))
      room false less = record { block = by_size dados tam pos less; behind = omega arith }
      room true less = elim (Option-cases (find_byte 10 (drop (pos + tam) dados))) [
        | inl e ↦ rw e (
            inr (
              subst (λ t. All (λ c. c ≢ 10) t) (sym (drop-drop tam pos dados))
                (find_byte-none 10 (drop (pos + tam) dados) e)))
        | inr (k, e) ↦
            rw e (record { block = by_line dados tam pos k less e; behind = omega arith })
      ]

-- The blocks from `pos` on: as many as are allowed, each of them a block, and the data from there on
-- are the blocks and what is left, which holds no further block unless their number is reached.
record IsCut (dados : List ℕ) (tam : ℕ) (por_linha : Bool) (left pos : ℕ) (bs : List (List ℕ))
    : Type 0 where
  few : length bs ≤ left
  blocks : All (IsBlock tam por_linha) bs
  resto : List ℕ
  whole : concatenar bs ++ resto ≡ drop pos dados
  stops : (length bs ≡ left) ⊎ IsRest tam por_linha resto

cortar-IsCut :
    (dados : List ℕ) (tam : ℕ) (por_linha : Bool) (left pos : ℕ)
    → IsCut dados tam por_linha left pos (cortar dados tam por_linha left pos)
unfolding cortar Found
cortar-IsCut dados tam por_linha zero pos = record {
  few = omega arith;
  blocks = tt;
  resto = drop pos dados;
  whole = refl;
  stops = inl refl;
}
cortar-IsCut dados tam por_linha (suc left) pos = elim (Bool-cases (leb (length dados) pos)) [
  | inl e ↦ rw (e, cortar) (no_more (over por_linha (leb→le (length dados) pos e)))
  | inr e ↦ elim (Option-cases (fim_do_bloco dados tam por_linha pos)) [
    | inl h ↦
        rw (e, h, cortar)
          (no_more
            (subst (Found dados tam por_linha pos) h (fim_do_bloco-Found dados tam por_linha pos)))
    | inr (fim, h) ↦
        let at_end : IsEnd dados tam por_linha pos fim =
          subst (Found dados tam por_linha pos) h (fim_do_bloco-Found dados tam por_linha pos) in
        let rest = cortar-IsCut dados tam por_linha left fim in
        let there : drop fim dados ≡ drop (fim - pos) (drop pos dados) =
          ap (λ k. drop k dados) (back fim pos at_end.behind)
          ∙ sym (drop-drop (fim - pos) pos dados) in
        rw (e, h, cortar)
          (record {
            few = omega (arith, rest.few);
            blocks = (at_end.block, rest.blocks);
            resto = rest.resto;
            whole =
                append_assoc (slice pos fim dados)
                  (concatenar (cortar dados tam por_linha left fim)) rest.resto
                ∙ (ap (λ t. slice pos fim dados ++ t) (rest.whole ∙ there)
                    ∙ take-append-drop (fim - pos) (drop pos dados));
            stops = one_more (cortar dados tam por_linha left fim) rest.resto rest.stops;
          })
  ]
]
  where
    back : (x y : ℕ) → y ≤ x → x ≡ y + (x - y)
    back x y h = omega arith

    over : (t : Bool) → length dados ≤ pos → IsRest tam t (drop pos dados)
    over true h = inl (omega (arith, length-drop pos dados))
    over false h = omega (arith, length-drop pos dados)

    no_more : IsRest tam por_linha (drop pos dados) → IsCut dados tam por_linha (suc left) pos []
    no_more h = record {
      few = omega arith;
      blocks = tt;
      resto = drop pos dados;
      whole = refl;
      stops = inr h;
    }

    one_more :
        (bs : List (List ℕ)) (resto : List ℕ)
        → (length bs ≡ left) ⊎ IsRest tam por_linha resto
        → (suc (length bs) ≡ suc left) ⊎ IsRest tam por_linha resto
    one_more bs resto (inl h) = inl (ap suc h)
    one_more bs resto (inr h) = inr h

-- The size of a block, rounded down to the alignment, and one unit of it at least.
abbrev pub tamanho_alinhado : ℕ → ℕ → ℕ
tamanho_alinhado tamanho a = max a (tamanho / a * a)

-- `cortar_blocos` gives `maximo` blocks at most; each has the rounded size, or by lines that many
-- bytes and then what goes on up to the next end of a line and no further; what the blocks hold, in
-- order, is a prefix of the data; and there are `maximo` of them, or the rest is no longer than the
-- rounded size, or by lines has no end of a line behind it.
pub cortar_blocos_lem :
    (dados : List ℕ) (tamanho maximo a : ℕ) (por_linha : Bool)
    → let bs = cortar_blocos dados tamanho maximo a por_linha in
      (length bs ≤ maximo)
      × All (IsBlock (tamanho_alinhado tamanho a) por_linha) bs
      × ((resto : List ℕ) × (concatenar bs ++ resto ≡ dados)
          × ((length bs ≡ maximo) ⊎ IsRest (tamanho_alinhado tamanho a) por_linha resto))
unfolding cortar_blocos
cortar_blocos_lem dados tamanho maximo a por_linha =
    let cut = cortar-IsCut dados (tamanho_alinhado tamanho a) por_linha maximo 0 in
    (cut.few, cut.blocks, (cut.resto, cut.whole, cut.stops))
