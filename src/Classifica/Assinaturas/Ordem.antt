-- ===== src/Classifica/Assinaturas/Ordem.antt =====
-- The table `ASSINATURAS` of bench/perfil_dataset.py, and the order in which it is searched.
use mathlib.Core.Logic.{ite}
use mathlib.Core.Bool.{true≢false}
use mathlib.Core.Option.{some_inj}
use mathlib.Core.List.{head-eq_of_cons-eq, tail-eq_of_cons-eq}
use engine_motor.Prelude.{
  ℕ, zero, suc, ◌+◌, ◌-◌, ◌≡◌, refl, sym, ap, ap₂, ◌∙◌, subst, Bool, true, false, not, ◌&&◌, ◌||◌,
  Bool-cases, both, either, implied, decided, inl, inr, some, List, [], ◌∷◌, length, take, slice,
  get_elem?, ◌==◌, ==_iff, if◌then◌else◌, arith,
}
use engine_motor.Prelude.Texts.{codes, same, same_sound}
use engine_motor.Classifica.{Classe, Rotulo, Classe-discrete, Rotulo-discrete}
use engine_motor.Classifica.Assinaturas.{
  Assinatura, assinaturas, confere, primeira, detectar_assinatura,
}

-- The two differ at a place that both have.
difere : List ℕ → List ℕ → Bool
difere [] ys = false
difere (x ∷ xs) [] = false
difere (x ∷ xs) (y ∷ ys) = not (x == y) || difere xs ys

igual : Assinatura → Assinatura → Bool
igual a b =
    ite (Rotulo-discrete a.rot b.rot) true false && ite (Classe-discrete a.cls b.cls) true false

-- `b` cannot fit where `a` fits, unless it says the same or is the signature at 128.
compat : Assinatura → Assinatura → Bool
unfolding difere igual
compat a b =
    if b.off == 0
    then igual a b || difere a.mag b.mag
    else b.off == 128 && same b.mag (codes "DICM")

all_compat : Assinatura → List Assinatura → Bool
unfolding compat
all_compat a [] = true
all_compat a (b ∷ bs) = compat a b && all_compat a bs

table_compat : List Assinatura → List Assinatura → Bool
unfolding all_compat
table_compat [] bs = true
table_compat (a ∷ xs) bs = (not (a.off == 0) || all_compat a bs) && table_compat xs bs

assinaturas_compat : table_compat assinaturas assinaturas ≡ true
unfolding table_compat assinaturas Rotulo-discrete Classe-discrete
assinaturas_compat = refl

igual_sound : (a b : Assinatura) → igual a b ≡ true → (b.rot ≡ a.rot) × (b.cls ≡ a.cls)
unfolding igual
igual_sound a b h =
    let (p, q) =
      both (ite (Rotulo-discrete a.rot b.rot) true false)
        (ite (Classe-discrete a.cls b.cls) true false) h in
    (sym (decided (Rotulo-discrete a.rot b.rot) p), sym (decided (Classe-discrete a.cls b.cls) q))

prefixes_agree :
    (m n head : List ℕ) → take (length m) head ≡ m → take (length n) head ≡ n → difere m n ≡ false
unfolding difere
prefixes_agree [] n head h k = refl
prefixes_agree (x ∷ m) [] head h k = refl
prefixes_agree (x ∷ m) (y ∷ n) [] h k = cc
prefixes_agree (x ∷ m) (y ∷ n) (z ∷ head) h k =
    let same_head : x ≡ y = sym (head-eq_of_cons-eq h) ∙ head-eq_of_cons-eq k in
    rw ((==_iff x y).1 same_head)
      (prefixes_agree m n head (tail-eq_of_cons-eq h) (tail-eq_of_cons-eq k))

-- What `compat` says of two signatures that fit one file.
compat_fits :
    (head : List ℕ) (a b : Assinatura)
    → a.off ≡ 0
    → same (slice 128 132 head) (codes "DICM") ≡ false
    → compat a b ≡ true
    → confere head a ≡ true
    → confere head b ≡ true
    → (b.rot ≡ a.rot) × (b.cls ≡ a.cls)
unfolding compat confere
compat_fits head a b start no_dicom ok fa fb = elim (Bool-cases (b.off == 0)) [
  | inl at_start ↦
      let ok' : (igual a b || difere a.mag b.mag) ≡ true = rw at_start at ok in
      elim (either (igual a b) (difere a.mag b.mag) ok') [
        | inl says ↦ igual_sound a b says
        | inr apart ↦
            let agree =
              prefixes_agree a.mag b.mag head (front a start fa)
                (front b ((==_iff b.off 0).0 at_start) fb) in
            absurd (true≢false (sym apart ∙ agree))
      ]
  | inr far ↦
      let ok' : (b.off == 128 && same b.mag (codes "DICM")) ≡ true = rw far at ok in
      let (place, text) = both (b.off == 128) (same b.mag (codes "DICM")) ok' in
      let mag : b.mag ≡ codes "DICM" = same_sound b.mag (codes "DICM") text in
      let there : same (slice 128 132 head) (codes "DICM") ≡ true =
        subst (λ m. same (slice 128 (128 + length m) head) m ≡ true) mag
          (subst (λ o. same (slice o (o + length b.mag) head) b.mag ≡ true)
            ((==_iff b.off 128).0 place) fb) in
      absurd (true≢false (sym there ∙ no_dicom))
]
  where
    size : (n : ℕ) → 0 + n - 0 ≡ n
    size n = omega arith

    front :
        (c : Assinatura)
        → c.off ≡ 0
        → same (slice c.off (c.off + length c.mag) head) c.mag ≡ true
        → take (length c.mag) head ≡ c.mag
    front c e h = same_sound (take (length c.mag) head) c.mag (
        subst (λ k. same (take k head) c.mag ≡ true) (size (length c.mag))
          (subst (λ o. same (slice o (o + length c.mag) head) c.mag ≡ true) e h))

all_compat_at :
    (a : Assinatura) (bs : List Assinatura) (i : ℕ) {b : Assinatura}
    → all_compat a bs ≡ true
    → get_elem? bs i ≡ some b
    → compat a b ≡ true
unfolding all_compat
all_compat_at a [] i h e = cc
all_compat_at a (c ∷ bs) zero h e =
    let same_one : c ≡ _ = some_inj.0 e in
    subst (λ t. compat a t ≡ true) same_one (both (compat a c) (all_compat a bs) h).0
all_compat_at a (c ∷ bs) (suc i) h e =
    all_compat_at a bs i (both (compat a c) (all_compat a bs) h).1 e

table_compat_at :
    (xs bs : List Assinatura) (i : ℕ) {a : Assinatura}
    → table_compat xs bs ≡ true
    → get_elem? xs i ≡ some a
    → a.off ≡ 0
    → all_compat a bs ≡ true
unfolding table_compat
table_compat_at [] bs i h e z = cc
table_compat_at (c ∷ xs) bs zero h e z =
    let same_one : c ≡ _ = some_inj.0 e in
    let here = (both (not (c.off == 0) || all_compat c bs) (table_compat xs bs) h).0 in
    subst (λ t. all_compat t bs ≡ true) same_one
      (implied (c.off == 0) (all_compat c bs) here
        ((==_iff c.off 0).1 (ap (λ (t : Assinatura). t.off) same_one ∙ z)))
table_compat_at (c ∷ xs) bs (suc i) h e z =
    table_compat_at xs bs i (both (not (c.off == 0) || all_compat c bs) (table_compat xs bs) h).1 e
      z

-- The first of a table of which all that fit say the same.
primeira_agrees :
    (tabela : List Assinatura) (head : List ℕ) (a : Assinatura) (i : ℕ)
    → get_elem? tabela i ≡ some a
    → confere head a ≡ true
    → ((k : ℕ) (b : Assinatura)
        → get_elem? tabela k ≡ some b
        → confere head b ≡ true
        → (b.rot ≡ a.rot) × (b.cls ≡ a.cls))
    → primeira tabela head ≡ some (a.rot, a.cls)
unfolding primeira
primeira_agrees [] head a i e f agree = cc
primeira_agrees (c ∷ tabela) head a zero e f agree =
    let same_one : c ≡ a = some_inj.0 e in
    let fits : confere head c ≡ true = subst (λ t. confere head t ≡ true) (sym same_one) f in
    rw fits (ap (λ (t : Assinatura). some (t.rot, t.cls)) same_one)
primeira_agrees (c ∷ tabela) head a (suc i) e f agree = elim (Bool-cases (confere head c)) [
  | inl fits ↦
      let (r, k) = agree 0 c refl fits in
      rw fits (ap₂ (λ (x : Rotulo) (y : Classe). some (x, y)) r k)
  | inr not_here ↦
      rw not_here (primeira_agrees tabela head a i e f (λ k b at_k fits. agree (suc k) b at_k fits))
]

-- A signature of the table that stands at the start of a file decides it, wherever it is in the
-- table, if `DICM` is not at 128: its label and its class are returned.
pub detectar_assinatura-eq :
    (head ext : List ℕ) (i : ℕ) (a : Assinatura)
    → get_elem? assinaturas i ≡ some a
    → a.off ≡ 0
    → same (slice 128 132 head) (codes "DICM") ≡ false
    → confere head a ≡ true
    → detectar_assinatura head ext ≡ some (a.rot, some a.cls)
unfolding detectar_assinatura
detectar_assinatura-eq head ext i a at_i start no_dicom fits =
    let found : primeira assinaturas head ≡ some (a.rot, a.cls) =
      primeira_agrees assinaturas head a i at_i fits (λ k b at_k also.
        compat_fits head a b start no_dicom
          (all_compat_at a assinaturas k
            (table_compat_at assinaturas assinaturas i assinaturas_compat at_i start) at_k)
          fits also) in
    rw (found, detectar_assinatura)
