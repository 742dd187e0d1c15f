-- ===== src/Dedup/Tests.antt =====
-- Five files of which two are copies, with the content itself as digest and a pool that delivers in
-- reverse.
use engine_motor.Prelude.{
  ℕ, ◌≡◌, refl, sym, ap₂, inl, inr, Bool, true, false, ◌&&◌, Bool-cases, List, [], ◌∷◌, ◌++◌, map,
  length, All, All-append, ◌==◌, ==_iff, if◌then◌else◌, replicate, length-replicate, ap, ◌∙◌, ◌⊎◌,
}
use engine_motor.Scan.{Motivo, sem_permissao_leitura}
use engine_motor.Bytes.{to_le}
use engine_motor.Dedup.{Item, Grupo, Ambiente, etapa_dedup}
use engine_motor.Dedup.Iguais.{IsSound, SameContent, etapa_dedup-SameContent}

abbrev iguais : List ℕ → List ℕ → Bool
iguais [] [] = true
iguais [] (y ∷ ys) = false
iguais (x ∷ xs) [] = false
iguais (x ∷ xs) (y ∷ ys) = (x == y) && iguais xs ys

iguais_sound : (xs ys : List ℕ) → iguais xs ys ≡ true → xs ≡ ys
iguais_sound [] [] h = refl
iguais_sound [] (y ∷ ys) h = cc
iguais_sound (x ∷ xs) [] h = cc
iguais_sound (x ∷ xs) (y ∷ ys) h = elim (Bool-cases (x == y)) [
  | inl e ↦
      let h' : iguais xs ys ≡ true = rw e at h in ap₂ ◌∷◌ ((==_iff x y).0 e) (iguais_sound xs ys h')
  | inr e ↦ let h' : false ≡ true = rw e at h in cc
]

abbrev inverter {ℓ} : {A : Type ℓ} → List A → List A
inverter [] = []
inverter (x ∷ xs) = inverter xs ++ x ∷ []

All-inverter {ℓ κ} : {A : Type ℓ} (P : A → Type κ) (xs : List A) → All P xs → All P (inverter xs)
All-inverter P [] h = tt
All-inverter P (x ∷ xs) h = All-append P (inverter xs) (x ∷ []) (All-inverter P xs h.1) (h.0, tt)

abbrev item : ℕ → ℕ → Item
item i tam = record { i = i; tam = tam; legivel = true }

-- The third file cannot be read; the fourth is of another content than the rest.
abbrev abrir : Item → Motivo ⊎ List ℕ
abrir a =
    if a.i == 2
    then inl sem_permissao_leitura
    else inr (replicate a.tam (if a.i == 3 then 9 else 5))

abbrev ambiente : Ambiente (List ℕ)
ambiente = record {
  abrir = abrir;
  curto = λ x. x;
  longo = λ x. x;
  igual_h = iguais;
  entrega_amostra = inverter;
  entrega_completo = inverter;
}

abbrev conteudo_de : Motivo ⊎ List ℕ → List ℕ
conteudo_de (inl m) = []
conteudo_de (inr b) = b

abrir_stable : (a : Item) (b : List ℕ) → abrir a ≡ inr b → length b ≡ a.tam
abrir_stable a b h = elim (Bool-cases (a.i == 2)) [
  | inl e ↦ let h' : inl sem_permissao_leitura ≡ inr b = rw e at h in cc
  | inr e ↦
      let v = if a.i == 3 then 9 else 5 in
      let h' : inr (replicate a.tam v) ≡ inr b = rw e at h in
      let same : replicate a.tam v ≡ b = ap conteudo_de h' in
      ap length (sym same) ∙ length-replicate a.tam v
]

ambiente-IsSound : IsSound ambiente
ambiente-IsSound = record {
  sound = iguais_sound;
  curto_inj = λ x y h. h;
  longo_inj = λ x y h. h;
  delivers_amostra = λ P xs h. All-inverter P xs h;
  delivers_completo = λ P xs h. All-inverter P xs h;
  stable = abrir_stable;
}

abbrev arquivos : List Item
arquivos = item 0 3 ∷ item 1 4 ∷ item 2 3 ∷ item 3 3 ∷ item 4 3 ∷ []

found : Bool → List (List ℕ)
unfolding etapa_dedup
found b =
    map (λ (g : Grupo (List ℕ)). map (λ (a : Item). a.i) g.ids) (etapa_dedup ambiente b arquivos)

samples : found false ≡ (0 ∷ 4 ∷ []) ∷ []
unfolding found to_le
samples = refl

whole_files : found true ≡ (0 ∷ 4 ∷ []) ∷ []
unfolding found to_le
whole_files = refl

etapa_dedup-SameContent_example : All (SameContent ambiente) (etapa_dedup ambiente false arquivos)
etapa_dedup-SameContent_example = etapa_dedup-SameContent ambiente ambiente-IsSound false arquivos
