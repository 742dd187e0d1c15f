-- ===== src/Plano/Voltas.antt =====
-- The failures that `rotular_bloco` of bench/plano_bloco.py records.
use engine_motor.Prelude.{
  not-false, ℕ, ◌+◌, ◌≡◌, ◌↔◌, refl, Bool, false, Option, none, some, List, [], ◌∷◌, map, All,
  All-append, All-split, inl, inr, Bool-cases,
}
use engine_motor.Prelude.Texts.{same, same_sound, same_refl}
use engine_motor.Bytes.{IsByte}
use engine_motor.Transform.{Kind, aplicar, inverter}
use engine_motor.Transform.Inverse.{inverter-aplicar}
use engine_motor.Plano.Rotulos.{
  Codec, Codecs, transforms, Medida, reversivel, nao_reversiveis, diverge, divergentes, com_tamanho,
  medir, medir_transform, medir_escolhido, transform_em, escolher_ts, com_escolhido, medidas_de,
  rotular_bloco,
}

-- A codec gives back a block, plain and behind a transform.
abbrev pub Restores : List ℕ → Codec → Type 0
Restores x c = c.expande (c.comprime x) ≡ x

abbrev pub RestoresBehind : List ℕ → Codec → Kind × ℕ → Type 0
RestoresBehind x c t = inverter (c.expande (c.comprime (aplicar x t.0 t.1))) t.0 t.1 ≡ x

-- An entry that was measured has its block back.
abbrev Fine : Medida → Type 0
Fine m = diverge m ≡ false

divergentes-All : (j : ℕ) (ms : List Medida) → divergentes j ms ≡ [] → All Fine ms
unfolding divergentes
divergentes-All j [] e = tt
divergentes-All j (m ∷ ms) e = elim (Bool-cases (diverge m)) [
  | inl q ↦ absurd (cc (rw q at e))
  | inr q ↦ (q, divergentes-All (j + 1) ms (rw q at e))
]

All-divergentes : (j : ℕ) (ms : List Medida) → All Fine ms → divergentes j ms ≡ []
unfolding divergentes
All-divergentes j [] h = refl
All-divergentes j (m ∷ ms) h = rw h.0 (All-divergentes (j + 1) ms h.1)

nao_reversiveis-nil :
    (x : List ℕ) (i : ℕ) (ts : List (Kind × ℕ)) → All IsByte x → nao_reversiveis x i ts ≡ []
unfolding nao_reversiveis reversivel
nao_reversiveis-nil x i [] h = refl
nao_reversiveis-nil x i ((k, w) ∷ ts) h =
    rw (inverter-aplicar x k w h, same_refl x) (nao_reversiveis-nil x (i + 1) ts h)

-- What the asynchronous codecs do behind the transform that was chosen.
abbrev pub RestoresChosen : List ℕ → Codecs → Option ℕ → Type 0
RestoresChosen x cod none = Unit {0}
RestoresChosen x cod (some ti) =
    RestoresBehind x cod.zstd_19 (transform_em transforms ti)
    × RestoresBehind x cod.xz_9e (transform_em transforms ti)

-- The candidates that are measured for a block give it back.
pub record AllRestored (x : List ℕ) (cod : Codecs) (ts : Option ℕ) : Type 0 where
  pub plain :
      All (Restores x) (cod.zstd_1 ∷ cod.zstd_3 ∷ cod.zstd_19 ∷ cod.xz_9e ∷ cod.bzip2_9 ∷ [])
  pub behind : All (RestoresBehind x cod.zstd_3) transforms
  pub chosen : RestoresChosen x cod ts

module _ (sha : List ℕ → List ℕ) (abaixo : ℕ → ℕ → Bool)
    (collision_free : (x y : List ℕ) → sha x ≡ sha y → x ≡ y) (x : List ℕ) where
  Fine-com_tamanho : (c r : List ℕ) → Fine (com_tamanho sha abaixo x c r) ↔ (r ≡ x)
  unfolding diverge
  Fine-com_tamanho c r = (
    λ e. collision_free r x (same_sound (sha r) (sha x) (not-false (same (sha r) (sha x)) e)),
    λ e. rw (e, same_refl (sha x)) refl,
  )

  Fine-medir : (c : Codec) → Fine (medir sha abaixo x c) ↔ Restores x c
  unfolding medir
  Fine-medir c = Fine-com_tamanho (c.comprime x) (c.expande (c.comprime x))

  Fine-medir_escolhido :
      (c : Codec) (t : Kind × ℕ) → Fine (medir_escolhido sha abaixo x c t) ↔ RestoresBehind x c t
  unfolding medir_escolhido
  Fine-medir_escolhido c (k, w) = Fine-com_tamanho _ _

  module _ (bytes : All IsByte x) where
    Fine-medir_transform :
        (c : Codec) (t : Kind × ℕ) → Fine (medir_transform sha abaixo x c t) ↔ RestoresBehind x c t
    unfolding medir_transform diverge reversivel
    Fine-medir_transform c (k, w) =
        rw (inverter-aplicar x k w bytes, same_refl x)
          (Fine-com_tamanho (c.comprime (aplicar x k w)) _)

    map-Fine :
        (c : Codec) (ts : List (Kind × ℕ))
        → All Fine (map (medir_transform sha abaixo x c) ts) ↔ All (RestoresBehind x c) ts
    map-Fine c [] = (λ h. tt, λ h. tt)
    map-Fine c (t ∷ ts) =
        let (f, g) = Fine-medir_transform c t in
        let (f', g') = map-Fine c ts in (λ h. (f h.0, f' h.1), λ h. (g h.0, g' h.1))

    com_escolhido-Fine :
        (cod : Codecs) (ts : Option ℕ)
        → All Fine (com_escolhido sha abaixo x cod ts) ↔ RestoresChosen x cod ts
    unfolding com_escolhido diverge
    com_escolhido-Fine cod none = (λ h. tt, λ h. (refl, (refl, tt)))
    com_escolhido-Fine cod (some ti) =
        let (f, g) = Fine-medir_escolhido cod.zstd_19 (transform_em transforms ti) in
        let (f', g') = Fine-medir_escolhido cod.xz_9e (transform_em transforms ti) in
        (λ h. (f h.0, f' h.1.0), λ h. (g h.0, (g' h.1, tt)))

    medidas_de-Fine :
        (cod : Codecs) (ts : Option ℕ)
        → All Fine (medidas_de sha abaixo x cod ts) ↔ AllRestored x cod ts
    unfolding medidas_de
    medidas_de-Fine cod ts =
        let z1 = Fine-medir cod.zstd_1 in
        let z3 = Fine-medir cod.zstd_3 in
        let z19 = Fine-medir cod.zstd_19 in
        let xz = Fine-medir cod.xz_9e in
        let bz = Fine-medir cod.bzip2_9 in
        let m = map-Fine cod.zstd_3 transforms in
        let c = com_escolhido-Fine cod ts in
        let rest =
          medir sha abaixo x cod.zstd_19
          ∷ medir sha abaixo x cod.xz_9e
          ∷ medir sha abaixo x cod.bzip2_9
          ∷ com_escolhido sha abaixo x cod ts in
        (
          λ h.
              let s =
                All-split Fine (map (medir_transform sha abaixo x cod.zstd_3) transforms) rest
                  h.1.1.1 in
              let r = s.1 in
              record {
                plain = (z1.0 h.1.0, (z3.0 h.1.1.0, (z19.0 r.0, (xz.0 r.1.0, (bz.0 r.1.1.0, tt)))));
                behind = m.0 s.0;
                chosen = c.0 r.1.1.1;
              },
          λ a.
              let p = a.plain in
              (
                (Fine-com_tamanho x x).1 refl,
                (
                  z1.1 p.0,
                  (
                    z3.1 p.1.0,
                    All-append Fine (map (medir_transform sha abaixo x cod.zstd_3) transforms) rest
                        (m.1 a.behind)
                        (z19.1 p.1.1.0, (xz.1 p.1.1.1.0, (bz.1 p.1.1.1.1.0, c.1 a.chosen))),
                  ),
                ),
              ),
        )

    -- No failure is recorded for a block exactly if every candidate that was measured gives it back: the
    -- five codecs, zstd-3 behind each transform, and the two behind the transform that was chosen; for a
    -- digest without collisions.
    pub falhas-rotular_bloco :
        (cod : Codecs)
        → ((rotular_bloco sha abaixo x cod).falhas ≡ [])
          ↔ AllRestored x cod (rotular_bloco sha abaixo x cod).ts
    unfolding rotular_bloco
    falhas-rotular_bloco cod =
        let ts = escolher_ts sha abaixo x cod.zstd_3 in
        let ms = medidas_de sha abaixo x cod ts in
        let (f, g) = medidas_de-Fine cod ts in
        rw (nao_reversiveis-nil x 0 transforms bytes)
          (λ e. f (divergentes-All 0 ms e), λ a. All-divergentes 0 ms (g a))
