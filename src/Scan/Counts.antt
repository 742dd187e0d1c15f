-- ===== src/Scan/Counts.antt =====
-- The counter `ignorados` and the list `ign_lista` of bench/perfil_dataset.py.
use mathlib.Core.Logic.{ite}
use engine_motor.Prelude.{
  ℕ, ◌+◌, ◌≡◌, refl, ap, sym, ◌∙◌, Bool-cases, inl, inr, not, ◌&&◌, Option, some, List, [], ◌∷◌,
  ◌++◌, arith, ltb, leb, ◌==◌, length,
}
use engine_motor.Scan.{
  Nome, Stat, Dir, Motivo, Motivo-discrete, Ignorado, Quadro, Varredura, Opcoes, caminho, ignorar,
  juntar, arquivo, visto, hardlink_repetido,
}
use engine_motor.Scan.Stack.{Alcanca}
use engine_motor.Scan.Induction.{keep_Alcanca}

-- How many of the entries were left out for this reason.
abbrev pub count : Motivo → List Ignorado → ℕ
count m [] = 0
count m (x ∷ xs) = ite (Motivo-discrete m x.motivo) 1 0 + count m xs

count-snoc :
    (m : Motivo) (xs : List Ignorado) (x : Ignorado)
    → count m (xs ++ x ∷ []) ≡ count m xs + ite (Motivo-discrete m x.motivo) 1 0
count-snoc m [] x = omega arith
count-snoc m (y ∷ xs) x = omega (arith, count-snoc m xs x)

module _ (o : Opcoes) where
  pub record IsCounted (v : Varredura) : Type 0 where
    pub agree : (m : Motivo) → v.ignorados m ≡ count m v.ign_lista

  ignorar-IsCounted :
      (m : Motivo) (did : ℕ) (nome : Nome) (tam : Option ℕ) (v : Varredura)
      → IsCounted v
      → IsCounted (ignorar m did nome tam v)
  unfolding ignorar
  ignorar-IsCounted m did nome tam v h = record {
    agree = λ k.
        ap (λ n. n + ite (Motivo-discrete k m) 1 0) (h.agree k)
        ∙ sym (
            count-snoc k v.ign_lista
              (record { motivo = m; caminho = caminho v.dirs did nome; tam = tam }));
  }

  arquivo-IsCounted :
      (did : ℕ) (nome : Nome) (st : Stat) (v : Varredura)
      → IsCounted v
      → IsCounted (arquivo o did nome st v)
  unfolding arquivo juntar
  arquivo-IsCounted did nome st v h =
      elim (Bool-cases (not (o.max_arquivos == 0) && leb o.max_arquivos (length v.arquivos))) [
        | inl full ↦ rw full (record { agree = h.agree })
        | inr room ↦ rw room (elim (Bool-cases (ltb 1 st.st_nlink)) [
          | inl many ↦ rw many (elim (Bool-cases (visto st.st_dev st.st_ino v.vistos)) [
            | inl again ↦
                rw again (ignorar-IsCounted hardlink_repetido did nome (some st.st_size) v h)
            | inr first ↦ rw first (record { agree = h.agree })
          ])
          | inr one ↦ rw one (record { agree = h.agree })
        ])
      ]

  -- In every state of the scan the counter of each reason is the number of records in the list that
  -- name it.
  pub Alcanca-IsCounted :
      (raiz : Dir) (pilha : List Quadro) (v : Varredura) → Alcanca o raiz pilha v → IsCounted v
  Alcanca-IsCounted raiz pilha v r =
      keep_Alcanca o IsCounted ignorar-IsCounted arquivo-IsCounted
        (λ u dirs n a h. record { agree = h.agree }) (record { agree = λ m. refl }) r
