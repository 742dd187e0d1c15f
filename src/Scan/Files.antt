-- ===== src/Scan/Files.antt =====
-- The list of files that the scan builds.
use engine_motor.Prelude.{
  ℕ, suc, ◌≤◌, ◌≡◌, sym, ap, ◌∙◌, inl, inr, ◌⊎◌, Bool-cases, not, ◌&&◌, some, List, [], ◌∷◌, arith,
  ltb, leb, ◌==◌, length, get_elem?, length-append, get_elem?-snoc, if◌then◌else◌,
}
use engine_motor.Scan.{
  Nome, Stat, Dir, Arq, Quadro, Varredura, Opcoes, ignorar, juntar, arquivo, visto,
  hardlink_repetido,
}
use engine_motor.Scan.Stack.{Alcanca}
use engine_motor.Scan.Induction.{keep_Alcanca}

module _ (o : Opcoes) where
  -- Each file knows its place in the list, and the list keeps to the limit where one is given.
  pub record IsIndexed (v : Varredura) : Type 0 where
    pub placed : (k : ℕ) (a : Arq) → get_elem? v.arquivos k ≡ some a → a.i ≡ k
    pub limited : (o.max_arquivos ≡ 0) ⊎ (length v.arquivos ≤ o.max_arquivos)

  juntar-IsIndexed :
      (did : ℕ) (nome : Nome) (st : Stat) (v : Varredura)
      → IsIndexed v
      → (o.max_arquivos ≡ 0) ⊎ (suc (length v.arquivos) ≤ o.max_arquivos)
      → IsIndexed (juntar o did nome st v)
  unfolding juntar
  juntar-IsIndexed did nome st v h room = record {
    placed = λ k a e. elim (get_elem?-snoc v.arquivos new k e) [
      | inl old ↦ h.placed k a old
      | inr (place, same) ↦ sym (ap (λ (x : Arq). x.i) same) ∙ sym place
    ];
    limited = elim room [
      | inl unlimited ↦ inl unlimited
      | inr fits ↦ inr (omega (arith, fits, length-append v.arquivos (new ∷ [])))
    ];
  }
    where
      new : Arq
      new = record {
        i = length v.arquivos;
        did = did;
        nome = nome;
        tam = st.st_size;
        mtime = st.st_mtime_ns;
        dev = st.st_dev;
        ino = st.st_ino;
      }

  arquivo-IsIndexed :
      (did : ℕ) (nome : Nome) (st : Stat) (v : Varredura)
      → IsIndexed v
      → IsIndexed (arquivo o did nome st v)
  unfolding arquivo
  arquivo-IsIndexed did nome st v h =
      elim (Bool-cases (not (o.max_arquivos == 0) && leb o.max_arquivos (length v.arquivos))) [
        | inl full ↦ rw full (record { placed = h.placed; limited = h.limited })
        | inr room ↦ rw room (linked (ground arith))
      ]
    where
      marked : Varredura
      marked = record v { vistos = (st.st_dev, st.st_ino) ∷ v.vistos }

      linked :
          (o.max_arquivos ≡ 0) ⊎ (suc (length v.arquivos) ≤ o.max_arquivos)
          → IsIndexed (
              if ltb 1 st.st_nlink
              then (if visto st.st_dev st.st_ino v.vistos
                  then ignorar hardlink_repetido did nome (some st.st_size) v
                  else juntar o did nome st marked)
              else juntar o did nome st v)
      linked fits = elim (Bool-cases (ltb 1 st.st_nlink)) [
        | inl many ↦ rw many (elim (Bool-cases (visto st.st_dev st.st_ino v.vistos)) [
          | inl again ↦
              rw again (unfold ignorar in record { placed = h.placed; limited = h.limited })
          | inr first ↦ rw first (
              juntar-IsIndexed did nome st marked
                (record { placed = h.placed; limited = h.limited }) fits)
        ])
        | inr one ↦ rw one (juntar-IsIndexed did nome st v h fits)
      ]

  -- In every state of the scan the file at place k has index k, and a limit `max_arquivos` other than
  -- 0 is not passed.
  pub Alcanca-IsIndexed :
      (raiz : Dir) (pilha : List Quadro) (v : Varredura) → Alcanca o raiz pilha v → IsIndexed v
  Alcanca-IsIndexed raiz pilha v r =
      keep_Alcanca o IsIndexed
        (λ m did nome tam u h. unfold ignorar in record { placed = h.placed; limited = h.limited })
        arquivo-IsIndexed (λ u dirs n a h. record { placed = h.placed; limited = h.limited })
        (record { placed = λ k a e. cc; limited = inr (omega arith) }) r
