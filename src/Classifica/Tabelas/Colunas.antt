-- ===== src/Classifica/Tabelas/Colunas.antt =====
-- `Counter.most_common` and the tables of `parece_csv` of bench/perfil_dataset.py.
use engine_motor.Prelude.{
  ℕ, subst, sym, ◌*◌, ◌≤◌, ◌<◌, ◌≡◌, refl, Bool, true, false, not, ◌&&◌, both, if_case, Option,
  none, some, List, [], ◌∷◌, All, length, take, ltb, leb, leb→le, ◌==◌, ==_iff, if◌then◌else◌,
  arith,
}
use native.Mathlib.Nat.{le_trans}
use engine_motor.Classifica.Linhas.{contar_linhas_validas, todas}
use engine_motor.Classifica.Tabelas.{
  ocorrencias, mais_comum_de, mais_comum, Tabela, colunas, tentar, delimitadores, melhor_tabela,
  curta, parece_csv,
}

-- The better of two counts.
mais_frequente : ℕ × ℕ → ℕ × ℕ → ℕ × ℕ
mais_frequente (moda, freq) (v, n) = if ltb freq n then (v, n) else (moda, freq)

mais_frequente-le : (p q : ℕ × ℕ) → (p.1 ≤ (mais_frequente p q).1) × (q.1 ≤ (mais_frequente p q).1)
unfolding mais_frequente
mais_frequente-le (moda, freq) (v, n) = ground arith

mais_frequente-cases {κ} : (P : ℕ × ℕ → Type κ) (p q : ℕ × ℕ) → P p → P q → P (mais_frequente p q)
unfolding mais_frequente
mais_frequente-cases P (moda, freq) (v, n) h k =
    if_case P (ltb freq n) (v, n) (moda, freq) (λ _. k) (λ _. h)

module _ (cont : List ℕ) where
  -- A count that is not zero is the number of times that its value stands in the list.
  abbrev IsCount : ℕ × ℕ → Type 0
  IsCount (v, n) = 0 < n → n ≡ ocorrencias v cont

  mais_comum_de-IsCount :
      (vs : List ℕ) (melhor : ℕ × ℕ) → IsCount melhor → IsCount (mais_comum_de cont vs melhor)
  unfolding mais_comum_de mais_frequente
  mais_comum_de-IsCount [] melhor h = h
  mais_comum_de-IsCount (v ∷ vs) melhor h =
      mais_comum_de-IsCount vs (mais_frequente melhor (v, ocorrencias v cont))
        (mais_frequente-cases IsCount melhor (v, ocorrencias v cont) h (λ _. refl))

  -- The count in hand only grows, and ends at no less than that of each value that is met.
  mais_comum_de-le : (vs : List ℕ) (melhor : ℕ × ℕ) → melhor.1 ≤ (mais_comum_de cont vs melhor).1
  unfolding mais_comum_de mais_frequente
  mais_comum_de-le [] melhor = omega arith
  mais_comum_de-le (v ∷ vs) melhor =
      let rest = mais_comum_de-le vs (mais_frequente melhor (v, ocorrencias v cont)) in
      le_trans ((mais_frequente-le melhor (v, ocorrencias v cont)).0) rest

  mais_comum_de-All :
      (vs : List ℕ) (melhor : ℕ × ℕ)
      → All (λ v. ocorrencias v cont ≤ (mais_comum_de cont vs melhor).1) vs
  unfolding mais_comum_de mais_frequente
  mais_comum_de-All [] melhor = tt
  mais_comum_de-All (v ∷ vs) melhor =
      let next : ℕ × ℕ = mais_frequente melhor (v, ocorrencias v cont) in
      (
        le_trans ((mais_frequente-le melhor (v, ocorrencias v cont)).1) (mais_comum_de-le vs next),
        mais_comum_de-All vs next,
      )

  mais_comum-IsCount : IsCount (mais_comum cont)
  unfolding mais_comum
  mais_comum-IsCount = mais_comum_de-IsCount cont (0, 0) (λ h. omega arith)

occurs : (v : ℕ) (vs : List ℕ) → 0 < ocorrencias v (v ∷ vs)
occurs v vs = rw ((==_iff v v).1 refl) (omega arith)

-- The mode of a list that is not empty: the number that goes with it is the number of times that it
-- stands in the list, and no value of the list stands in it more often.
pub mais_comum-All :
    (v : ℕ) (vs : List ℕ)
    → ((mais_comum (v ∷ vs)).1 ≡ ocorrencias (mais_comum (v ∷ vs)).0 (v ∷ vs))
      × All (λ w. ocorrencias w (v ∷ vs) ≤ (mais_comum (v ∷ vs)).1) (v ∷ vs)
unfolding mais_comum
mais_comum-All v vs =
    let most = mais_comum_de-All (v ∷ vs) (v ∷ vs) (0, 0) in
    (mais_comum-IsCount (v ∷ vs) (lt_of_lt_of_le (occurs v vs) most.0), most)
  where
    lt_of_lt_of_le : {x y z : ℕ} → x < y → y ≤ z → x < z
    lt_of_lt_of_le h k = omega arith

-- The least number of columns of a delimiter.
abbrev pub minimo : ℕ → ℕ
minimo d = if d == 9 then 2 else 3

-- A table of the lines: the mode has the columns that its delimiter asks for, it is the number of
-- columns of `freq` lines, and these are four fifths of the lines.
pub record IsTable (linhas : List (List ℕ)) (t : Tabela) : Type 0 where
  pub wide : minimo t.delim ≤ t.moda
  pub many : 4 * length linhas ≤ 5 * t.freq
  pub counted : t.freq ≡ ocorrencias t.moda (colunas t.delim linhas)

module _ (linhas : List (List ℕ)) (some_lines : 0 < length linhas) where
  abbrev IsBest : Option Tabela → Type 0
  IsBest none = Unit
  IsBest (some t) = IsTable linhas t

  tentar-IsBest :
      (d k : ℕ) (melhor : Option Tabela)
      → minimo d ≡ k
      → IsBest melhor
      → IsBest (tentar linhas d k melhor)
  unfolding tentar
  tentar-IsBest d k melhor low h =
      if_case IsBest
        (leb k (mais_comum (colunas d linhas)).0
          && leb (4 * length linhas) (5 * (mais_comum (colunas d linhas)).1))
        _ _
        (λ e.
          let (wide, many) =
            both (leb k (mais_comum (colunas d linhas)).0)
              (leb (4 * length linhas) (5 * (mais_comum (colunas d linhas)).1)) e in
          choose melhor h (
            found (mais_comum (colunas d linhas)).0 (mais_comum (colunas d linhas)).1
              (leb→le k (mais_comum (colunas d linhas)).0 wide)
              (leb→le (4 * length linhas) (5 * (mais_comum (colunas d linhas)).1) many)
              (mais_comum-IsCount (colunas d linhas))))
        (λ _. h)
    where
      nova : ℕ → ℕ → Tabela
      nova moda freq = record { delim = d; freq = freq; moda = moda }

      positive : (n freq : ℕ) → 0 < n → 4 * n ≤ 5 * freq → 0 < freq
      positive n freq a b = omega arith

      found :
          (moda freq : ℕ)
          → k ≤ moda
          → 4 * length linhas ≤ 5 * freq
          → (0 < freq → freq ≡ ocorrencias moda (colunas d linhas))
          → IsTable linhas (nova moda freq)
      found moda freq wide many count = record {
        wide = subst (λ n. n ≤ moda) (sym low) wide;
        many = many;
        counted = count (positive (length linhas) freq some_lines many);
      }

      choose :
          {t : Tabela} (o : Option Tabela)
          → IsBest o
          → IsTable linhas t
          → IsBest
              (elim o [ none ↦ some t | some u ↦ if ltb u.freq t.freq then some t else some u ])
      choose none h g = g
      choose {t} (some u) h g =
          if_case IsBest (ltb u.freq t.freq) (some t) (some u) (λ _. g) (λ _. h)

  abbrev AllLow : List (ℕ × ℕ) → Type 0
  AllLow ds = All (λ p. minimo p.0 ≡ p.1) ds

  melhor_tabela-IsBest :
      (ds : List (ℕ × ℕ)) (melhor : Option Tabela)
      → AllLow ds
      → IsBest melhor
      → IsBest (melhor_tabela linhas ds melhor)
  unfolding melhor_tabela
  melhor_tabela-IsBest [] melhor low h = h
  melhor_tabela-IsBest ((d, k) ∷ ds) melhor low h =
      melhor_tabela-IsBest ds (tentar linhas d k melhor) low.1 (tentar-IsBest d k melhor low.0 h)

-- The first lines with text, of which `parece_csv` reads at most sixty.
abbrev pub linhas_lidas : List ℕ → ℕ → List (List ℕ)
linhas_lidas head tam = take 60 (contar_linhas_validas head (leb tam (length head)))

take-positive : (xs : List (List ℕ)) → ltb (length xs) 5 ≡ false → 0 < length (take 60 xs)
take-positive [] h = cc
take-positive (x ∷ xs) h = omega arith

-- What `parece_csv` returns is a table of the lines that it reads, at least one.
pub parece_csv-IsTable :
    (head : List ℕ) (tam : ℕ) (t : Tabela)
    → parece_csv head tam ≡ some t
    → IsTable (linhas_lidas head tam) t × (0 < length (linhas_lidas head tam))
unfolding parece_csv delimitadores
parece_csv-IsTable head tam t h =
    let few = ltb (length (contar_linhas_validas head (leb tam (length head)))) 5 in
    read few refl (todas curta (linhas_lidas head tam)) h
  where
    read :
        (few : Bool)
        → ltb (length (contar_linhas_validas head (leb tam (length head)))) 5 ≡ few
        → (curtas : Bool)
        → (if few
            then none
            else if not curtas
            then none
            else melhor_tabela (linhas_lidas head tam) delimitadores none)
          ≡ some t
        → IsTable (linhas_lidas head tam) t × (0 < length (linhas_lidas head tam))
    read true e curtas h = cc
    read false e false h = cc
    read false e true h =
        let lines = take-positive (contar_linhas_validas head (leb tam (length head))) e in
        let best =
          melhor_tabela-IsBest (linhas_lidas head tam) lines delimitadores none
            (refl, (refl, (refl, (refl, tt)))) tt in
        (subst (IsBest (linhas_lidas head tam) lines) h best, lines)
