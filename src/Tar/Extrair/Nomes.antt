-- ===== src/Tar/Extrair/Nomes.antt =====
-- The bytes in the files that `extrair_kernel` of bench/plano_bloco.py writes.
use engine_motor.Prelude.{
  ℕ, ◌+◌, ◌≡◌, refl, sym, ◌∙◌, Bool, false, List, [], ◌∷◌, ◌++◌, All, leb, if_case, inl, inr, arith,
  Bool-cases,
}
use engine_motor.Prelude.Texts.{same}
use engine_motor.Colecoes.{ordenar, acrescentar, agrupar}
use engine_motor.Colecoes.Laws.{soma, soma-ordenar}
use engine_motor.Tar.Extrair.{Chave}
use engine_motor.Tar.Extrair.Contas.{bytes_de, bytes_de-append, bytes_dos_grupos}
use engine_motor.Tar.Extrair.Finais.{
  SubGrupo, ArquivoFinal, texto_ate, subgrupos, total_de, todas_as_pecas, proprio, separar_subs,
  finais_do_top, atribuidos, por_final, por_todos, tops_em_ordem, finais,
}

abbrev pub bytes_finais : List ArquivoFinal → ℕ
bytes_finais [] = 0
bytes_finais (f ∷ fs) = bytes_de f.lista + bytes_finais fs

-- Two files of the list have different names.
abbrev pub OtherName : ArquivoFinal → ArquivoFinal → Type 0
OtherName f g = same g.nome f.nome ≡ false

abbrev pub Distinct : List ArquivoFinal → Type 0
Distinct [] = Unit {0}
Distinct (f ∷ fs) = All (λ g. OtherName g f) fs × Distinct fs

bytes_finais-append :
    (fs gs : List ArquivoFinal) → bytes_finais (fs ++ gs) ≡ bytes_finais fs + bytes_finais gs
bytes_finais-append [] gs = omega arith
bytes_finais-append (f ∷ fs) gs = omega (arith, bytes_finais-append fs gs)

total_de-subgrupos :
    (gs : List (Chave × List (List ℕ))) (cs : List (Chave × ℕ))
    → total_de (subgrupos gs cs) ≡ bytes_dos_grupos gs
unfolding subgrupos
total_de-subgrupos [] cs = refl
total_de-subgrupos (((top, sub), lista) ∷ gs) cs = omega (arith, total_de-subgrupos gs cs)

total_de-append : (xs ys : List SubGrupo) → total_de (xs ++ ys) ≡ total_de xs + total_de ys
total_de-append [] ys = omega arith
total_de-append (x ∷ xs) ys = omega (arith, total_de-append xs ys)

abbrev dos_tops : List (List ℕ × List SubGrupo) → ℕ
dos_tops [] = 0
dos_tops ((t, ss) ∷ ts) = total_de ss + dos_tops ts

dos_tops-acrescentar :
    (k : List ℕ) (s : SubGrupo) (ts : List (List ℕ × List SubGrupo))
    → dos_tops (acrescentar same k s ts) ≡ bytes_de s.pecas + dos_tops ts
unfolding acrescentar
dos_tops-acrescentar k s [] = omega arith
dos_tops-acrescentar k s ((c, ss) ∷ ts) = elim (Bool-cases (same c k)) [
  | inl e ↦ rw e (omega (arith, total_de-append ss (s ∷ [])))
  | inr e ↦ rw e (omega (arith, dos_tops-acrescentar k s ts))
]

dos_tops-agrupar :
    (ss : List SubGrupo) (ts : List (List ℕ × List SubGrupo))
    → dos_tops (agrupar same (λ s. s.top) ss ts) ≡ total_de ss + dos_tops ts
unfolding agrupar
dos_tops-agrupar [] ts = omega arith
dos_tops-agrupar (s ∷ ss) ts =
    omega
      (arith, dos_tops-agrupar ss (acrescentar same s.top s ts), dos_tops-acrescentar s.top s ts)

-- The two sums are sums of a weight, which the sort keeps.
total_de-soma :
    (antes : SubGrupo → SubGrupo → Bool) (ss : List SubGrupo)
    → soma antes (λ s. bytes_de s.pecas) ss ≡ total_de ss
total_de-soma antes [] = refl
total_de-soma antes (s ∷ ss) = omega (arith, total_de-soma antes ss)

total_de-ordenar :
    (antes : SubGrupo → SubGrupo → Bool) (ss : List SubGrupo)
    → total_de (ordenar antes ss) ≡ total_de ss
total_de-ordenar antes ss =
    sym (total_de-soma antes (ordenar antes ss))
    ∙ soma-ordenar antes (λ s. bytes_de s.pecas) ss
    ∙ total_de-soma antes ss

dos_tops-soma :
    (antes : List ℕ × List SubGrupo → List ℕ × List SubGrupo → Bool)
    (ts : List (List ℕ × List SubGrupo))
    → soma antes (λ t. total_de t.1) ts ≡ dos_tops ts
dos_tops-soma antes [] = refl
dos_tops-soma antes ((t, ss) ∷ ts) = omega (arith, dos_tops-soma antes ts)

dos_tops-ordenar :
    (antes : List ℕ × List SubGrupo → List ℕ × List SubGrupo → Bool)
    (ts : List (List ℕ × List SubGrupo))
    → dos_tops (ordenar antes ts) ≡ dos_tops ts
dos_tops-ordenar antes ts =
    sym (dos_tops-soma antes (ordenar antes ts))
    ∙ soma-ordenar antes (λ t. total_de t.1) ts
    ∙ dos_tops-soma antes ts

bytes_de-todas_as_pecas : (ss : List SubGrupo) → bytes_de (todas_as_pecas ss) ≡ total_de ss
bytes_de-todas_as_pecas [] = refl
bytes_de-todas_as_pecas (s ∷ ss) =
    omega (arith, bytes_de-append s.pecas (todas_as_pecas ss), bytes_de-todas_as_pecas ss)

module _ (inteiro_ate proprio_de : ℕ) where
  separar_subs-bytes :
      (top : List ℕ) (ss : List SubGrupo) (resto : List (List ℕ)) (n : ℕ)
      → bytes_finais (separar_subs inteiro_ate proprio_de top ss resto n)
        ≡ total_de ss + bytes_de resto
  unfolding separar_subs
  separar_subs-bytes top [] [] n = omega arith
  separar_subs-bytes top [] (p ∷ resto) n = omega arith
  separar_subs-bytes top (s ∷ ss) resto n =
      if_case (λ fs. bytes_finais fs ≡ bytes_de s.pecas + total_de ss + bytes_de resto)
        (proprio inteiro_ate proprio_de s) _ _
        (λ q. omega (arith, separar_subs-bytes top ss resto n))
        (λ q. omega (
          arith,
          separar_subs-bytes top ss (resto ++ s.pecas) (n + s.n_arquivos),
          bytes_de-append resto s.pecas,
        ))

  finais_do_top-bytes :
      (top : List ℕ) (ss : List SubGrupo)
      → bytes_finais (finais_do_top inteiro_ate proprio_de (top, ss)) ≡ total_de ss
  unfolding finais_do_top
  finais_do_top-bytes top ss =
      let antes = λ (a b : SubGrupo). texto_ate a.sub b.sub in
      let o = total_de-ordenar antes ss in
      if_case (λ fs. bytes_finais fs ≡ total_de ss) (leb (total_de ss) inteiro_ate) _ _
        (λ q. omega (arith, bytes_de-todas_as_pecas (ordenar antes ss), o))
        (λ q. omega (arith, separar_subs-bytes top (ordenar antes ss) [] 0, o))

  atribuidos-bytes :
      (ts : List (List ℕ × List SubGrupo))
      → bytes_finais (atribuidos inteiro_ate proprio_de ts) ≡ dos_tops ts
  unfolding atribuidos
  atribuidos-bytes [] = refl
  atribuidos-bytes ((top, ss) ∷ ts) = omega (
    arith,
    bytes_finais-append (finais_do_top inteiro_ate proprio_de (top, ss))
        (atribuidos inteiro_ate proprio_de ts),
    finais_do_top-bytes top ss,
    atribuidos-bytes ts,
  )

  por_final-bytes :
      (f : ArquivoFinal) (feitos : List ArquivoFinal)
      → All (OtherName f) feitos
      → bytes_finais (por_final inteiro_ate proprio_de f feitos)
        ≡ bytes_finais feitos + bytes_de f.lista
  unfolding por_final
  por_final-bytes f [] h = omega arith
  por_final-bytes f (g ∷ gs) h = rw h.0 (omega (arith, por_final-bytes f gs h.1))

  All-por_final :
      (P : ArquivoFinal → Type 0) (f : ArquivoFinal) (feitos : List ArquivoFinal)
      → P f
      → All P feitos
      → All P (por_final inteiro_ate proprio_de f feitos)
  unfolding por_final
  All-por_final P f [] p h = (p, tt)
  All-por_final P f (g ∷ gs) p h =
      if_case (All P) (same g.nome f.nome) _ _ (λ q. (p, h.1))
        (λ q. (h.0, All-por_final P f gs p h.1))

  por_todos-bytes :
      (fs feitos : List ArquivoFinal)
      → Distinct fs
      → All (λ f. All (OtherName f) feitos) fs
      → bytes_finais (por_todos inteiro_ate proprio_de fs feitos)
        ≡ bytes_finais feitos + bytes_finais fs
  unfolding por_todos
  por_todos-bytes [] feitos d h = omega arith
  por_todos-bytes (f ∷ fs) feitos d h = omega (
    arith,
    por_todos-bytes fs (por_final inteiro_ate proprio_de f feitos) d.1 (others f feitos fs d.0 h.1),
    por_final-bytes f feitos h.0,
  )
    where
      others :
          (f : ArquivoFinal) (feitos fs : List ArquivoFinal)
          → All (λ g. OtherName g f) fs
          → All (λ g. All (OtherName g) feitos) fs
          → All (λ g. All (OtherName g) (por_final inteiro_ate proprio_de f feitos)) fs
      others f feitos [] d h = tt
      others f feitos (g ∷ gs) d h =
          (All-por_final (OtherName g) f feitos d.0 h.0, others f feitos gs d.1 h.1)

  none_done : (fs : List ArquivoFinal) → All (λ f. All (OtherName f) []) fs
  none_done [] = tt
  none_done (f ∷ fs) = (tt, none_done fs)

  -- Where no two files are given one name, the files hold as many bytes as the groups, whatever the two
  -- limits are; a name that comes again replaces a file.
  pub finais-bytes :
      (gs : List (Chave × List (List ℕ))) (cs : List (Chave × ℕ))
      → Distinct (atribuidos inteiro_ate proprio_de (tops_em_ordem inteiro_ate proprio_de gs cs))
      → bytes_finais (finais inteiro_ate proprio_de gs cs) ≡ bytes_dos_grupos gs
  unfolding finais tops_em_ordem
  finais-bytes gs cs d =
      let ts = agrupar same (λ (s : SubGrupo). s.top) (subgrupos gs cs) [] in
      let antes = λ (a b : List ℕ × List SubGrupo). texto_ate a.0 b.0 in
      omega (
        arith,
        por_todos-bytes (atribuidos inteiro_ate proprio_de (ordenar antes ts)) [] d (none_done _),
        atribuidos-bytes (ordenar antes ts),
        dos_tops-ordenar antes ts,
        dos_tops-agrupar (subgrupos gs cs) [],
        total_de-subgrupos gs cs,
      )
