-- ===== src/Plano/Cobertura.antt =====
-- What the tasks of `montar_tarefas` in bench/plano_bloco.py are together.
use native.Mathlib.Nat.{add-mul, mul-le-mul_right, div-add-mod', mod-lt}
use engine_motor.Prelude.{
  take-drop-take, ℕ, zero, suc, ◌+◌, ◌-◌, ◌*◌, ◌≡◌, ◌≢◌, ◌≤◌, ◌<◌, refl, ap, ap₂, ◌∙◌, min, Bool,
  false, List, [], ◌∷◌, map, length, take, drop, slice, ltb, ltb→lt, if_case, drop-drop,
  length-take, length-drop, arith,
}
use mathlib.Core.List.{append_assoc, append-nil}
use engine_motor.Plano.Rotulos.{Codecs}
use engine_motor.Plano.Tarefas.{
  ArquivoCorpus, TarefaRotular, blocos_de, partes_de, passo_de, tarefas_de_gran, LinhaRotulo,
  ResultadoTarefa, linha_de, anotar_falhas, rotular_blocos, tarefa_rotular, unir, reunir,
}

none_left : (i n : ℕ) → ltb i n ≡ false → 0 ≡ n - i
none_left i n q = ground arith

module _ (b : List ℕ) (g : ℕ) where
  -- The k-th block of the file.
  abbrev pub bloco_em : ℕ → List ℕ
  bloco_em k = slice (k * g) ((k + 1) * g) b

  -- A block within what a task reads is that block of the file.
  slice-lido :
      (i0 n k : ℕ)
      → k < n
      → slice (k * g) ((k + 1) * g) (take (n * g) (drop (i0 * g) b)) ≡ bloco_em (i0 + k)
  slice-lido i0 n k h =
      let w : (k + 1) * g - k * g ≡ g = omega (arith, add-mul k 1 g) in
      let w' : (i0 + k + 1) * g - (i0 + k) * g ≡ g = omega (arith, add-mul (i0 + k) 1 g) in
      let m : (i0 + k) * g ≡ i0 * g + k * g = add-mul i0 k g in
      let up : k + 1 ≤ n = omega arith in
      let fits : k * g + g ≤ n * g = omega (arith, add-mul k 1 g, mul-le-mul_right g up) in
      rw
        (
          w,
          w',
          m,
          take-drop-take g (k * g) (n * g) (drop (i0 * g) b) fits,
          drop-drop (k * g) (i0 * g) b,
        )
        refl

  module _ (sha : List ℕ → List ℕ) (abaixo : ℕ → ℕ → Bool) (fabricar_codecs : ℕ → Codecs)
      (fi : ℕ) where
    -- The labels of `n` blocks of the file from the one with the number `lo`, one block at a time.
    abbrev pub bloco_a_bloco : ℕ → ℕ → ResultadoTarefa
    bloco_a_bloco lo zero = record { linhas = []; falhas = [] }
    bloco_a_bloco lo (suc n) =
        let l = linha_de sha abaixo fabricar_codecs g (bloco_em lo) in
        unir
          (record {
            linhas = l ∷ [];
            falhas = anotar_falhas sha abaixo fabricar_codecs fi lo l.rotulo.falhas;
          })
          (bloco_a_bloco (suc lo) n)

    rotular_blocos-bloco_a_bloco :
        (t : TarefaRotular) (n left k : ℕ)
        → t.fi ≡ fi
        → t.gran ≡ g
        → k + left ≡ n
        → rotular_blocos sha abaixo fabricar_codecs t (take (n * g) (drop (t.i0 * g) b)) left k
          ≡ bloco_a_bloco (t.i0 + k) left
    unfolding rotular_blocos
    rotular_blocos-bloco_a_bloco t n zero k f q e = refl
    rotular_blocos-bloco_a_bloco t n (suc left) k f q e =
        let s : t.i0 + (k + 1) ≡ suc (t.i0 + k) = omega arith in
        let ih = rotular_blocos-bloco_a_bloco t n left (k + 1) f q (omega arith) in
        rw (q, f, slice-lido t.i0 n k (omega arith), ih, s) refl

    unir_empty : (r : ResultadoTarefa) → unir r (record { linhas = []; falhas = [] }) ≡ r
    unir_empty r = rw (append-nil r.linhas, append-nil r.falhas) refl

    bloco_a_bloco_add :
        (lo m n : ℕ)
        → bloco_a_bloco lo (m + n) ≡ unir (bloco_a_bloco lo m) (bloco_a_bloco (lo + m) n)
    bloco_a_bloco_add lo zero n = ap₂ bloco_a_bloco (omega arith) (omega arith)
    bloco_a_bloco_add lo (suc m) n =
        let l = linha_de sha abaixo fabricar_codecs g (bloco_em lo) in
        let e : suc m + n ≡ suc (m + n) = omega arith in
        let e' : lo + suc m ≡ suc lo + m = omega arith in
        let fl = anotar_falhas sha abaixo fabricar_codecs fi lo l.rotulo.falhas in
        rw
          (
            e,
            e',
            bloco_a_bloco_add (suc lo) m n,
            append_assoc fl (bloco_a_bloco (suc lo) m).falhas (bloco_a_bloco (suc lo + m) n).falhas,
          )
          refl

    tarefa_rotular-bloco_a_bloco :
        (t : TarefaRotular)
        → t.fi ≡ fi
        → t.gran ≡ g
        → tarefa_rotular sha abaixo fabricar_codecs t b ≡ bloco_a_bloco t.i0 (t.i1 - t.i0)
    unfolding tarefa_rotular
    tarefa_rotular-bloco_a_bloco t f q =
        let n = t.i1 - t.i0 in
        let z : t.i0 + 0 ≡ t.i0 = omega arith in
        ap (λ j. rotular_blocos sha abaixo fabricar_codecs t (take (n * j) (drop (t.i0 * j) b)) n 0)
          q
        ∙ rotular_blocos-bloco_a_bloco t n n 0 f q (omega arith)
        ∙ ap (λ k. bloco_a_bloco k n) z

    abbrev pub feitas : List TarefaRotular → ResultadoTarefa
    feitas ts = reunir (map (λ t. tarefa_rotular sha abaixo fabricar_codecs t b) ts)

    -- Where no block is left the place does not matter.
    rest_at : (lo hi n : ℕ) → (n ≢ 0 → lo ≡ hi) → bloco_a_bloco lo n ≡ bloco_a_bloco hi n
    rest_at lo hi zero h = refl
    rest_at lo hi (suc n) h = ap (λ k. bloco_a_bloco k (suc n)) (h (λ e. absurd (omega arith)))

    partes_de-bloco_a_bloco :
        (c : List ℕ) (fuel nb passo i0 : ℕ)
        → 0 < passo
        → nb - i0 ≤ fuel
        → feitas (partes_de fi g c fuel nb passo i0) ≡ bloco_a_bloco i0 (nb - i0)
    unfolding partes_de reunir
    partes_de-bloco_a_bloco c zero nb passo i0 p h =
        let e : 0 ≡ nb - i0 = omega arith in ap (bloco_a_bloco i0) e
    partes_de-bloco_a_bloco c (suc fuel) nb passo i0 p h =
        if_case (λ ts. feitas ts ≡ bloco_a_bloco i0 (nb - i0)) (ltb i0 nb) _ []
          (λ q.
            let l = ltb→lt i0 nb q in
            let n1 = min nb (i0 + passo) - i0 in
            let n2 = nb - (i0 + passo) in
            let t : TarefaRotular = record {
              fi = fi;
              arq_caminho = c;
              i0 = i0;
              i1 = min nb (i0 + passo);
              gran = g;
            } in
            let s : nb - i0 ≡ n1 + n2 = omega arith in
            let ih = partes_de-bloco_a_bloco c fuel nb passo (i0 + passo) p (omega arith) in
            let m : bloco_a_bloco (i0 + n1) n2 ≡ bloco_a_bloco (i0 + passo) n2 =
              rest_at (i0 + n1) (i0 + passo) n2 (λ e. omega arith) in
            rw (tarefa_rotular-bloco_a_bloco t refl refl, ih, s, bloco_a_bloco_add i0 n1 n2, m)
              refl)
          (λ q. ap (bloco_a_bloco i0) (none_left i0 nb q))

    -- The lengths in the rows are the bytes that the blocks cover.
    abbrev pub comprimentos : List LinhaRotulo → ℕ
    comprimentos [] = 0
    comprimentos (l ∷ ls) = l.comprimento + comprimentos ls

    comprimentos-bloco_a_bloco :
        (lo n : ℕ)
        → comprimentos (bloco_a_bloco lo n).linhas ≡ length (take (n * g) (drop (lo * g) b))
    comprimentos-bloco_a_bloco lo zero = omega (arith, length-take (0 * g) (drop (lo * g) b))
    comprimentos-bloco_a_bloco lo (suc n) = omega (
      arith,
      comprimentos-bloco_a_bloco (suc lo) n,
      add-mul 1 n g,
      add-mul 1 lo g,
      add-mul lo 1 g,
      length-take (suc n * g) (drop (lo * g) b),
      length-drop (lo * g) b,
      length-take (n * g) (drop (suc lo * g) b),
      length-drop (suc lo * g) b,
      length-take ((lo + 1) * g - lo * g) (drop (lo * g) b),
    )

    -- For a positive granularity and the size of the file in the corpus, the tasks of a file label each
    -- block once, in order, with the failures under its number, and the rows cover all bytes of the
    -- file, whatever the size of a task is.
    pub tarefas_de_gran-bloco_a_bloco :
        (arq : ArquivoCorpus) (passo_mib : ℕ)
        → 0 < g
        → arq.tamanho ≡ length b
        → (feitas (tarefas_de_gran fi arq passo_mib g) ≡ bloco_a_bloco 0 (blocos_de (length b) g))
          × (comprimentos (feitas (tarefas_de_gran fi arq passo_mib g)).linhas ≡ length b)
    unfolding tarefas_de_gran
    tarefas_de_gran-bloco_a_bloco arq passo_mib pos e =
        let nb = blocos_de (length b) g in
        let whole : nb - 0 ≡ nb = omega arith in
        let all : feitas (partes_de fi g arq.caminho_arq nb nb (passo_de passo_mib g) 0)
            ≡ bloco_a_bloco 0 nb =
          partes_de-bloco_a_bloco arq.caminho_arq nb nb (passo_de passo_mib g) 0 (omega arith)
            (omega arith)
          ∙ ap (bloco_a_bloco 0) whole in
        let covered : length b ≤ nb * g =
          omega (arith, div-add-mod' (length b + (g - 1)) g, mod-lt (length b + (g - 1)) pos) in
        let bytes : length (take (nb * g) (drop (0 * g) b)) ≡ length b =
          omega (arith, length-take (nb * g) (drop (0 * g) b), length-drop (0 * g) b) in
        rw (e, all) (refl, comprimentos-bloco_a_bloco 0 nb ∙ bytes)
