-- ===== src/Tar/Extrair/Laco.antt =====
-- The rounds of the loop of `extrair_kernel` in bench/plano_bloco.py.
use engine_motor.Prelude.{
  ℕ, zero, suc, ◌+◌, ◌*◌, ◌≤◌, ◌≡◌, sym, ap, subst, ◌∙◌, Bool, true, false, ◌||◌, Bool-cases,
  if_case, inl, inr, none, List, length, length-take, take, drop, slice, get_or, ltb, ltb→lt, ◌==◌,
  arith,
}
use engine_motor.Prelude.Texts.{count_byte}
use engine_motor.Tar.Fluxo.{ler}
use engine_motor.Tar.Fluxo.Conteudo.{conteudo-ler}
use engine_motor.Tar.Campos.{Fim, entao, tamanho_tar}
use engine_motor.Tar.Campos.Fim.{bom, sem_fim}
use engine_motor.Tar.Extrair.{
  Pax, Estado, Passo, nome_do_cabecalho, pad_de, regular, nome_da_entrada, tamanho_da_entrada,
  extensao_do_tar, tratar_entrada, por_tipo, passo_extensao, passo_regular, passo_entrada,
  passo_cabecalho, passo, laco,
}
use engine_motor.Tar.Extrair.Numeros.{tamanho_tar-Ends, tamanho_da_entrada-Ends}
use engine_motor.Tar.Extrair.Passo.{segue, para}
use engine_motor.Tar.Extrair.Contas.{Ends, Ends-entao, Ends-self, ler-IsRead, bytes_dos_grupos}
use engine_motor.Tar.Extrair.Passos.{
  IsConta, IsReady, Kept, IsPaxType, passo_extensao-Ends, passo_regular-Ends,
}

-- A header of type x or g, with the size of what stands behind it.
abbrev pub IsPax : List ℕ → ℕ → Type 0
IsPax cab tam =
    (length cab ≡ 512) × IsPaxType (get_or cab 156 0) × (tamanho_tar (slice 124 136 cab) ≡ bom tam)

module _ (total : List ℕ) (E : Type 0) (pax_de : List ℕ → Fim Pax)
    (pax_ends : (off tam : ℕ)
      → IsPax (take 512 (drop off total)) tam
      → Ends E (λ _. Unit) (pax_de (take tam (drop (off + 512) total))))
    (decode : List ℕ → List ℕ) (limite : ℕ) where
  tratar_entrada-Ends :
      (p tipo : ℕ) (nome : List ℕ) (s : Estado) (n : ℕ)
      → IsReady total p s
      → Ends E (Kept total p) (tratar_entrada pax_de decode limite tipo nome s n)
  unfolding tratar_entrada
  tratar_entrada-Ends p tipo nome s n h =
      let after = ler-IsRead (n + pad_de n) s.fluxo h.fits in
      if_case (Ends E (Kept total p)) (regular tipo) (passo_regular pax_de decode limite nome n s)
        (bom (segue (record s { fluxo = (ler (n + pad_de n) s.fluxo).1 })))
        (λ _. passo_regular-Ends total E pax_de decode limite p n nome s h)
        (λ _. (
          record {
            stands = after.stands total h.stands;
            fits = after.fits;
            files = h.files;
            bytes = omega (arith, h.bytes, after.at);
          },
          omega (arith, h.past, after.at),
        ))

  passo_entrada-Ends :
      (p tipo tam : ℕ) (nome : List ℕ) (s : Estado)
      → IsReady total p s
      → Ends E (Kept total p) (passo_entrada pax_de decode limite tipo nome tam s)
  unfolding passo_entrada
  passo_entrada-Ends p tipo tam nome s h =
      let t : Estado = record s { nome_longo = none; pax = none } in
      Ends-entao E (λ _. Unit) (Kept total p) (tamanho_da_entrada tam s)
        (tratar_entrada pax_de decode limite tipo (nome_da_entrada nome s) t)
        (tamanho_da_entrada-Ends E tam s)
        (λ n _. tratar_entrada-Ends p tipo (nome_da_entrada nome s) t n (record {
          stands = h.stands;
          fits = h.fits;
          files = h.files;
          bytes = h.bytes;
          past = h.past;
        }))

  por_tipo-Ends :
      (p : ℕ) (cab : List ℕ) (s : Estado) (tam : ℕ)
      → (IsPaxType (get_or cab 156 0) → Ends E (λ _. Unit) (pax_de (ler tam s.fluxo).0))
      → IsReady total p s
      → Ends E (Kept total p) (por_tipo pax_de decode limite cab s tam)
  unfolding por_tipo
  por_tipo-Ends p cab s tam ends h =
      if_case (Ends E (Kept total p)) (extensao_do_tar (get_or cab 156 0))
        (passo_extensao pax_de decode limite (get_or cab 156 0) tam s)
        (passo_entrada pax_de decode limite (get_or cab 156 0) (nome_do_cabecalho cab) tam s)
        (λ _. passo_extensao-Ends total E pax_de decode limite p (get_or cab 156 0) tam s ends h)
        (λ _. passo_entrada-Ends p (get_or cab 156 0) tam (nome_do_cabecalho cab) s h)

  -- The stream stands behind the header `cab`, which was read from `p`.
  passo_cabecalho-Ends :
      (p : ℕ) (cab : List ℕ) (s : Estado)
      → IsConta total s
      → 512 * s.n_reg + bytes_dos_grupos s.grupos ≤ p
      → s.fluxo.pos ≡ p + length cab
      → cab ≡ take 512 (drop p total)
      → Ends E (Kept total (p + 512)) (passo_cabecalho pax_de decode limite cab s)
  unfolding passo_cabecalho
  passo_cabecalho-Ends p cab s h before at is_cab =
      if_case (Ends E (Kept total (p + 512))) (ltb (length cab) 512 || count_byte 0 cab == 512)
        (bom (para s))
        (entao (tamanho_tar (slice 124 136 cab)) (por_tipo pax_de decode limite cab s)) (λ _. h)
        (λ e.
          let long = long_enough (length cab) (count_byte 0 cab == 512) e in
          Ends-entao E (λ n. tamanho_tar (slice 124 136 cab) ≡ bom n) (Kept total (p + 512))
            (tamanho_tar (slice 124 136 cab)) (por_tipo pax_de decode limite cab s)
            (Ends-self E (tamanho_tar (slice 124 136 cab)) (tamanho_tar-Ends E (slice 124 136 cab)))
            (λ tam size.
              por_tipo-Ends (p + 512) cab s tam (λ ty. pax_here tam long size ty)
                (record {
                  stands = h.stands;
                  fits = h.fits;
                  files = h.files;
                  bytes = omega (arith, before, at, long);
                  past = omega (arith, at, long);
                })))
    where
      pax_here :
          (tam : ℕ)
          → 512 ≤ length cab
          → tamanho_tar (slice 124 136 cab) ≡ bom tam
          → IsPaxType (get_or cab 156 0)
          → Ends E (λ _. Unit) (pax_de (ler tam s.fluxo).0)
      pax_here tam long size ty =
          let full : length cab ≡ 512 =
            omega (arith, long, ap length is_cab, length-take 512 (drop p total)) in
          let past : s.fluxo.pos ≡ p + 512 = omega arith in
          let here : (ler tam s.fluxo).0 ≡ take tam (drop (p + 512) total) =
            (conteudo-ler tam s.fluxo h.fits).0
            ∙ (ap (take tam) h.stands ∙ ap (λ k. take tam (drop k total)) past) in
          subst (λ d. Ends E (λ _. Unit) (pax_de d)) (sym here)
            (pax_ends p tam (subst (λ c. IsPax c tam) is_cab (full, ty, size)))

      long_enough : (n : ℕ) (b : Bool) → (ltb n 512 || b) ≡ false → 512 ≤ n
      long_enough n b e = ground arith

  passo-Ends :
      (s : Estado)
      → IsConta total s
      → Ends E (Kept total (s.fluxo.pos + 512)) (passo pax_de decode limite s)
  unfolding passo
  passo-Ends s h =
      let head = ler-IsRead 512 s.fluxo h.fits in
      passo_cabecalho-Ends s.fluxo.pos (ler 512 s.fluxo).0
        (record s { fluxo = (ler 512 s.fluxo).1 })
        (record {
          stands = head.stands total h.stands;
          fits = head.fits;
          files = h.files;
          bytes = omega (arith, h.bytes, head.at);
        })
        h.bytes head.at ((conteudo-ler 512 s.fluxo h.fits).0 ∙ ap (take 512) h.stands)

  -- The rest of the loop behind a round.
  seguinte : ℕ → Passo → Fim Estado
  seguinte f (segue t) = laco pax_de decode limite f t
  seguinte f (para t) = bom t

  seguinte-Ends :
      (f p : ℕ) (r : Passo)
      → Kept total p r
      → ((t : Estado)
          → IsConta total t
          → p ≤ t.fluxo.pos
          → Ends E (IsConta total) (laco pax_de decode limite f t))
      → Ends E (IsConta total) (seguinte f r)
  unfolding seguinte
  seguinte-Ends f p (segue t) h rest = rest t h.0 h.1
  seguinte-Ends f p (para t) h rest = h

  pub laco-Ends :
      (f : ℕ) (s : Estado)
      → IsConta total s
      → limite ≤ s.fluxo.pos + f
      → Ends E (IsConta total) (laco pax_de decode limite f s)
  unfolding laco seguinte
  laco-Ends zero s h enough =
      if_case (Ends E (IsConta total)) (ltb s.fluxo.pos limite) sem_fim (bom s)
        (λ e. absurd (past e)) (λ _. h)
    where
      past : ltb s.fluxo.pos limite ≡ true → ⊥
      past e = let less = ltb→lt s.fluxo.pos limite e in absurd (omega arith)
  laco-Ends (suc f) s h enough = elim (Bool-cases (ltb s.fluxo.pos limite)) [
    | inr e ↦ rw (e, laco) h
    | inl e ↦
        rw (e, laco)
          (Ends-entao E (Kept total (s.fluxo.pos + 512)) (IsConta total)
            (passo pax_de decode limite s) (seguinte f) (passo-Ends s h)
            (λ r k.
              seguinte-Ends f (s.fluxo.pos + 512) r k (λ t g past. laco-Ends f t g (omega arith))))
  ]
