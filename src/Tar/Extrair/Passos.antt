-- ===== src/Tar/Extrair/Passos.antt =====
-- The numbers of `extrair_kernel` in bench/plano_bloco.py behind the rounds of its loop.
use engine_motor.Prelude.{
  ℕ, ◌+◌, ◌*◌, ◌≤◌, ◌≡◌, ◌⊎◌, inl, inr, refl, sym, ap, subst, ◌∙◌, if_case, some, List, [], length,
  drop, ltb, ◌==◌, ==_iff, arith,
}
use engine_motor.Tar.Fluxo.{Fluxo, ler}
use engine_motor.Tar.Fluxo.Conteudo.{conteudo}
use engine_motor.Tar.Campos.{Fim, entao, ate_nul, grupo_de}
use engine_motor.Tar.Campos.Fim.{bom}
use engine_motor.Tar.Extrair.{
  Chave, Pax, Estado, Passo, juntar_grupo, contar_chave, pad_de, copiar, guardar_extensao,
  passo_extensao, fechar_regular, passo_regular,
}
use engine_motor.Tar.Extrair.Passo.{segue, para}
use engine_motor.Tar.Extrair.Contas.{
  Ends, Ends-entao, bytes_dos_grupos, contados, juntar_grupo_bytes, contar_chave_counts, ler-IsRead,
  IsCopied, copiar-Ends,
}

-- Behind a round, of a stream that brings `total`: what is still to come is what stands behind the
-- position, the files are those that the keys count, and each of them has taken a header and its bytes
-- of the stream.
pub record IsConta (total : List ℕ) (s : Estado) : Type 0 where
  pub stands : conteudo s.fluxo ≡ drop s.fluxo.pos total
  pub fits : s.fluxo.i ≤ length s.fluxo.buf
  pub files : s.n_reg ≡ contados s.contagem
  pub bytes : 512 * s.n_reg + bytes_dos_grupos s.grupos ≤ s.fluxo.pos

-- Behind a header: there is room for one more file, and the position is past `p`.
pub record IsReady (total : List ℕ) (p : ℕ) (s : Estado) : Type 0 where
  pub stands : conteudo s.fluxo ≡ drop s.fluxo.pos total
  pub fits : s.fluxo.i ≤ length s.fluxo.buf
  pub files : s.n_reg ≡ contados s.contagem
  pub bytes : 512 * (s.n_reg + 1) + bytes_dos_grupos s.grupos ≤ s.fluxo.pos
  pub past : p ≤ s.fluxo.pos

abbrev pub Kept : List ℕ → ℕ → Passo → Type 0
Kept total p (segue t) = IsConta total t × (p ≤ t.fluxo.pos)
Kept total p (para t) = IsConta total t

abbrev pub IsPaxType : ℕ → Type 0
IsPaxType tipo = (tipo ≡ b'x') ⊎ (tipo ≡ b'g')

-- The numbers hold of a state that has them from another.
pub kept :
    (total : List ℕ) (E : Type 0) (p : ℕ) (t u : Estado)
    → IsConta total t
    → p ≤ t.fluxo.pos
    → (u.fluxo ≡ t.fluxo) × (u.n_reg ≡ t.n_reg) × (u.contagem ≡ t.contagem) × (u.grupos ≡ t.grupos)
    → Ends E (Kept total p) (bom (segue u))
kept total E p t u h past e = (
  record {
    stands = subst (λ (f : Fluxo). conteudo f ≡ drop f.pos total) (sym e.0) h.stands;
    fits = subst (λ (f : Fluxo). f.i ≤ length f.buf) (sym e.0) h.fits;
    files = e.1 ∙ (h.files ∙ ap contados (sym e.2));
    bytes = omega (arith, h.bytes, e.1, ap bytes_dos_grupos e.3, ap (λ (f : Fluxo). f.pos) e.0);
  },
  omega (arith, past, ap (λ (f : Fluxo). f.pos) e.0),
)

module _ (total : List ℕ) (E : Type 0) (pax_de : List ℕ → Fim Pax) (decode : List ℕ → List ℕ)
    (limite : ℕ) where
  guardar_extensao-Ends :
      (p tipo : ℕ) (dados : List ℕ) (t : Estado)
      → (IsPaxType tipo → Ends E (λ _. Unit) (pax_de dados))
      → IsConta total t
      → p ≤ t.fluxo.pos
      → Ends E (Kept total p) (guardar_extensao pax_de decode limite tipo dados t)
  unfolding guardar_extensao
  guardar_extensao-Ends p tipo dados t ends h past =
      if_case (Ends E (Kept total p)) (tipo == b'L') _ _
        (λ _.
          kept total E p t (record t { nome_longo = some (ate_nul dados) }) h past
            (refl, refl, refl, refl))
        λ _.
          if_case (Ends E (Kept total p)) (tipo == b'x') _ _
            (λ x.
              with_pax (inl ((==_iff tipo b'x').0 x)) (λ q. record t { pax = some q })
                (λ q. (refl, refl, refl, refl)))
            λ _.
              if_case (Ends E (Kept total p)) (tipo == b'g') _ _
                (λ g.
                  with_pax (inr ((==_iff tipo b'g').0 g)) (λ q. record t { pax_global = some q })
                    (λ q. (refl, refl, refl, refl)))
                λ _. kept total E p t t h past (refl, refl, refl, refl)
    where
      with_pax :
          IsPaxType tipo
          → (u : Pax → Estado)
          → ((q : Pax)
              → ((u q).fluxo ≡ t.fluxo)
                × ((u q).n_reg ≡ t.n_reg)
                × ((u q).contagem ≡ t.contagem)
                × ((u q).grupos ≡ t.grupos))
          → Ends E (Kept total p) (entao (pax_de dados) (λ q. bom (segue (u q))))
      with_pax ty u e =
          Ends-entao E (λ _. Unit) (Kept total p) (pax_de dados) (λ q. bom (segue (u q))) (ends ty)
            (λ q _. kept total E p t (u q) h past (e q))

  pub passo_extensao-Ends :
      (p tipo tam : ℕ) (s : Estado)
      → (IsPaxType tipo → Ends E (λ _. Unit) (pax_de (ler tam s.fluxo).0))
      → IsReady total p s
      → Ends E (Kept total p) (passo_extensao pax_de decode limite tipo tam s)
  unfolding passo_extensao
  passo_extensao-Ends p tipo tam s ends h =
      let first = ler-IsRead tam s.fluxo h.fits in
      let second = ler-IsRead (pad_de tam) (ler tam s.fluxo).1 first.fits in
      guardar_extensao-Ends p tipo (ler tam s.fluxo).0
        (record s { fluxo = (ler (pad_de tam) (ler tam s.fluxo).1).1 }) ends
        (record {
          stands = second.stands total (first.stands total h.stands);
          fits = second.fits;
          files = h.files;
          bytes = omega (arith, h.bytes, first.at, second.at);
        })
        (omega (arith, h.past, first.at, second.at))

  fechar_regular-Ends :
      (p tam : ℕ) (chave : Chave) (s : Estado) (c : ℕ × Fluxo × List (List ℕ))
      → IsReady total p s
      → IsCopied s.fluxo [] c
      → Ends E (Kept total p) (fechar_regular pax_de decode limite chave tam s c)
  unfolding fechar_regular
  fechar_regular-Ends p tam chave s c h copy =
      let t : Estado = record s {
        fluxo = c.1;
        grupos = juntar_grupo chave c.2 s.grupos;
        contagem = contar_chave chave s.contagem;
        n_reg = s.n_reg + 1;
      } in
      let after = ler-IsRead (pad_de tam) c.1 copy.fits in
      let files = contar_chave_counts chave s.contagem in
      let bytes = juntar_grupo_bytes chave c.2 s.grupos in
      if_case (Ends E (Kept total p)) (ltb 0 c.0) (bom (para t))
        (bom (segue (record t { fluxo = (ler (pad_de tam) c.1).1 })))
        (λ _. record {
          stands = copy.stands total h.stands;
          fits = copy.fits;
          files = omega (arith, h.files, files);
          bytes = omega (arith, h.bytes, bytes, copy.moved);
        })
        (λ _. (
          record {
            stands = after.stands total (copy.stands total h.stands);
            fits = after.fits;
            files = omega (arith, h.files, files);
            bytes = omega (arith, h.bytes, bytes, copy.moved, after.at);
          },
          omega (arith, h.past, copy.moved, after.at),
        ))

  pub passo_regular-Ends :
      (p tam : ℕ) (nome : List ℕ) (s : Estado)
      → IsReady total p s
      → Ends E (Kept total p) (passo_regular pax_de decode limite nome tam s)
  unfolding passo_regular
  passo_regular-Ends p tam nome s h =
      Ends-entao E (IsCopied s.fluxo []) (Kept total p) (copiar limite tam tam s.fluxo [])
        (fechar_regular pax_de decode limite (grupo_de decode nome) tam s)
        (copiar-Ends E limite tam tam s.fluxo [] h.fits (omega arith))
        (λ c copy. fechar_regular-Ends p tam (grupo_de decode nome) s c h copy)
