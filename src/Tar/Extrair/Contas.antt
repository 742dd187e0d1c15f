-- ===== src/Tar/Extrair/Contas.antt =====
-- The numbers that `extrair_kernel` in bench/plano_bloco.py keeps: files, bytes and the position.
use engine_motor.Prelude.{
  ℕ, zero, suc, ◌+◌, ◌-◌, ◌^◌, ◌≤◌, ◌<◌, ◌≡◌, refl, sym, ap, ◌∙◌, false, min, Bool-cases, if_case,
  inl, inr, List, [], ◌∷◌, ◌++◌, length, length-take, length-drop, take, drop, drop-drop, drop_all,
  leb, leb→le, ◌==◌, arith,
}
use engine_motor.Tar.Fluxo.{Fluxo, ler}
use engine_motor.Tar.Fluxo.Conteudo.{conteudo, conteudo-ler}
use engine_motor.Tar.Campos.{Fim, entao}
use engine_motor.Tar.Campos.Fim.{bom, erro_de_valor, negativo, sem_fim}
use engine_motor.Tar.Extrair.{Chave, mesma, juntar_grupo, contar_chave, copiar}

-- What holds of the value, if there is one; `E` is what holds where the function does not end.
abbrev pub Ends {ℓ} : {A : Type ℓ} → Type 0 → (A → Type 0) → Fim A → Type 0
Ends E P (bom a) = P a
Ends E P erro_de_valor = Unit
Ends E P negativo = Unit
Ends E P sem_fim = E

pub Ends-entao {ℓ κ} :
    {A : Type ℓ} {B : Type κ} (E : Type 0) (P : A → Type 0) (Q : B → Type 0) (r : Fim A)
    (k : A → Fim B)
    → Ends E P r
    → ((a : A) → P a → Ends E Q (k a))
    → Ends E Q (entao r k)
Ends-entao E P Q (bom a) k h g = g a h
Ends-entao E P Q erro_de_valor k h g = tt
Ends-entao E P Q negativo k h g = tt
Ends-entao E P Q sem_fim k h g = h

pub Ends-self :
    {A : Type 0} (E : Type 0) (r : Fim A) → Ends E (λ _. Unit {0}) r → Ends E (λ a. r ≡ bom a) r
Ends-self E (bom a) h = refl
Ends-self E erro_de_valor h = tt
Ends-self E negativo h = tt
Ends-self E sem_fim h = h

Ends-map {ℓ} :
    {A : Type ℓ} (E : Type 0) (P Q : A → Type 0) (r : Fim A)
    → Ends E P r
    → ((a : A) → P a → Q a)
    → Ends E Q r
Ends-map E P Q (bom a) h g = g a h
Ends-map E P Q erro_de_valor h g = tt
Ends-map E P Q negativo h g = tt
Ends-map E P Q sem_fim h g = h

-- The bytes of pieces, of groups, and the files that were counted.
abbrev pub bytes_de : List (List ℕ) → ℕ
bytes_de [] = 0
bytes_de (p ∷ ps) = length p + bytes_de ps

abbrev pub bytes_dos_grupos : List (Chave × List (List ℕ)) → ℕ
bytes_dos_grupos [] = 0
bytes_dos_grupos ((k, ps) ∷ gs) = bytes_de ps + bytes_dos_grupos gs

abbrev pub contados : List (Chave × ℕ) → ℕ
contados [] = 0
contados ((k, n) ∷ cs) = n + contados cs

pub bytes_de-append : (ps qs : List (List ℕ)) → bytes_de (ps ++ qs) ≡ bytes_de ps + bytes_de qs
bytes_de-append [] qs = omega arith
bytes_de-append (p ∷ ps) qs = omega (arith, bytes_de-append ps qs)

pub juntar_grupo_bytes :
    (k : Chave) (ps : List (List ℕ)) (gs : List (Chave × List (List ℕ)))
    → bytes_dos_grupos (juntar_grupo k ps gs) ≡ bytes_dos_grupos gs + bytes_de ps
unfolding juntar_grupo
juntar_grupo_bytes k ps [] = omega arith
juntar_grupo_bytes k ps ((j, qs) ∷ gs) =
    if_case (λ r. bytes_dos_grupos r ≡ bytes_de qs + bytes_dos_grupos gs + bytes_de ps) (mesma j k)
      ((j, qs ++ ps) ∷ gs) ((j, qs) ∷ juntar_grupo k ps gs)
      (λ _. omega (arith, bytes_de-append qs ps)) (λ _. omega (arith, juntar_grupo_bytes k ps gs))

pub contar_chave_counts :
    (k : Chave) (cs : List (Chave × ℕ)) → contados (contar_chave k cs) ≡ contados cs + 1
unfolding contar_chave
contar_chave_counts k [] = omega arith
contar_chave_counts k ((j, n) ∷ cs) =
    if_case (λ r. contados r ≡ n + contados cs + 1) (mesma j k) ((j, n + 1) ∷ cs)
      ((j, n) ∷ contar_chave k cs) (λ _. omega arith) (λ _. omega (arith, contar_chave_counts k cs))

-- The position of a stream from which `out` was read.
pub record IsRead (s : Fluxo) (out : List ℕ) (t : Fluxo) : Type 0 where
  pub at : t.pos ≡ s.pos + length out
  pub fits : t.i ≤ length t.buf
  pub stands : (total : List ℕ) → conteudo s ≡ drop s.pos total → conteudo t ≡ drop t.pos total

drop_out :
    (n p q : ℕ) (total out : List ℕ)
    → out ≡ take n (drop p total)
    → q ≡ p + length out
    → drop n (drop p total) ≡ drop q total
drop_out n p q total out e at = elim (Bool-cases (leb n (length (drop p total)))) [
  | inl h ↦
      let le = leb→le n (length (drop p total)) h in
      drop-drop n p total
      ∙ ap (λ k. drop k total) (omega (arith, at, ap length e, length-take n (drop p total)))
  | inr h ↦
      let over = above n (length (drop p total)) h in
      drop_all n (drop p total) over
      ∙ sym (
          drop_all q total (
            omega
              (arith, at, over, ap length e, length-take n (drop p total), length-drop p total)))
]
  where
    above : (a b : ℕ) → leb a b ≡ false → b ≤ a
    above a b h = ground arith

pub ler-IsRead : (n : ℕ) (s : Fluxo) → s.i ≤ length s.buf → IsRead s (ler n s).0 (ler n s).1
ler-IsRead n s le =
    let r = conteudo-ler n s le in
    record {
      at = r.2;
      fits = r.3;
      stands = λ total e.
          r.1
          ∙ ap (drop n) e
          ∙ drop_out n s.pos (ler n s).1.pos total (ler n s).0 (r.0 ∙ ap (take n) e) r.2;
    }

-- What `copiar` returns: the stream moved by the bytes of the pieces that it appended.
pub record IsCopied (fl : Fluxo) (lista : List (List ℕ)) (c : ℕ × Fluxo × List (List ℕ))
    : Type 0 where
  pub moved : c.1.pos + bytes_de lista ≡ fl.pos + bytes_de c.2
  pub fits : c.1.i ≤ length c.1.buf
  pub stands :
      (total : List ℕ) → conteudo fl ≡ drop fl.pos total → conteudo c.1 ≡ drop c.1.pos total

-- A round of `copiar` that read `out`.
copied :
    (E : Type 0) (limite f r : ℕ) (fl fl' : Fluxo) (lista : List (List ℕ)) (out : List ℕ)
    → IsRead fl out fl'
    → (0 < length out
        → Ends E
            (IsCopied fl' (lista ++ out ∷ []))
            (copiar limite f (suc r - length out) fl' (lista ++ out ∷ [])))
    → Ends E (IsCopied fl lista) (elim out [
      | [] ↦ bom (suc r, fl', lista)
      | c ∷ p ↦ copiar limite f (suc r - length (c ∷ p)) fl' (lista ++ (c ∷ p) ∷ [])
    ])
copied E limite f r fl fl' lista [] read rest = record {
  moved = omega (arith, read.at);
  fits = read.fits;
  stands = read.stands;
}
copied E limite f r fl fl' lista (c ∷ p) read rest =
    Ends-map E (IsCopied fl' (lista ++ (c ∷ p) ∷ [])) (IsCopied fl lista)
      (copiar limite f (suc r - length (c ∷ p)) fl' (lista ++ (c ∷ p) ∷ [])) (rest (omega arith))
      λ t g. record {
        moved = omega (arith, g.moved, read.at, bytes_de-append lista ((c ∷ p) ∷ []));
        fits = g.fits;
        stands = λ total e. g.stands total (read.stands total e);
      }

pub copiar-Ends :
    (E : Type 0) (limite f r : ℕ) (fl : Fluxo) (lista : List (List ℕ))
    → fl.i ≤ length fl.buf
    → r ≤ f
    → Ends E (IsCopied fl lista) (copiar limite f r fl lista)
unfolding copiar
copiar-Ends E limite f zero fl lista le few = record {
  moved = refl;
  fits = le;
  stands = λ total e. e;
}
copiar-Ends E limite zero (suc r) fl lista le few = absurd (omega arith)
copiar-Ends E limite (suc f) (suc r) fl lista le few =
    let n : ℕ = min (suc r) (min (2 ^ 20) (limite - fl.pos)) in
    let read = ler-IsRead n fl le in
    elim (Bool-cases (n == 0)) [
      | inl e ↦ rw (e, copiar) (record { moved = refl; fits = le; stands = λ total e. e })
      | inr e ↦
          rw (e, copiar)
            (copied E limite f r fl (ler n fl).1 lista (ler n fl).0 read λ some_bytes.
              copiar-Ends E limite f (suc r - length (ler n fl).0) (ler n fl).1
                (lista ++ (ler n fl).0 ∷ []) read.fits (omega arith))
    ]
