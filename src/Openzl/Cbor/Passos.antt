-- ===== src/Openzl/Cbor/Passos.antt =====
-- The rounds of the loops of `decodificar_cbor` in bench/openzl_bench.py, on encoded values.
use mathlib.Core.List.{append_assoc}
use engine_motor.Prelude.{
  ℕ, suc, ◌+◌, ◌*◌, ◌≤◌, ◌<◌, ◌≡◌, refl, sym, ap, subst, ◌∙◌, false, some, List, [], ◌∷◌, ◌++◌,
  length, length-append, take-append, drop-append, ◌==◌, arith,
}
use engine_motor.Openzl.Cbor.{
  Valor, Itens, Pares, Leitura, acrescentar, guardar, Maior, repetir, ate_quebra, ler_par,
  repetir_pares, pares_ate_quebra, corpo, decodificar,
}
use engine_motor.Openzl.Cbor.Valor.{texto}
use engine_motor.Openzl.Cbor.Itens.{sem_itens}
use engine_motor.Openzl.Cbor.Pares.{sem_pares}
use engine_motor.Openzl.Cbor.Leitura.{lido}
use engine_motor.Openzl.Cbor.Maior.{
  de_natural, de_negativo, de_octetos, de_texto, de_lista, de_mapa, de_etiqueta,
}
use engine_motor.Openzl.Cbor.Codigo.{
  Largura, limite, Termo, Termos, Entradas, numero, ai_de, argumento, cabeca, conta, conta_entradas,
  bytes_de, bytes_dos, bytes_das, IsTermo, AllTermo, AllEntrada,
}
use engine_motor.Openzl.Cbor.Codigo.Termo.{
  inteiro, menos, octetos_de, texto_de, lista_de, lista_aberta, mapa_de, mapa_aberto, etiqueta,
  falso, verdadeiro, nada,
}
use engine_motor.Openzl.Cbor.Codigo.Termos.{sem_termos, termo}
use engine_motor.Openzl.Cbor.Codigo.Entradas.{sem_entradas, entrada}
use engine_motor.Openzl.Cbor.Cabeca.{ai_de-lt, decodificar-cabeca}

-- It starts with a byte that is not 0xFF.
pub record Opens (xs : List ℕ) : Type 0 where
  first : ℕ
  others : List ℕ
  split : xs ≡ first ∷ others
  other : (first == 0xff) ≡ false

cabeca-Opens :
    (m : Maior) (w : Largura) (n : ℕ) (xs : List ℕ)
    → numero m < 7
    → n < limite w
    → Opens (cabeca m w n ++ xs)
cabeca-Opens m w n xs low h = record {
  first = numero m * 32 + ai_de w n;
  others = argumento w n ++ xs;
  split = refl;
  other = below (numero m) (ai_de w n) low (ai_de-lt w n h);
}
  where
    below : (x y : ℕ) → x < 7 → y < 32 → (x * 32 + y == 0xff) ≡ false
    below x y h k = ground arith

pub termo-Opens : (t : Termo) (xs : List ℕ) → IsTermo t → Opens (bytes_de t ++ xs)
unfolding bytes_de IsTermo
termo-Opens (inteiro w n) xs h = cabeca-Opens de_natural w n xs (omega arith) h
termo-Opens (menos w n) xs h = cabeca-Opens de_negativo w n xs (omega arith) h
termo-Opens (octetos_de w bs) xs h =
    subst Opens (sym (append_assoc (cabeca de_octetos w (length bs)) bs xs))
      (cabeca-Opens de_octetos w (length bs) (bs ++ xs) (omega arith) h)
termo-Opens (texto_de w bs) xs h =
    subst Opens (sym (append_assoc (cabeca de_texto w (length bs)) bs xs))
      (cabeca-Opens de_texto w (length bs) (bs ++ xs) (omega arith) h)
termo-Opens (lista_de w ts) xs h =
    subst Opens (sym (append_assoc (cabeca de_lista w (conta ts)) (bytes_dos ts) xs))
      (cabeca-Opens de_lista w (conta ts) (bytes_dos ts ++ xs) (omega arith) h.0)
termo-Opens (lista_aberta ts) xs h = record {
  first = 0x9f;
  others = (bytes_dos ts ++ 0xff ∷ []) ++ xs;
  split = refl;
  other = refl;
}
termo-Opens (mapa_de w es) xs h =
    subst Opens (sym (append_assoc (cabeca de_mapa w (conta_entradas es)) (bytes_das es) xs))
      (cabeca-Opens de_mapa w (conta_entradas es) (bytes_das es ++ xs) (omega arith) h.0)
termo-Opens (mapa_aberto es) xs h = record {
  first = 0xbf;
  others = (bytes_das es ++ 0xff ∷ []) ++ xs;
  split = refl;
  other = refl;
}
termo-Opens (etiqueta w n t) xs h =
    subst Opens (sym (append_assoc (cabeca de_etiqueta w n) (bytes_de t) xs))
      (cabeca-Opens de_etiqueta w n (bytes_de t ++ xs) (omega arith) h.0)
termo-Opens falso xs h = record { first = 0xf4; others = xs; split = refl; other = refl }
termo-Opens verdadeiro xs h = record { first = 0xf5; others = xs; split = refl; other = refl }
termo-Opens nada xs h = record { first = 0xf6; others = xs; split = refl; other = refl }

module _ (dec : List ℕ → Leitura Valor) where
  -- A round of each loop, where the value in front is read.
  pub ate_quebra-next :
      (g : ℕ) (out : Itens) (xs b : List ℕ) (v : Valor)
      → Opens xs
      → dec xs ≡ lido v b
      → ate_quebra dec (suc g) out xs ≡ ate_quebra dec g (acrescentar out v) b
  unfolding ate_quebra
  ate_quebra-next g out xs b v o e =
      let e' : dec (o.first ∷ o.others) ≡ lido v b = subst (λ ys. dec ys ≡ lido v b) o.split e in
      rw (o.split, ate_quebra, o.other, e') refl

  pub pares_ate_quebra-next :
      (g : ℕ) (out out' : Pares) (xs b : List ℕ)
      → Opens xs
      → ler_par dec out xs ≡ lido out' b
      → pares_ate_quebra dec (suc g) out xs ≡ pares_ate_quebra dec g out' b
  unfolding pares_ate_quebra
  pares_ate_quebra-next g out out' xs b o e =
      let e' : ler_par dec out (o.first ∷ o.others) ≡ lido out' b =
        subst (λ ys. ler_par dec out ys ≡ lido out' b) o.split e in
      rw (o.split, pares_ate_quebra, o.other, e') refl

  pub repetir-next :
      (n : ℕ) (out : Itens) (xs b : List ℕ) (v : Valor)
      → dec xs ≡ lido v b
      → repetir dec (suc n) out xs ≡ repetir dec n (acrescentar out v) b
  unfolding repetir
  repetir-next n out xs b v e = rw e refl

  pub repetir_pares-next :
      (n : ℕ) (out out' : Pares) (xs b : List ℕ)
      → ler_par dec out xs ≡ lido out' b
      → repetir_pares dec (suc n) out xs ≡ repetir_pares dec n out' b
  unfolding repetir_pares
  repetir_pares-next n out out' xs b e = rw e refl

  pub ler_par-texto :
      (out : Pares) (xs b b' k : List ℕ) (v : Valor)
      → dec xs ≡ lido (texto k) b
      → dec b ≡ lido v b'
      → ler_par dec out xs ≡ lido (guardar (texto k) v out) b'
  unfolding ler_par
  ler_par-texto out xs b b' k v e f = rw (e, f) refl

pub termo_positive : (t : Termo) → IsTermo t → 0 < length (bytes_de t)
termo_positive t h =
    let o : Opens (bytes_de t ++ []) = termo-Opens t [] h in
    omega (arith, length-append (bytes_de t) [], ap length o.split)

pub conta-le : (ts : Termos) → AllTermo ts → conta ts ≤ length (bytes_dos ts)
unfolding conta bytes_de IsTermo
conta-le sem_termos h = omega arith
conta-le (termo t ts) h =
    omega (arith, length-append (bytes_de t) (bytes_dos ts), termo_positive t h.0, conta-le ts h.1)

pub conta_entradas-le : (es : Entradas) → AllEntrada es → conta_entradas es ≤ length (bytes_das es)
unfolding conta_entradas bytes_de IsTermo
conta_entradas-le sem_entradas h = omega arith
conta_entradas-le (entrada w k t es) h =
    let here : 0 < length (cabeca de_texto w (length k) ++ k) = omega arith in
    omega (
      arith,
      length-append (cabeca de_texto w (length k) ++ k) (bytes_de t ++ bytes_das es),
      length-append (bytes_de t) (bytes_das es),
      conta_entradas-le es h.2,
    )

module _ (decode : List ℕ → List ℕ) where
  -- A head in front of a body.
  pub decodificar-corpo :
      (f : ℕ) (m : Maior) (w : Largura) (n : ℕ) (body rest : List ℕ)
      → n < limite w
      → decodificar decode (suc f) ((cabeca m w n ++ body) ++ rest)
        ≡ corpo (decodificar decode f) decode m (ai_de w n) (some n) (body ++ rest)
  decodificar-corpo f m w n body rest h =
      ap (decodificar decode (suc f)) (append_assoc (cabeca m w n) body rest)
      ∙ decodificar-cabeca decode f m w n (body ++ rest) h

  pub octetos-eq :
      (f ai : ℕ) (bs rest : List ℕ)
      → corpo (decodificar decode f) decode de_octetos ai (some (length bs)) (bs ++ rest)
        ≡ lido (Valor.octetos bs) rest
  unfolding corpo
  octetos-eq f ai bs rest = rw (take-append bs rest, drop-append bs rest) refl

  pub texto-eq :
      (f ai : ℕ) (bs rest : List ℕ)
      → corpo (decodificar decode f) decode de_texto ai (some (length bs)) (bs ++ rest)
        ≡ lido (texto (decode bs)) rest
  unfolding corpo
  texto-eq f ai bs rest = rw (take-append bs rest, drop-append bs rest) refl

  pub lista_aberta-eq :
      (f : ℕ) (b : List ℕ)
      → decodificar decode (suc f) (0x9f ∷ b)
        ≡ ate_quebra (decodificar decode f) (suc (length b)) sem_itens b
  unfolding decodificar corpo
  lista_aberta-eq f b = refl

  pub mapa_aberto-eq :
      (f : ℕ) (b : List ℕ)
      → decodificar decode (suc f) (0xbf ∷ b)
        ≡ pares_ate_quebra (decodificar decode f) (suc (length b)) sem_pares b
  unfolding decodificar corpo
  mapa_aberto-eq f b = refl

  -- The break behind a body.
  pub quebra_assoc : (xs rest : List ℕ) → (xs ++ 0xff ∷ []) ++ rest ≡ xs ++ 0xff ∷ rest
  quebra_assoc xs rest = append_assoc xs (0xff ∷ []) rest
