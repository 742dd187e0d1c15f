-- ===== src/Openzl/Cbor/RoundTrip.antt =====
-- `decodificar_cbor` of bench/openzl_bench.py behind the encoder.
use mathlib.Core.List.{append_assoc}
use engine_motor.Prelude.{
  ℕ, zero, suc, ◌+◌, ◌≤◌, ◌<◌, ◌≡◌, refl, ap, ◌∙◌, List, [], ◌∷◌, ◌++◌, length, length-append,
  arith,
}
use engine_motor.Openzl.Cbor.{
  Itens, Pares, acrescentar, guardar, repetir, ate_quebra, repetir_pares, pares_ate_quebra, corpo,
  decodificar,
}
use engine_motor.Openzl.Cbor.Valor.{texto, lista, mapa}
use engine_motor.Openzl.Cbor.Itens.{sem_itens}
use engine_motor.Openzl.Cbor.Pares.{sem_pares}
use engine_motor.Openzl.Cbor.Leitura.{lido}
use engine_motor.Openzl.Cbor.Maior.{
  de_natural, de_negativo, de_octetos, de_texto, de_lista, de_mapa, de_etiqueta,
}
use engine_motor.Openzl.Cbor.Codigo.{
  Largura, limite, Termo, Termos, Entradas, ai_de, cabeca, conta, conta_entradas, bytes_de,
  bytes_dos, bytes_das, IsTermo, AllTermo, AllEntrada, valor_de, itens_de, pares_de,
}
use engine_motor.Openzl.Cbor.Codigo.Termo.{
  inteiro, menos, octetos_de, texto_de, lista_de, lista_aberta, mapa_de, mapa_aberto, etiqueta,
  falso, verdadeiro, nada,
}
use engine_motor.Openzl.Cbor.Codigo.Termos.{sem_termos, termo}
use engine_motor.Openzl.Cbor.Codigo.Entradas.{sem_entradas, entrada}
use engine_motor.Openzl.Cbor.Cabeca.{decodificar-cabeca}
use engine_motor.Openzl.Cbor.Passos.{
  termo-Opens, ate_quebra-next, pares_ate_quebra-next, repetir-next, repetir_pares-next,
  ler_par-texto, termo_positive, conta-le, conta_entradas-le, decodificar-corpo, octetos-eq,
  texto-eq, lista_aberta-eq, mapa_aberto-eq, quebra_assoc,
}

entrada_assoc : (xs ys zs rest : List ℕ) → (xs ++ (ys ++ zs)) ++ rest ≡ xs ++ (ys ++ (zs ++ rest))
entrada_assoc xs ys zs rest =
    append_assoc xs (ys ++ zs) rest ∙ ap (λ ws. xs ++ ws) (append_assoc ys zs rest)

length-entrada :
    (xs ys zs : List ℕ) → length (xs ++ (ys ++ zs)) ≡ length xs + (length ys + length zs)
length-entrada xs ys zs = omega (arith, length-append xs (ys ++ zs), length-append ys zs)

module _ (decode : List ℕ → List ℕ) where
  -- A text that is a key.
  ler_chave :
      (f : ℕ) (w : Largura) (k rest : List ℕ)
      → length k < limite w
      → length (cabeca de_texto w (length k) ++ k) ≤ f
      → decodificar decode f ((cabeca de_texto w (length k) ++ k) ++ rest)
        ≡ lido (texto (decode k)) rest
  ler_chave zero w k rest h le = absurd (omega arith)
  ler_chave (suc f) w k rest h le =
      decodificar-corpo decode f de_texto w (length k) k rest h
      ∙ texto-eq decode f (ai_de w (length k)) k rest

  mutual
    unfolding bytes_de IsTermo valor_de corpo repetir ate_quebra repetir_pares pares_ate_quebra
        conta conta_entradas decodificar

    ler_termo :
        (f : ℕ) (t : Termo) (rest : List ℕ)
        → IsTermo t
        → length (bytes_de t) ≤ f
        → decodificar decode f (bytes_de t ++ rest) ≡ lido (valor_de decode t) rest
    ler_termo zero t rest h le = absurd (omega (arith, termo_positive t h))
    ler_termo (suc f) (inteiro w n) rest h le = decodificar-cabeca decode f de_natural w n rest h
    ler_termo (suc f) (menos w n) rest h le = decodificar-cabeca decode f de_negativo w n rest h
    ler_termo (suc f) (octetos_de w bs) rest h le =
        decodificar-corpo decode f de_octetos w (length bs) bs rest h
        ∙ octetos-eq decode f (ai_de w (length bs)) bs rest
    ler_termo (suc f) (texto_de w bs) rest h le =
        decodificar-corpo decode f de_texto w (length bs) bs rest h
        ∙ texto-eq decode f (ai_de w (length bs)) bs rest
    ler_termo (suc f) (lista_de w ts) rest h le =
        decodificar-corpo decode f de_lista w (conta ts) (bytes_dos ts) rest h.0
        ∙ ler_termos f ts sem_itens rest h.1
            (omega (arith, length-append (cabeca de_lista w (conta ts)) (bytes_dos ts)))
    ler_termo (suc f) (lista_aberta ts) rest h le =
        lista_aberta-eq decode f ((bytes_dos ts ++ 0xff ∷ []) ++ rest)
        ∙ (ap
              (ate_quebra (decodificar decode f)
                (suc (length ((bytes_dos ts ++ 0xff ∷ []) ++ rest))) sem_itens)
              (quebra_assoc decode (bytes_dos ts) rest)
            ∙ ler_ate_quebra f (suc (length ((bytes_dos ts ++ 0xff ∷ []) ++ rest))) ts sem_itens
                rest h (omega (arith, length-append (bytes_dos ts) (0xff ∷ [])))
                (omega (
                  arith,
                  conta-le ts h,
                  length-append (bytes_dos ts) (0xff ∷ []),
                  length-append (bytes_dos ts ++ 0xff ∷ []) rest,
                )))
    ler_termo (suc f) (mapa_de w es) rest h le =
        decodificar-corpo decode f de_mapa w (conta_entradas es) (bytes_das es) rest h.0
        ∙ ler_entradas f es sem_pares rest h.1
            (omega (arith, length-append (cabeca de_mapa w (conta_entradas es)) (bytes_das es)))
    ler_termo (suc f) (mapa_aberto es) rest h le =
        mapa_aberto-eq decode f ((bytes_das es ++ 0xff ∷ []) ++ rest)
        ∙ (ap
              (pares_ate_quebra (decodificar decode f)
                (suc (length ((bytes_das es ++ 0xff ∷ []) ++ rest))) sem_pares)
              (quebra_assoc decode (bytes_das es) rest)
            ∙ ler_pares_ate_quebra f (suc (length ((bytes_das es ++ 0xff ∷ []) ++ rest))) es
                sem_pares rest h (omega (arith, length-append (bytes_das es) (0xff ∷ [])))
                (omega (
                  arith,
                  conta_entradas-le es h,
                  length-append (bytes_das es) (0xff ∷ []),
                  length-append (bytes_das es ++ 0xff ∷ []) rest,
                )))
    ler_termo (suc f) (etiqueta w n t) rest h le =
        decodificar-corpo decode f de_etiqueta w n (bytes_de t) rest h.0
        ∙ ler_termo f t rest h.1
            (omega (arith, length-append (cabeca de_etiqueta w n) (bytes_de t)))
    ler_termo (suc f) falso rest h le = refl
    ler_termo (suc f) verdadeiro rest h le = refl
    ler_termo (suc f) nada rest h le = refl

    ler_termos :
        (f : ℕ) (ts : Termos) (out : Itens) (rest : List ℕ)
        → AllTermo ts
        → length (bytes_dos ts) ≤ f
        → repetir (decodificar decode f) (conta ts) out (bytes_dos ts ++ rest)
          ≡ lido (lista (itens_de decode ts out)) rest
    ler_termos f sem_termos out rest h le = refl
    ler_termos f (termo t ts) out rest h le =
        let size = length-append (bytes_de t) (bytes_dos ts) in
        ap (repetir (decodificar decode f) (suc (conta ts)) out)
          (append_assoc (bytes_de t) (bytes_dos ts) rest)
        ∙ (repetir-next (decodificar decode f) (conta ts) out (bytes_de t ++ (bytes_dos ts ++ rest))
              (bytes_dos ts ++ rest) (valor_de decode t)
              (ler_termo f t (bytes_dos ts ++ rest) h.0 (omega (arith, size)))
            ∙ ler_termos f ts (acrescentar out (valor_de decode t)) rest h.1 (omega (arith, size)))

    ler_ate_quebra :
        (f g : ℕ) (ts : Termos) (out : Itens) (rest : List ℕ)
        → AllTermo ts
        → length (bytes_dos ts) ≤ f
        → conta ts < g
        → ate_quebra (decodificar decode f) g out (bytes_dos ts ++ 0xff ∷ rest)
          ≡ lido (lista (itens_de decode ts out)) rest
    ler_ate_quebra f zero ts out rest h le lt = absurd (omega arith)
    ler_ate_quebra f (suc g) sem_termos out rest h le lt = refl
    ler_ate_quebra f (suc g) (termo t ts) out rest h le lt =
        let size = length-append (bytes_de t) (bytes_dos ts) in
        ap (ate_quebra (decodificar decode f) (suc g) out)
          (append_assoc (bytes_de t) (bytes_dos ts) (0xff ∷ rest))
        ∙ (ate_quebra-next (decodificar decode f) g out
              (bytes_de t ++ (bytes_dos ts ++ 0xff ∷ rest)) (bytes_dos ts ++ 0xff ∷ rest)
              (valor_de decode t) (termo-Opens t (bytes_dos ts ++ 0xff ∷ rest) h.0)
              (ler_termo f t (bytes_dos ts ++ 0xff ∷ rest) h.0 (omega (arith, size)))
            ∙ ler_ate_quebra f g ts (acrescentar out (valor_de decode t)) rest h.1
                (omega (arith, size)) (omega arith))

    ler_entradas :
        (f : ℕ) (es : Entradas) (out : Pares) (rest : List ℕ)
        → AllEntrada es
        → length (bytes_das es) ≤ f
        → repetir_pares (decodificar decode f) (conta_entradas es) out (bytes_das es ++ rest)
          ≡ lido (mapa (pares_de decode es out)) rest
    ler_entradas f sem_entradas out rest h le = refl
    ler_entradas f (entrada w k t es) out rest h le =
        let size = length-entrada (cabeca de_texto w (length k) ++ k) (bytes_de t) (bytes_das es) in
        let next = guardar (texto (decode k)) (valor_de decode t) out in
        let text : List ℕ = cabeca de_texto w (length k) ++ k in
        ap (repetir_pares (decodificar decode f) (suc (conta_entradas es)) out)
          (entrada_assoc text (bytes_de t) (bytes_das es) rest)
        ∙ (repetir_pares-next (decodificar decode f) (conta_entradas es) out next
              (text ++ (bytes_de t ++ (bytes_das es ++ rest))) (bytes_das es ++ rest)
              (ler_par-texto (decodificar decode f) out
                (text ++ (bytes_de t ++ (bytes_das es ++ rest)))
                (bytes_de t ++ (bytes_das es ++ rest)) (bytes_das es ++ rest) (decode k)
                (valor_de decode t)
                (ler_chave f w k (bytes_de t ++ (bytes_das es ++ rest)) h.0 (omega (arith, size)))
                (ler_termo f t (bytes_das es ++ rest) h.1 (omega (arith, size))))
            ∙ ler_entradas f es next rest h.2 (omega (arith, size)))

    ler_pares_ate_quebra :
        (f g : ℕ) (es : Entradas) (out : Pares) (rest : List ℕ)
        → AllEntrada es
        → length (bytes_das es) ≤ f
        → conta_entradas es < g
        → pares_ate_quebra (decodificar decode f) g out (bytes_das es ++ 0xff ∷ rest)
          ≡ lido (mapa (pares_de decode es out)) rest
    ler_pares_ate_quebra f zero es out rest h le lt = absurd (omega arith)
    ler_pares_ate_quebra f (suc g) sem_entradas out rest h le lt = refl
    ler_pares_ate_quebra f (suc g) (entrada w k t es) out rest h le lt =
        let size = length-entrada (cabeca de_texto w (length k) ++ k) (bytes_de t) (bytes_das es) in
        let next = guardar (texto (decode k)) (valor_de decode t) out in
        let text : List ℕ = cabeca de_texto w (length k) ++ k in
        let behind : List ℕ = bytes_das es ++ 0xff ∷ rest in
        ap (pares_ate_quebra (decodificar decode f) (suc g) out)
          (entrada_assoc text (bytes_de t) (bytes_das es) (0xff ∷ rest))
        ∙ (pares_ate_quebra-next (decodificar decode f) g out next (text ++ (bytes_de t ++ behind))
              behind (termo-Opens (texto_de w k) (bytes_de t ++ behind) h.0)
              (ler_par-texto (decodificar decode f) out (text ++ (bytes_de t ++ behind))
                (bytes_de t ++ behind) behind (decode k) (valor_de decode t)
                (ler_chave f w k (bytes_de t ++ behind) h.0 (omega (arith, size)))
                (ler_termo f t behind h.1 (omega (arith, size))))
            ∙ ler_pares_ate_quebra f g es next rest h.2 (omega (arith, size)) (omega arith))
