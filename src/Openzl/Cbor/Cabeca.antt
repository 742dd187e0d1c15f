-- ===== src/Openzl/Cbor/Cabeca.antt =====
-- How `decodificar_cbor` of bench/openzl_bench.py reads the head of a value.
use engine_motor.Prelude.{
  ℕ, zero, suc, ◌+◌, ◌*◌, ◌/◌, ◌%◌, ◌^◌, ◌≤◌, ◌<◌, ◌≡◌, refl, sym, ap, ◌∙◌, false, some, List, ◌++◌,
  length, length-append, take-splice, drop-splice, ltb, lt→ltb, arith,
}
use native.Mathlib.Nat.{pow-suc, add-mul, div-add-mod', mod-lt}
use engine_motor.Openzl.Cbor.{big_endian, palavra, ler_val, Maior, maior, corpo, decodificar}
use engine_motor.Openzl.Cbor.Leitura.{lido}
use engine_motor.Openzl.Cbor.Maior.{
  de_natural, de_negativo, de_octetos, de_texto, de_lista, de_mapa, de_etiqueta, de_simples,
}
use engine_motor.Openzl.Cbor.Codigo.{Largura, limite, numero, bytes_altos, ai_de, argumento, cabeca}
use engine_motor.Openzl.Cbor.Codigo.Largura.{direta, um, dois, quatro, oito}

length-bytes_altos : (k n : ℕ) → length (bytes_altos k n) ≡ k
unfolding bytes_altos
length-bytes_altos zero n = refl
length-bytes_altos (suc k) n = ap suc (length-bytes_altos k (n % 256 ^ k))

pow_positive : (k : ℕ) → 0 < 256 ^ k
pow_positive zero = omega arith
pow_positive (suc k) = omega (arith, pow-suc 256 k, pow_positive k)

-- A number from its quotient and its rest.
digits : (acc n p : ℕ) → (acc * 256 + n / p) * p + n % p ≡ acc * (p * 256) + n
digits acc n p = omega (arith, add-mul (acc * 256) (n / p) p, div-add-mod' n p)

big_endian-bytes_altos :
    (k acc n : ℕ) → n < 256 ^ k → big_endian acc (bytes_altos k n) ≡ acc * 256 ^ k + n
unfolding big_endian bytes_altos
big_endian-bytes_altos zero acc n h = omega arith
big_endian-bytes_altos (suc k) acc n h =
    big_endian-bytes_altos k (acc * 256 + n / 256 ^ k) (n % 256 ^ k) (mod-lt n (pow_positive k))
    ∙ (digits acc n (256 ^ k) ∙ ap (λ q. acc * q + n) (sym (pow-suc 256 k)))

maior-numero : (m : Maior) → maior (numero m) ≡ m
unfolding maior
maior-numero de_natural = refl
maior-numero de_negativo = refl
maior-numero de_octetos = refl
maior-numero de_texto = refl
maior-numero de_lista = refl
maior-numero de_mapa = refl
maior-numero de_etiqueta = refl
maior-numero de_simples = refl

palavra-bytes_altos :
    (k n : ℕ) (rest : List ℕ)
    → n < 256 ^ k
    → palavra k (bytes_altos k n ++ rest) ≡ lido (some n) rest
unfolding palavra
palavra-bytes_altos k n rest h =
    let size = length-bytes_altos k n in
    let value : big_endian 0 (bytes_altos k n) ≡ n = big_endian-bytes_altos k 0 n h ∙ omega arith in
    let enough : ltb (length (bytes_altos k n ++ rest)) k ≡ false =
      not_less k (length (bytes_altos k n ++ rest))
        (omega (arith, length-append (bytes_altos k n) rest, size)) in
    rw
      (
        enough,
        take-splice (bytes_altos k n) rest k size,
        drop-splice (bytes_altos k n) rest k size,
        value,
      )
      refl
  where
    not_less : (x y : ℕ) → x ≤ y → ltb y x ≡ false
    not_less x y h = ground arith

ler_val-argumento :
    (w : Largura) (n : ℕ) (rest : List ℕ)
    → n < limite w
    → ler_val (ai_de w n) (argumento w n ++ rest) ≡ lido (some n) rest
unfolding ler_val
ler_val-argumento direta n rest h = rw (lt→ltb n 24 h) refl
ler_val-argumento um n rest h = refl
ler_val-argumento dois n rest h = palavra-bytes_altos 2 n rest h
ler_val-argumento quatro n rest h = palavra-bytes_altos 4 n rest h
ler_val-argumento oito n rest h = palavra-bytes_altos 8 n rest h

pub ai_de-lt : (w : Largura) (n : ℕ) → n < limite w → ai_de w n < 32
ai_de-lt direta n h = omega arith
ai_de-lt um n h = omega arith
ai_de-lt dois n h = omega arith
ai_de-lt quatro n h = omega arith
ai_de-lt oito n h = omega arith

-- A head that is read leaves its major type, its number and the bytes behind it.
pub decodificar-cabeca :
    (decode : List ℕ → List ℕ) (f : ℕ) (m : Maior) (w : Largura) (n : ℕ) (rest : List ℕ)
    → n < limite w
    → decodificar decode (suc f) (cabeca m w n ++ rest)
      ≡ corpo (decodificar decode f) decode m (ai_de w n) (some n) rest
unfolding decodificar
decodificar-cabeca decode f m w n rest h =
    let low : (numero m * 32 + ai_de w n) % 32 ≡ ai_de w n = omega (arith, ai_de-lt w n h) in
    let high : (numero m * 32 + ai_de w n) / 32 ≡ numero m = omega (arith, ai_de-lt w n h) in
    rw (low, high, ler_val-argumento w n rest h, maior-numero m) refl
