-- ===== src/Openzl/Cbor/Codigo.antt =====
-- An encoder for what `decodificar_cbor` of bench/openzl_bench.py reads, after RFC 8949: heads of
-- every width, definite and indefinite lengths, tags. The keys of a map are texts.
use engine_motor.Prelude.{
  ℕ, zero, suc, ◌+◌, ◌*◌, ◌/◌, ◌%◌, ◌^◌, ◌<◌, true, false, List, [], ◌∷◌, ◌++◌, length,
}
use engine_motor.Openzl.Cbor.{Valor, Itens, Pares, acrescentar, guardar, Maior}
use engine_motor.Openzl.Cbor.Valor.{natural, negativo, octetos, texto, logico, nulo, lista, mapa}
use engine_motor.Openzl.Cbor.Itens.{sem_itens}
use engine_motor.Openzl.Cbor.Pares.{sem_pares}
use engine_motor.Openzl.Cbor.Maior.{
  de_natural, de_negativo, de_octetos, de_texto, de_lista, de_mapa, de_etiqueta, de_simples,
}

-- How many bytes a head has behind its first.
pub data Largura : Type 0 where
  direta um dois quatro oito : Largura

abbrev pub limite : Largura → ℕ
limite direta = 24
limite um = 256
limite dois = 256 ^ 2
limite quatro = 256 ^ 4
limite oito = 256 ^ 8

mutual
  pub data Termo : Type 0 where
    inteiro menos : Largura → ℕ → Termo
    octetos_de texto_de : Largura → List ℕ → Termo
    lista_de : Largura → Termos → Termo
    lista_aberta : Termos → Termo
    mapa_de : Largura → Entradas → Termo
    mapa_aberto : Entradas → Termo
    etiqueta : Largura → ℕ → Termo → Termo
    falso verdadeiro nada : Termo

  pub data Termos : Type 0 where
    sem_termos : Termos
    termo : Termo → Termos → Termos

  pub data Entradas : Type 0 where
    sem_entradas : Entradas
    entrada : Largura → List ℕ → Termo → Entradas → Entradas

abbrev pub numero : Maior → ℕ
numero de_natural = 0
numero de_negativo = 1
numero de_octetos = 2
numero de_texto = 3
numero de_lista = 4
numero de_mapa = 5
numero de_etiqueta = 6
numero de_simples = 7

-- The `k` bytes of a number, the highest first.
unfoldable pub bytes_altos : ℕ → ℕ → List ℕ
bytes_altos zero n = []
bytes_altos (suc k) n = n / 256 ^ k ∷ bytes_altos k (n % 256 ^ k)

abbrev pub ai_de : Largura → ℕ → ℕ
ai_de direta n = n
ai_de um n = 24
ai_de dois n = 25
ai_de quatro n = 26
ai_de oito n = 27

abbrev pub argumento : Largura → ℕ → List ℕ
argumento direta n = []
argumento um n = n ∷ []
argumento dois n = bytes_altos 2 n
argumento quatro n = bytes_altos 4 n
argumento oito n = bytes_altos 8 n

abbrev pub cabeca : Maior → Largura → ℕ → List ℕ
cabeca m w n = (numero m * 32 + ai_de w n) ∷ argumento w n

unfoldable pub conta : Termos → ℕ
conta sem_termos = 0
conta (termo t ts) = suc (conta ts)

unfoldable pub conta_entradas : Entradas → ℕ
conta_entradas sem_entradas = 0
conta_entradas (entrada w k t es) = suc (conta_entradas es)

unfoldable mutual
  unfolding conta conta_entradas

  pub bytes_de : Termo → List ℕ
  bytes_de (inteiro w n) = cabeca de_natural w n
  bytes_de (menos w n) = cabeca de_negativo w n
  bytes_de (octetos_de w bs) = cabeca de_octetos w (length bs) ++ bs
  bytes_de (texto_de w bs) = cabeca de_texto w (length bs) ++ bs
  bytes_de (lista_de w ts) = cabeca de_lista w (conta ts) ++ bytes_dos ts
  bytes_de (lista_aberta ts) = 0x9f ∷ (bytes_dos ts ++ 0xff ∷ [])
  bytes_de (mapa_de w es) = cabeca de_mapa w (conta_entradas es) ++ bytes_das es
  bytes_de (mapa_aberto es) = 0xbf ∷ (bytes_das es ++ 0xff ∷ [])
  bytes_de (etiqueta w n t) = cabeca de_etiqueta w n ++ bytes_de t
  bytes_de falso = 0xf4 ∷ []
  bytes_de verdadeiro = 0xf5 ∷ []
  bytes_de nada = 0xf6 ∷ []

  pub bytes_dos : Termos → List ℕ
  bytes_dos sem_termos = []
  bytes_dos (termo t ts) = bytes_de t ++ bytes_dos ts

  pub bytes_das : Entradas → List ℕ
  bytes_das sem_entradas = []
  bytes_das (entrada w k t es) = (cabeca de_texto w (length k) ++ k) ++ (bytes_de t ++ bytes_das es)

-- The numbers of the heads fit in their widths.
unfoldable mutual
  unfolding conta conta_entradas

  pub IsTermo : Termo → Type 0
  IsTermo (inteiro w n) = n < limite w
  IsTermo (menos w n) = n < limite w
  IsTermo (octetos_de w bs) = length bs < limite w
  IsTermo (texto_de w bs) = length bs < limite w
  IsTermo (lista_de w ts) = (conta ts < limite w) × AllTermo ts
  IsTermo (lista_aberta ts) = AllTermo ts
  IsTermo (mapa_de w es) = (conta_entradas es < limite w) × AllEntrada es
  IsTermo (mapa_aberto es) = AllEntrada es
  IsTermo (etiqueta w n t) = (n < limite w) × IsTermo t
  IsTermo t = Unit

  pub AllTermo : Termos → Type 0
  AllTermo sem_termos = Unit
  AllTermo (termo t ts) = IsTermo t × AllTermo ts

  pub AllEntrada : Entradas → Type 0
  AllEntrada sem_entradas = Unit
  AllEntrada (entrada w k t es) = (length k < limite w) × IsTermo t × AllEntrada es

-- The value that a term stands for; a key that comes again replaces the value of the first.
module _ (decode : List ℕ → List ℕ) where
  unfoldable mutual
    unfolding acrescentar guardar

    pub valor_de : Termo → Valor
    valor_de (inteiro w n) = natural n
    valor_de (menos w n) = negativo n
    valor_de (octetos_de w bs) = octetos bs
    valor_de (texto_de w bs) = texto (decode bs)
    valor_de (lista_de w ts) = lista (itens_de ts sem_itens)
    valor_de (lista_aberta ts) = lista (itens_de ts sem_itens)
    valor_de (mapa_de w es) = mapa (pares_de es sem_pares)
    valor_de (mapa_aberto es) = mapa (pares_de es sem_pares)
    valor_de (etiqueta w n t) = valor_de t
    valor_de falso = logico false
    valor_de verdadeiro = logico true
    valor_de nada = nulo

    pub itens_de : Termos → Itens → Itens
    itens_de sem_termos out = out
    itens_de (termo t ts) out = itens_de ts (acrescentar out (valor_de t))

    pub pares_de : Entradas → Pares → Pares
    pares_de sem_entradas out = out
    pares_de (entrada w k t es) out = pares_de es (guardar (texto (decode k)) (valor_de t) out)
