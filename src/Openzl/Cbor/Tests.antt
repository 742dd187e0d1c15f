-- ===== src/Openzl/Cbor/Tests.antt =====
-- A list without a length that holds a number, a map and a tagged number of two bytes; what is cut.
use engine_motor.Prelude.{ℕ, ◌≡◌, refl, List, [], ◌∷◌}
use engine_motor.Prelude.Texts.{codes}
use engine_motor.Openzl.Cbor.{Valor, Pares, decodificar_cbor}
use engine_motor.Openzl.Cbor.Erro.{fora_do_indice, fora_da_palavra, ai_invalido}
use engine_motor.Openzl.Cbor.Leitura.{lido, erro}
use engine_motor.Openzl.Cbor.Codigo.{Termo, valor_de}
use engine_motor.Openzl.Cbor.Codigo.Largura.{direta, um, dois}
use engine_motor.Openzl.Cbor.Codigo.Termo.{
  inteiro, menos, lista_aberta, mapa_de, etiqueta, verdadeiro,
}
use engine_motor.Openzl.Cbor.Codigo.Termos.{sem_termos, termo}
use engine_motor.Openzl.Cbor.Codigo.Entradas.{sem_entradas, entrada}
use engine_motor.Openzl.Cbor.Fim.{Ends, decodificar_cbor-Ends}

abbrev como_esta : List ℕ → List ℕ
como_esta xs = xs

abbrev dicionario : Termo
dicionario = mapa_de direta (
    entrada direta (codes "a") verdadeiro (
      entrada um (codes "b") (menos direta 4)
        (entrada direta (codes "a") (inteiro um 200) sem_entradas)))

abbrev arvore : Termo
arvore = lista_aberta (
    termo (inteiro direta 3)
      (termo dicionario (termo (etiqueta direta 1 (inteiro dois 513)) sem_termos)))

-- The second value of the key replaces the first.
the_value :
    valor_de como_esta dicionario
    ≡ Valor.mapa (
        Pares.par
          (Valor.texto (codes "a"))
          (Valor.natural 200)
          (Pares.par (Valor.texto (codes "b")) (Valor.negativo 4) Pares.sem_pares))
unfolding valor_de
the_value = refl

cut_head : decodificar_cbor como_esta (0x19 ∷ 2 ∷ []) ≡ erro fora_da_palavra
unfolding decodificar_cbor
cut_head = refl

cut_list : decodificar_cbor como_esta (0x82 ∷ 1 ∷ []) ≡ erro fora_do_indice
unfolding decodificar_cbor
cut_list = refl

bad_head : decodificar_cbor como_esta (0x1c ∷ []) ≡ erro ai_invalido
unfolding decodificar_cbor
bad_head = refl

-- A string that is cut is read without an error.
cut_text : decodificar_cbor como_esta (0x65 ∷ codes "ab") ≡ lido (Valor.texto (codes "ab")) []
unfolding decodificar_cbor
cut_text = refl

-- A list of 2 ^ 32 - 1 items of which none is there.
abbrev longa : List ℕ
longa = 0x9a ∷ 0xff ∷ 0xff ∷ 0xff ∷ 0xff ∷ []

decodificar_cbor-Ends_example : Ends 5 (decodificar_cbor como_esta longa)
decodificar_cbor-Ends_example = decodificar_cbor-Ends como_esta longa
