-- ===== src/Familias/Tests.antt =====
-- Six files under one key, of which four are near in size, and pairs that are shared out.
use engine_motor.Prelude.{
  ℕ, ◌≤◌, ◌≡◌, refl, inl, Bool, true, false, none, some, List, [], ◌∷◌, ◌%◌, map, All, leb, ◌==◌,
  arith,
}
use engine_motor.Familias.{
  Ficha, Regras, por_nome, por_radical, por_radical_e_diretorio, etapa_familias,
}
use engine_motor.Familias.Contagem.{vezes, vezes_em}
use engine_motor.Familias.Cadeias.{IsChain}
use engine_motor.Familias.Etapa.{etapa_familias-vezes, etapa_familias-All}
use engine_motor.Familias.Pares.{somar, presentes, bases, alocar_pares}
use engine_motor.Familias.Cotas.{alocar_pares_total}

abbrev ficha : ℕ → ℕ → Bool → Ficha
ficha i tam redundante = record {
  i = i;
  tam = tam;
  legivel = true;
  redundante = redundante;
  familia = none;
  base = false;
}

-- One key in the first two modes, the parity of the size in the third.
abbrev regras : Regras ℕ
regras = record {
  igual = ◌==◌;
  chave = λ m a. elim m [ por_nome ↦ 0 | por_radical ↦ 1 | por_radical_e_diretorio ↦ a.tam % 2 ];
  antes = λ a b. leb a.tam b.tam;
  num = 3;
  den = 2;
}

abbrev arquivos : List Ficha
arquivos =
    ficha 0 100 false
    ∷ ficha 1 140 false
    ∷ ficha 2 1000 false
    ∷ ficha 3 1300 false
    ∷ ficha 4 10 false
    ∷ ficha 5 120 true
    ∷ []

found : List (List ℕ)
unfolding etapa_familias
found = map (λ f. map (λ (a : Ficha). a.i) f.1) (etapa_familias regras arquivos).0

found_chains : found ≡ (0 ∷ 1 ∷ []) ∷ (2 ∷ 3 ∷ []) ∷ []
unfolding found
found_chains = refl

marks :
    map (λ (a : Ficha). a.familia) (etapa_familias regras arquivos).1
    ≡ some 0 ∷ some 0 ∷ some 1 ∷ some 1 ∷ none ∷ none ∷ []
unfolding etapa_familias
marks = refl

etapa_familias-vezes_example : vezes_em 3 (etapa_familias regras arquivos).0 ≤ vezes 3 arquivos
etapa_familias-vezes_example = etapa_familias-vezes regras 3 arquivos

etapa_familias-All_example : All (IsChain 3 2) (etapa_familias regras arquivos).0
etapa_familias-All_example = etapa_familias-All regras arquivos

abbrev pares : List (ℕ × ℕ)
pares = (0, 100) ∷ (1, 0) ∷ (2, 3) ∷ (3, 20) ∷ []

shared : alocar_pares pares 40 5 ≡ (0, 28) ∷ (2, 3) ∷ (3, 8) ∷ []
unfolding alocar_pares
shared = refl

abbrev small : List (ℕ × ℕ)
small = (0, 5) ∷ (1, 5) ∷ (2, 1) ∷ (3, 1) ∷ (4, 1) ∷ []

-- A total that is smaller than the minima is passed when small classes are raised to one pair.
passed : somar (alocar_pares small 8 5) ≡ 9
unfolding alocar_pares
passed = refl

alocar_pares_total_example : somar (alocar_pares pares 40 5) ≤ 40
unfolding presentes bases
alocar_pares_total_example = alocar_pares_total pares 40 5 (inl (omega arith))

abbrev total : ℕ
total = 40
