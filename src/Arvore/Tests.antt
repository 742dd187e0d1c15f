-- ===== src/Arvore/Tests.antt =====
-- Four rows of two classes, fitted and predicted with natural numbers for the floats.
use engine_motor.Prelude.{
  faixa, ℕ, ◌+◌, ◌-◌, ◌*◌, ◌/◌, ◌≡◌, ◌≤◌, refl, not, none, some, [], ◌∷◌, map, max, length, All,
  leb, ltb, ◌==◌, arith,
}
use engine_motor.Arvore.Corte.{Numeros, Amostras}
use engine_motor.Arvore.Ajuste.{ajustar_arvore, prever_arvore, arvore_usa}
use engine_motor.Arvore.Disposta.{planta}
use engine_motor.Arvore.Previsao.{classe, prever_arvore-ajustar_arvore}
use engine_motor.Arvore.Escolha.{Transitive}
use engine_motor.Arvore.Folhas.{grupos, grupos-planta_large}

abbrev naturais : Numeros ℕ
naturais = record {
  nulo = 0;
  epsilon = 1;
  mais = λ x y. x + y;
  menos = λ x y. x - y;
  vezes = λ x y. x * y;
  sobre = λ x y. x / y;
  maximo = λ x y. max x y;
  ate = leb;
  acima = λ x y. ltb y x;
  nao_nulo = λ x. not (x == 0);
}

abbrev quatro : Amostras ℕ
quatro = record {
  valor = λ i f. 1 + i + 5 * (i / 2);
  rotulo = λ i. i / 2;
  peso = λ i. 1;
  num_colunas = 1;
  classes = 2;
  quantis = λ xs. 2 ∷ 8 ∷ [];
  min_folha = 2;
}

leb-IsTransitive : Transitive naturais
leb-IsTransitive x y z h k = ground arith

fitted : ajustar_arvore naturais quatro 4 6 ≡ record {
  feats = some 0 ∷ none ∷ none ∷ [];
  thrs = 2 ∷ 0 ∷ 0 ∷ [];
  esqs = some 1 ∷ none ∷ none ∷ [];
  dires = some 2 ∷ none ∷ none ∷ [];
  clss = 0 ∷ 0 ∷ 1 ∷ [];
}
unfolding ajustar_arvore
fitted = refl

used : arvore_usa (ajustar_arvore naturais quatro 4 6) ≡ 0 ∷ []
unfolding ajustar_arvore arvore_usa
used = refl

prever_arvore-ajustar_arvore_example :
    prever_arvore naturais (ajustar_arvore naturais quatro 4 6) ((λ f. 1) ∷ (λ f. 9) ∷ [])
    ≡ map (classe naturais (planta naturais quatro 6 (faixa 0 4))) ((λ f. 1) ∷ (λ f. 9) ∷ [])
prever_arvore-ajustar_arvore_example =
    prever_arvore-ajustar_arvore naturais quatro 4 6 ((λ f. 1) ∷ (λ f. 9) ∷ []) (omega arith)

predicted :
    prever_arvore naturais (ajustar_arvore naturais quatro 4 6) ((λ f. 1) ∷ (λ f. 9) ∷ [])
    ≡ 0 ∷ 1 ∷ []
unfolding prever_arvore ajustar_arvore
predicted = refl

grupos-planta_large_example :
    All
      (λ g. 2 ≤ length g)
      (grupos naturais quatro (planta naturais quatro 6 (faixa 0 4)) (faixa 0 4))
grupos-planta_large_example =
    grupos-planta_large naturais quatro leb-IsTransitive (λ xs. ((refl, tt), (tt, tt))) 6
      (faixa 0 4) (omega arith)
