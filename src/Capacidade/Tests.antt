-- ===== src/Capacidade/Tests.antt =====
-- Blocks of four bytes under a cap of eight.
use engine_motor.Prelude.{ℕ, ◌≡◌, ◌++◌, refl, inl, true, false, List, [], ◌∷◌, arith}
use engine_motor.Capacidade.{Escritor, novo, escrever, fechar, conteudo}
use engine_motor.Capacidade.Blocos.{IsReady, escrever_lem}

abbrev inicio : Escritor
inicio = novo 8 false

inicio-IsReady : IsReady 4 inicio
inicio-IsReady = record { room = omega arith; place = inl refl; whole = tt; counted = refl }

abbrev dados : List ℕ
dados = 1 ∷ 2 ∷ 3 ∷ 4 ∷ 5 ∷ 6 ∷ 7 ∷ 8 ∷ 9 ∷ 10 ∷ 11 ∷ 12 ∷ 13 ∷ []

fim : List (ℕ × List ℕ)
unfolding escrever fechar
fim = (fechar 4 true (escrever 4 dados inicio).1).gravados

wraps :
    fim
    ≡ (0, 1 ∷ 2 ∷ 3 ∷ 4 ∷ [])
      ∷ (4, 5 ∷ 6 ∷ 7 ∷ 8 ∷ [])
      ∷ (0, 9 ∷ 10 ∷ 11 ∷ 12 ∷ [])
      ∷ (4, 13 ∷ 0 ∷ 0 ∷ 0 ∷ [])
      ∷ []
unfolding fim
wraps = refl

escrever_lem_example :
    let r = escrever 4 dados inicio in
    (r.0 ≡ []) × IsReady 4 r.1 × (conteudo r.1 ≡ conteudo inicio ++ dados)
escrever_lem_example = escrever_lem 4 dados inicio (omega arith) inicio-IsReady

abbrev meio : Escritor
meio = record inicio { buf = 1 ∷ 2 ∷ [] }

meio-IsReady : IsReady 4 meio
meio-IsReady = record { room = omega arith; place = inl refl; whole = tt; counted = refl }
