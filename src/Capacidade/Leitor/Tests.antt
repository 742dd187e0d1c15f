-- ===== src/Capacidade/Leitor/Tests.antt =====
-- A file of one frame and one more byte, in blocks of three bytes, and files without a frame.
use engine_motor.Prelude.{ℕ, ◌≡◌, refl, none, List, [], ◌∷◌, ◌++◌, arith}
use engine_motor.Bytes.{to_le}
use engine_motor.Capacidade.Leitor.{leitor_novo, proximo}
use engine_motor.Capacidade.Leitor.Quadros.{quadro_de}
use engine_motor.Capacidade.Leitor.Arquivo.{IsReading, IsFrame, proximo-IsFrame}

abbrev um_arquivo : List ℕ
um_arquivo = 5 ∷ 0 ∷ 0 ∷ 0 ∷ 2 ∷ 0 ∷ 0 ∷ 0 ∷ 70 ∷ 80 ∷ 9 ∷ []

novo-IsReading : IsReading (um_arquivo ∷ []) (11 ∷ []) 3 leitor_novo
novo-IsReading = record { inside = omega arith; ended = λ h. cc }

frame_first : um_arquivo ≡ quadro_de 5 (70 ∷ 80 ∷ []) ++ 9 ∷ []
unfolding to_le
frame_first = refl

proximo-IsFrame_example :
    IsFrame (um_arquivo ∷ []) (11 ∷ []) 3 12 leitor_novo (70 ∷ 80 ∷ []) (9 ∷ [])
proximo-IsFrame_example =
    proximo-IsFrame (um_arquivo ∷ []) (11 ∷ []) 3 12 leitor_novo 5 (70 ∷ 80 ∷ []) (9 ∷ [])
      (omega arith) (omega arith) novo-IsReading (omega arith) (omega arith) (omega arith)
      frame_first (omega arith)

-- Two empty files: the reader turns from one to the other.
no_frames : proximo ([] ∷ [] ∷ []) (0 ∷ 0 ∷ []) 3 40 leitor_novo ≡ none
unfolding proximo
no_frames = refl
