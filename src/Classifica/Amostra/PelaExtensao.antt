-- ===== src/Classifica/Amostra/PelaExtensao.antt =====
-- The reasons that the extension gives in `classificar_amostra` of bench/perfil_dataset.py.
use engine_motor.Prelude.{ℕ, ◌≡◌, refl, Bool, true, false, ◌&&◌, both, if_case, Option, List}
use engine_motor.Prelude.Texts.{member}
use engine_motor.Classifica.{Rotulo}
use engine_motor.Classifica.Veredito.{por}
use engine_motor.Classifica.Classe.{
  binario, banco_de_dados, cientifico_numerico, imagem_audio_video, container_comprimido,
  criptografado_aleatorio,
}
use engine_motor.Classifica.Razao.{pela_extensao, entropia_dos_deltas, conteudo_binario}
use engine_motor.Classifica.Extensoes.{
  ext_container, ext_media, ext_cripto, ext_banco, ext_binario, ext_cient,
}
use engine_motor.Classifica.Amostra.{Medidas, densa, e_texto, ganha_delta, por_extensao}
use engine_motor.Classifica.Amostra.Sentido.{IsTrue, is_true}
use engine_motor.Classifica.Amostra.Medida.{densa-false, e_texto-false}

unless : {D : Type 0} (a b : Bool) → (a && b) ≡ false → (b ≡ false → D → ⊥) → D → a ≡ false
unless false b h k d = refl
unless true b h k d = absurd (k h d)

module _ (m : Medidas) (head amostra ext : List ℕ) where
  module _ (tam : ℕ) (rot : Option Rotulo) where
    pub por_extensao-IsTrue :
        e_texto m head amostra ≡ false
        → IsTrue m head amostra ext tam rot (por_extensao m amostra ext)
    unfolding por_extensao
    por_extensao-IsTrue no_text =
        if_case (IsTrue m head amostra ext tam rot) (member ext ext_container && densa m amostra) _
          _
          (λ h. is_true m head amostra ext tam rot (por container_comprimido pela_extensao) (
            (both (member ext ext_container) (densa m amostra) h).0,
            e_texto-false m head amostra ext no_text,
          ))
          λ not_c.
            if_case (IsTrue m head amostra ext tam rot) (member ext ext_media && densa m amostra) _
              _
              (λ h. is_true m head amostra ext tam rot (por imagem_audio_video pela_extensao) (
                (both (member ext ext_media) (densa m amostra) h).0,
                e_texto-false m head amostra ext no_text,
              ))
              λ not_d.
                if_case (IsTrue m head amostra ext tam rot) (member ext ext_cripto) _ _
                  (λ h.
                    is_true m head amostra ext tam rot (por criptografado_aleatorio pela_extensao)
                      (h, e_texto-false m head amostra ext no_text))
                  λ not_r.
                    if_case (IsTrue m head amostra ext tam rot) (member ext ext_banco) _ _
                      (λ h.
                        is_true m head amostra ext tam rot (por banco_de_dados pela_extensao)
                          (h, e_texto-false m head amostra ext no_text))
                      λ not_k.
                        if_case (IsTrue m head amostra ext tam rot) (member ext ext_binario) _ _
                          (λ h.
                            is_true m head amostra ext tam rot (por binario pela_extensao)
                              (h, e_texto-false m head amostra ext no_text))
                          λ not_b.
                            if_case (IsTrue m head amostra ext tam rot) (member ext ext_cient) _ _
                              (λ h.
                                is_true m head amostra ext tam rot
                                  (por cientifico_numerico pela_extensao)
                                  (h, e_texto-false m head amostra ext no_text))
                              λ not_x.
                                if_case (IsTrue m head amostra ext tam rot) (ganha_delta m amostra)
                                  _ _
                                  (λ h.
                                    is_true m head amostra ext tam rot
                                      (por cientifico_numerico entropia_dos_deltas)
                                      (refl, h, e_texto-false m head amostra ext no_text))
                                  λ not_g.
                                    is_true m head amostra ext tam rot
                                      (por binario conteudo_binario)
                                      (
                                        refl,
                                        e_texto-false m head amostra ext no_text,
                                        λ d.
                                            unless (member ext ext_container) (densa m amostra)
                                              not_c (densa-false m head amostra ext) d,
                                        λ d.
                                            unless (member ext ext_media) (densa m amostra) not_d
                                              (densa-false m head amostra ext) d,
                                        not_r,
                                        not_k,
                                        not_b,
                                        not_x,
                                        not_g,
                                      )
