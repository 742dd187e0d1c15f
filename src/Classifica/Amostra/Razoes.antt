-- ===== src/Classifica/Amostra/Razoes.antt =====
-- The reasons of `classificar_amostra` in bench/perfil_dataset.py.
use engine_motor.Prelude.{
  ℕ, ap, subst, ◌↔◌, ◌≡◌, refl, ◌*◌, Bool, true, false, not, ◌&&◌, both, if_case, Option, none,
  some, List, [], ◌==◌, ==_iff,
}
use engine_motor.Prelude.Texts.{member}
use engine_motor.Classifica.{Rotulo, Razao, Subclasse, Veredito}
use engine_motor.Classifica.Subclasse.{como}
use engine_motor.Classifica.Veredito.{por}
use engine_motor.Classifica.Classe.{
  texto, binario, cientifico_numerico, imagem_audio_video, container_comprimido,
  criptografado_aleatorio, vazio,
}
use engine_motor.Classifica.Rotulo.{tar, pdf, tiff, bmp, wav}
use engine_motor.Classifica.Razao.{
  tamanho_zero, bom_utf16, tar_com_conteudo_binario, pdf_entropia_alta, pdf_texto, pdf_binario,
  extensao_sem_assinatura, entropia_sem_assinatura, assinatura, entropia_alta, bruto, tar_mais,
  pelo_texto,
}
use engine_motor.Classifica.Assinaturas.{Achado, detectar_assinatura}
use engine_motor.Classifica.Assinaturas.Classes.{decide, decide-detectar_assinatura}
use engine_motor.Classifica.Extensoes.{ext_container, ext_media}
use engine_motor.Classifica.Texto.{subclasse_texto, sem_byte}
use engine_motor.Classifica.Texto.Classes.{de_texto, de_texto-subclasse_texto}
use engine_motor.Classifica.Amostra.{
  Medidas, densa, e_texto, aleatoria, sem_assinatura, por_conteudo, imagem_ou_bruto, por_tar,
  por_pdf, do_texto, do_tar, por_rotulo, utf16, sem_classe, classificar_amostra,
}
use engine_motor.Classifica.Amostra.Sentido.{
  rotulo_de, classe_de, IsPrintableTar, Means, IsTrue, is_true,
}
use engine_motor.Classifica.Amostra.PelaExtensao.{por_extensao-IsTrue}
use engine_motor.Classifica.Amostra.Medida.{
  utf16-IsUtf16, densa-IsDense, densa-false, many_printable, few_printable, few_in_tar, many_in_tar,
  aleatoria-IsNoise, e_texto-IsText, e_texto-false,
}

module _ (m : Medidas) (head amostra ext : List ℕ) where
  module _ (tam : ℕ) (rot : Option Rotulo) where
    sem_assinatura-IsTrue :
        aleatoria m amostra ≡ true
        → e_texto m head amostra ≡ false
        → IsTrue m head amostra ext tam rot (sem_assinatura m ext)
    unfolding sem_assinatura
    sem_assinatura-IsTrue noise no_text =
        if_case (IsTrue m head amostra ext tam rot) (member ext ext_container) _ _
          (λ h.
            is_true m head amostra ext tam rot (por container_comprimido extensao_sem_assinatura) (
              h,
              aleatoria-IsNoise m head amostra ext noise,
              e_texto-false m head amostra ext no_text,
            ))
          λ not_container.
            if_case (IsTrue m head amostra ext tam rot) (member ext ext_media) _ _
              (λ h.
                is_true m head amostra ext tam rot (por imagem_audio_video extensao_sem_assinatura)
                  (
                    h,
                    aleatoria-IsNoise m head amostra ext noise,
                    e_texto-false m head amostra ext no_text,
                  ))
              λ not_media.
                is_true m head amostra ext tam rot
                  (por criptografado_aleatorio entropia_sem_assinatura)
                  (
                    refl,
                    aleatoria-IsNoise m head amostra ext noise,
                    e_texto-false m head amostra ext no_text,
                    not_container,
                    not_media,
                  )

    do_texto-IsTrue :
        (s : Subclasse)
        → de_texto s ≡ true
        → e_texto m head amostra ≡ true
        → IsTrue m head amostra ext tam rot (do_texto s)
    unfolding de_texto
    do_texto-IsTrue (como c o) h e =
        is_true m head amostra ext tam rot (por c (pelo_texto o))
          (h, e_texto-IsText m head amostra ext e)

    do_tar-IsTrue :
        (s : Subclasse)
        → de_texto s ≡ true
        → rot ≡ some tar
        → IsPrintableTar m head amostra ext
        → IsTrue m head amostra ext tam rot (do_tar s)
    unfolding de_texto
    do_tar-IsTrue (como c o) h e p =
        is_true m head amostra ext tam rot (por c (tar_mais o)) (h, e, p)

    por_conteudo-IsTrue : IsTrue m head amostra ext tam rot (por_conteudo m head amostra ext tam)
    unfolding por_conteudo
    por_conteudo-IsTrue =
        if_case (IsTrue m head amostra ext tam rot)
          (aleatoria m amostra && not (e_texto m head amostra)) _ _
          (λ h.
            let (noise, no_text) = both (aleatoria m amostra) (not (e_texto m head amostra)) h in
            sem_assinatura-IsTrue noise (not_true (e_texto m head amostra) no_text))
          λ _.
            if_case (IsTrue m head amostra ext tam rot) (e_texto m head amostra) _ _
              (λ h.
                do_texto-IsTrue (subclasse_texto m.leitores head ext tam)
                  (de_texto-subclasse_texto m.leitores head ext tam) h)
              λ h. por_extensao-IsTrue m head amostra ext tam rot h
      where
        not_true : (b : Bool) → not b ≡ true → b ≡ false
        not_true true h = cc
        not_true false h = refl

    imagem_ou_bruto-IsTrue :
        (r : Rotulo)
        → rot ≡ some r
        → IsTrue m head amostra ext tam rot (imagem_ou_bruto m r amostra)
    unfolding imagem_ou_bruto
    imagem_ou_bruto-IsTrue r e =
        if_case (IsTrue m head amostra ext tam rot) (densa m amostra) _ _
          (λ h.
            is_true m head amostra ext tam rot (por imagem_audio_video (entropia_alta r))
              (refl, e, densa-IsDense m head amostra ext h))
          λ h.
            is_true m head amostra ext tam rot (por cientifico_numerico (bruto r))
              (refl, e, densa-false m head amostra ext h)

    por_tar-IsTrue : rot ≡ some tar → IsTrue m head amostra ext tam rot (por_tar m amostra tam)
    unfolding por_tar
    por_tar-IsTrue e =
        if_case (IsTrue m head amostra ext tam rot) _ _ _
          (λ h.
            is_true m head amostra ext tam rot (por binario tar_com_conteudo_binario)
              (refl, e, few_in_tar m head amostra ext h))
          λ h.
            do_tar-IsTrue (subclasse_texto m.leitores (sem_byte 0 amostra) [] (tam * 256))
              (de_texto-subclasse_texto m.leitores (sem_byte 0 amostra) [] (tam * 256)) e
              (many_in_tar m head amostra ext h)

    por_pdf-IsTrue : rot ≡ some pdf → IsTrue m head amostra ext tam rot (por_pdf m amostra)
    unfolding por_pdf
    por_pdf-IsTrue e =
        if_case (IsTrue m head amostra ext tam rot) (densa m amostra) _ _
          (λ h.
            is_true m head amostra ext tam rot (por container_comprimido pdf_entropia_alta)
              (refl, e, densa-IsDense m head amostra ext h))
          λ h.
            if_case (IsTrue m head amostra ext tam rot) _ _ _
              (λ p.
                is_true m head amostra ext tam rot (por texto pdf_texto)
                  (refl, e, densa-false m head amostra ext h, many_printable m head amostra ext p))
              λ p.
                is_true m head amostra ext tam rot (por binario pdf_binario)
                  (refl, e, densa-false m head amostra ext h, few_printable m head amostra ext p)

  por_rotulo-IsTrue :
      (tam : ℕ) (rot : Option Rotulo)
      → IsTrue m head amostra ext tam rot (por_rotulo m rot head amostra ext tam)
  unfolding por_rotulo
  por_rotulo-IsTrue tam (some tar) = por_tar-IsTrue tam (some tar) refl
  por_rotulo-IsTrue tam (some pdf) = por_pdf-IsTrue tam (some pdf) refl
  por_rotulo-IsTrue tam (some tiff) = imagem_ou_bruto-IsTrue tam (some tiff) tiff refl
  por_rotulo-IsTrue tam (some bmp) = imagem_ou_bruto-IsTrue tam (some bmp) bmp refl
  por_rotulo-IsTrue tam (some wav) = imagem_ou_bruto-IsTrue tam (some wav) wav refl
  por_rotulo-IsTrue tam rot = por_conteudo-IsTrue tam rot

  sem_classe-IsTrue :
      (tam : ℕ) (rot : Option Rotulo)
      → IsTrue m head amostra ext tam rot (sem_classe m rot head amostra ext tam)
  unfolding sem_classe
  sem_classe-IsTrue tam rot =
      if_case (IsTrue m head amostra ext tam rot) (utf16 m head amostra) _ _
        (λ h.
          is_true m head amostra ext tam rot (por texto bom_utf16)
            (refl, utf16-IsUtf16 m head amostra ext h))
        λ _. por_rotulo-IsTrue tam rot

  classificar_amostra-IsTrue :
      (tam : ℕ)
      → IsTrue m head amostra ext tam
          (rotulo_de (detectar_assinatura head ext))
          (classificar_amostra m head amostra ext tam)
  unfolding classificar_amostra
  classificar_amostra-IsTrue tam =
      if_case (IsTrue m head amostra ext tam (rotulo_de (detectar_assinatura head ext))) (tam == 0)
        _ _
        (λ h. is_true m head amostra ext tam _ (por vazio tamanho_zero) (refl, (==_iff tam 0).0 h))
        λ _. by_label (detectar_assinatura head ext) refl
    where
      by_label :
          (a : Achado)
          → detectar_assinatura head ext ≡ a
          → IsTrue m head amostra ext tam (rotulo_de a) (elim a [
            | none ↦ sem_classe m none head amostra ext tam
            | some (rot, none) ↦ sem_classe m (some rot) head amostra ext tam
            | some (rot, some cls) ↦ por cls (assinatura rot)
          ])
      by_label none e = sem_classe-IsTrue tam none
      by_label (some (rot, none)) e = sem_classe-IsTrue tam (some rot)
      by_label (some (rot, some cls)) e =
          is_true m head amostra ext tam (some rot) (por cls (assinatura rot)) e

  pub Means-classificar_amostra :
      (tam : ℕ)
      → Means m head amostra ext tam
          (rotulo_de (detectar_assinatura head ext))
          (classificar_amostra m head amostra ext tam)
  Means-classificar_amostra tam = (classificar_amostra-IsTrue tam).says

  -- Only the size gives the class of the empty file.
  vazio_only :
      (tam : ℕ) (rot : Option Rotulo) (r : Razao)
      → Means m head amostra ext tam rot (por vazio r)
      → tam ≡ 0
  unfolding decide
  vazio_only tam rot tamanho_zero h = h.1
  vazio_only tam rot (assinatura r) h = decided_by (ap decide h)
    where
      decided_by : decide (detectar_assinatura head ext) ≡ decide (some (r, some vazio)) → tam ≡ 0
      decided_by e = let l = decide-detectar_assinatura head ext in cc
  vazio_only tam rot r h = cc

  -- A file is classified as empty exactly when its size is zero.
  pub classe_de-classificar_amostra :
      (tam : ℕ) → (classe_de (classificar_amostra m head amostra ext tam) ≡ vazio) ↔ (tam ≡ 0)
  unfolding classificar_amostra
  classe_de-classificar_amostra tam = (only _ (Means-classificar_amostra tam), λ e. rw e refl)
    where
      only :
          (v : Veredito)
          → Means m head amostra ext tam (rotulo_de (detectar_assinatura head ext)) v
          → classe_de v ≡ vazio
          → tam ≡ 0
      only (por c r) h e = vazio_only tam (rotulo_de (detectar_assinatura head ext)) r (
          subst
            (λ d. Means m head amostra ext tam (rotulo_de (detectar_assinatura head ext)) (por d r))
            e h)
