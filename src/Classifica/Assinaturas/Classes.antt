-- ===== src/Classifica/Assinaturas/Classes.antt =====
-- The classes that `detectar_assinatura` of bench/perfil_dataset.py decides by itself.
use mathlib.Core.Option.{some_inj}
use engine_motor.Prelude.{
  ℕ, ◌≡◌, refl, ap, subst, Bool, true, false, ◌&&◌, Bool-cases, both, if_keeps, inl, inr,
  Option-cases, none, some, List, [], ◌∷◌,
}
use engine_motor.Classifica.{Classe, Rotulo}
use engine_motor.Classifica.Classe.{
  texto, codigo, csv_tabular, json_ndjson, log, xml_html, sequencia, binario, container_comprimido,
  vazio,
}
use engine_motor.Classifica.Rotulo.{
  webp, avi, wav, heif, iso_bmff, tiff, bmp, pe, mpeg_audio, bzip2, tar, pdf,
}
use engine_motor.Classifica.Assinaturas.{
  media, Assinatura, Achado, assinaturas, confere, primeira, riff, ftyp_em_diante, depois_da_tabela,
  detectar_assinatura,
}

abbrev pub decisiva : Classe → Bool
decisiva texto = false
decisiva codigo = false
decisiva csv_tabular = false
decisiva json_ndjson = false
decisiva log = false
decisiva xml_html = false
decisiva sequencia = false
decisiva vazio = false
decisiva c = true

-- The class of a finding, if it has one, is decisive.
unfoldable pub decide : Achado → Bool
decide none = true
decide (some (r, none)) = true
decide (some (r, some c)) = decisiva c

all_decisive : List Assinatura → Bool
all_decisive [] = true
all_decisive (a ∷ xs) = decisiva a.cls && all_decisive xs

assinaturas_decisive : all_decisive assinaturas ≡ true
unfolding all_decisive assinaturas
assinaturas_decisive = refl

primeira_decisive :
    (tabela : List Assinatura) (head : List ℕ) {r : Rotulo} {c : Classe}
    → all_decisive tabela ≡ true
    → primeira tabela head ≡ some (r, c)
    → decisiva c ≡ true
unfolding primeira all_decisive
primeira_decisive [] head h e = cc
primeira_decisive (a ∷ tabela) head h e = elim (Bool-cases (confere head a)) [
  | inl fits ↦
      let e' : some (a.rot, a.cls) ≡ some _ = rw fits at e in
      subst (λ t. decisiva t ≡ true) (ap (λ p. p.1) (some_inj.0 e'))
        (both (decisiva a.cls) (all_decisive tabela) h).0
  | inr other ↦
      let e' : primeira tabela head ≡ some _ = rw other at e in
      primeira_decisive tabela head (both (decisiva a.cls) (all_decisive tabela) h).1 e'
]

by_media : (r : Rotulo) → decide (media r) ≡ true
unfolding decide
by_media r = refl

by_label : (r : Rotulo) → decide (some (r, none)) ≡ true
unfolding decide
by_label r = refl

by_nothing : decide none ≡ true
unfolding decide
by_nothing = refl

by_class : (r : Rotulo) (c : Classe) → decisiva c ≡ true → decide (some (r, some c)) ≡ true
unfolding decide
by_class r c h = h

riff-decide :
    (head : List ℕ) (depois : Achado) → decide depois ≡ true → decide (riff head depois) ≡ true
unfolding riff
riff-decide head depois h =
    if_keeps decide _ _ _ (by_media webp)
      (if_keeps decide _ _ _ (by_media avi) (if_keeps decide _ _ _ (by_label wav) h))

ftyp_decides : (head ext : List ℕ) → decide (ftyp_em_diante head ext) ≡ true
unfolding ftyp_em_diante
ftyp_decides head ext =
    if_keeps decide _ _ _ (if_keeps decide _ _ _ (by_media heif) (by_media iso_bmff)) (
      if_keeps decide _ _ _ (by_label tiff) (
        if_keeps decide _ _ _ (by_label bmp) (
          if_keeps decide _ _ _ (by_class pe binario refl)
            (if_keeps decide _ _ _ (by_media mpeg_audio) by_nothing))))

depois_decides : (head ext : List ℕ) → decide (depois_da_tabela head ext) ≡ true
unfolding depois_da_tabela
depois_decides head ext =
    let rest = ftyp_decides head ext in
    if_keeps decide _ _ _ (by_class bzip2 container_comprimido refl) (
      if_keeps decide _ _ _ (by_label tar) (
        if_keeps decide _ _ _ (by_label pdf)
          (if_keeps decide _ _ _ (riff-decide head _ rest) rest)))

-- What `detectar_assinatura` decides by itself is not a class of text, nor the empty file.
pub decide-detectar_assinatura : (head ext : List ℕ) → decide (detectar_assinatura head ext) ≡ true
unfolding detectar_assinatura decide
decide-detectar_assinatura head ext = elim (Option-cases (primeira assinaturas head)) [
  | inl e ↦ rw (e, detectar_assinatura) (depois_decides head ext)
  | inr (p, e) ↦
      rw (e, detectar_assinatura) (primeira_decisive assinaturas head assinaturas_decisive e)
]
