-- ===== src/Classifica/Texto/Classes.antt =====
-- The classes of `subclasse_texto` of bench/perfil_dataset.py.
use engine_motor.Classifica.Origem.{conteudo}
use engine_motor.Classifica.Extensoes.{ext_xml, ext_log, ext_seq}
use engine_motor.Prelude.Texts.{member}
use engine_motor.Prelude.{ℕ, ◌≡◌, refl, Bool, true, false, if_keeps, inl, inr, Option-cases, List}
use engine_motor.Classifica.{Classe, Origem, Subclasse}
use engine_motor.Classifica.Subclasse.{como}
use engine_motor.Classifica.Classe.{
  texto, codigo, csv_tabular, json_ndjson, log, xml_html, sequencia,
}
use engine_motor.Classifica.Texto.{
  Leitores, parece_json, origem, subclasse_do_corpo, subclasse_sem_json, subclasse_texto,
}

abbrev pub textual : Classe → Bool
textual texto = true
textual codigo = true
textual csv_tabular = true
textual json_ndjson = true
textual log = true
textual xml_html = true
textual sequencia = true
textual c = false

unfoldable pub de_texto : Subclasse → Bool
de_texto (como c o) = textual c

by_class : (c : Classe) (o : Origem) → textual c ≡ true → de_texto (como c o) ≡ true
unfolding de_texto
by_class c o h = h

de_texto-subclasse_do_corpo :
    (r : Leitores) (head ext : List ℕ) (tam : ℕ)
    → de_texto (subclasse_do_corpo r head ext tam) ≡ true
unfolding subclasse_do_corpo
de_texto-subclasse_do_corpo r head ext tam =
    if_keeps de_texto _ _ _ (by_class sequencia (origem (member ext ext_seq)) refl) (
      if_keeps de_texto _ _ _ (by_class codigo Origem.extensao refl) (
        if_keeps de_texto _ _ _ (by_class csv_tabular conteudo refl)
          (if_keeps de_texto _ _ _ (by_class codigo conteudo refl) (by_class texto conteudo refl))))

de_texto-subclasse_sem_json :
    (r : Leitores) (head ext : List ℕ) (tam : ℕ)
    → de_texto (subclasse_sem_json r head ext tam) ≡ true
unfolding subclasse_sem_json
de_texto-subclasse_sem_json r head ext tam =
    if_keeps de_texto _ _ _ (by_class json_ndjson Origem.extensao refl) (
      if_keeps de_texto _ _ _ (by_class xml_html (origem (member ext ext_xml)) refl) (
        if_keeps de_texto _ _ _ (by_class log (origem (member ext ext_log)) refl) (
          if_keeps de_texto _ _ _ (by_class csv_tabular Origem.extensao refl)
            (de_texto-subclasse_do_corpo r head ext tam))))

-- The class of `subclasse_texto` is one of text.
pub de_texto-subclasse_texto :
    (r : Leitores) (head ext : List ℕ) (tam : ℕ) → de_texto (subclasse_texto r head ext tam) ≡ true
unfolding subclasse_texto de_texto
de_texto-subclasse_texto r head ext tam = elim (Option-cases (parece_json r head tam ext)) [
  | inl e ↦ rw (e, subclasse_texto) (de_texto-subclasse_sem_json r head ext tam)
  | inr (o, e) ↦ rw (e, subclasse_texto) refl
]
