-- ===== src/Scan/Tests.antt =====
-- A small tree with links, a denied directory, a hard link met twice and a limit on the depth.
use engine_motor.Prelude.{ℕ, ◌≤◌, ◌≡◌, refl, true, none, some, List, [], ◌∷◌, map, arith}
use engine_motor.Scan.{
  Nome, Stat, Dir, Arq, Ignorado, Motivo, Varredura, Opcoes, link, file, dir, denied, unlisted,
  listed, end, entry, eacces, eio, varrer_arvore, inicial, link_simbolico, sem_permissao_diretorio,
  profundidade_maxima, hardlink_repetido, caminho, erro_io,
}
use engine_motor.Scan.Stack.{
  Alcanca, varrer_arvore-Alcanca, Alcanca-descriptors, varrer_arvore_closes,
}
use engine_motor.Scan.Ends.{custo, varrer_arvore-IsSome}

abbrev opcoes : Opcoes
opcoes = record {
  max_arquivos = 3;
  prof_max = 1;
  mesmo_dispositivo = true;
  dev_raiz = 7;
  utf8 = λ n. true;
}

abbrev stat : ℕ → ℕ → Stat
stat ino nlink = record {
  st_dev = 7;
  st_ino = ino;
  st_nlink = nlink;
  st_size = 10;
  st_mtime_ns = 1;
}

abbrev inner : Dir
inner = listed (
    entry (b'x' ∷ []) (file (stat 21 2))
      (entry (b'y' ∷ []) (dir 7 (listed end)) (entry (b'z' ∷ []) (file (stat 22 1)) end)))

abbrev raiz : Dir
raiz = listed (
    entry (b'a' ∷ []) (file (stat 21 2)) (
      entry (b'b' ∷ []) link (
        entry (b'c' ∷ []) (dir 7 inner) (
          entry (b'd' ∷ []) (dir 7 (denied eacces))
            (entry (b'e' ∷ []) (dir 7 (unlisted eio)) end)))))

summary : Varredura → List ℕ × List (List Nome) × List Motivo
summary v = (
  map (λ (a : Arq). a.ino) v.arquivos,
  map (λ (x : Ignorado). x.caminho) v.ign_lista,
  map (λ (x : Ignorado). x.motivo) v.ign_lista,
)

abbrev end_state : Varredura
end_state = elim (varrer_arvore opcoes 20 raiz) [ none ↦ inicial | some v ↦ v ]

scan_run : summary end_state ≡ (
  21 ∷ 22 ∷ [],
  ((b'b' ∷ []) ∷ [])
      ∷ ((b'c' ∷ []) ∷ (b'x' ∷ []) ∷ [])
      ∷ ((b'c' ∷ []) ∷ (b'y' ∷ []) ∷ [])
      ∷ ((b'd' ∷ []) ∷ [])
      ∷ ((b'e' ∷ []) ∷ [])
      ∷ [],
  link_simbolico ∷ hardlink_repetido ∷ profundidade_maxima ∷ sem_permissao_diretorio ∷ erro_io ∷ [],
)
unfolding summary varrer_arvore caminho
scan_run = refl

scan_returns : varrer_arvore opcoes 20 raiz ≡ some end_state
unfolding varrer_arvore caminho
scan_returns = refl

varrer_arvore-IsSome_example : (w : Varredura) × (varrer_arvore opcoes 20 raiz ≡ some w)
unfolding custo
varrer_arvore-IsSome_example = varrer_arvore-IsSome opcoes raiz 20 (omega arith)

varrer_arvore_closes_example : end_state.abertos ≡ 0
varrer_arvore_closes_example = varrer_arvore_closes opcoes 20 raiz end_state scan_returns

reached : Alcanca opcoes raiz [] end_state
reached = varrer_arvore-Alcanca opcoes raiz 20 scan_returns

Alcanca-descriptors_example : (end_state.abertos ≡ 0) × (end_state.abertos ≤ 2)
Alcanca-descriptors_example = Alcanca-descriptors opcoes raiz [] end_state reached
