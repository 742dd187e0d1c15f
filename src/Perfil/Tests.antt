-- ===== src/Perfil/Tests.antt =====
-- One file in a directory below the root: the system denies O_NOATIME and reads two bytes at a time.
use engine_motor.Prelude.{
  ℕ, zero, suc, ◌+◌, ◌≡◌, ◌<◌, refl, sym, ap, ◌∙◌, min, true, false, some, List, [], ◌∷◌, map,
  length, take, drop, if◌then◌else◌, get_elem?, arith, length-take, length-drop,
}
use engine_motor.Scan.{Nome, Arq, eperm}
use engine_motor.Classifica.Amostra.{Medidas}
use engine_motor.Perfil.Descritores.{oserror, deu, Sistema, LeitorPerfil, abrir, fechar_tudo}
use engine_motor.Perfil.Contagem.{IsTidy}
use engine_motor.Perfil.Leitura.{janelas_arquivo}
use engine_motor.Perfil.Tarefa.{tarefa_classificar}
use engine_motor.Perfil.Conclusao.{Done, tarefa_classificar-Done}
use engine_motor.Perfil.Pedacos.{Lends, Gives, Windows, janelas_arquivo-Windows}

abbrev conteudo : List ℕ
conteudo = 72 ∷ 101 ∷ 121 ∷ []

abbrev sistema : Sistema
sistema = record {
  noatime = true;
  abre_dir = λ c fd nome. deu (7 + c);
  abre_arq = λ c noatime fd nome. if noatime then oserror eperm else deu (20 + c);
  fstat = λ c fd.
      deu (record { e_regular = true; st_dev = 1; st_ino = 2; st_size = 3; st_mtime_ns = 5 });
  pread = λ c fd n off. deu (take (min 2 n) (drop off conteudo));
}

abbrev leitor : LeitorPerfil
leitor = record { cache = []; noatime_negados = 0; abertos = 100 ∷ []; chamadas = 0 }

abbrev dirs : List (ℕ × Nome)
dirs = (0, []) ∷ (0, 97 ∷ []) ∷ (1, 98 ∷ []) ∷ []

abbrev arqs : List Arq
arqs =
    record { i = 0; did = 2; nome = 120 ∷ []; tam = 3; mtime = 5; dev = 1; ino = 2 }
    ∷ record { i = 1; did = 0; nome = 121 ∷ []; tam = 0; mtime = 5; dev = 1; ino = 3 }
    ∷ []

abbrev medidas : Medidas
medidas = record {
  leitores = record {
    ts_log = λ l. false;
    nivel_log = λ l. false;
    marcadores = λ l. 0;
    controle = λ l. 0;
    json = λ l. false;
  };
  entropia = length;
  corrigida = length;
  bit = 10;
  utf8_valido = λ l. true;
}

behind : (k pai : ℕ) (nome : Nome) → 0 < k → get_elem? dirs k ≡ some (pai, nome) → pai < k
behind zero pai nome l e = absurd (omega arith)
behind (suc zero) pai nome l e = ground arith
behind (suc (suc zero)) pai nome l e = ground arith
behind (suc (suc (suc k))) pai nome l e = cc

leitor-IsTidy : IsTidy (100 ∷ []) leitor
leitor-IsTidy = record { few = omega arith; tally = λ x. omega arith }

tarefa_classificar-Done_example :
    Done sistema
      (100 ∷ [])
      (λ xs. map (λ x. x.i) xs ≡ 0 ∷ 1 ∷ [])
      (tarefa_classificar medidas (λ s. s) sistema 100 dirs arqs true (0 ∷ 1 ∷ []) leitor)
tarefa_classificar-Done_example =
    tarefa_classificar-Done medidas (λ s. s) sistema 100 dirs arqs true (100 ∷ []) behind
      (omega arith) (0 ∷ 1 ∷ []) leitor leitor-IsTidy

-- The two directories stay open behind the task, and `fechar_tudo` closes them.
still_open :
    (tarefa_classificar medidas (λ s. s) sistema 100 dirs arqs true (0 ∷ 1 ∷ []) leitor).1.abertos
    ≡ 100 ∷ 7 ∷ 8 ∷ []
unfolding tarefa_classificar abrir janelas_arquivo
still_open = refl

closed :
    (fechar_tudo
      (tarefa_classificar medidas
        (λ s. s)
        sistema
        100
        dirs
        arqs
        true
        (0 ∷ 1 ∷ [])
        leitor).1).abertos
    ≡ 100 ∷ []
unfolding tarefa_classificar abrir janelas_arquivo fechar_tudo
closed = refl

-- `fstat` fails: the descriptor of the file, 22, stays open behind `fechar_tudo`.
leaks :
    (fechar_tudo
      (tarefa_classificar medidas
        (λ s. s)
        (record sistema { fstat = λ c fd. oserror eperm })
        100
        dirs
        arqs
        true
        (0 ∷ 1 ∷ [])
        leitor).1).abertos
    ≡ 100 ∷ 23 ∷ []
unfolding tarefa_classificar abrir janelas_arquivo fechar_tudo
leaks = refl

take-length-take : (k : ℕ) (xs : List ℕ) → take (length (take k xs)) xs ≡ take k xs
take-length-take zero xs = refl
take-length-take (suc k) [] = refl
take-length-take (suc k) (x ∷ xs) = ap (λ t. x ∷ t) (take-length-take k xs)

deu_inj : {x y : List ℕ} → deu x ≡ deu y → x ≡ y
deu_inj e = cc

sistema-Lends : (fd : ℕ) → Lends sistema fd conteudo
sistema-Lends fd = record {
  part = λ c n off r e.
      let e' = deu_inj e in
      (
        sym e'
            ∙ sym (take-length-take (min 2 n) (drop off conteudo))
            ∙ ap (λ t. take (length t) (drop off conteudo)) e',
        omega (arith, ap length e', length-take (min 2 n) (drop off conteudo)),
      );
  end = λ c n off e l. omega (
    arith,
    ap length (deu_inj e),
    length-take (min 2 n) (drop off conteudo),
    length-drop off conteudo,
  );
}

janelas_arquivo-Windows_example :
    Gives (Windows conteudo 3 true) (janelas_arquivo sistema 9 3 true leitor)
janelas_arquivo-Windows_example =
    janelas_arquivo-Windows sistema 9 conteudo (sistema-Lends 9) 3 true leitor
