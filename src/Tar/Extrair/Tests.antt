-- ===== src/Tar/Extrair/Tests.antt =====
-- A tar of one file of three bytes, as one read of the response.
use engine_motor.Prelude.{
  ℕ, ◌+◌, ◌≡◌, refl, true, none, List, [], ◌∷◌, ◌++◌, length, replicate, arith,
}
use engine_motor.Prelude.Texts.{codes}
use engine_motor.Tar.Fluxo.{Pedaco, Fluxo, aberto, ler}
use engine_motor.Tar.Fluxo.Conteudo.{conteudo, conteudo-ler}
use engine_motor.Tar.Campos.{Fim}
use engine_motor.Tar.Campos.Fim.{bom}
use engine_motor.Tar.Extrair.{Chave, Estado, extrair}
use engine_motor.Tar.Extrair.Passos.{IsConta, IsPaxType}
use engine_motor.Tar.Extrair.Contas.{bytes_dos_grupos}
use engine_motor.Tar.Extrair.Finais.{atribuidos, tops_em_ordem, finais}
use engine_motor.Tar.Extrair.Nomes.{bytes_finais, Distinct, finais-bytes}
use engine_motor.Tar.Extrair.Totais.{tudo_de, extrair-IsConta}
use engine_motor.Prelude.{take, drop, ◌≤◌}

abbrev como_esta : List ℕ → List ℕ
como_esta xs = xs

-- Name, size and type of a header.
abbrev cabecalho : List ℕ
cabecalho =
    codes "l/fs/ext4/a.c"
    ++ replicate 111 0
    ++ codes "00000000003"
    ++ replicate 21 0
    ++ codes "0"
    ++ replicate 355 0

abbrev tudo : Pedaco
tudo = record {
  tamanho = 90;
  saida = cabecalho ++ codes "abc" ++ replicate 509 0 ++ replicate 512 0;
  acaba = true;
}

abbrev resultado : Fim Estado
resultado = extrair como_esta 4096 (tudo ∷ [])

abbrev no_fim : Estado
no_fim = record {
  fluxo = record {
    fonte = [];
    eof = true;
    buf = tudo.saida;
    i = 1536;
    pos = 1536;
    baixados = 90;
    fim = true;
  };
  grupos = ((codes "fs", codes "ext4"), codes "abc" ∷ []) ∷ [];
  contagem = ((codes "fs", codes "ext4"), 1) ∷ [];
  nome_longo = none;
  pax = none;
  pax_global = none;
  n_reg = 1;
}

a_file : resultado ≡ bom no_fim
unfolding extrair
a_file = refl

extrair-IsConta_example : IsConta (tudo_de (tudo ∷ [])) no_fim
extrair-IsConta_example = extrair-IsConta como_esta 4096 (tudo ∷ []) no_fim a_file

-- A pax header, the record that gives the file behind it a path, and the end of the archive.
abbrev registro : List ℕ
registro = codes "12 path=a/b" ++ 10 ∷ []

abbrev cabecalho_pax : List ℕ
cabecalho_pax =
    codes "p"
    ++ replicate 123 0
    ++ codes "00000000014"
    ++ replicate 21 0
    ++ codes "x"
    ++ replicate 355 0

abbrev cabecalho_curto : List ℕ
cabecalho_curto =
    codes "l/b/c"
    ++ replicate 119 0
    ++ codes "00000000003"
    ++ replicate 21 0
    ++ codes "0"
    ++ replicate 355 0

abbrev com_pax : Pedaco
com_pax = record {
  tamanho = 90;
  saida =
      cabecalho_pax
      ++ registro
      ++ replicate 500 0
      ++ cabecalho_curto
      ++ codes "abc"
      ++ replicate 1021 0;
  acaba = true;
}

abbrev bytes_com_pax : List ℕ
bytes_com_pax = tudo_de (com_pax ∷ [])

abbrev IsOther : ℕ → Type 0
IsOther c = IsPaxType c → ⊥

abbrev curto : Fluxo
curto = aberto (record { tamanho = 3; saida = 1 ∷ 2 ∷ 3 ∷ []; acaba = true } ∷ [])

conteudo-ler_example :
    ((ler 2 curto).0 ≡ take 2 (conteudo curto))
    × (conteudo (ler 2 curto).1 ≡ drop 2 (conteudo curto))
    × ((ler 2 curto).1.pos ≡ curto.pos + length (ler 2 curto).0)
    × ((ler 2 curto).1.i ≤ length (ler 2 curto).1.buf)
conteudo-ler_example = conteudo-ler 2 curto (omega arith)

abbrev grupos_lidos : List (Chave × List (List ℕ))
grupos_lidos =
    ((codes "arch", codes "um"), (1 ∷ 2 ∷ []) ∷ [])
    ∷ ((codes "fs", codes "ext4"), (3 ∷ []) ∷ [])
    ∷ ((codes "arch", codes "x86"), (4 ∷ 5 ∷ 6 ∷ []) ∷ (7 ∷ []) ∷ [])
    ∷ []

abbrev contagem_lida : List (Chave × ℕ)
contagem_lida =
    ((codes "arch", codes "um"), 1)
    ∷ ((codes "fs", codes "ext4"), 1)
    ∷ ((codes "arch", codes "x86"), 2)
    ∷ []

-- One directory is split and one stays whole.
three_files :
    finais 3 3 grupos_lidos contagem_lida
    ≡ record { nome = codes "arch_x86"; lista = (4 ∷ 5 ∷ 6 ∷ []) ∷ (7 ∷ []) ∷ []; nf = 2 }
      ∷ record { nome = codes "arch__resto"; lista = (1 ∷ 2 ∷ []) ∷ []; nf = 1 }
      ∷ record { nome = codes "fs"; lista = (3 ∷ []) ∷ []; nf = 1 }
      ∷ []
unfolding finais
three_files = refl

names_differ : Distinct (atribuidos 3 3 (tops_em_ordem 3 3 grupos_lidos contagem_lida))
unfolding atribuidos tops_em_ordem
names_differ = ((refl, (refl, tt)), ((refl, tt), (tt, tt)))

finais-bytes_example :
    bytes_finais (finais 3 3 grupos_lidos contagem_lida) ≡ bytes_dos_grupos grupos_lidos
finais-bytes_example = finais-bytes 3 3 grupos_lidos contagem_lida names_differ

-- The file of the directory `a_b` takes the place of that of `b` below `a`.
overwritten :
    bytes_finais (
      finais 3 3
        (((codes "a", codes "b"), (1 ∷ 2 ∷ 3 ∷ 4 ∷ []) ∷ [])
          ∷ ((codes "a_b", codes "c"), (5 ∷ []) ∷ [])
          ∷ [])
        [])
    ≡ 1
unfolding finais
overwritten = refl
