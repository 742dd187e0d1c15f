-- ===== src/Tar/Extrair.antt =====
-- The loop of `extrair_kernel` in bench/plano_bloco.py over the headers of a tar. The reader of pax
-- records is an argument, which `extrair` fills with `registros_pax`.
pub mod Contas
pub mod Passos
pub mod Numeros
pub mod Laco
pub mod Totais
pub mod Finais
pub mod Nomes
mod Tests
use engine_motor.Prelude.{
  ℕ, zero, suc, ◌+◌, ◌-◌, ◌*◌, ◌%◌, ◌^◌, min, Bool, true, false, not, ◌&&◌, ◌||◌, Option, none,
  some, List, [], ◌∷◌, ◌++◌, length, take, slice, get_or, ltb, leb, ◌==◌, if◌then◌else◌,
}
use engine_motor.Prelude.Texts.{codes, same, has_byte, count_byte}
use engine_motor.Tar.Fluxo.{Pedaco, Fluxo, aberto, ler}
use engine_motor.Tar.Campos.{Fim, entao, inteiro, ate_nul, tamanho_tar, registros_pax, grupo_de}
use engine_motor.Tar.Campos.Fim.{bom, sem_fim}

abbrev pub Chave : Type 0
Chave = List ℕ × List ℕ

abbrev pub Pax : Type 0
Pax = List (List ℕ × List ℕ)

-- The local variables of the loop.
pub record Estado : Type 0 where
  pub fluxo : Fluxo
  pub grupos : List (Chave × List (List ℕ))
  pub contagem : List (Chave × ℕ)
  pub nome_longo : Option (List ℕ)
  pub pax : Option Pax
  pub pax_global : Option Pax
  pub n_reg : ℕ

abbrev pub no_inicio : List Pedaco → Estado
no_inicio fonte = record {
  fluxo = aberto fonte;
  grupos = [];
  contagem = [];
  nome_longo = none;
  pax = none;
  pax_global = none;
  n_reg = 0;
}

-- A round goes on, or breaks the loop.
pub data Passo : Type 0 where
  segue para : Estado → Passo

abbrev pub mesma : Chave → Chave → Bool
mesma (a, b) (c, d) = same a c && same b d

-- `grupos.setdefault(chave, [])` and what is appended to the list.
unfoldable pub juntar_grupo :
    Chave → List (List ℕ) → List (Chave × List (List ℕ)) → List (Chave × List (List ℕ))
juntar_grupo k ps [] = (k, ps) ∷ []
juntar_grupo k ps ((j, qs) ∷ gs) =
    let resto = juntar_grupo k ps gs in if mesma j k then (j, qs ++ ps) ∷ gs else (j, qs) ∷ resto

-- `contagem[chave] = contagem.get(chave, 0) + 1`.
unfoldable pub contar_chave : Chave → List (Chave × ℕ) → List (Chave × ℕ)
contar_chave k [] = (k, 1) ∷ []
contar_chave k ((j, n) ∷ cs) =
    let resto = contar_chave k cs in if mesma j k then (j, n + 1) ∷ cs else (j, n) ∷ resto

unfoldable pub buscar_pax : List ℕ → Option Pax → Option (List ℕ)
buscar_pax k none = none
buscar_pax k (some []) = none
buscar_pax k (some ((j, v) ∷ ps)) =
    let resto = buscar_pax k (some ps) in if same j k then some v else resto

-- `cab[:100]`, behind the prefix of a ustar header.
unfoldable pub nome_do_cabecalho : List ℕ → List ℕ
unfolding ate_nul
nome_do_cabecalho cab =
    let nome = ate_nul (take 100 cab) in
    if same (slice 257 262 cab) (codes "ustar")
    then elim (ate_nul (slice 345 500 cab)) [ [] ↦ nome | c ∷ cs ↦ (c ∷ cs) ++ b'/' ∷ nome ]
    else nome

-- `(-tam) % 512`.
abbrev pub pad_de : ℕ → ℕ
pad_de tam = (512 - tam % 512) % 512

-- `while restante > 0`: what is left, the stream and the pieces, with fuel.
unfoldable pub copiar : ℕ → ℕ → ℕ → Fluxo → List (List ℕ) → Fim (ℕ × Fluxo × List (List ℕ))
unfolding ler
copiar limite f zero fl lista = bom (zero, fl, lista)
copiar limite zero (suc r) fl lista = sem_fim
copiar limite (suc f) (suc r) fl lista =
    let n = min (suc r) (min (2 ^ 20) (limite - fl.pos)) in
    elim (n == 0) [
      | true ↦ bom (suc r, fl, lista)
      | false ↦ elim (ler n fl).0 [
        | [] ↦ bom (suc r, (ler n fl).1, lista)
        | c ∷ p ↦ copiar limite f (suc r - length (c ∷ p)) (ler n fl).1 (lista ++ (c ∷ p) ∷ [])
      ]
    ]

unfoldable pub nome_da_entrada : List ℕ → Estado → List ℕ
unfolding buscar_pax
nome_da_entrada nome s =
    let curto : List ℕ = elim s.nome_longo [ none ↦ nome | some n ↦ n ] in
    elim (buscar_pax (codes "path") s.pax) [ none ↦ curto | some n ↦ n ]

unfoldable pub tamanho_da_entrada : ℕ → Estado → Fim ℕ
unfolding buscar_pax inteiro
tamanho_da_entrada tam s = elim (buscar_pax (codes "size") s.pax) [
  | none ↦ bom tam
  | some v ↦ inteiro 10 v
]

abbrev pub regular : ℕ → Bool
regular tipo = tipo == b'0' || (tipo == 0 || tipo == b'7')

abbrev pub extensao_do_tar : ℕ → Bool
extensao_do_tar tipo = has_byte tipo (codes "xgLK")

module _ (pax_de : List ℕ → Fim Pax) (decode : List ℕ → List ℕ) (limite : ℕ) where
  -- What a header of type x, g, L or K keeps for the entries behind it.
  unfoldable pub guardar_extensao : ℕ → List ℕ → Estado → Fim Passo
  unfolding ate_nul
  guardar_extensao tipo dados t =
      if tipo == b'L'
      then bom (segue (record t { nome_longo = some (ate_nul dados) }))
      else if tipo == b'x'
      then entao (pax_de dados) (λ p. bom (segue (record t { pax = some p })))
      else if tipo == b'g'
      then entao (pax_de dados) (λ p. bom (segue (record t { pax_global = some p })))
      else bom (segue t)

  unfoldable pub passo_extensao : ℕ → ℕ → Estado → Fim Passo
  unfolding ler guardar_extensao
  passo_extensao tipo tam s =
      let (dados, fl) = ler tam s.fluxo in
      guardar_extensao tipo dados (record s { fluxo = (ler (pad_de tam) fl).1 })

  -- A regular file, once its bytes are copied.
  unfoldable pub fechar_regular : Chave → ℕ → Estado → ℕ × Fluxo × List (List ℕ) → Fim Passo
  unfolding ler juntar_grupo contar_chave
  fechar_regular chave tam s c =
      let t : Estado = record s {
        fluxo = c.1;
        grupos = juntar_grupo chave c.2 s.grupos;
        contagem = contar_chave chave s.contagem;
        n_reg = s.n_reg + 1;
      } in
      if ltb 0 c.0
      then bom (para t)
      else bom (segue (record t { fluxo = (ler (pad_de tam) c.1).1 }))

  unfoldable pub passo_regular : List ℕ → ℕ → Estado → Fim Passo
  unfolding copiar grupo_de fechar_regular
  passo_regular nome tam s =
      entao (copiar limite tam tam s.fluxo []) (fechar_regular (grupo_de decode nome) tam s)

  -- An entry of `n` bytes.
  unfoldable pub tratar_entrada : ℕ → List ℕ → Estado → ℕ → Fim Passo
  unfolding ler passo_regular
  tratar_entrada tipo nome s n =
      if regular tipo
      then passo_regular nome n s
      else bom (segue (record s { fluxo = (ler (n + pad_de n) s.fluxo).1 }))

  -- The names and sizes that the headers before gave hold for one entry.
  unfoldable pub passo_entrada : ℕ → List ℕ → ℕ → Estado → Fim Passo
  unfolding nome_da_entrada tamanho_da_entrada tratar_entrada
  passo_entrada tipo nome tam s =
      entao (tamanho_da_entrada tam s)
        (tratar_entrada tipo (nome_da_entrada nome s) (record s { nome_longo = none; pax = none }))

  unfoldable pub por_tipo : List ℕ → Estado → ℕ → Fim Passo
  unfolding nome_do_cabecalho passo_extensao passo_entrada
  por_tipo cab s tam =
      let tipo = get_or cab 156 0 in
      if extensao_do_tar tipo
      then passo_extensao tipo tam s
      else passo_entrada tipo (nome_do_cabecalho cab) tam s

  -- A header that is cut or all zeros is the end.
  unfoldable pub passo_cabecalho : List ℕ → Estado → Fim Passo
  unfolding tamanho_tar por_tipo
  passo_cabecalho cab s =
      if ltb (length cab) 512 || count_byte 0 cab == 512
      then bom (para s)
      else entao (tamanho_tar (slice 124 136 cab)) (por_tipo cab s)

  unfoldable pub passo : Estado → Fim Passo
  unfolding ler passo_cabecalho
  passo s = passo_cabecalho (ler 512 s.fluxo).0 (record s { fluxo = (ler 512 s.fluxo).1 })

  -- `while fl.pos < limite`, with fuel.
  unfoldable pub laco : ℕ → Estado → Fim Estado
  unfolding passo
  laco zero s = if ltb s.fluxo.pos limite then sem_fim else bom s
  laco (suc f) s = elim (ltb s.fluxo.pos limite) [
    | false ↦ bom s
    | true ↦ entao (passo s) λ r. elim r [ segue t ↦ laco f t | para t ↦ bom t ]
  ]

unfoldable pub extrair : (List ℕ → List ℕ) → ℕ → List Pedaco → Fim Estado
unfolding laco registros_pax
extrair decode limite fonte = laco (registros_pax decode) decode limite limite (no_inicio fonte)
