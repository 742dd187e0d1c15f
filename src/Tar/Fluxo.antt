-- ===== src/Tar/Fluxo.antt =====
-- `Fluxo` of bench/plano_bloco.py. The reads of the response that are still to come are a list: the
-- size of each, what the decompressor gives for it, and its `eof` behind it.
pub mod Conteudo
use engine_motor.Prelude.{
  ℕ, ◌+◌, ◌-◌, ◌*◌, ◌^◌, Bool, true, false, not, ◌&&◌, ◌||◌, List, [], ◌∷◌, ◌++◌, length, drop,
  slice, ltb, ◌==◌, if◌then◌else◌,
}

pub record Pedaco : Type 0 where
  pub tamanho : ℕ
  pub saida : List ℕ
  pub acaba : Bool

pub record Fluxo : Type 0 where
  pub fonte : List Pedaco
  pub eof : Bool
  pub buf : List ℕ
  pub i : ℕ
  pub pos : ℕ
  pub baixados : ℕ
  pub fim : Bool

-- `Fluxo(url)`.
abbrev pub aberto : List Pedaco → Fluxo
aberto fonte = record {
  fonte = fonte;
  eof = false;
  buf = [];
  i = 0;
  pos = 0;
  baixados = 0;
  fim = false;
}

-- The test of the loop: fewer than `n` bytes wait.
unfoldable pub falta_ler : ℕ → Fluxo → Bool
falta_ler n s = ltb (length s.buf - s.i) n && not s.fim

-- A round that reads the chunk `p`, which is not empty.
unfoldable pub receber : Pedaco → List Pedaco → Fluxo → Fluxo
receber p ps s =
    if s.eof
    then record s { fonte = ps; baixados = s.baixados + p.tamanho; fim = true }
    else record s {
      fonte = ps;
      eof = p.acaba;
      buf = s.buf ++ p.saida;
      baixados = s.baixados + p.tamanho;
      fim = p.acaba;
    }

-- An empty read is the end of the response.
unfoldable pub encher_de : List Pedaco → ℕ → Fluxo → Fluxo
unfolding falta_ler receber
encher_de [] n s = if falta_ler n s then record s { fonte = []; fim = true } else s
encher_de (p ∷ ps) n s = elim (falta_ler n s) [
  | false ↦ s
  | true ↦ elim (p.tamanho == 0) [
    | true ↦ record s { fonte = ps; fim = true }
    | false ↦ encher_de ps n (receber p ps s)
  ]
]

unfoldable pub encher : ℕ → Fluxo → Fluxo
unfolding encher_de
encher n s = encher_de s.fonte n s

-- `del self.buf[: self.i]`, once what was read is long.
unfoldable pub aparar : Fluxo → Fluxo
aparar s = if ltb (4 * 2 ^ 20) s.i then record s { buf = drop s.i s.buf; i = 0 } else s

unfoldable pub ler : ℕ → Fluxo → List ℕ × Fluxo
unfolding encher aparar
ler n s =
    let cheio = encher n s in
    let out = slice cheio.i (cheio.i + n) cheio.buf in
    (out, aparar (record cheio { i = cheio.i + length out; pos = cheio.pos + length out }))
