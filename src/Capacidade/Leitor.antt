-- ===== src/Capacidade/Leitor.antt =====
-- `Leitor` of bench/capacidade_local.py: frames with a head of eight bytes, read in blocks from files
-- that follow one another in a ring. The files, their sizes and the size of a block, MIB in the source,
-- are arguments; the latencies are left out.
pub mod Quadros
pub mod Arquivo
mod Tests
use engine_motor.Prelude.{
  ℕ, zero, suc, ◌+◌, ◌-◌, ◌%◌, Bool, true, false, ◌||◌, Option, none, some, List, [], ◌∷◌, ◌++◌,
  length, drop, slice, get_or, leb, ◌==◌, if◌then◌else◌,
}
use engine_motor.Bytes.{from_le}

pub record Leitor : Type 0 where
  pub f : ℕ
  pub off : ℕ
  pub pend : List ℕ
  pub p : ℕ
  pub lidos : ℕ
  pub fim_arq : Bool

abbrev pub leitor_novo : Leitor
leitor_novo = record { f = 0; off = 0; pend = []; p = 0; lidos = 0; fim_arq = false }

-- What a round of `proximo` does: it returns a frame, turns to the next file or reads a block.
pub data Acao : Type 0 where
  devolve : List ℕ → Leitor → Acao
  troca bloco : Acao

abbrev pub falta_dado : Leitor → Acao
falta_dado s = if s.fim_arq then troca else bloco

unfoldable pub decidir : Leitor → Acao
unfolding from_le
decidir s =
    let disp = length s.pend - s.p in
    let olen = from_le (slice s.p (s.p + 4) s.pend) in
    let clen = from_le (slice (s.p + 4) (s.p + 8) s.pend) in
    if leb 8 disp
    then (if olen == 0
        then troca
        else if leb (8 + clen) disp
        then devolve (slice (s.p + 8) (s.p + 8 + clen) s.pend) (record s { p = s.p + (8 + clen) })
        else falta_dado s)
    else falta_dado s

module _ (fds : List (List ℕ)) (tamanhos : List ℕ) (mib : ℕ) where
  unfoldable pub proximo_arquivo : Leitor → Leitor
  proximo_arquivo s = record s {
    f = (s.f + 1) % length fds;
    off = 0;
    fim_arq = false;
    pend = [];
    p = 0;
  }

  -- The bytes that `preadv` brings; it is taken to fill the buffer where the file has as many.
  abbrev pub lido_do_arquivo : Leitor → List ℕ
  lido_do_arquivo s = slice s.off (s.off + mib) (get_or fds s.f [])

  unfoldable pub ler_bloco : Leitor → Leitor
  ler_bloco s =
      let dados = lido_do_arquivo s in
      let n = length dados in
      record s {
        pend = drop s.p s.pend ++ dados;
        p = 0;
        off = s.off + n;
        lidos = s.lidos + n;
        fim_arq = if n == 0 || leb (get_or tamanhos s.f 0) (s.off + n) then true else s.fim_arq;
      }

  -- `while True`, with fuel.
  unfoldable pub proximo : ℕ → Leitor → Option (List ℕ × Leitor)
  unfolding decidir proximo_arquivo ler_bloco
  proximo zero s = none
  proximo (suc k) s = elim (decidir s) [
    | devolve quadro t ↦ some (quadro, t)
    | troca ↦ proximo k (proximo_arquivo s)
    | bloco ↦ proximo k (ler_bloco s)
  ]
