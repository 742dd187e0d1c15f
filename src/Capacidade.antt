-- ===== src/Capacidade.antt =====
-- `Escritor` of bench/capacidade_local.py: the output that is written in whole blocks and wraps at a
-- cap. The buffer is the list of its first `fill` bytes, since it is written only when it is full; the
-- calls of `pwrite` are kept in order. The size of a block, MIB in the source, is an argument.
pub mod Blocos
pub mod Leitor
pub mod Processos
mod Tests
use engine_motor.Prelude.{
  ℕ, zero, suc, ◌+◌, ◌-◌, ◌*◌, min, Bool, true, false, not, ◌&&◌, List, [], ◌∷◌, ◌++◌, length, take,
  drop, replicate, leb, ltb, ◌==◌, if◌then◌else◌,
}

pub record Escritor : Type 0 where
  pub cap : ℕ
  pub odireto : Bool
  pub buf : List ℕ
  pub off : ℕ
  pub escritos : ℕ
  pub desde_sync : ℕ
  pub gravados : List (ℕ × List ℕ)

abbrev pub novo : ℕ → Bool → Escritor
novo cap odireto = record {
  cap = cap;
  odireto = odireto;
  buf = [];
  off = 0;
  escritos = 0;
  desde_sync = 0;
  gravados = [];
}

module _ (mib : ℕ) where
  -- `descarregar`: the block goes to `off`, which moves on and wraps at the cap.
  unfoldable pub descarregar : Escritor → Escritor
  descarregar e =
      let off' = e.off + mib in
      let desde = e.desde_sync + mib in
      record e {
        gravados = e.gravados ++ (e.off, e.buf) ∷ [];
        buf = [];
        escritos = e.escritos + mib;
        off = if leb e.cap off' then 0 else off';
        desde_sync =
            if e.odireto then e.desde_sync else (if leb (128 * mib) desde then 0 else desde);
      }

  -- One round of `while pos < n`, on the rest of the data.
  unfoldable pub preencher : List ℕ → Escritor → List ℕ × Escritor
  unfolding descarregar
  preencher dados e =
      let k = min (mib - length e.buf) (length dados) in
      let e' : Escritor = record e { buf = e.buf ++ take k dados } in
      (drop k dados, if length e'.buf == mib then descarregar e' else e')

  -- The loop; each round takes a byte at least, so their number is enough.
  unfoldable pub escrever_loop : ℕ → List ℕ → Escritor → List ℕ × Escritor
  unfolding preencher
  escrever_loop zero dados e = (dados, e)
  escrever_loop (suc fuel) [] e = ([], e)
  escrever_loop (suc fuel) (b ∷ bs) e =
      let (resto, e') = preencher (b ∷ bs) e in escrever_loop fuel resto e'

  -- `escrever`, with what the loop left over.
  unfoldable pub escrever : List ℕ → Escritor → List ℕ × Escritor
  unfolding escrever_loop
  escrever dados e = escrever_loop (length dados) dados e

  -- `fechar(completar)`, up to the closing of the descriptor.
  unfoldable pub fechar : Bool → Escritor → Escritor
  unfolding descarregar
  fechar completar e =
      if completar && ltb 0 (length e.buf)
      then descarregar (record e { buf = e.buf ++ replicate (mib - length e.buf) 0 })
      else e

-- What was written, and what is still in the buffer.
abbrev pub blocos : List (ℕ × List ℕ) → List ℕ
blocos [] = []
blocos ((o, b) ∷ gs) = b ++ blocos gs

abbrev pub conteudo : Escritor → List ℕ
conteudo e = blocos e.gravados ++ e.buf
