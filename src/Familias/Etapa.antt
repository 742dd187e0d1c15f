-- ===== src/Familias/Etapa.antt =====
-- `etapa_familias` of bench/perfil_dataset.py as a whole.
use engine_motor.Prelude.{ℕ, ◌+◌, ◌≤◌, List, [], leb, All, All-append, arith}
use engine_motor.Familias.{
  Ficha, Modo, Regras, por_nome, por_radical, por_radical_e_diretorio, montar_cadeias, agrupar,
  livres, primeiro, rodada, familias_de, etapa_familias,
}
use engine_motor.Familias.Contagem.{
  vezes, vezes_em, vezes_em-append, vezes_em-ordenar, vezes_em-agrupar, vezes_em-montar_cadeias,
  vezes-sem_usados, vezes-livres,
}
use engine_motor.Familias.Cadeias.{IsChain, montar_cadeias-All}
use engine_motor.Colecoes.{agrupar}
use engine_motor.Colecoes.Laws.{All-ordenar}

module _ {ℓ} {K : Type ℓ} (r : Regras K) where
  rodada-vezes :
      (n : ℕ) (modo : Modo) (fs : List (K × List Ficha)) (ls : List Ficha)
      → let e = rodada r modo (fs, ls) in vezes_em n e.0 + vezes n e.1 ≤ vezes_em n fs + vezes n ls
  unfolding rodada
  rodada-vezes n modo fs ls =
      let grupos = agrupar r.igual (r.chave modo) ls [] in
      let achadas = montar_cadeias r.num r.den r.antes grupos in
      let few : vezes_em n achadas ≤ vezes n ls = omega (
        arith,
        vezes_em-montar_cadeias r.num r.den r.antes n grupos,
        vezes_em-agrupar r.igual n (r.chave modo) ls [],
      ) in
      omega (arith, vezes_em-append n fs achadas, vezes-sem_usados n achadas ls few)

  rodada-All :
      (modo : Modo) (e : List (K × List Ficha) × List Ficha)
      → All (IsChain r.num r.den) e.0
      → All (IsChain r.num r.den) (rodada r modo e).0
  unfolding rodada
  rodada-All modo e h =
      let grupos = agrupar r.igual (r.chave modo) e.1 [] in
      All-append (IsChain r.num r.den) e.0 (montar_cadeias r.num r.den r.antes grupos) h
        (montar_cadeias-All r.num r.den r.antes grupos)

  -- No file stands in the families more often than in the scan: with one entry for each index, it is
  -- in one family at most, and once.
  pub etapa_familias-vezes :
      (n : ℕ) (arquivos : List Ficha) → vezes_em n (etapa_familias r arquivos).0 ≤ vezes n arquivos
  unfolding etapa_familias familias_de
  etapa_familias-vezes n arquivos =
      let start = livres arquivos in
      let a = rodada r por_nome ([], start) in
      let b = rodada r por_radical a in
      let c = rodada r por_radical_e_diretorio b in
      omega (
        arith,
        vezes-livres n arquivos,
        rodada-vezes n por_nome [] start,
        rodada-vezes n por_radical a.0 a.1,
        rodada-vezes n por_radical_e_diretorio b.0 b.1,
        vezes_em-ordenar (λ f g. leb (primeiro f.1) (primeiro g.1)) n c.0,
      )

  -- Each family has two members or more, and of each member and the one before it neither is more
  -- than `num / den` times as large as the other.
  pub etapa_familias-All :
      (arquivos : List Ficha) → All (IsChain r.num r.den) (etapa_familias r arquivos).0
  unfolding etapa_familias familias_de
  etapa_familias-All arquivos =
      let a = rodada r por_nome ([], livres arquivos) in
      let b = rodada r por_radical a in
      let c = rodada r por_radical_e_diretorio b in
      All-ordenar (λ f g. leb (primeiro f.1) (primeiro g.1)) (IsChain r.num r.den) c.0
        (rodada-All por_radical_e_diretorio b
          (rodada-All por_radical a (rodada-All por_nome ([], livres arquivos) tt)))
