-- ===== src/Lib.antt =====
-- Models and proofs of the Python tools of engine-motor, under bench/, which measure what the
-- compression engine could gain on a set of files.
--
-- bench/perfil_dataset.py profiles a directory. It scans the tree (`varrer_arvore`), finds copies
-- (`etapa_dedup`), puts versions of one file in families (`etapa_familias`), shares the
-- measurements of deltas among the classes (`alocar_pares`), and measures samples after the
-- reversible transforms (`aplicar_delta`, `aplicar_bsplit`). bench/plano_bloco.py chooses a
-- transform for each block, with the same transforms, their inverses and byte-by-byte references;
-- it takes its corpus from the tar of a kernel (`extrair_kernel`). bench/openzl_bench.py has its
-- own versions of them and one for tables (`t_delta`, `t_split`, `t_csv`), compared with OpenZL.
-- bench/dedup.py measures what an index of chunks saves between two versions (`varrer_chunks`),
-- and bench/capacidade_local.py what a machine can compress, write (`Escritor`) and read back
-- (`Leitor`).
--
-- The files, each with its laws and tests in the modules below it:
--   Prelude, Bytes: numbers, sequences, `&` and `|`, little-endian words.
--   Transform: `delta_apply`, `delta_invert`, `bsplit_apply`, `bsplit_invert`, `aplicar`,
--     `inverter`, `delta_ref` and `bsplit_ref` of bench/plano_bloco.py.
--   Openzl: `t_delta`, `t_split`, `varint`, `t_csv` and their inverses, of bench/openzl_bench.py.
--     Openzl/Cbor: `decodificar_cbor`, with an encoder after RFC 8949 to compare it with.
--     Openzl/Blocos: `particionar`, `dividir_em_blocos`, `cortar_blocos`.
--   Scan: `Varredura` and `varrer_arvore` of bench/perfil_dataset.py. `passo` is one round of the
--     source's loop on its stack of frames, and `Alcanca` is the states it reaches; `abertos` counts the
--     descriptors that are open.
--   Colecoes: the stable sort and `defaultdict(list)`, as the two stages below use them.
--   Dedup: `tarefa_hash_amostra`, `tarefa_hash_completo` and `etapa_dedup`. It takes the files and
--     their sizes from the scan.
--   Chunks: `chunkear` and the index of `varrer_chunks`, of bench/dedup.py, where each file is a list of
--     references to unique chunks. Chunks/Inteiro: `categorias` and `tarefa_arquivo_inteiro`.
--   Capacidade: `Escritor`, `Leitor`, `descendentes` and `percentil` of bench/capacidade_local.py.
--   Classifica: `detectar_assinatura`, `extensao`, `subclasse_texto` with the tests it calls,
--     `entropia_transform_minima` and `classificar_amostra`; each branch gives its class with a reason.
--   Arvore: `ajustar_arvore`, `prever_arvore` and `arvore_usa` of bench/plano_bloco.py. `Planta` is the
--     tree that the arrays stand for.
--   Perfil: `Leitor` and `tarefa_classificar` of bench/perfil_dataset.py. It opens what Scan found, and
--     hands what it reads to Classifica.
--   Plano: `rotular_bloco`, `montar_tarefas` and `tarefa_rotular` of bench/plano_bloco.py, on the
--     transforms of Transform.
--   Tar: `Fluxo`, `tamanho_tar`, `registros_pax`, `grupo_de` and `extrair_kernel`, of
--     bench/plano_bloco.py. `extrair` is the function up to the groups, and `finais` what becomes of
--     them before they are written.
--   Familias: `montar_cadeias`, `etapa_familias`, `alocar_pares`. It leaves out what Dedup marked.
--
-- Bytes are numbers, and the words of w bytes wrap at 256 ^ w. A tree is finite, its entries in
-- the order of their names; a directory that cannot be opened or listed carries its error number.
-- The test for UTF-8, the regular expressions, `json.loads`, the entropies, the digests, the
-- contents of the files, the order in which worker processes deliver, the keys of the families,
-- the order of paths, the codecs, the calls of the system that `Leitor` makes, the floats of the
-- decision tree with their quantiles and the size of a block of `Escritor` are arguments.
--
-- Fuel: `laco` has a round for each byte of the limit, and a round takes 512; `copiar` has one
-- for each byte of a file; `registros_pax` one more than there are bytes; `decodificar_cbor` has
-- one level more than there are bytes, and each loop to a break one round more, since a value
-- takes a byte or more; `varint` has one round more than its value; `caminho` climbs as many
-- rounds as the number of its directory, which its parent's is below; `varrer_arvore` returns
-- when the rounds pass the cost of the tree; `ler_tudo` has one round more than the file has
-- bytes; `cortes_fixos` and `escrever` have one for each byte, and take a byte or more in each;
-- `ler_em` has one round more than the bytes asked for; `fd_dir` one level more than the number of
-- the directory; `partes_de` one for each block;
-- `fechar_conjunto` one more than the table has entries; `construir` recurs on the levels that are left.
--
-- Comparisons of a fraction with a decimal are exact here, where the source rounds.
--
-- Not modelled: what a negative size in a tar does (the model ends there with `negativo`); an error
-- of `close`, and a `preadv` that is cut short before the end of its file; the marks and totals of the
-- copies; the limit of the interpreter on recursion; the costs in floating point, the codecs, random draws,
-- timings, reports and the command line; the counters of bytes read in `etapa_dedup`; the engine
-- in Rust, the dashboard and the scripts.

mod Prelude
pub mod Bytes
pub mod Transform
pub mod Openzl
pub mod Scan
pub mod Colecoes
pub mod Familias
pub mod Dedup
pub mod Chunks
pub mod Capacidade
pub mod Classifica
pub mod Arvore
pub mod Perfil
pub mod Plano
pub mod Tar
