-- ===== src/Tar.antt =====
-- The kernel's tar of bench/plano_bloco.py: the stream `Fluxo`, the fields of a header and the loop of
-- `extrair_kernel`.
pub mod Fluxo
pub mod Campos
pub mod Extrair
