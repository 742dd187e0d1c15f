-- ===== src/Plano.antt =====
-- The measured labels of the block plan, bench/plano_bloco.py.
pub mod Rotulos
pub mod Voltas
pub mod Tarefas
pub mod Cobertura
mod Tests
