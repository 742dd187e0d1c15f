-- ===== src/Arvore.antt =====
-- The decision tree of bench/plano_bloco.py.
pub mod Corte
pub mod Escolha
pub mod Ajuste
pub mod Disposta
pub mod Folhas
pub mod Previsao
mod Tests
