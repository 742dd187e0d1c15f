-- ===== src/Perfil.antt =====
-- The reader of bench/perfil_dataset.py and the task that classifies with it.
pub mod Descritores
pub mod Leitura
pub mod Tarefa
pub mod Contagem
pub mod Volta
pub mod Fecho
pub mod Conclusao
pub mod Pedacos
mod Tests
