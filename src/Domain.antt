-- ===== src/Domain.antt =====
-- Package `domain`: the task contract and the life of a run.
pub mod Task
pub mod Run
