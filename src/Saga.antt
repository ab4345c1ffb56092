-- ===== src/Saga.antt =====
-- libs/saga_framework: a step with its retries (`Step`), a saga and its compensation (`Instance`).
pub mod Step
pub mod Instance
pub mod Kinds
pub mod Orchestrator
mod Tests
