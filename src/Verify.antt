-- ===== src/Verify.antt =====
-- internal/verify: the verifiers that judge structured evidence, and the choice among them.
mod Judging
pub mod Research
pub mod FileWorkflow
pub mod TaskAware
