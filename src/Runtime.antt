-- ===== src/Runtime.antt =====
-- internal/runtime: the agent engine, sessions that run concurrently, and their event streams.
pub mod AgentStrategy
pub mod TaskRegistry
pub mod Provenance
pub mod Engine
pub mod SessionActor
pub mod SessionManager
pub mod EventRelay
