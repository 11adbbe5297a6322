-- ===== src/Memory.antt =====
-- internal/memory and internal/store/memory_store.go: what may be written to the memory, and what is.
pub mod Policy
pub mod Store
