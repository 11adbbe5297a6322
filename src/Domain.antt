-- ===== src/Domain.antt =====
-- internal/domain: the data that the parts exchange, and the rules on verification results.
-- A `time.Time` or a `time.Duration` is a number of nanoseconds, the zero time being 0. An `error` is
-- read through `errors.Is`: `canceled` and `deadline_exceeded` are the errors that wrap the two errors
-- of package context, and `failure` any other with its text.
pub mod Types
pub mod Effect
pub mod PluginMetadata
pub mod Verification
