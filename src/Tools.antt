-- ===== src/Tools.antt =====
-- internal/tools: the safety policy under which tools and plugins run.
pub mod Capabilities
