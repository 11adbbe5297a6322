-- ===== src/Plugin.antt =====
-- internal/plugin: contract versions, and the manager that loads, runs, recovers and reloads tool
-- plugins. The plugin process or shared object behind a tool is not under this repository: what it
-- answers is the `Host` parameter of the operations.
pub mod Version
pub mod Manager
