-- ===== src/Plugin/Manager/Recovery/Bounded.antt =====
-- How much one call does: attempts and reloads, by a host that counts them.
use zheng_harness.Base.{
  ℕ, ◌+◌, ◌≤◌, String, Option, none, some, leb, inl, inr, arith, Option-cases, Bool-cases,
}
use zheng_harness.Base.Maps.{lookup}
use zheng_harness.Domain.Types.{Err, ToolCall, ToolResult}
use zheng_harness.Plugin.Manager.{
  PluginTool, PluginError, PluginManager, Fallible, ok, err, Host, lookup_managed_plugin,
  increment_failure_count, PluginType, native, external,
}
use zheng_harness.Plugin.Manager.Loading.{
  discover, load_plugin, vet_loaded, vet, is_native_plugin_path,
}
use zheng_harness.Plugin.Manager.Lifecycle.{swap, swap_loaded, load_at, reload_path, reload_tool}
use zheng_harness.Plugin.Manager.Recovery.{
  health_check, retry, after_reload, after_failure, attempt, execute_with_recovery,
}

-- The state of the outside world, with the number of calls of Execute and of loaders so far.
pub record Counted (W : Type 0) : Type 0 where
  pub world : W
  pub executions : ℕ
  pub loads : ℕ

abbrev pub counting : {W : Type 0} → Host W → Host (Counted W)
counting host = record {
  execute = λ tool call c.
      let (answer, w) = host.execute tool call c.world in
      (answer, record c { world = w; executions = c.executions + 1 });
  health_check = λ tool c.
      let (answer, w) = host.health_check tool c.world in (answer, record c { world = w });
  load_external = λ path c.
      let (answer, w) = host.load_external path c.world in
      (answer, record c { world = w; loads = c.loads + 1 });
  load_native = λ path c.
      let (answer, w) = host.load_native path c.world in
      (answer, record c { world = w; loads = c.loads + 1 });
  close = λ tool c. let (answer, w) = host.close tool c.world in (answer, record c { world = w });
  read_dir =
      λ dir c. let (answer, w) = host.read_dir dir c.world in (answer, record c { world = w });
  join = host.join;
}

-- At most that many more calls of Execute and of a loader.
abbrev pub Within : {W : Type 0} → ℕ → ℕ → Counted W → Counted W → Type 0
Within n k c d = (d.executions ≤ c.executions + n) × (d.loads ≤ c.loads + k)

module _ {W : Type 0} (host : Host W) where
  vet_loaded-Within :
      (type : PluginType) (m : PluginManager) (answer : Option PluginTool × Option Err)
      (c : Counted W)
      → Within 0 0 c (vet_loaded (counting host) type m answer c).1
  unfolding vet_loaded
  vet_loaded-Within type m (tool, some e) c = omega arith
  vet_loaded-Within type m (none, none) c = omega arith
  vet_loaded-Within type m (some tool, none) c = elim (Option-cases (vet m tool)) [
    | inl good ↦ rw (good, vet_loaded) (omega arith)
    | inr (e, bad) ↦ rw (bad, vet_loaded) (omega arith)
  ]

  load_plugin-Within :
      (m : PluginManager) (path : String) (c : Counted W)
      → Within 0 1 c (load_plugin (counting host) m path c).1
  unfolding load_plugin
  load_plugin-Within m path c = elim (Bool-cases (is_native_plugin_path path)) [
    | inl yes_native ↦
        let (answer, w) = host.load_native path c.world in
        let d : Counted W = record c { world = w; loads = c.loads + 1 } in
        rw (yes_native) (omega (arith, vet_loaded-Within native m answer d))
    | inr not_native ↦
        let (answer, w) = host.load_external path c.world in
        let d : Counted W = record c { world = w; loads = c.loads + 1 } in
        rw (not_native) (omega (arith, vet_loaded-Within external m answer d))
  ]

  reload_path-Within :
      (m : PluginManager) (name : String) (c : Counted W)
      → Within 0 0 c (reload_path (counting host) m name c).1
  unfolding reload_path discover
  reload_path-Within m name c = ground arith

  swap_loaded-Within :
      (name : String) (existing : PluginTool) (path : String) (m : PluginManager)
      (answer : Fallible PluginTool × Counted W)
      → Within 0 0 answer.1 (swap_loaded (counting host) name existing path m answer).1
  unfolding swap_loaded swap
  swap_loaded-Within name existing path m (err e, c) = omega arith
  swap_loaded-Within name existing path m (ok tool, c) = ground arith

  load_at-Within :
      (name : String) (existing : PluginTool) (m : PluginManager)
      (answer : Fallible String × Counted W)
      → Within 0 1 answer.1 (load_at (counting host) name existing m answer).1
  unfolding load_at
  load_at-Within name existing m (err e, c) = omega arith
  load_at-Within name existing m (ok path, c) = omega (
    arith,
    load_plugin-Within m path c,
    swap_loaded-Within name existing path m (load_plugin (counting host) m path c),
  )

  reload_tool-Within :
      (name : String) (m : PluginManager) (c : Counted W)
      → Within 0 1 c (reload_tool (counting host) name m c).1
  unfolding reload_tool
  reload_tool-Within name m c = elim (Option-cases (lookup name m.loaded_plugins)) [
    | inl missing ↦ rw (missing, reload_tool) (omega arith)
    | inr (existing, found) ↦
        rw (found, reload_tool)
          (omega (
            arith,
            reload_path-Within m name c,
            load_at-Within name existing m (reload_path (counting host) m name c),
          ))
  ]

module _ {W : Type 0} (host : Host W) (name : String) (call : ToolCall) where
  health_check-Within :
      (tool : PluginTool) (c : Counted W) → Within 0 0 c (health_check (counting host) tool c).1
  unfolding health_check
  health_check-Within tool c = ground arith

  retry-Within :
      (tool : PluginTool) (m : PluginManager) (c : Counted W)
      → Within 1 0 c (retry (counting host) name call tool m c).1
  unfolding retry
  retry-Within tool m c = ground arith

  after_reload-Within :
      (result : ToolResult) (e : Err) (answer : (PluginManager × Option PluginError) × Counted W)
      → Within 1 0 answer.1 (after_reload (counting host) name call result e answer).1
  unfolding after_reload lookup_managed_plugin
  after_reload-Within result e ((m, some failed), c) = omega arith
  after_reload-Within result e ((m, none), c) = elim (Bool-cases (m.unavailable name)) [
    | inl marked ↦ rw marked (omega arith)
    | inr free ↦ elim (Option-cases (lookup name m.loaded_plugins)) [
      | inl missing ↦ rw (free, missing) (omega arith)
      | inr (tool, found) ↦ rw (free, found) (retry-Within tool m c)
    ]
  ]

  after_failure-Within :
      (tool : PluginTool) (result : ToolResult) (e : Err) (m : PluginManager) (c : Counted W)
      → Within 1 1 c (after_failure (counting host) name call tool result e m c).1
  unfolding after_failure
  after_failure-Within tool result e m c =
      let asked = health_check (counting host) tool c in
      let m' = (increment_failure_count name m).0 in
      let reloaded = reload_tool (counting host) name m' asked.1 in
      elim (Bool-cases (leb 2 (increment_failure_count name m).1)) [
        | inl many ↦ rw (after_failure, many) (omega arith)
        | inr few ↦ elim (Option-cases asked.0) [
          | inl healthy ↦
              rw (after_failure, few, healthy) (omega (arith, health_check-Within tool c))
          | inr (why, sick) ↦
              rw (after_failure, few, sick)
                (omega (
                  arith,
                  health_check-Within tool c,
                  reload_tool-Within host name m' asked.1,
                  after_reload-Within result e reloaded,
                ))
        ]
      ]

  attempt-Within :
      (tool : PluginTool) (m : PluginManager) (c : Counted W)
      → Within 2 1 c (attempt (counting host) name call tool m c).1
  unfolding attempt
  attempt-Within tool m c =
      let (answer, w) = host.execute tool call c.world in
      let d : Counted W = record c { world = w; executions = c.executions + 1 } in
      elim (Option-cases answer.1) [
        | inl done ↦ rw (done, attempt) (omega arith)
        | inr (e, bad) ↦ rw (bad, attempt) (omega (arith, after_failure-Within tool answer.0 e m d))
      ]

  -- One call runs the plugin at most twice and loads it at most once, whatever the plugin, its
  -- health check and the loaders answer.
  pub execute_with_recovery-Within :
      (m : PluginManager) (c : Counted W)
      → Within 2 1 c (execute_with_recovery (counting host) name call m c).1
  unfolding execute_with_recovery lookup_managed_plugin
  execute_with_recovery-Within m c = elim (Bool-cases (m.unavailable name)) [
    | inl marked ↦ rw marked (omega arith)
    | inr free ↦ elim (Option-cases (lookup name m.loaded_plugins)) [
      | inl missing ↦ rw (free, missing) (omega arith)
      | inr (tool, found) ↦ rw (free, found) (attempt-Within tool m c)
    ]
  ]
