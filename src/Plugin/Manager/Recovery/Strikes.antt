-- ===== src/Plugin/Manager/Recovery/Strikes.antt =====
-- Repeated failures of one plugin.
use zheng_harness.Base.{
  ◌≤◌, String, true, false, Option, some, leb, ◌≡◌, refl, arith, sym, ap, subst,
}
use zheng_harness.Base.Maps.{lookup}
use zheng_harness.Domain.Types.{Err, ToolCall, ToolResult}
use zheng_harness.Plugin.Manager.{
  PluginTool, PluginError, plugin_unavailable, tool_error, PluginManager, Host, failure_count,
  is_unavailable, lookup_managed_plugin, increment_failure_count,
}
use zheng_harness.Plugin.Manager.Lifecycle.{replace}
use zheng_harness.Plugin.Manager.Lifecycle.Atomic.{
  replace-tracked, replace-available, replace-count,
}
use zheng_harness.Plugin.Manager.Recovery.{after_failure, attempt, execute_with_recovery}
use zheng_harness.Plugin.Manager.Recovery.Counts.{
  Verdict, execute_with_recovery-Verdict, increment-counts, mark-counts,
}

Verdict-tool_error :
    (name : String) (r : PluginManager × ToolResult × Option PluginError) (e : Err)
    → r.2 ≡ some (tool_error e)
    → Verdict name r
    → (failure_count r.0 name ≡ 1) × (is_unavailable r.0 name ≡ false)
Verdict-tool_error name (m, result, answer) e h v = rw h at v

module _ {W : Type 0} (host : Host W) (name : String) where
  -- The call was refused after one execution, and the plugin is marked.
  abbrev pub Disabled : ToolCall → PluginTool → PluginManager → W → Type 0
  Disabled call tool m w =
      let answer = execute_with_recovery host name call m w in
      (answer.0.2 ≡ some (plugin_unavailable name))
      × (is_unavailable answer.0.0 name ≡ true)
      × (answer.1 ≡ (host.execute tool call w).1)

  -- A plugin with a failure counted already is disabled by the next one.
  strike :
      (call : ToolCall) (tool : PluginTool) (m : PluginManager) (w : W) (why : Err)
      → 1 ≤ failure_count m name
      → is_unavailable m name ≡ false
      → lookup name m.loaded_plugins ≡ some tool
      → (host.execute tool call w).0.1 ≡ some why
      → Disabled call tool m w
  unfolding execute_with_recovery lookup_managed_plugin attempt after_failure is_unavailable
  strike call tool m w why counted free found fails =
      let inc = increment-counts name m in
      let many : leb 2 (increment_failure_count name m).1 ≡ true = ground (arith, inc) in
      let open_ : m.unavailable name ≡ false = free in
      rw (execute_with_recovery, open_, found, attempt, fails, after_failure, many)
        (refl, mark-counts name (increment_failure_count name m).0, refl)

  -- Two strikes: after a call that passed the tool's own error on, a second call whose execution
  -- fails too leaves the plugin marked unavailable, with no further reload or attempt.
  pub second_failure_disables :
      (call : ToolCall) (m : PluginManager) (w : W) (e : Err) (next_call : ToolCall)
      (tool : PluginTool) (why : Err)
      → let first = execute_with_recovery host name call m w in
        first.0.2 ≡ some (tool_error e)
        → lookup name first.0.0.loaded_plugins ≡ some tool
        → (host.execute tool next_call first.1).0.1 ≡ some why
        → Disabled next_call tool first.0.0 first.1
  second_failure_disables call m w e next_call tool why failed found again =
      let first = execute_with_recovery host name call m w in
      let (counted, free) =
        Verdict-tool_error name first.0 e failed
          (execute_with_recovery-Verdict host name call m w) in
      strike next_call tool first.0.0 first.1 why (omega (arith, counted)) free found again

  -- A reload keeps the failures that were counted: a plugin that had failed before it is disabled
  -- by its first failure after it, although the reload had made it available again.
  pub reload_keeps_strikes :
      (call : ToolCall) (tool : PluginTool) (path : String) (m : PluginManager) (w : W) (why : Err)
      → tool.name ≡ name
      → 1 ≤ failure_count m name
      → (host.execute tool call w).0.1 ≡ some why
      → Disabled call tool (replace name tool path m) w
  reload_keeps_strikes call tool path m w why same counted fails =
      strike call tool (replace name tool path m) w why
        (omega (
          arith,
          ap (failure_count (replace name tool path m)) (sym same),
          replace-count name tool path m,
        ))
        (subst (λ n. is_unavailable (replace name tool path m) n ≡ false) same
          (replace-available name tool path m))
        (subst (λ n. lookup n (replace name tool path m).loaded_plugins ≡ some tool) same
          (replace-tracked name tool path m))
        fails
