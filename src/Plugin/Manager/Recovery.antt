-- ===== src/Plugin/Manager/Recovery.antt =====
-- internal/plugin/manager.go: executeWithRecovery. A failing call is counted, the plugin's health is
-- asked for, and an unhealthy plugin is reloaded and tried once more.
pub mod Counts
pub mod Bounded
pub mod Strikes
mod Samples
use zheng_harness.Base.{ℕ, ◌+◌, String, Bool, true, false, Option, none, some, leb, if◌then◌else◌}
use zheng_harness.Domain.Types.{Err, ToolCall, ToolResult}
use zheng_harness.Plugin.Manager.{
  PluginTool, PluginError, plugin_unavailable, plugin_not_found, tool_error, reload_failed,
  missing_after_reload, PluginManager, Host, lookup_managed_plugin, increment_failure_count,
  reset_failure_count, mark_unavailable,
}
use zheng_harness.Plugin.Manager.Lifecycle.{reload_tool}

-- domain.ToolResult{ToolName: call.Name}
abbrev pub named_result : ToolCall → ToolResult
named_result call = record { tool_name = call.name; output = ""; error = ""; duration = 0 }

abbrev pub Answer : Type 0 → Type 0
Answer W = (PluginManager × ToolResult × Option PluginError) × W

module _ {W : Type 0} (host : Host W) where
  -- `healthCheck`: a tool that is no pluginHealthChecker is healthy.
  unfoldable pub health_check : PluginTool → W → Option Err × W
  health_check tool w = if tool.has_health_check then host.health_check tool w else (none, w)

  -- The second attempt, on the reloaded tool.
  unfoldable pub retry : String → ToolCall → PluginTool → PluginManager → W → Answer W
  unfolding reset_failure_count increment_failure_count mark_unavailable
  retry name call tool m w =
      let (answer, w') = host.execute tool call w in
      elim answer.1 [
        | none ↦ ((reset_failure_count name m, answer.0, none), w')
        | some e ↦
            let (m', failures) = increment_failure_count name m in
            if leb 2 failures
            then ((mark_unavailable name m', answer.0, some (plugin_unavailable name)), w')
            else ((m', answer.0, some (tool_error e)), w')
      ]

  -- What follows ReloadTool; `result` and `e` are those of the first attempt.
  unfoldable pub after_reload :
      String → ToolCall → ToolResult → Err → (PluginManager × Option PluginError) × W → Answer W
  unfolding retry lookup_managed_plugin
  after_reload name call result e ((m, some failed), w) =
      ((m, result, some (reload_failed e failed)), w)
  after_reload name call result e ((m, none), w) =
      let (tool, is_marked) = lookup_managed_plugin m name in
      if is_marked then ((m, result, some (plugin_unavailable name)), w) else elim tool [
        | none ↦ ((m, result, some (missing_after_reload e)), w)
        | some reloaded ↦ retry name call reloaded m w
      ]

  -- What follows a first attempt that failed.
  unfoldable pub after_failure :
      String → ToolCall → PluginTool → ToolResult → Err → PluginManager → W → Answer W
  unfolding increment_failure_count mark_unavailable health_check after_reload reload_tool
  after_failure name call tool result e m w =
      let (m', failures) = increment_failure_count name m in
      if leb 2 failures
      then ((mark_unavailable name m', result, some (plugin_unavailable name)), w)
      else (let (health, w') = health_check tool w in
          elim health [
            | none ↦ ((m', result, some (tool_error e)), w')
            | some _ ↦ after_reload name call result e (reload_tool host name m' w')
          ])

  unfoldable pub attempt : String → ToolCall → PluginTool → PluginManager → W → Answer W
  unfolding after_failure reset_failure_count
  attempt name call tool m w =
      let (answer, w') = host.execute tool call w in
      elim answer.1 [
        | none ↦ ((reset_failure_count name m, answer.0, none), w')
        | some e ↦ after_failure name call tool answer.0 e m w'
      ]

  unfoldable pub execute_with_recovery : String → ToolCall → PluginManager → W → Answer W
  unfolding attempt lookup_managed_plugin
  execute_with_recovery name call m w =
      let (tool, is_marked) = lookup_managed_plugin m name in
      if is_marked then ((m, named_result call, some (plugin_unavailable name)), w) else elim tool [
        | none ↦ ((m, named_result call, some plugin_not_found), w)
        | some t ↦ attempt name call t m w
      ]
