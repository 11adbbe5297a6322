-- ===== src/Plugin/Manager/Recovery/Counts.antt =====
-- The failure counter and the unavailable mark, through every operation.
use zheng_harness.Base.{
  ◌+◌, String, Bool, true, false, Option, none, some, leb, ◌≡◌, ◌∙◌, refl, inl, inr, arith,
  Option-cases, Bool-cases, str_eq_refl,
}
use zheng_harness.Base.Maps.{lookup}
use zheng_harness.Domain.Types.{Err, ToolCall, ToolResult}
use zheng_harness.Plugin.Manager.{
  PluginTool, PluginError, plugin_unavailable, tool_error, PluginManager, Host, failure_count,
  is_unavailable, lookup_managed_plugin, increment_failure_count, reset_failure_count,
  mark_unavailable,
}
use zheng_harness.Plugin.Manager.Lifecycle.{reload_tool}
use zheng_harness.Plugin.Manager.Lifecycle.Atomic.{ReloadOutcome, reload_tool-outcome}
use zheng_harness.Plugin.Manager.Recovery.{
  health_check, retry, after_reload, after_failure, attempt, execute_with_recovery,
}

-- What an answer says of the counter and the mark of the plugin that was called.
abbrev pub Verdict : String → PluginManager × ToolResult × Option PluginError → Type 0
Verdict name (m, result, none) = (failure_count m name ≡ 0) × (is_unavailable m name ≡ false)
Verdict name (m, result, some (plugin_unavailable n)) = (n ≡ name) × (is_unavailable m name ≡ true)
Verdict name (m, result, some (tool_error e)) =
    (failure_count m name ≡ 1) × (is_unavailable m name ≡ false)
Verdict name (m, result, some _) = is_unavailable m name ≡ false

module _ (name : String) (m : PluginManager) where
  reset-counts :
      (failure_count (reset_failure_count name m) name ≡ 0)
      × (is_unavailable (reset_failure_count name m) name ≡ false)
  unfolding failure_count is_unavailable reset_failure_count
  reset-counts = ground (arith, str_eq_refl name)

  pub increment-counts :
      let (m', n) = increment_failure_count name m in
      (n ≡ failure_count m name + 1)
      × (failure_count m' name ≡ n)
      × (is_unavailable m' name ≡ is_unavailable m name)
  unfolding failure_count is_unavailable increment_failure_count
  increment-counts = ground (arith, str_eq_refl name)

  pub mark-counts : is_unavailable (mark_unavailable name m) name ≡ true
  unfolding is_unavailable mark_unavailable
  mark-counts = ground (arith, str_eq_refl name)

marked_is :
    {name : String} (m : PluginManager) {b : Bool}
    → m.unavailable name ≡ b
    → is_unavailable m name ≡ b
unfolding is_unavailable
marked_is m h = h

module _ {W : Type 0} (host : Host W) (name : String) (call : ToolCall) where
  retry-Verdict :
      (tool : PluginTool) (m : PluginManager) (w : W)
      → is_unavailable m name ≡ false
      → Verdict name (retry host name call tool m w).0
  unfolding retry
  retry-Verdict tool m w av = elim (Option-cases (host.execute tool call w).0.1) [
    | inl done ↦ rw (done, retry) (reset-counts name m)
    | inr (e, bad) ↦
        let inc = increment-counts name m in
        elim (Bool-cases (leb 2 (increment_failure_count name m).1)) [
          | inl many ↦ rw (bad, retry, many) (refl, mark-counts name _)
          | inr few ↦ rw (bad, retry, few) (ground (arith, inc))
        ]
  ]

  after_reload-Verdict :
      (result : ToolResult) (e : Err) (m : PluginManager) (before : W)
      (answer : (PluginManager × Option PluginError) × W)
      → is_unavailable m name ≡ false
      → ReloadOutcome host name m before answer.0
      → Verdict name (after_reload host name call result e answer).0
  unfolding after_reload lookup_managed_plugin
  after_reload-Verdict result e m before ((m', some failed), w) av h = rw h av
  after_reload-Verdict result e m before ((m', none), w) av h =
      elim (Bool-cases (m'.unavailable name)) [
        | inl marked ↦ rw marked (refl, marked_is m' marked)
        | inr free ↦ elim (Option-cases (lookup name m'.loaded_plugins)) [
          | inl missing ↦ rw (free, missing) (marked_is m' free)
          | inr (tool, found) ↦ rw (free, found) (retry-Verdict tool m' w (marked_is m' free))
        ]
      ]

  after_failure-Verdict :
      (tool : PluginTool) (result : ToolResult) (e : Err) (m : PluginManager) (w : W)
      → is_unavailable m name ≡ false
      → Verdict name (after_failure host name call tool result e m w).0
  unfolding after_failure
  after_failure-Verdict tool result e m w av =
      let inc = increment-counts name m in
      let m' = (increment_failure_count name m).0 in
      let w' = (health_check host tool w).1 in
      elim (Bool-cases (leb 2 (increment_failure_count name m).1)) [
        | inl many ↦ rw (after_failure, many) (refl, mark-counts name m')
        | inr few ↦ elim (Option-cases (health_check host tool w).0) [
          | inl healthy ↦ rw (after_failure, few, healthy) (ground (arith, inc))
          | inr (why, sick) ↦
              rw (after_failure, few, sick)
                (after_reload-Verdict result e m' w' (reload_tool host name m' w') (inc.2 ∙ av)
                  (reload_tool-outcome host name m' w'))
        ]
      ]

  attempt-Verdict :
      (tool : PluginTool) (m : PluginManager) (w : W)
      → is_unavailable m name ≡ false
      → Verdict name (attempt host name call tool m w).0
  unfolding attempt
  attempt-Verdict tool m w av =
      let (answer, w') = host.execute tool call w in
      elim (Option-cases (host.execute tool call w).0.1) [
        | inl done ↦ rw (done, attempt) (reset-counts name m)
        | inr (e, bad) ↦ rw (bad, attempt) (after_failure-Verdict tool answer.0 e m w' av)
      ]

  -- On every branch: a call that succeeds leaves the plugin available with no failure counted; one
  -- that is refused because the plugin is unavailable leaves it marked so; one that passes the
  -- tool's own error on leaves exactly one failure counted and the plugin available; and after any
  -- other error the plugin is still available.
  pub execute_with_recovery-Verdict :
      (m : PluginManager) (w : W) → Verdict name (execute_with_recovery host name call m w).0
  unfolding execute_with_recovery lookup_managed_plugin
  execute_with_recovery-Verdict m w = elim (Bool-cases (m.unavailable name)) [
    | inl marked ↦ rw marked (refl, marked_is m marked)
    | inr free ↦ elim (Option-cases (lookup name m.loaded_plugins)) [
      | inl missing ↦ rw (free, missing) (marked_is m free)
      | inr (tool, found) ↦ rw (free, found) (attempt-Verdict tool m w (marked_is m free))
    ]
  ]
