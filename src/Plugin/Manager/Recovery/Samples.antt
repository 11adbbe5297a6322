-- ===== src/Plugin/Manager/Recovery/Samples.antt =====
-- A plugin whose calls fail, before and after a reload.
use zheng_harness.Base.{ℕ, ◌+◌, ◌≤◌, ◌≡◌, refl, true, false, Option, none, some, [], ◌∷◌, arith}
use zheng_harness.Base.Maps.{lookup}
use zheng_harness.Domain.Types.{Err, ToolCall, ToolResult}
use zheng_harness.Plugin.Manager.{
  PluginTool, PluginError, tool_error, PluginManager, Host, failure_count, new_manager,
}
use zheng_harness.Plugin.Manager.Lifecycle.{reload_tool, replace, track}
use zheng_harness.Plugin.Manager.Lifecycle.Atomic.{reload_tool-outcome, ReloadOutcome}
use zheng_harness.Plugin.Manager.Recovery.{execute_with_recovery}
use zheng_harness.Plugin.Manager.Recovery.Counts.{Verdict, execute_with_recovery-Verdict}
use zheng_harness.Plugin.Manager.Recovery.Bounded.{
  Counted, counting, Within, execute_with_recovery-Within,
}
use zheng_harness.Plugin.Manager.Recovery.Strikes.{
  Disabled, second_failure_disables, reload_keeps_strikes,
}

abbrev echo : PluginTool
echo = record {
  name = "echo";
  capabilities = [];
  contract_version = "1.0.0";
  has_health_check = true;
  instance_id = 7;
}

-- Every execution fails and every health check succeeds; the world counts the executions.
abbrev failing : Host ℕ
failing = record {
  execute = λ tool c w. (
    (
      record { tool_name = c.name; output = ""; error = "down"; duration = 0 },
      some (Err.failure "down"),
    ),
    w + 1,
  );
  health_check = λ tool w. (none, w);
  load_external = λ path w. ((some echo, none), w);
  load_native = λ path w. ((none, some (Err.failure "no plugin")), w);
  close = λ tool w. (none, w);
  read_dir = λ dir w. (([], none), w);
  join = λ dir name. name;
}

abbrev ping : ToolCall
ping = record { name = "echo"; input = "ping"; timeout = 0 }

abbrev manager : PluginManager
manager = track echo "echo.so" (new_manager "plugins")

abbrev after_one : (PluginManager × ToolResult × Option PluginError) × ℕ
after_one = execute_with_recovery failing "echo" ping manager 0

first_call :
    (after_one.0.2 ≡ some (tool_error (Err.failure "down")))
    × (lookup "echo" after_one.0.0.loaded_plugins ≡ some echo)
    × (failure_count after_one.0.0 "echo" ≡ 1)
unfolding execute_with_recovery track new_manager lookup failure_count
first_call = (refl, refl, refl)

counted_once : 1 ≤ failure_count after_one.0.0 "echo"
counted_once = omega (arith, first_call.2)

-- The library of the plugin was replaced by one whose tool has another name.
abbrev parrot : PluginTool
parrot = record echo { name = "parrot"; instance_id = 8 }

abbrev renewing : Host ℕ
renewing = record failing {
  load_native = λ path w. ((some parrot, none), w);
  read_dir = λ dir w. ((record { name = "echo.so"; is_dir = false } ∷ [], none), w);
}

renewed :
    let (m, e) = (reload_tool renewing "echo" manager 0).0 in
    (e ≡ none)
    × (lookup "parrot" m.loaded_plugins ≡ some parrot)
    × (lookup "echo" m.loaded_plugins ≡ none)
unfolding reload_tool track new_manager lookup
renewed = (refl, refl, refl)

reload_tool-outcome_example :
    ReloadOutcome renewing "echo" manager 0 (reload_tool renewing "echo" manager 0).0
reload_tool-outcome_example = reload_tool-outcome renewing "echo" manager 0

execute_with_recovery-Verdict_example : Verdict "echo" after_one.0
execute_with_recovery-Verdict_example = execute_with_recovery-Verdict failing "echo" ping manager 0

abbrev counted_world : Counted ℕ
counted_world = record { world = 0; executions = 0; loads = 0 }

execute_with_recovery-Within_example :
    Within 2 1 counted_world
      (execute_with_recovery (counting failing) "echo" ping manager counted_world).1
execute_with_recovery-Within_example =
    execute_with_recovery-Within failing "echo" ping manager counted_world

second_failure_disables_example : Disabled failing "echo" ping echo after_one.0.0 after_one.1
second_failure_disables_example =
    second_failure_disables failing "echo" ping manager 0 (Err.failure "down") ping echo
      (Err.failure "down") first_call.0 first_call.1 refl

reload_keeps_strikes_example :
    Disabled failing "echo" ping echo (replace "echo" echo "echo.so" after_one.0.0) 1
reload_keeps_strikes_example =
    reload_keeps_strikes failing "echo" ping echo "echo.so" after_one.0.0 1 (Err.failure "down")
      refl counted_once refl
