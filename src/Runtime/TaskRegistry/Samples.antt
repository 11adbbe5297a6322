-- ===== src/Runtime/TaskRegistry/Samples.antt =====
-- A task of an unknown category, with no hint.
use zheng_harness.Base.Text.{trim_space}
use zheng_harness.Base.{◌≡◌, refl}
use zheng_harness.Domain.Types.{Task, TaskCategory}
use zheng_harness.Runtime.TaskRegistry.{resolve}
use zheng_harness.Runtime.TaskRegistry.Resolved.{IsResolved, resolve-IsResolved, resolve_again}

abbrev odd : Task
odd = record {
  id = "t";
  description = "water the plants";
  goal = "";
  category = TaskCategory.other "gardening";
  protocol_hint = "  ";
  verification_policy = "state_output";
  created_at = 5;
}

hints : (resolve odd).task.protocol_hint ≡ "general compatibility workflow"
unfolding resolve trim_space
hints = refl

resolve-IsResolved_example : IsResolved odd (resolve odd).task
resolve-IsResolved_example = resolve-IsResolved odd

resolve_again_example : resolve (resolve odd).task ≡ resolve odd
resolve_again_example = resolve_again odd
