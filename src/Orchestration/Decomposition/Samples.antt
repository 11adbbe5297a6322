-- ===== src/Orchestration/Decomposition/Samples.antt =====
-- Decompositions that Validate takes and refuses.
use zheng_harness.Base.{String, ◌≡◌, refl, List, [], ◌∷◌}
use zheng_harness.Orchestration.Types.{Subtask, SubtaskStatus, TaskDecomposition, DependencyType}
use zheng_harness.Orchestration.Decomposition.{
  duplicate_subtask, duplicate_dependency, references_itself, structural_errors,
}
use zheng_harness.Orchestration.Decomposition.Scheduled.{valid_is_scheduled}
use zheng_harness.Orchestration.Scheduler.{DagScheduler}
use zheng_harness.Orchestration.Scheduler.Build.{built, build_graph}
use zheng_harness.Orchestration.Scheduler.Established.{Established}

abbrev step : String → List String → Subtask
step id deps = record {
  id = id;
  description = "step";
  input = "";
  expected_output = "";
  dependencies = deps;
  status = SubtaskStatus.pending;
}

abbrev proper : TaskDecomposition
proper = record {
  task_id = "t";
  subtasks = step "a" [] ∷ step "b" ("a" ∷ []) ∷ [];
  dag = record { from = "a"; to = "b"; type = DependencyType.sequential } ∷ [];
  metadata = [];
}

abbrev broken : TaskDecomposition
broken = record proper {
  subtasks = step "a" [] ∷ step "a" ("b" ∷ "b" ∷ []) ∷ step "b" [] ∷ [];
  dag = record { from = "b"; to = "b"; type = DependencyType.sequential } ∷ [];
}

proper_passes : structural_errors proper ≡ []
unfolding structural_errors
proper_passes = refl

broken_fails :
    structural_errors broken
    ≡ duplicate_subtask "a" ∷ duplicate_dependency "a" "b" ∷ references_itself "b" ∷ []
unfolding structural_errors
broken_fails = refl

valid_is_scheduled_example :
    (s : DagScheduler) × (build_graph proper ≡ built s) × Established proper s
valid_is_scheduled_example = valid_is_scheduled proper proper_passes
