-- ===== src/Orchestration/Scheduler/Samples.antt =====
-- The scheduler at work on a small decomposition.
use zheng_harness.Base.{
  ℕ, String, true, List, [], ◌∷◌, ◌≡◌, ◌==◌, contains, Distinct, if◌then◌else◌, ◌||◌, ap, arith,
  refl,
}
use zheng_harness.Orchestration.Types.{
  Subtask, SubtaskStatus, TaskDecomposition, Dependency, DependencyType,
}
use zheng_harness.Orchestration.Scheduler.{DagScheduler, schedule_ids}
use zheng_harness.Orchestration.Scheduler.Build.{built, build_graph, empty_scheduler}
use zheng_harness.Orchestration.Scheduler.Roots.{ids_of}
use zheng_harness.Orchestration.Scheduler.Established.{scheduler_or}
use zheng_harness.Orchestration.Scheduler.Calls.{Call, next_batch, completes, run_calls, reported}
use zheng_harness.Orchestration.Scheduler.Promises.{handed_out_once, batch-Unblocked, Unblocked}
use zheng_harness.Orchestration.Scheduler.Progress.{nothing_left_behind}

abbrev work : String → List String → Subtask
work id deps = record {
  id = id;
  description = "";
  input = "";
  expected_output = "";
  dependencies = deps;
  status = SubtaskStatus.pending;
}

abbrev edge : String → String → DependencyType → Dependency
edge from to type = record { from = from; to = to; type = type }

-- c waits for a and b, d only for b; the edge from d to a is no order.
abbrev plan : TaskDecomposition
plan = record {
  task_id = "t";
  subtasks = work "a" [] ∷ work "b" [] ∷ work "c" ("a" ∷ []) ∷ work "d" [] ∷ [];
  dag =
      edge "b" "c" DependencyType.depends_on
      ∷ edge "b" "d" DependencyType.sequential
      ∷ edge "d" "a" DependencyType.parallel_with
      ∷ [];
  metadata = [];
}

abbrev planned : DagScheduler
unfolding build_graph
planned = scheduler_or (empty_scheduler plan) (build_graph plan)

plan_builds : build_graph plan ≡ built planned
unfolding build_graph planned
plan_builds = refl

abbrev some_calls : List Call
some_calls = next_batch ∷ completes "b" ∷ completes "x" ∷ completes "a" ∷ []

abbrev all_calls : List Call
all_calls =
    next_batch
    ∷ completes "b"
    ∷ next_batch
    ∷ completes "a"
    ∷ completes "d"
    ∷ next_batch
    ∷ completes "c"
    ∷ []

batches :
    ((run_calls all_calls planned).1 ≡ "a" ∷ "b" ∷ "d" ∷ "c" ∷ [])
    × ((schedule_ids (run_calls some_calls planned).0).1 ≡ "c" ∷ "d" ∷ [])
unfolding run_calls planned schedule_ids
batches = (refl, refl)

plan-Distinct : Distinct (ids_of plan.subtasks)
plan-Distinct = (refl, (refl, (refl, (refl, tt))))

handed_out_once_example : Distinct (run_calls all_calls planned).1
handed_out_once_example = handed_out_once plan planned all_calls plan-Distinct plan_builds

batch-Unblocked_example : Unblocked plan some_calls "c"
batch-Unblocked_example =
    batch-Unblocked plan planned some_calls plan-Distinct plan_builds "c"
      (ap (λ l. contains l "c") batches.1)

abbrev level : String → ℕ
level x = if x == "c" || x == "d" then 1 else 0

drained_queue : (run_calls all_calls planned).0.ready_queue ≡ []
unfolding run_calls planned
drained_queue = refl

all_reported :
    (x : String) → contains (run_calls all_calls planned).1 x ≡ true → reported all_calls x ≡ true
all_reported x = rw batches.0 (λ h. ground (arith, h))

nothing_left_behind_example : reported all_calls "c" ≡ true
nothing_left_behind_example =
    nothing_left_behind plan planned all_calls level plan-Distinct plan_builds
      (
        (tt, (tt, ((omega arith, tt), (tt, tt)))),
        (λ _. omega arith, (λ _. omega arith, (λ h. ground (arith, h), tt))),
      )
      drained_queue all_reported "c" refl
