-- ===== src/Orchestration/Scheduler/Invariant.antt =====
-- What holds of a scheduler between two calls, and inside MarkComplete.
use zheng_harness.Base.{
  ℕ, ◌+◌, String, Bool, true, false, not, ◌&&◌, ◌||◌, Option, none, some, List, ◌≡◌, contains,
  Distinct, count, if◌then◌else◌,
}
use zheng_harness.Orchestration.Types.{Subtask}
use zheng_harness.Orchestration.Scheduler.{DagScheduler}

-- How many direct predecessors of a subtask are not complete.
abbrev pub blockers : DagScheduler → String → ℕ
blockers s d = count (λ p. contains (s.dependents p) d && not (s.completed p)) s.ordered_subtask_ids

abbrev pub is_known : Option Subtask → Bool
is_known none = false
is_known (some _) = true

-- `pending` are the dependents of the subtask being completed whose counts are still to be taken
-- down. Between two calls there are none.
pub record Inv (pending : List String) (s : DagScheduler) : Type 0 where
  pub ordered_distinct : Distinct s.ordered_subtask_ids
  pub known : (id : String) → is_known (s.subtasks id) ≡ contains s.ordered_subtask_ids id
  pub links_distinct : (p : String) → Distinct (s.dependents p)
  pub links_known :
      (p d : String) → contains (s.dependents p) d ≡ true → contains s.ordered_subtask_ids p ≡ true
  pub queue_distinct : Distinct s.ready_queue
  pub queue_marks : (d : String) → contains s.ready_queue d ≡ s.queued d
  pub fresh : (d : String) → s.queued d ≡ true → s.scheduled d ≡ false
  pub released :
      (p d : String)
      → contains (s.dependents p) d ≡ true
      → (s.queued d || s.scheduled d) ≡ true
      → s.completed p ≡ true
  pub counts :
      (d : String)
      → s.completed d ≡ false
      → s.dependency_count d ≡ blockers s d + (if contains pending d then 1 else 0)
  pub ready :
      (d : String)
      → contains s.ordered_subtask_ids d ≡ true
      → s.completed d ≡ false
      → s.dependency_count d ≡ 0
      → (s.queued d || s.scheduled d) ≡ true
