-- ===== src/Orchestration/Scheduler.antt =====
-- internal/orchestration/scheduler.go: the DAGScheduler. A map that is only read and written by key
-- is a function with Go's zero value for a missing key. Methods on a nil scheduler are not modelled.
pub mod Build
pub mod Links
pub mod Growth
pub mod Roots
pub mod Queued
pub mod Sorting
pub mod Invariant
pub mod Completion
pub mod Fixed
pub mod Batches
pub mod Calls
pub mod Within
pub mod Established
pub mod Entered
pub mod Promises
pub mod Progress
mod Samples
use zheng_harness.Base.{
  ℕ, zero, suc, ◌+◌, ◌-◌, String, Bool, true, false, not, ◌&&◌, Option, none, some, List, [], ◌∷◌,
  ◌++◌, map, ◌==◌, ltb, leb, ◌=ℕ◌, if◌then◌else◌, length,
}
use zheng_harness.Base.Maps.{update}
use zheng_harness.Orchestration.Types.{Subtask, SubtaskStatus, TaskDecomposition}

pub record DagScheduler : Type 0 where
  pub task_id : String
  pub ready_queue : List String
  pub dependency_count : String → ℕ
  pub dependents : String → List String
  pub subtasks : String → Option Subtask
  pub ordered_subtask_ids : List String
  pub completed : String → Bool
  pub scheduled : String → Bool
  pub queued : String → Bool

-- Insertion keeps equal keys in their order, as sort.SliceStable does.
unfoldable pub insert_by : (String → ℕ) → String → List String → List String
insert_by key x [] = x ∷ []
insert_by key x (y ∷ ys) =
    let later = insert_by key x ys in if ltb (key y) (key x) then y ∷ later else x ∷ y ∷ ys

unfoldable pub stable_sort : (String → ℕ) → List String → List String
unfolding insert_by
stable_sort key [] = []
stable_sort key (x ∷ xs) = insert_by key x (stable_sort key xs)

-- `for i, id := range ids { order[id] = i }`
unfoldable pub positions : (String → ℕ) → ℕ → List String → String → ℕ
positions order i [] = order
positions order i (id ∷ rest) = positions (update order id i) (i + 1) rest

unfoldable pub sort_ids : List String → List String → List String
unfolding stable_sort positions
sort_ids ordered ids =
    if ltb (length ids) 2 then ids else stable_sort (positions (λ _. 0) 0 ordered) ids

-- What a read of the map of subtasks gives for a missing id.
abbrev zero_subtask : Subtask
zero_subtask = record {
  id = "";
  description = "";
  input = "";
  expected_output = "";
  dependencies = [];
  status = SubtaskStatus.other "";
}

abbrev pub subtask_of : (String → Option Subtask) → String → Subtask
subtask_of subtasks id = elim (subtasks id) [ none ↦ zero_subtask | some t ↦ t ]

-- The loop over the ids of a batch in Schedule.
unfoldable pub take_batch : List String → DagScheduler → DagScheduler
take_batch [] s = s
take_batch (id ∷ rest) s =
    take_batch rest
      (record s { queued = update s.queued id false; scheduled = update s.scheduled id true })

unfoldable pub schedule_ids : DagScheduler → DagScheduler × List String
unfolding take_batch
schedule_ids s = (take_batch s.ready_queue (record s { ready_queue = [] }), s.ready_queue)

-- Schedule; with an empty queue the batch is empty and nothing is written.
unfoldable pub schedule : DagScheduler → DagScheduler × List Subtask
unfolding schedule_ids
schedule s = let (s', ids) = schedule_ids s in (s', map (subtask_of s.subtasks) ids)

-- The count of one dependent, taken down.
unfoldable pub lower_count : String → DagScheduler → DagScheduler
lower_count d s =
    if ltb 0 (s.dependency_count d)
    then record s { dependency_count = update s.dependency_count d (s.dependency_count d - 1) }
    else s

unfoldable pub enqueue_if_ready : String → DagScheduler × List String → DagScheduler × List String
enqueue_if_ready d (s, newly) =
    if s.dependency_count d =ℕ 0 && not (s.scheduled d) && not (s.queued d)
    then (
      record s { ready_queue = s.ready_queue ++ d ∷ []; queued = update s.queued d true },
      newly ++ d ∷ [],
    )
    else (s, newly)

-- The loop over the dependents of a completed subtask.
unfoldable pub release : List String → DagScheduler × List String → DagScheduler × List String
unfolding lower_count enqueue_if_ready
release [] (s, newly) = (s, newly)
release (d ∷ rest) (s, newly) =
    release rest (if s.completed d then (s, newly) else enqueue_if_ready d (lower_count d s, newly))

abbrev is_some : Option Subtask → Bool
is_some none = false
is_some (some _) = true

-- MarkComplete, with the ids of the subtasks that it returns.
unfoldable pub mark_complete_ids : String → DagScheduler → DagScheduler × List String
unfolding release sort_ids
mark_complete_ids id s =
    if not (is_some (s.subtasks id))
    then (s, [])
    else if s.completed id
    then (s, [])
    else let marked = record s { completed = update s.completed id true } in
      let (s', newly) = release (s.dependents id) (marked, []) in
      (
        record s' { ready_queue = sort_ids s.ordered_subtask_ids s'.ready_queue },
        sort_ids s.ordered_subtask_ids newly,
      )

unfoldable pub mark_complete : String → DagScheduler → DagScheduler × List Subtask
unfolding mark_complete_ids
mark_complete id s = let (s', ids) = mark_complete_ids id s in (s', map (subtask_of s.subtasks) ids)
