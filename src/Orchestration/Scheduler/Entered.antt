-- ===== src/Orchestration/Scheduler/Entered.antt =====
-- What the first loop of buildGraph enters.
use zheng_harness.Base.{
  String, false, some, List, [], ◌∷◌, ◌++◌, ◌≡◌, contains, Distinct, All, arith, refl, sym, ◌∙◌,
  str_eq_refl,
}
use mathlib.Core.List.{append_assoc, append-nil}
use zheng_harness.Base.Maps.{update}
use zheng_harness.Orchestration.Types.{Subtask, normalize, normalize_status}
use zheng_harness.Orchestration.Scheduler.{DagScheduler}
use zheng_harness.Orchestration.Scheduler.Build.{add_subtasks}
use zheng_harness.Orchestration.Scheduler.Roots.{ids_of}

abbrev entered : Subtask → DagScheduler → DagScheduler
entered t s = record s {
  subtasks = update s.subtasks t.id (some (normalize t));
  ordered_subtask_ids = s.ordered_subtask_ids ++ t.id ∷ [];
  dependency_count = update s.dependency_count t.id 0;
}

-- The scheduler has the subtask, with every field but a status that is not known as it is given.
abbrev pub IsEntered : DagScheduler → Subtask → Type 0
IsEntered s t = s.subtasks t.id ≡ some (record t { status = normalize_status t.status })

pub add_subtasks-ids :
    (ts : List Subtask) (s : DagScheduler)
    → (add_subtasks ts s).ordered_subtask_ids ≡ s.ordered_subtask_ids ++ ids_of ts
unfolding add_subtasks normalize
add_subtasks-ids [] s = sym (append-nil s.ordered_subtask_ids)
add_subtasks-ids (t ∷ rest) s =
    add_subtasks-ids rest (entered t s)
    ∙ append_assoc s.ordered_subtask_ids (t.id ∷ []) (ids_of rest)

add_subtasks-others :
    (ts : List Subtask) (s : DagScheduler) (x : String)
    → contains (ids_of ts) x ≡ false
    → (add_subtasks ts s).subtasks x ≡ s.subtasks x
unfolding add_subtasks normalize
add_subtasks-others [] s x h = refl
add_subtasks-others (t ∷ rest) s x h =
    add_subtasks-others rest (entered t s) x (ground (arith, h)) ∙ ground (arith, h)

pub add_subtasks-IsEntered :
    (ts : List Subtask) (s : DagScheduler)
    → Distinct (ids_of ts)
    → All (IsEntered (add_subtasks ts s)) ts
unfolding add_subtasks normalize
add_subtasks-IsEntered [] s distinct = tt
add_subtasks-IsEntered (t ∷ rest) s distinct = (
  add_subtasks-others rest (entered t s) t.id distinct.0 ∙ ground (arith, str_eq_refl t.id),
  add_subtasks-IsEntered rest (entered t s) distinct.1,
)
