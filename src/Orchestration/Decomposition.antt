-- ===== src/Orchestration/Decomposition.antt =====
-- internal/orchestration/types.go: the checks of Validate on subtasks, edges and decompositions. The
-- lists of errors stand for their errors.Join. The search for a cycle, which Validate makes when
-- there is no other error, is not modelled.
pub mod Accepted
pub mod Scheduled
mod Samples
use zheng_harness.Base.{
  String, Bool, true, false, not, ◌&&◌, ◌||◌, List, [], ◌∷◌, ◌++◌, ◌==◌, if◌then◌else◌,
}
use zheng_harness.Base.Maps.{update}
use zheng_harness.Orchestration.Types.{
  Subtask, SubtaskStatus, status_is_valid, Dependency, DependencyType, type_is_valid,
  TaskDecomposition,
}

pub data ValidationError : Type 0 where
  task_id_required no_subtasks subtask_id_required : ValidationError
  duplicate_subtask description_required empty_dependency depends_on_itself :
      String → ValidationError
  unsupported_status : String → SubtaskStatus → ValidationError
  duplicate_dependency unknown_dependency : String → String → ValidationError
  from_required to_required : ValidationError
  unsupported_type : DependencyType → ValidationError
  unknown_subtask references_itself : String → ValidationError

-- `if condition { errs = append(errs, e) }`, in front of the errors that follow.
abbrev pub report : Bool → ValidationError → List ValidationError → List ValidationError
report condition e rest = if condition then e ∷ rest else rest

-- Dependency.Validate; the map of ids is a test.
unfoldable pub dependency_errors : (String → Bool) → Dependency → List ValidationError
unfolding type_is_valid
dependency_errors valid d = report (d.from == "") from_required (
    report (d.to == "") to_required (
      report (not (type_is_valid d.type)) (unsupported_type d.type) (
        report (not (d.from == "") && not (valid d.from)) (unknown_subtask d.from) (
          report (not (d.to == "") && not (valid d.to)) (unknown_subtask d.to)
            (report (not (d.from == "") && d.from == d.to) (references_itself d.from) [])))))

-- The loop over the dependencies of a subtask.
unfoldable pub listed_errors :
    String → (String → Bool) → (String → Bool) → List String → List ValidationError
listed_errors id valid seen [] = []
listed_errors id valid seen (dep ∷ rest) =
    let later = listed_errors id valid (if dep == "" then seen else update seen dep true) rest in
    if dep == ""
    then empty_dependency id ∷ later
    else report (dep == id) (depends_on_itself id) (
        if seen dep
        then duplicate_dependency id dep ∷ later
        else report (not (valid dep)) (unknown_dependency id dep) later)

-- The unexported validate of a subtask.
unfoldable pub subtask_errors : (String → Bool) → Subtask → List ValidationError
unfolding status_is_valid listed_errors
subtask_errors valid s = report (s.id == "") subtask_id_required (
    report (s.description == "") (description_required s.id) (
      report (not (status_is_valid s.status)) (unsupported_status s.id s.status)
        (listed_errors s.id valid (λ _. false) s.dependencies)))

-- Subtask.Validate: the ids that a standalone subtask names are the valid ones.
abbrev named_ids : List String → (String → Bool) → String → Bool
named_ids [] ids = ids
named_ids (dep ∷ rest) ids = named_ids rest (if dep == "" then ids else update ids dep true)

unfoldable pub standalone_errors : Subtask → List ValidationError
unfolding subtask_errors
standalone_errors s =
    subtask_errors
      (named_ids s.dependencies
        (if s.id == "" then (λ _. false) else update (λ _. false) s.id true))
      s

-- The loop that collects the ids, and reports those that come twice.
unfoldable pub collect_ids : List Subtask → (String → Bool) → (String → Bool) × List ValidationError
collect_ids [] ids = (ids, [])
collect_ids (t ∷ rest) ids =
    let (all, errs) =
      collect_ids rest (if t.id == "" || ids t.id then ids else update ids t.id true) in
    (all, report (not (t.id == "") && ids t.id) (duplicate_subtask t.id) errs)

unfoldable pub all_subtask_errors : (String → Bool) → List Subtask → List ValidationError
unfolding subtask_errors
all_subtask_errors valid [] = []
all_subtask_errors valid (t ∷ rest) = subtask_errors valid t ++ all_subtask_errors valid rest

unfoldable pub all_edge_errors : (String → Bool) → List Dependency → List ValidationError
unfolding dependency_errors
all_edge_errors valid [] = []
all_edge_errors valid (d ∷ rest) = dependency_errors valid d ++ all_edge_errors valid rest

abbrev pub is_empty : List Subtask → Bool
is_empty [] = true
is_empty (t ∷ rest) = false

-- What Validate reports before it looks for a cycle.
unfoldable pub structural_errors : TaskDecomposition → List ValidationError
unfolding collect_ids all_subtask_errors all_edge_errors
structural_errors d =
    let (ids, duplicates) = collect_ids d.subtasks (λ _. false) in
    report (d.task_id == "") task_id_required (
      report (is_empty d.subtasks) no_subtasks
        (duplicates ++ all_subtask_errors ids d.subtasks ++ all_edge_errors ids d.dag))
