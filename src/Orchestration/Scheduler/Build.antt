-- ===== src/Orchestration/Scheduler/Build.antt =====
-- internal/orchestration/scheduler.go: buildGraph.
use zheng_harness.Base.{
  ◌+◌, String, Bool, true, false, not, ◌||◌, Option, none, some, List, [], ◌∷◌, ◌++◌, ◌==◌, ltb,
  ◌=ℕ◌, if◌then◌else◌, length,
}
use zheng_harness.Base.Maps.{update}
use zheng_harness.Orchestration.Types.{
  Subtask, TaskDecomposition, Dependency, DependencyType, parallel_with, normalize,
}
use zheng_harness.Orchestration.Scheduler.{DagScheduler, stable_sort, positions}

pub data EdgeError : Type 0 where
  empty_endpoint : EdgeError
  unknown_subtask : String → EdgeError

-- The scheduler under construction and the edges that were added so far.
pub record Graph : Type 0 where
  pub scheduler : DagScheduler
  pub edges : String → String → Bool

pub data Built : Type 0 where
  ok : Graph → Built
  err : EdgeError → Built

infixl 5 ◌>>=◌
abbrev pub ◌>>=◌ : Built → (Graph → Built) → Built
ok g >>= f = f g
err e >>= f = err e

abbrev pub empty_scheduler : TaskDecomposition → DagScheduler
empty_scheduler d = record {
  task_id = d.task_id;
  ready_queue = [];
  dependency_count = λ _. 0;
  dependents = λ _. [];
  subtasks = λ _. none;
  ordered_subtask_ids = [];
  completed = λ _. false;
  scheduled = λ _. false;
  queued = λ _. false;
}

-- The first loop.
unfoldable pub add_subtasks : List Subtask → DagScheduler → DagScheduler
unfolding normalize
add_subtasks [] s = s
add_subtasks (subtask ∷ rest) s =
    let n = normalize subtask in
    add_subtasks rest (record s {
      subtasks = update s.subtasks n.id (some n);
      ordered_subtask_ids = s.ordered_subtask_ids ++ n.id ∷ [];
      dependency_count = update s.dependency_count n.id 0;
    })

abbrev pub is_some : Option Subtask → Bool
is_some none = false
is_some (some _) = true

-- The writes of addEdge for a new edge.
unfoldable pub link : String → String → Graph → Graph
link from to g =
    let s = g.scheduler in
    record {
      scheduler = record s {
        dependents = update s.dependents from (s.dependents from ++ to ∷ []);
        dependency_count = update s.dependency_count to (s.dependency_count to + 1);
      };
      edges = update g.edges from (update (g.edges from) to true);
    }

unfoldable pub add_edge : String → String → Graph → Built
unfolding link
add_edge from to g =
    if from == "" || to == ""
    then err empty_endpoint
    else if not (is_some (g.scheduler.subtasks from))
    then err (unknown_subtask from)
    else if not (is_some (g.scheduler.subtasks to))
    then err (unknown_subtask to)
    else if g.edges from to
    then ok g
    else ok (link from to g)

unfoldable pub add_dependencies : String → List String → Graph → Built
unfolding add_edge
add_dependencies to [] g = ok g
add_dependencies to (dep ∷ rest) g = do g' ← add_edge dep to g; add_dependencies to rest g'

unfoldable pub add_all_dependencies : List Subtask → Graph → Built
unfolding add_dependencies
add_all_dependencies [] g = ok g
add_all_dependencies (subtask ∷ rest) g = do
  g' ← add_dependencies subtask.id subtask.dependencies g
  add_all_dependencies rest g'

abbrev pub is_parallel : DependencyType → Bool
is_parallel parallel_with = true
is_parallel _ = false

unfoldable pub add_dag : List Dependency → Graph → Built
unfolding add_edge
add_dag [] g = ok g
add_dag (edge ∷ rest) g = do
  g' ← if is_parallel edge.type then ok g else add_edge edge.from edge.to g
  add_dag rest g'

-- The dependents of each subtask in the order of the decomposition. The range is over the map of
-- subtasks; an id outside it has no dependents, so every id may be sorted.
unfoldable pub sort_dependents : DagScheduler → DagScheduler
unfolding stable_sort positions
sort_dependents s =
    let index = positions (λ _. 0) 0 s.ordered_subtask_ids in
    record s {
      dependents = λ id.
          if ltb 1 (length (s.dependents id))
          then stable_sort index (s.dependents id)
          else s.dependents id;
    }

-- The last loop.
unfoldable pub queue_roots : List String → DagScheduler → DagScheduler
queue_roots [] s = s
queue_roots (id ∷ rest) s = queue_roots rest (
    if s.dependency_count id =ℕ 0
    then record s { ready_queue = s.ready_queue ++ id ∷ []; queued = update s.queued id true }
    else s)

abbrev pub finish_graph : Graph → DagScheduler
finish_graph g = let s = sort_dependents g.scheduler in queue_roots s.ordered_subtask_ids s

pub data BuildResult : Type 0 where
  built : DagScheduler → BuildResult
  refused : EdgeError → BuildResult

abbrev pub build_result : Built → BuildResult
build_result (ok g) = built (finish_graph g)
build_result (err e) = refused e

unfoldable pub build_graph : TaskDecomposition → BuildResult
unfolding add_subtasks add_all_dependencies add_dag sort_dependents queue_roots
build_graph d =
    let start : Graph = record {
      scheduler = add_subtasks d.subtasks (empty_scheduler d);
      edges = λ _ _. false;
    } in
    build_result (add_all_dependencies d.subtasks start >>= add_dag d.dag)
