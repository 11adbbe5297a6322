-- ===== src/Orchestration/Scheduler/Promises.antt =====
-- What a client of the scheduler relies on, for a decomposition and any calls of it.
use zheng_harness.Base.{
  String, true, false, List, ◌≡◌, contains, Distinct, All, All-imp, arith, ap, subst, ◌∙◌,
}
use zheng_harness.Orchestration.Types.{TaskDecomposition}
use zheng_harness.Orchestration.Scheduler.{DagScheduler, schedule_ids}
use zheng_harness.Orchestration.Scheduler.Build.{built, build_graph, is_parallel}
use zheng_harness.Orchestration.Scheduler.Roots.{ids_of}
use zheng_harness.Orchestration.Scheduler.Established.{Established, build_graph-Established}
use zheng_harness.Orchestration.Scheduler.Calls.{
  Call, run_calls, reported, Effects, run_calls-Effects, call-hands_ready,
}

-- The direct predecessors that a decomposition names for a subtask were all reported complete.
abbrev pub Unblocked : TaskDecomposition → List Call → String → Type 0
Unblocked d cs id =
    All (λ t. t.id ≡ id → All (λ dep. reported cs dep ≡ true) t.dependencies) d.subtasks
    × All (λ e. is_parallel e.type ≡ false → e.to ≡ id → reported cs e.from ≡ true) d.dag

module _ (d : TaskDecomposition) (s : DagScheduler) (cs : List Call)
    (distinct : Distinct (ids_of d.subtasks)) (builds : build_graph d ≡ built s) where
  made : Established d s
  made = build_graph-Established d s distinct builds

  effects : Effects cs s
  effects = run_calls-Effects cs s made.inv

  -- For a decomposition with distinct ids, no subtask is handed out twice, in whatever order a
  -- client calls Schedule and MarkComplete and whatever ids it reports.
  pub handed_out_once : Distinct (run_calls cs s).1
  handed_out_once = effects.hands_once

  reported_when_complete :
      (p : String) → (run_calls cs s).0.completed p ≡ true → reported cs p ≡ true
  reported_when_complete p c = ground (arith, effects.completed_by p, made.unused p, c)

  -- For a decomposition with distinct ids, after any calls each subtask of the next batch has all
  -- its dependencies, and all the sources of its ordered edges, reported complete before.
  pub batch-Unblocked :
      (id : String) → contains (schedule_ids (run_calls cs s).0).1 id ≡ true → Unblocked d cs id
  batch-Unblocked id h =
      let after = (run_calls cs s).0 in
      let linked : (p x : String)
          → x ≡ id
          → contains (s.dependents p) x ≡ true
          → reported cs p ≡ true =
        λ p x same l. reported_when_complete p (
          call-hands_ready after p id effects.keeps h (
            ap (λ m. contains (m p) id) effects.same_dependents
            ∙ subst (λ y. contains (s.dependents p) y ≡ true) same l)) in
      (
        All-imp d.subtasks (λ t l same. All-imp t.dependencies (λ dep. linked dep t.id same) l)
            made.links.0,
        All-imp d.dag (λ e l ordered same. linked e.from e.to same (l ordered)) made.links.1,
      )
