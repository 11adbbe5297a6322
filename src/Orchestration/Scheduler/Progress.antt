-- ===== src/Orchestration/Scheduler/Progress.antt =====
-- Nothing is left behind: a decomposition without a cycle is completed.
use zheng_harness.Base.{
  ℕ, zero, suc, ◌<◌, String, true, not, ◌&&◌, List, [], ◌≡◌, contains, Distinct, arith, sym, ap,
  ◌∙◌, inl, inr, Bool-cases,
}
use zheng_harness.Orchestration.Types.{TaskDecomposition}
use zheng_harness.Orchestration.Scheduler.{DagScheduler}
use zheng_harness.Orchestration.Scheduler.Invariant.{Inv}
use zheng_harness.Orchestration.Scheduler.Build.{built, build_graph}
use zheng_harness.Orchestration.Scheduler.Roots.{ids_of, count_none}
use zheng_harness.Orchestration.Scheduler.Established.{build_graph-Established}
use zheng_harness.Orchestration.Scheduler.Calls.{Call, run_calls, reported, run_calls-Effects}
use zheng_harness.Orchestration.Scheduler.Within.{Declared, LinksWithin, build_graph-Within}

-- With an empty queue and all that was handed out complete, only a cycle keeps a subtask open.
drained :
    (s : DagScheduler) (rank : String → ℕ)
    → Inv [] s
    → LinksWithin (λ p x. rank p < rank x) s
    → s.ready_queue ≡ []
    → ((x : String)
        → contains s.ordered_subtask_ids x ≡ true
        → s.scheduled x ≡ true
        → s.completed x ≡ true)
    → (n : ℕ) (x : String) → rank x < n
    → contains s.ordered_subtask_ids x ≡ true
    → s.completed x ≡ true
drained s rank inv acyclic empty finished zero x lt k = elim lt [ ]
drained s rank inv acyclic empty finished (suc n) x lt k = elim (Bool-cases (s.completed x)) [
  | inl c ↦ c
  | inr c ↦
      let before : (p : String) → contains (s.dependents p) x ≡ true → s.completed p ≡ true = λ p l.
        drained s rank inv acyclic empty finished n p (omega (arith, acyclic p x l, lt))
          (inv.links_known p x l) in
      let unblocked =
        count_none (λ p. contains (s.dependents p) x && not (s.completed p)) s.ordered_subtask_ids
          (λ p. ground (arith, before p)) in
      let handed = inv.ready x k c (omega (arith, inv.counts x c, unblocked)) in
      let unqueued = sym (inv.queue_marks x) ∙ ap (λ q. contains q x) empty in
      finished x k (ground (arith, handed, unqueued))
]

-- A decomposition with distinct ids and no cycle (a rank grows along each declared dependency) does
-- not stall: once the queue is empty and every id that was handed out has been reported, every
-- subtask has been reported.
pub nothing_left_behind :
    (d : TaskDecomposition) (s : DagScheduler) (cs : List Call) (rank : String → ℕ)
    → Distinct (ids_of d.subtasks)
    → build_graph d ≡ built s
    → Declared (λ p x. rank p < rank x) d
    → (run_calls cs s).0.ready_queue ≡ []
    → ((x : String) → contains (run_calls cs s).1 x ≡ true → reported cs x ≡ true)
    → (x : String) → contains (ids_of d.subtasks) x ≡ true
    → reported cs x ≡ true
nothing_left_behind d s cs rank distinct builds acyclic empty all_reported x member =
    let made = build_graph-Established d s distinct builds in
    let after = run_calls-Effects cs s made.inv in
    let s' = (run_calls cs s).0 in
    let within = build_graph-Within (λ p y. rank p < rank y) d s acyclic builds in
    let same_order : (y : String)
        → contains s'.ordered_subtask_ids y ≡ contains s.ordered_subtask_ids y =
      λ y. ap (λ o. contains o y) after.same_order in
    let complete =
      drained s' rank after.keeps
        (λ p y l. within p y (sym (ap (λ m. contains (m p) y) after.same_dependents) ∙ l)) empty
        (λ y k h. ground (
          arith,
          after.completed_by y,
          same_order y,
          k,
          all_reported y,
          after.schedules y,
          made.unused y,
          h,
        ))
        (suc (rank x)) x (omega arith) (same_order x ∙ made.order x ∙ member) in
    ground (arith, after.completed_by x, made.unused x, complete)
