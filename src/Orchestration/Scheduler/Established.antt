-- ===== src/Orchestration/Scheduler/Established.antt =====
-- What a scheduler that buildGraph returns has: the invariant, an unused state, and the links of its
-- decomposition.
use zheng_harness.Base.{
  String, true, false, [], ◌≡◌, contains, Distinct, All, All-imp, sym, ap, subst, ◌∙◌,
}
use zheng_harness.Orchestration.Types.{TaskDecomposition}
use zheng_harness.Orchestration.Scheduler.{DagScheduler}
use zheng_harness.Orchestration.Scheduler.Invariant.{Inv}
use zheng_harness.Orchestration.Scheduler.Build.{
  Graph, Built, ok, err, BuildResult, built, refused, build_result, build_graph, finish_graph,
  add_subtasks, sort_dependents, empty_scheduler, add_all_dependencies, add_dag, is_parallel, ◌>>=◌,
}
use zheng_harness.Orchestration.Scheduler.Links.{Linked}
use zheng_harness.Orchestration.Scheduler.Growth.{
  Holds, bind-Holds, Holds-imp, Grown, Extends, Extends-trans, SubtaskLinks, EdgeLinked,
  add_all_dependencies-Grown, add_dag-Grown,
}
use zheng_harness.Orchestration.Scheduler.Roots.{
  ids_of, start-Linked, sort_dependents-contains, add_subtasks-order,
}
use zheng_harness.Orchestration.Scheduler.Entered.{
  IsEntered, add_subtasks-ids, add_subtasks-IsEntered,
}
use zheng_harness.Orchestration.Scheduler.Queued.{finish_graph-Inv, queue_roots-others}

-- Each subtask is linked from each id of its list, and each ordered edge is a link.
abbrev pub AllLinked : TaskDecomposition → DagScheduler → Type 0
AllLinked d s =
    All (λ t. All (λ dep. contains (s.dependents dep) t.id ≡ true) t.dependencies) d.subtasks
    × All (λ e. is_parallel e.type ≡ false → contains (s.dependents e.from) e.to ≡ true) d.dag

pub record Established (d : TaskDecomposition) (s : DagScheduler) : Type 0 where
  pub inv : Inv [] s
  pub ids : s.ordered_subtask_ids ≡ ids_of d.subtasks
  pub entered : All (IsEntered s) d.subtasks
  pub order : (x : String) → contains s.ordered_subtask_ids x ≡ contains (ids_of d.subtasks) x
  pub unused : (x : String) → (s.scheduled x ≡ false) × (s.completed x ≡ false)
  pub links : AllLinked d s

abbrev pub start : TaskDecomposition → Graph
start d = record { scheduler = add_subtasks d.subtasks (empty_scheduler d); edges = λ _ _. false }

edges-Holds :
    (d : TaskDecomposition)
    → Distinct (ids_of d.subtasks)
    → Holds
        (Grown (start d) (λ g. All (SubtaskLinks g) d.subtasks × All (EdgeLinked g) d.dag))
        (add_all_dependencies d.subtasks (start d) >>= add_dag d.dag)
edges-Holds d distinct =
    bind-Holds (Grown (start d) (λ g. All (SubtaskLinks g) d.subtasks)) _
      (add_all_dependencies d.subtasks (start d)) (add_dag d.dag)
      (add_all_dependencies-Grown d.subtasks (start d) (start-Linked d distinct))
      (λ g1 (inv1, x1, listed).
        elim (add_dag d.dag g1)
            as (λ b.
              Holds (Grown g1 (λ g. All (EdgeLinked g) d.dag)) b
              → Holds
                  (Grown (start d)
                    (λ g. All (SubtaskLinks g) d.subtasks × All (EdgeLinked g) d.dag))
                  b) [
                    | ok g ↦ λ (inv, x, drawn). (
                      inv,
                      Extends-trans (start d) g1 g x1 x,
                      (
                        All-imp d.subtasks
                            (λ t. All-imp t.dependencies (λ dep. x.keeps_edges dep t.id)) listed,
                        drawn,
                      ),
                    )
                    | err e ↦ λ h. tt
                  ]
          (add_dag-Grown d.dag g1 inv1))

module _ (g : Graph) (inv : Linked g) where
  finished-links :
      (p x : String) → g.edges p x ≡ true → contains ((finish_graph g).dependents p) x ≡ true
  unfolding sort_dependents
  finished-links p x e =
      ap (λ m. contains (m p) x)
        (queue_roots-others g.scheduler.ordered_subtask_ids (sort_dependents g.scheduler)).0
      ∙ sort_dependents-contains g.scheduler p x
      ∙ sym (inv.edge_marks p x)
      ∙ e

  finished-Established :
      (d : TaskDecomposition)
      → Distinct (ids_of d.subtasks)
      → Extends (start d) g
      → All (SubtaskLinks g) d.subtasks
      → All (EdgeLinked g) d.dag
      → Established d (finish_graph g)
  unfolding sort_dependents
  finished-Established d distinct x listed drawn =
      let (deps, order, done, sched, known) =
        queue_roots-others g.scheduler.ordered_subtask_ids (sort_dependents g.scheduler) in
      record {
        inv = finish_graph-Inv g inv;
        ids = order ∙ x.same_order ∙ add_subtasks-ids d.subtasks (empty_scheduler d);
        entered =
            All-imp d.subtasks (λ t h. ap (λ m. m t.id) (known ∙ x.same_subtasks) ∙ h)
              (add_subtasks-IsEntered d.subtasks (empty_scheduler d) distinct);
        order = λ a.
            ap (λ o. contains o a) (order ∙ x.same_order)
            ∙ add_subtasks-order d.subtasks (empty_scheduler d) a;
        unused = λ a.
            (ap (λ m. m a) sched ∙ (inv.untouched a).1, ap (λ m. m a) done ∙ (inv.untouched a).2);
        links = (
          All-imp d.subtasks (λ t. All-imp t.dependencies (λ dep. finished-links dep t.id)) listed,
          All-imp d.dag (λ e h ordered. finished-links e.from e.to (h ordered)) drawn,
        );
      }

abbrev pub scheduler_or : DagScheduler → BuildResult → DagScheduler
scheduler_or other (built s) = s
scheduler_or other (refused e) = other

pub from_built :
    (P : DagScheduler → Type 0) (b : Built) (s : DagScheduler)
    → Holds (λ g. P (finish_graph g)) b
    → build_result b ≡ built s
    → P s
from_built P (ok g) s h e = subst P (ap (scheduler_or s) e) h
from_built P (err x) s h e = cc

-- With distinct ids, what buildGraph returns is established.
pub build_graph-Established :
    (d : TaskDecomposition) (s : DagScheduler)
    → Distinct (ids_of d.subtasks)
    → build_graph d ≡ built s
    → Established d s
unfolding build_graph
build_graph-Established d s distinct e =
    from_built (Established d) (add_all_dependencies d.subtasks (start d) >>= add_dag d.dag) s
      (Holds-imp _ _ (add_all_dependencies d.subtasks (start d) >>= add_dag d.dag)
        (λ g (inv, x, (listed, drawn)). finished-Established g inv d distinct x listed drawn)
        (edges-Holds d distinct))
      e
