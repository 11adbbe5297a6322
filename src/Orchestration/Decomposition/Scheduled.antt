-- ===== src/Orchestration/Decomposition/Scheduled.antt =====
-- buildGraph takes every decomposition without structural errors.
use zheng_harness.Base.{
  String, Bool, true, false, List, [], ◌∷◌, ◌≡◌, ◌==◌, contains, All, All-imp, arith, refl, ap, ◌∙◌,
  inl, inr, Bool-cases, Option-cases, str_eq_refl,
}
use zheng_harness.Orchestration.Types.{Subtask, TaskDecomposition, Dependency}
use zheng_harness.Orchestration.Decomposition.{structural_errors}
use zheng_harness.Orchestration.Decomposition.Accepted.{Usable, Sound, structural_errors-Sound}
use zheng_harness.Orchestration.Scheduler.{DagScheduler}
use zheng_harness.Orchestration.Scheduler.Invariant.{is_known}
use zheng_harness.Orchestration.Scheduler.Build.{
  Graph, Built, ok, err, built, add_edge, add_dependencies, add_all_dependencies, add_dag,
  is_parallel, ◌>>=◌, build_graph, finish_graph, build_result, empty_scheduler,
}
use zheng_harness.Orchestration.Scheduler.Links.{Linked}
use zheng_harness.Orchestration.Scheduler.Growth.{
  Holds, Extends, Grown, add_edge-Grown, add_dependencies-Grown, add_all_dependencies-Grown,
  SubtaskLinks,
}
use zheng_harness.Orchestration.Scheduler.Roots.{ids_of, start-Linked, add_subtasks-order}
use zheng_harness.Orchestration.Scheduler.Established.{start, Established, build_graph-Established}

abbrev is_ok : Built → Bool
is_ok (ok g) = true
is_ok (err e) = false

-- The subtasks of a graph have every valid id.
abbrev Covers : (String → Bool) → Graph → Type 0
Covers valid g = (x : String) → valid x ≡ true → is_known (g.scheduler.subtasks x) ≡ true

bind-ok :
    (P : Graph → Type 0) (b : Built) (f : Graph → Built)
    → Holds P b
    → is_ok b ≡ true
    → ((g : Graph) → P g → is_ok (f g) ≡ true)
    → is_ok (b >>= f) ≡ true
bind-ok P (ok g) f h i k = k g h
bind-ok P (err e) f h i k = cc

module _ (valid : String → Bool) where
  Extends-Covers : (g g' : Graph) → Extends g g' → Covers valid g → Covers valid g'
  Extends-Covers g g' x covers a v = ap (λ m. is_known (m a)) x.same_subtasks ∙ covers a v

  add_edge-ok :
      (from to : String) (g : Graph)
      → Usable valid from
      → Usable valid to
      → Covers valid g
      → is_ok (add_edge from to g) ≡ true
  unfolding add_edge
  add_edge-ok from to g f t covers = elim (Option-cases (g.scheduler.subtasks from)) [
    | inl missing ↦ ground (arith, covers from f.1, missing)
    | inr (a, found) ↦ elim (Option-cases (g.scheduler.subtasks to)) [
      | inl missing ↦ ground (arith, covers to t.1, missing)
      | inr (b, found') ↦ elim (Bool-cases (g.edges from to)) [
        | inl old ↦ simp (add_edge, f.0, t.0, found, found', old) refl
        | inr new ↦ simp (add_edge, f.0, t.0, found, found', new) refl
      ]
    ]
  ]

  add_dependencies-ok :
      (to : String) (deps : List String) (g : Graph)
      → Linked g
      → Usable valid to
      → All (Usable valid) deps
      → Covers valid g
      → is_ok (add_dependencies to deps g) ≡ true
  unfolding add_dependencies
  add_dependencies-ok to [] g inv t u covers = refl
  add_dependencies-ok to (dep ∷ rest) g inv t u covers =
      bind-ok (Grown g (λ g'. g'.edges dep to ≡ true)) (add_edge dep to g)
        (add_dependencies to rest) (add_edge-Grown dep to g inv) (add_edge-ok dep to g u.0 t covers)
        (λ g1 (inv1, x1, e).
          add_dependencies-ok to rest g1 inv1 t u.1 (Extends-Covers g g1 x1 covers))

  add_all_dependencies-ok :
      (ts : List Subtask) (g : Graph)
      → Linked g
      → All (λ t. Usable valid t.id) ts
      → All (λ t. All (Usable valid) t.dependencies) ts
      → Covers valid g
      → is_ok (add_all_dependencies ts g) ≡ true
  unfolding add_all_dependencies
  add_all_dependencies-ok [] g inv t u covers = refl
  add_all_dependencies-ok (t ∷ rest) g inv ids u covers =
      bind-ok (Grown g (λ g'. SubtaskLinks g' t)) (add_dependencies t.id t.dependencies g)
        (add_all_dependencies rest) (add_dependencies-Grown t.id t.dependencies g inv)
        (add_dependencies-ok t.id t.dependencies g inv ids.0 u.0 covers)
        (λ g1 (inv1, x1, e).
          add_all_dependencies-ok rest g1 inv1 ids.1 u.1 (Extends-Covers g g1 x1 covers))

  add_dag-ok :
      (es : List Dependency) (g : Graph)
      → Linked g
      → All (λ e. Usable valid e.from × Usable valid e.to) es
      → Covers valid g
      → is_ok (add_dag es g) ≡ true
  unfolding add_dag
  add_dag-ok [] g inv u covers = refl
  add_dag-ok (e ∷ rest) g inv u covers = elim (Bool-cases (is_parallel e.type)) [
    | inl parallel ↦ simp parallel (add_dag-ok rest g inv u.1 covers)
    | inr ordered ↦ simp ordered (
        bind-ok (Grown g (λ g'. g'.edges e.from e.to ≡ true)) (add_edge e.from e.to g)
          (add_dag rest) (add_edge-Grown e.from e.to g inv)
          (add_edge-ok e.from e.to g u.0.0 u.0.1 covers)
          (λ g1 (inv1, x1, h). add_dag-ok rest g1 inv1 u.1 (Extends-Covers g g1 x1 covers)))
  ]

built_of_ok : (b : Built) → is_ok b ≡ true → (s : DagScheduler) × (build_result b ≡ built s)
built_of_ok (ok g) h = (finish_graph g, refl)
built_of_ok (err e) h = cc

own-Usable :
    (ts : List Subtask)
    → All (λ t. (t.id == "") ≡ false) ts
    → All (λ t. Usable (contains (ids_of ts)) t.id) ts
own-Usable [] named = tt
own-Usable (t ∷ rest) named = (
  (named.0, ground (arith, str_eq_refl t.id)),
  All-imp rest (λ u h. (h.0, ground (arith, h.1))) (own-Usable rest named.1),
)

builds :
    (d : TaskDecomposition)
    → Sound d
    → is_ok (add_all_dependencies d.subtasks (start d) >>= add_dag d.dag) ≡ true
builds d sound =
    let valid = contains (ids_of d.subtasks) in
    let inv = start-Linked d sound.distinct in
    let covers : Covers valid (start d) =
      λ x v. inv.known x ∙ add_subtasks-order d.subtasks (empty_scheduler d) x ∙ v in
    bind-ok (Grown (start d) (λ g. All (SubtaskLinks g) d.subtasks))
      (add_all_dependencies d.subtasks (start d)) (add_dag d.dag)
      (add_all_dependencies-Grown d.subtasks (start d) inv)
      (add_all_dependencies-ok valid d.subtasks (start d) inv (own-Usable d.subtasks sound.names)
        sound.listed covers)
      (λ g1 (inv1, x1, h).
        add_dag-ok valid d.dag g1 inv1 sound.drawn (Extends-Covers valid (start d) g1 x1 covers))

-- A decomposition in which Validate finds no structural error is always taken: buildGraph returns a
-- scheduler, whose subtasks are those of the decomposition in their order, each as it was given but
-- with its status normalised, and linked from all its dependencies; none of them is handed out or
-- complete, and the scheduler satisfies its invariant.
pub valid_is_scheduled :
    (d : TaskDecomposition)
    → structural_errors d ≡ []
    → (s : DagScheduler) × (build_graph d ≡ built s) × Established d s
unfolding build_graph
valid_is_scheduled d h =
    let sound = structural_errors-Sound d h in
    let (s, e) =
      built_of_ok (add_all_dependencies d.subtasks (start d) >>= add_dag d.dag) (builds d sound) in
    (s, e, build_graph-Established d s sound.distinct e)
