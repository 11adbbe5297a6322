-- ===== src/Orchestration/Scheduler/Within.antt =====
-- buildGraph adds no link but the declared ones: a relation that holds of each declared pair holds
-- of each link.
use zheng_harness.Base.{
  String, true, false, ◌&&◌, ◌||◌, List, [], ◌∷◌, ◌≡◌, ◌==◌, contains, All, if◌then◌else◌, arith,
  sym, ap, subst, ◌∙◌, inl, inr, Bool-cases, Option-cases, str_eq_iff,
}
use zheng_harness.Orchestration.Types.{Subtask, TaskDecomposition, Dependency, normalize}
use zheng_harness.Orchestration.Scheduler.{DagScheduler}
use zheng_harness.Orchestration.Scheduler.Build.{
  Graph, ok, built, link, add_edge, add_dependencies, add_all_dependencies, add_dag, is_parallel,
  ◌>>=◌, build_graph, finish_graph, add_subtasks, sort_dependents, empty_scheduler,
}
use zheng_harness.Orchestration.Scheduler.Links.{link-contains}
use zheng_harness.Orchestration.Scheduler.Growth.{Holds, bind-Holds, Holds-imp}
use zheng_harness.Orchestration.Scheduler.Roots.{sort_dependents-contains}
use zheng_harness.Orchestration.Scheduler.Queued.{queue_roots-others}
use zheng_harness.Orchestration.Scheduler.Established.{start, from_built}

-- A relation holds of every pair that the decomposition declares.
abbrev pub Declared : (String → String → Type 0) → TaskDecomposition → Type 0
Declared R d =
    All (λ t. All (λ dep. R dep t.id) t.dependencies) d.subtasks
    × All (λ e. is_parallel e.type ≡ false → R e.from e.to) d.dag

abbrev pub LinksWithin : (String → String → Type 0) → DagScheduler → Type 0
LinksWithin R s = (p x : String) → contains (s.dependents p) x ≡ true → R p x

module _ (R : String → String → Type 0) where
  Within : Graph → Type 0
  Within g = LinksWithin R g.scheduler

  link-Within : (from to : String) (g : Graph) → R from to → Within g → Within (link from to g)
  unfolding Within
  link-Within from to g r w p x l = elim (Bool-cases (contains (g.scheduler.dependents p) x)) [
    | inl old ↦ w p x old
    | inr new ↦
        let both : (from == p && to == x) ≡ true =
          ground (arith, link-contains from to g p x, l, new) in
        let a : from ≡ p = (str_eq_iff from p).0 (ground (arith, both)) in
        let b : to ≡ x = (str_eq_iff to x).0 (ground (arith, both)) in
        subst (λ y. R y x) a (subst (λ y. R from y) b r)
  ]

  add_edge-Within :
      (from to : String) (g : Graph) → R from to → Within g → Holds Within (add_edge from to g)
  unfolding add_edge
  add_edge-Within from to g r w = elim (Bool-cases (from == "" || to == "")) [
    | inl blank ↦ simp (add_edge, blank) tt
    | inr named ↦ elim (Option-cases (g.scheduler.subtasks from)) [
      | inl missing ↦ simp (add_edge, named, missing) tt
      | inr (a, found) ↦ elim (Option-cases (g.scheduler.subtasks to)) [
        | inl missing ↦ simp (add_edge, named, found, missing) tt
        | inr (b, found') ↦ elim (Bool-cases (g.edges from to)) [
          | inl old ↦ simp (add_edge, named, found, found', old) w
          | inr new ↦ simp (add_edge, named, found, found', new) (link-Within from to g r w)
        ]
      ]
    ]
  ]

  add_dependencies-Within :
      (to : String) (deps : List String) (g : Graph)
      → All (λ dep. R dep to) deps
      → Within g
      → Holds Within (add_dependencies to deps g)
  unfolding add_dependencies
  add_dependencies-Within to [] g r w = w
  add_dependencies-Within to (dep ∷ rest) g r w =
      bind-Holds Within Within (add_edge dep to g) (add_dependencies to rest)
        (add_edge-Within dep to g r.0 w) (λ g1 w1. add_dependencies-Within to rest g1 r.1 w1)

  add_all_dependencies-Within :
      (ts : List Subtask) (g : Graph)
      → All (λ t. All (λ dep. R dep t.id) t.dependencies) ts
      → Within g
      → Holds Within (add_all_dependencies ts g)
  unfolding add_all_dependencies
  add_all_dependencies-Within [] g r w = w
  add_all_dependencies-Within (t ∷ rest) g r w =
      bind-Holds Within Within (add_dependencies t.id t.dependencies g) (add_all_dependencies rest)
        (add_dependencies-Within t.id t.dependencies g r.0 w)
        (λ g1 w1. add_all_dependencies-Within rest g1 r.1 w1)

  add_dag-Within :
      (es : List Dependency) (g : Graph)
      → All (λ e. is_parallel e.type ≡ false → R e.from e.to) es
      → Within g
      → Holds Within (add_dag es g)
  unfolding add_dag
  add_dag-Within [] g r w = w
  add_dag-Within (e ∷ rest) g r w =
      bind-Holds Within Within (if is_parallel e.type then ok g else add_edge e.from e.to g)
        (add_dag rest)
        (elim (Bool-cases (is_parallel e.type)) [
          | inl parallel ↦ simp parallel w
          | inr ordered ↦ simp ordered (add_edge-Within e.from e.to g (r.0 ordered) w)
        ])
        (λ g1 w1. add_dag-Within rest g1 r.1 w1)

  finished-Within : (g : Graph) → Within g → LinksWithin R (finish_graph g)
  unfolding Within sort_dependents
  finished-Within g w p x l = w p x (
      sym (sort_dependents-contains g.scheduler p x)
      ∙ sym (
          ap (λ m. contains (m p) x)
            (queue_roots-others g.scheduler.ordered_subtask_ids (sort_dependents g.scheduler)).0)
      ∙ l)

  start-Within :
      (ts : List Subtask) (s : DagScheduler) → LinksWithin R s → LinksWithin R (add_subtasks ts s)
  unfolding add_subtasks normalize
  start-Within [] s w = w
  start-Within (t ∷ rest) s w = start-Within rest _ w

  pub build_graph-Within :
      (d : TaskDecomposition) (s : DagScheduler)
      → Declared R d
      → build_graph d ≡ built s
      → LinksWithin R s
  unfolding build_graph Within
  build_graph-Within d s r e =
      from_built (LinksWithin R) (add_all_dependencies d.subtasks (start d) >>= add_dag d.dag) s
        (Holds-imp _ _ (add_all_dependencies d.subtasks (start d) >>= add_dag d.dag) finished-Within
          (bind-Holds Within Within (add_all_dependencies d.subtasks (start d)) (add_dag d.dag)
            (add_all_dependencies-Within d.subtasks (start d) r.0
              (start-Within d.subtasks (empty_scheduler d) (λ p x l. ground (arith, l))))
            (λ g1 w1. add_dag-Within d.dag g1 r.1 w1)))
        e
