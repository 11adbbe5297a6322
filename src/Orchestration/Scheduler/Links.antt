-- ===== src/Orchestration/Scheduler/Links.antt =====
-- The graph under construction in buildGraph: distinct ids, links and counts that agree.
use zheng_harness.Base.{
  String, true, false, ◌&&◌, ◌||◌, [], ◌∷◌, ◌≡◌, ◌==◌, contains, Distinct, count, arith, refl, sym,
  ap, subst, ◌∙◌, inl, inr, Bool-cases, str_eq_iff, str_eq_refl, count-drop, count-same,
  contains-append, Distinct-append,
}
use zheng_harness.Orchestration.Scheduler.Invariant.{is_known}
use zheng_harness.Orchestration.Scheduler.Build.{Graph, link}

pub record Linked (g : Graph) : Type 0 where
  pub ordered_distinct : Distinct g.scheduler.ordered_subtask_ids
  pub known :
      (id : String)
      → is_known (g.scheduler.subtasks id) ≡ contains g.scheduler.ordered_subtask_ids id
  pub links_distinct : (p : String) → Distinct (g.scheduler.dependents p)
  pub links_known :
      (p d : String)
      → contains (g.scheduler.dependents p) d ≡ true
      → contains g.scheduler.ordered_subtask_ids p ≡ true
  pub counts :
      (d : String)
      → g.scheduler.dependency_count d
        ≡ count (λ p. contains (g.scheduler.dependents p) d) g.scheduler.ordered_subtask_ids
  pub edge_marks : (p d : String) → g.edges p d ≡ contains (g.scheduler.dependents p) d
  pub no_queue : g.scheduler.ready_queue ≡ []
  pub untouched :
      (d : String)
      → (g.scheduler.queued d ≡ false)
        × (g.scheduler.scheduled d ≡ false)
        × (g.scheduler.completed d ≡ false)

-- The links after an edge from one subtask to another was added.
pub link-contains :
    (from to : String) (g : Graph) (p d : String)
    → contains ((link from to g).scheduler.dependents p) d
      ≡ (contains (g.scheduler.dependents p) d || (from == p && to == d))
unfolding link
link-contains from to g p d = elim (Bool-cases (from == p)) [
  | inl e ↦
      rw (e, contains-append (g.scheduler.dependents from) (to ∷ []) d, (str_eq_iff from p).0 e)
        (ground arith)
  | inr n ↦ rw n (ground arith)
]

link-counts :
    (from to : String) (g : Graph)
    → Linked g
    → contains g.scheduler.ordered_subtask_ids from ≡ true
    → contains (g.scheduler.dependents from) to ≡ false
    → (d : String)
    → (link from to g).scheduler.dependency_count d
      ≡ count
          (λ p. contains ((link from to g).scheduler.dependents p) d)
          g.scheduler.ordered_subtask_ids
unfolding link
link-counts from to g inv here fresh d = elim (Bool-cases (to == d)) [
  | inl e ↦
      let e' = (str_eq_iff to d).0 e in
      let more =
        count-drop (λ p. contains ((link from to g).scheduler.dependents p) d)
          (λ p. contains (g.scheduler.dependents p) d) from g.scheduler.ordered_subtask_ids
          inv.ordered_distinct here
          (ground (arith, link-contains from to g from d, str_eq_refl from, e))
          (subst (λ x. contains (g.scheduler.dependents from) x ≡ false) e' fresh)
          (λ a ne. ground (arith, link-contains from to g a d, str_eq_iff from a, ne)) in
      rw (link, e) (omega (arith, more, inv.counts d, ap g.scheduler.dependency_count e'))
  | inr n ↦
      let same =
        count-same (λ p. contains ((link from to g).scheduler.dependents p) d)
          (λ p. contains (g.scheduler.dependents p) d) g.scheduler.ordered_subtask_ids
          (λ a c. ground (arith, link-contains from to g a d, n)) in
      rw (link, n) (omega (arith, same, inv.counts d))
]

pub link-Linked :
    (from to : String) (g : Graph)
    → Linked g
    → is_known (g.scheduler.subtasks from) ≡ true
    → g.edges from to ≡ false
    → Linked (link from to g)
unfolding link
link-Linked from to g inv known fresh =
    let here = sym (inv.known from) ∙ known in
    let unlinked = sym (inv.edge_marks from to) ∙ fresh in
    record {
      ordered_distinct = inv.ordered_distinct;
      known = inv.known;
      links_distinct = λ p. elim (Bool-cases (from == p)) [
        | inl e ↦ rw e (
            Distinct-append (g.scheduler.dependents from) (to ∷ []) (inv.links_distinct from)
              (refl, tt) (λ a h. ground (arith, str_eq_iff to a, unlinked, h)))
        | inr n ↦ rw n (inv.links_distinct p)
      ];
      links_known = λ p d l.
          ground
            (arith, link-contains from to g p d, inv.links_known p d, l, here, str_eq_iff from p);
      counts = link-counts from to g inv here unlinked;
      edge_marks = λ p d. ground (
        arith,
        link-contains from to g p d,
        inv.edge_marks p d,
        inv.edge_marks from d,
        str_eq_iff from p,
      );
      no_queue = inv.no_queue;
      untouched = inv.untouched;
    }
