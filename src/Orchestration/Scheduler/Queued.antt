-- ===== src/Orchestration/Scheduler/Queued.antt =====
-- The last loop of buildGraph queues the subtasks without a predecessor: a built scheduler satisfies
-- the invariant.
use zheng_harness.Base.{
  String, true, false, not, ◌&&◌, ◌||◌, List, [], ◌∷◌, ◌++◌, ◌≡◌, ◌=ℕ◌, contains, Distinct, count,
  arith, refl, sym, ap, subst, ◌∙◌, inl, inr, Bool-cases, str_eq_iff, str_eq_refl, count-same,
  count-zero, contains-append, Distinct-append,
}
use zheng_harness.Base.Maps.{update}
use zheng_harness.Orchestration.Scheduler.{DagScheduler}
use zheng_harness.Orchestration.Scheduler.Invariant.{Inv, blockers, is_known}
use zheng_harness.Orchestration.Scheduler.Build.{Graph, sort_dependents, queue_roots, finish_graph}
use zheng_harness.Orchestration.Scheduler.Links.{Linked}
use zheng_harness.Orchestration.Scheduler.Roots.{sort_dependents-contains, sort_dependents-Distinct}

-- While the roots are queued; `left` are the ids still to be looked at.
record Rooting (left : List String) (s : DagScheduler) : Type 0 where
  ordered_distinct : Distinct s.ordered_subtask_ids
  known : (id : String) → is_known (s.subtasks id) ≡ contains s.ordered_subtask_ids id
  links_distinct : (p : String) → Distinct (s.dependents p)
  links_known :
      (p d : String) → contains (s.dependents p) d ≡ true → contains s.ordered_subtask_ids p ≡ true
  counts :
      (d : String)
      → s.dependency_count d ≡ count (λ p. contains (s.dependents p) d) s.ordered_subtask_ids
  untouched : (d : String) → (s.scheduled d ≡ false) × (s.completed d ≡ false)
  queue_distinct : Distinct s.ready_queue
  queue_marks : (d : String) → contains s.ready_queue d ≡ s.queued d
  not_yet : (d : String) → contains left d ≡ true → s.queued d ≡ false
  only_roots : (d : String) → s.queued d ≡ true → s.dependency_count d ≡ 0
  all_roots :
      (d : String)
      → contains s.ordered_subtask_ids d ≡ true
      → s.dependency_count d ≡ 0
      → (s.queued d || contains left d) ≡ true

sorted-Rooting :
    (g : Graph) → Linked g → Rooting g.scheduler.ordered_subtask_ids (sort_dependents g.scheduler)
unfolding sort_dependents
sorted-Rooting g inv = record {
  ordered_distinct = inv.ordered_distinct;
  known = inv.known;
  links_distinct = λ p. sort_dependents-Distinct g.scheduler p (inv.links_distinct p);
  links_known = λ p d l. inv.links_known p d (sym (sort_dependents-contains g.scheduler p d) ∙ l);
  counts = λ d.
      inv.counts d
      ∙ count-same (λ p. contains (g.scheduler.dependents p) d)
          (λ p. contains ((sort_dependents g.scheduler).dependents p) d)
          g.scheduler.ordered_subtask_ids (λ a c. sym (sort_dependents-contains g.scheduler a d));
  untouched = λ d. ((inv.untouched d).1, (inv.untouched d).2);
  queue_distinct = subst Distinct (sym inv.no_queue) tt;
  queue_marks = λ d. ap (λ q. contains q d) inv.no_queue ∙ sym (inv.untouched d).0;
  not_yet = λ d c. (inv.untouched d).0;
  only_roots = λ d q. ground (arith, inv.untouched d, q);
  all_roots = λ d k z. ground (arith, k);
}

rooted-Inv : (s : DagScheduler) → Rooting [] s → Inv [] s
rooted-Inv s r =
    let open_counts : (d : String)
        → blockers s d ≡ count (λ p. contains (s.dependents p) d) s.ordered_subtask_ids =
      λ d.
        count-same (λ p. contains (s.dependents p) d && not (s.completed p))
          (λ p. contains (s.dependents p) d) s.ordered_subtask_ids
          (λ p c. ground (arith, r.untouched p)) in
    record {
      ordered_distinct = r.ordered_distinct;
      known = r.known;
      links_distinct = r.links_distinct;
      links_known = r.links_known;
      queue_distinct = r.queue_distinct;
      queue_marks = r.queue_marks;
      fresh = λ d q. (r.untouched d).0;
      released = λ p d l q.
          let root = r.only_roots d (ground (arith, q, r.untouched d)) in
          let apart =
            count-zero (λ x. contains (s.dependents x) d) s.ordered_subtask_ids p
              (sym (r.counts d) ∙ root) (r.links_known p d l) in
          ground (arith, apart, l);
      counts = λ d c. omega (arith, r.counts d, open_counts d);
      ready = λ d k c z. ground (arith, r.all_roots d k z);
    }

queue_roots-Rooting :
    (ids : List String) (s : DagScheduler)
    → Distinct ids
    → Rooting ids s
    → Rooting [] (queue_roots ids s)
unfolding queue_roots
queue_roots-Rooting [] s d r = r
queue_roots-Rooting (id ∷ rest) s d r = elim (Bool-cases (s.dependency_count id =ℕ 0)) [
  | inl root ↦ simp root (
      queue_roots-Rooting rest
        (record s { ready_queue = s.ready_queue ++ id ∷ []; queued = update s.queued id true }) d.1
        (record {
          ordered_distinct = r.ordered_distinct;
          known = r.known;
          links_distinct = r.links_distinct;
          links_known = r.links_known;
          counts = r.counts;
          untouched = r.untouched;
          queue_distinct =
              Distinct-append s.ready_queue (id ∷ []) r.queue_distinct (refl, tt)
                (λ a h.
                  ground (arith, str_eq_iff id a, r.queue_marks a, r.not_yet a, h, str_eq_refl a));
          queue_marks =
              λ x. ground (arith, contains-append s.ready_queue (id ∷ []) x, r.queue_marks x);
          not_yet = λ x h. ground (arith, r.not_yet x, h, d.0, str_eq_iff id x);
          only_roots = λ x q. ground (arith, r.only_roots x, q, root, str_eq_iff id x);
          all_roots = λ x k z. ground (arith, r.all_roots x k z);
        }))
  | inr blocked ↦ simp blocked (
      queue_roots-Rooting rest s d.1 (record {
        ordered_distinct = r.ordered_distinct;
        known = r.known;
        links_distinct = r.links_distinct;
        links_known = r.links_known;
        counts = r.counts;
        untouched = r.untouched;
        queue_distinct = r.queue_distinct;
        queue_marks = r.queue_marks;
        not_yet = λ x h. ground (arith, r.not_yet x, h);
        only_roots = r.only_roots;
        all_roots = λ x k z. ground (arith, r.all_roots x k z, z, blocked, str_eq_iff id x);
      }))
]

pub finish_graph-Inv : (g : Graph) → Linked g → Inv [] (finish_graph g)
unfolding sort_dependents
finish_graph-Inv g inv = rooted-Inv (finish_graph g) (
    queue_roots-Rooting g.scheduler.ordered_subtask_ids (sort_dependents g.scheduler)
      inv.ordered_distinct (sorted-Rooting g inv))

-- Queueing changes neither the links nor the marks of what is complete or handed out.
pub queue_roots-others :
    (ids : List String) (s : DagScheduler)
    → let r = queue_roots ids s in
      (r.dependents ≡ s.dependents)
      × (r.ordered_subtask_ids ≡ s.ordered_subtask_ids)
      × (r.completed ≡ s.completed)
      × (r.scheduled ≡ s.scheduled)
      × (r.subtasks ≡ s.subtasks)
unfolding queue_roots
queue_roots-others [] s = (refl, refl, refl, refl, refl)
queue_roots-others (id ∷ rest) s = elim (Bool-cases (s.dependency_count id =ℕ 0)) [
  | inl root ↦ simp root (
      queue_roots-others rest
        (record s { ready_queue = s.ready_queue ++ id ∷ []; queued = update s.queued id true }))
  | inr blocked ↦ simp blocked (queue_roots-others rest s)
]
