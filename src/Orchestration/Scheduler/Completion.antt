-- ===== src/Orchestration/Scheduler/Completion.antt =====
-- MarkComplete keeps the invariant: marking, the step for one dependent, and the sorted queue.
use zheng_harness.Base.{
  ◌+◌, ◌-◌, String, true, false, not, ◌&&◌, ◌||◌, List, [], ◌∷◌, ◌++◌, ◌≡◌, ◌==◌, ◌=ℕ◌, ltb,
  contains, Distinct, if◌then◌else◌, arith, refl, sym, ap, subst, ◌∙◌, inl, inr, Bool-cases,
  Option-cases, str_eq_iff, str_eq_refl, count-drop, count-same, count-zero, contains-append,
  Distinct-append,
}
use zheng_harness.Base.Maps.{update}
use zheng_harness.Orchestration.Scheduler.{
  DagScheduler, lower_count, enqueue_if_ready, release, mark_complete_ids, sort_ids,
}
use zheng_harness.Orchestration.Scheduler.Invariant.{Inv, blockers, is_known}
use zheng_harness.Orchestration.Scheduler.Sorting.{contains-sort_ids, sort_ids-Distinct}

-- What completing one subtask does to the number of open predecessors of another.
blockers-marked :
    (s : DagScheduler) (id d : String)
    → Inv [] s
    → contains s.ordered_subtask_ids id ≡ true
    → s.completed id ≡ false
    → blockers s d
      ≡ blockers (record s { completed = update s.completed id true }) d
        + (if contains (s.dependents id) d then 1 else 0)
blockers-marked s id d inv here fresh = elim (Bool-cases (contains (s.dependents id) d)) [
  | inl linked ↦
      let drop =
        count-drop (λ p. contains (s.dependents p) d && not (s.completed p))
          (λ p. contains (s.dependents p) d && not (update s.completed id true p)) id
          s.ordered_subtask_ids inv.ordered_distinct here (ground (arith, linked, fresh))
          (ground (arith, str_eq_refl id)) (λ a ne. ground (arith, str_eq_iff id a, ne)) in
      rw linked (omega (arith, drop))
  | inr apart ↦
      let same =
        count-same (λ p. contains (s.dependents p) d && not (s.completed p))
          (λ p. contains (s.dependents p) d && not (update s.completed id true p))
          s.ordered_subtask_ids
          (λ a c. elim (Bool-cases (id == a)) [
            | inl e ↦ rw (← (str_eq_iff id a).0 e, apart) refl
            | inr n ↦ rw n refl
          ]) in
      rw apart (omega (arith, same))
]

marked-Inv :
    (s : DagScheduler) (id : String)
    → Inv [] s
    → contains s.ordered_subtask_ids id ≡ true
    → s.completed id ≡ false
    → Inv (s.dependents id) (record s { completed = update s.completed id true })
marked-Inv s id inv here fresh = record {
  ordered_distinct = inv.ordered_distinct;
  known = inv.known;
  links_distinct = inv.links_distinct;
  links_known = inv.links_known;
  queue_distinct = inv.queue_distinct;
  queue_marks = inv.queue_marks;
  fresh = inv.fresh;
  released = λ p d l q. ground (arith, inv.released p d l q);
  counts = λ d c. ground (arith, inv.counts d, c, blockers-marked s id d inv here fresh);
  ready = λ d k c z. inv.ready d k (ground (arith, c)) z;
}

-- A dependent that is complete is passed over.
skip-Inv :
    (s : DagScheduler) (d : String) (rest : List String)
    → s.completed d ≡ true
    → Inv (d ∷ rest) s
    → Inv rest s
skip-Inv s d rest done inv = record {
  ordered_distinct = inv.ordered_distinct;
  known = inv.known;
  links_distinct = inv.links_distinct;
  links_known = inv.links_known;
  queue_distinct = inv.queue_distinct;
  queue_marks = inv.queue_marks;
  fresh = inv.fresh;
  released = inv.released;
  counts = λ x c. ground (arith, inv.counts x c, str_eq_iff d x, done);
  ready = inv.ready;
}

abbrev pub lowered : String → DagScheduler → DagScheduler
lowered d s = record s { dependency_count = update s.dependency_count d (s.dependency_count d - 1) }

abbrev enqueued : String → DagScheduler → DagScheduler
enqueued d s = record s { ready_queue = s.ready_queue ++ d ∷ []; queued = update s.queued d true }

lower_count-open :
    (s : DagScheduler) (d : String) (rest : List String)
    → s.completed d ≡ false
    → Inv (d ∷ rest) s
    → lower_count d s ≡ lowered d s
unfolding lower_count
lower_count-open s d rest c inv =
    let positive : ltb 0 (s.dependency_count d) ≡ true =
      ground (arith, inv.counts d c, str_eq_refl d) in
    rw positive refl

lowered-counts :
    (s : DagScheduler) (d : String) (rest : List String)
    → Distinct (d ∷ rest)
    → Inv (d ∷ rest) s
    → (x : String) → s.completed x ≡ false
    → (lowered d s).dependency_count x ≡ blockers s x + (if contains rest x then 1 else 0)
lowered-counts s d rest distinct inv x c = elim (Bool-cases (d == x)) [
  | inl e ↦
      let e' = (str_eq_iff d x).0 e in
      rw e (
        ground
          (arith, inv.counts x c, e, ap s.dependency_count e', ap (contains rest) e', distinct.0))
  | inr n ↦ rw n (ground (arith, inv.counts x c, n))
]

-- A dependent whose last predecessor is complete joins the queue.
enqueued-Inv :
    (s : DagScheduler) (d : String) (rest : List String)
    → Distinct (d ∷ rest)
    → Inv (d ∷ rest) s
    → s.completed d ≡ false
    → (lowered d s).dependency_count d ≡ 0
    → s.scheduled d ≡ false
    → s.queued d ≡ false
    → Inv rest (enqueued d (lowered d s))
enqueued-Inv s d rest distinct inv c z unscheduled unqueued = record {
  ordered_distinct = inv.ordered_distinct;
  known = inv.known;
  links_distinct = inv.links_distinct;
  links_known = inv.links_known;
  queue_distinct =
      Distinct-append s.ready_queue (d ∷ []) inv.queue_distinct (refl, tt)
        (λ a h. ground (arith, str_eq_iff d a, inv.queue_marks a, inv.queue_marks d, h, unqueued));
  queue_marks = λ x. ground (arith, contains-append s.ready_queue (d ∷ []) x, inv.queue_marks x);
  fresh = λ x q. ground (arith, inv.fresh x, str_eq_iff d x, q, unscheduled);
  released = λ p x l q. elim (Bool-cases (d == x)) [
    | inl e ↦
        let none_open = lowered-counts s d rest distinct inv d c in
        let l' = subst (λ y. contains (s.dependents p) y ≡ true) (sym ((str_eq_iff d x).0 e)) l in
        let zero_open =
          count-zero (λ r. contains (s.dependents r) d && not (s.completed r)) s.ordered_subtask_ids
            p (omega (arith, none_open, z)) (inv.links_known p d l') in
        ground (arith, zero_open, l')
    | inr n ↦ inv.released p x l (ground (arith, q, n))
  ];
  counts = lowered-counts s d rest distinct inv;
  ready = λ x k cx zx. elim (Bool-cases (d == x)) [
    | inl e ↦ rw e refl
    | inr n ↦ rw n (inv.ready x k cx (ground (arith, zx, n)))
  ];
}

waiting-Inv :
    (s : DagScheduler) (d : String) (rest : List String)
    → Distinct (d ∷ rest)
    → Inv (d ∷ rest) s
    → ((lowered d s).dependency_count d ≡ 0 → (s.queued d || s.scheduled d) ≡ true)
    → Inv rest (lowered d s)
waiting-Inv s d rest distinct inv waits = record {
  ordered_distinct = inv.ordered_distinct;
  known = inv.known;
  links_distinct = inv.links_distinct;
  links_known = inv.links_known;
  queue_distinct = inv.queue_distinct;
  queue_marks = inv.queue_marks;
  fresh = inv.fresh;
  released = inv.released;
  counts = lowered-counts s d rest distinct inv;
  ready = λ x k cx zx. elim (Bool-cases (d == x)) [
    | inl e ↦
        let e' = (str_eq_iff d x).0 e in
        subst (λ y. (s.queued y || s.scheduled y) ≡ true) e'
          (waits (subst (λ y. (lowered d s).dependency_count y ≡ 0) (sym e') zx))
    | inr n ↦ inv.ready x k cx (ground (arith, zx, n))
  ];
}

step-Inv :
    (s : DagScheduler) (newly : List String) (d : String) (rest : List String)
    → Distinct (d ∷ rest)
    → Inv (d ∷ rest) s
    → s.completed d ≡ false
    → Inv rest (enqueue_if_ready d (lower_count d s, newly)).0
unfolding enqueue_if_ready
step-Inv s newly d rest distinct inv c =
    rw (lower_count-open s d rest c inv)
      (elim (Bool-cases
        ((lowered d s).dependency_count d =ℕ 0 && not (s.scheduled d) && not (s.queued d))) [
          | inl joins ↦ simp joins (
              enqueued-Inv s d rest distinct inv c (ground (arith, joins)) (ground (arith, joins))
                (ground (arith, joins)))
          | inr waits ↦
              simp waits (waiting-Inv s d rest distinct inv (λ z. ground (arith, waits, z)))
        ])

release-Inv :
    (ds : List String) (s : DagScheduler) (newly : List String)
    → Distinct ds
    → Inv ds s
    → Inv [] (release ds (s, newly)).0
unfolding release
release-Inv [] s newly distinct inv = inv
release-Inv (d ∷ rest) s newly distinct inv = elim (Bool-cases (s.completed d)) [
  | inl done ↦ rw (release, done) (release-Inv rest s newly distinct.1 (skip-Inv s d rest done inv))
  | inr c ↦
      rw (release, c)
        (release-Inv rest (enqueue_if_ready d (lower_count d s, newly)).0
          (enqueue_if_ready d (lower_count d s, newly)).1 distinct.1
          (step-Inv s newly d rest distinct inv c))
]

sorted-Inv :
    (order : List String) (s : DagScheduler)
    → Inv [] s
    → Inv [] (record s { ready_queue = sort_ids order s.ready_queue })
sorted-Inv order s inv = record {
  ordered_distinct = inv.ordered_distinct;
  known = inv.known;
  links_distinct = inv.links_distinct;
  links_known = inv.links_known;
  queue_distinct = sort_ids-Distinct order s.ready_queue inv.queue_distinct;
  queue_marks = λ d. contains-sort_ids order s.ready_queue d ∙ inv.queue_marks d;
  fresh = inv.fresh;
  released = inv.released;
  counts = inv.counts;
  ready = inv.ready;
}

pub mark_complete_ids-Inv :
    (id : String) (s : DagScheduler) → Inv [] s → Inv [] (mark_complete_ids id s).0
unfolding mark_complete_ids
mark_complete_ids-Inv id s inv = elim (Option-cases (s.subtasks id)) [
  | inl missing ↦ simp missing inv
  | inr (t, found) ↦ elim (Bool-cases (s.completed id)) [
    | inl done ↦ simp (found, done) inv
    | inr c ↦
        simp (found, c)
          (sorted-Inv s.ordered_subtask_ids
            (release (s.dependents id) (record s { completed = update s.completed id true }, [])).0
            (release-Inv (s.dependents id) (record s { completed = update s.completed id true }) []
              (inv.links_distinct id)
              (marked-Inv s id inv (sym (inv.known id) ∙ ap is_known found) c)))
  ]
]
