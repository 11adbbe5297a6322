-- ===== src/Orchestration/Scheduler/Fixed.antt =====
-- What MarkComplete leaves alone, and what it marks.
use zheng_harness.Base.{
  String, true, not, ◌&&◌, ◌||◌, List, [], ◌∷◌, ◌≡◌, ◌==◌, ◌=ℕ◌, ltb, arith, refl, sym, ap, ◌∙◌,
  inl, inr, Bool-cases, Option-cases, str_eq_iff,
}
use zheng_harness.Base.Maps.{update}
use zheng_harness.Orchestration.Scheduler.{
  DagScheduler, lower_count, enqueue_if_ready, release, mark_complete_ids,
}
use zheng_harness.Orchestration.Scheduler.Invariant.{is_known}
use zheng_harness.Orchestration.Scheduler.Completion.{lowered}

-- The fields that releasing dependents leaves alone.
abbrev pub SameFixed : DagScheduler → DagScheduler → Type 0
SameFixed r s =
    (r.dependents ≡ s.dependents)
    × (r.ordered_subtask_ids ≡ s.ordered_subtask_ids)
    × (r.subtasks ≡ s.subtasks)
    × (r.scheduled ≡ s.scheduled)

enqueue-fixed :
    (s : DagScheduler) (newly : List String) (d : String)
    → let r = (enqueue_if_ready d (s, newly)).0 in SameFixed r s × (r.completed ≡ s.completed)
unfolding enqueue_if_ready
enqueue-fixed s newly d =
    elim (Bool-cases (s.dependency_count d =ℕ 0 && not (s.scheduled d) && not (s.queued d))) [
      | inl joins ↦ simp joins ((refl, refl, refl, refl), refl)
      | inr waits ↦ simp waits ((refl, refl, refl, refl), refl)
    ]

step-fixed :
    (s : DagScheduler) (newly : List String) (d : String)
    → let r = (enqueue_if_ready d (lower_count d s, newly)).0 in
      SameFixed r s × (r.completed ≡ s.completed)
unfolding lower_count
step-fixed s newly d = elim (Bool-cases (ltb 0 (s.dependency_count d))) [
  | inl lowers ↦ simp lowers (enqueue-fixed (lowered d s) newly d)
  | inr at_zero ↦ simp at_zero (enqueue-fixed s newly d)
]

release-fixed :
    (ds : List String) (s : DagScheduler) (newly : List String)
    → SameFixed (release ds (s, newly)).0 s × ((release ds (s, newly)).0.completed ≡ s.completed)
unfolding release
release-fixed [] s newly = ((refl, refl, refl, refl), refl)
release-fixed (d ∷ rest) s newly = elim (Bool-cases (s.completed d)) [
  | inl done ↦ rw (release, done) (release-fixed rest s newly)
  | inr c ↦
      let r = enqueue_if_ready d (lower_count d s, newly) in
      let ((a, b, e, f), h) = step-fixed s newly d in
      let ((a', b', e', f'), h') = release-fixed rest r.0 r.1 in
      rw (release, c) ((a' ∙ a, b' ∙ b, e' ∙ e, f' ∙ f), h' ∙ h)
]

pub mark_complete_ids-fixed :
    (id : String) (s : DagScheduler) → SameFixed (mark_complete_ids id s).0 s
unfolding mark_complete_ids
mark_complete_ids-fixed id s = elim (Option-cases (s.subtasks id)) [
  | inl missing ↦ simp missing (refl, refl, refl, refl)
  | inr (t, found) ↦ elim (Bool-cases (s.completed id)) [
    | inl done ↦ simp (found, done) (refl, refl, refl, refl)
    | inr c ↦
        simp (found, c)
          (release-fixed (s.dependents id) (record s { completed = update s.completed id true })
            []).0
  ]
]

pub mark_complete_ids-completed :
    (id : String) (s : DagScheduler) (x : String)
    → (mark_complete_ids id s).0.completed x
      ≡ (s.completed x || (id == x && is_known (s.subtasks x)))
unfolding mark_complete_ids
mark_complete_ids-completed id s x = elim (Option-cases (s.subtasks id)) [
  | inl missing ↦ simp missing (elim (Bool-cases (id == x)) [
    | inl e ↦ ground (arith, e, ap is_known (ap s.subtasks (sym ((str_eq_iff id x).0 e)) ∙ missing))
    | inr n ↦ ground (arith, n)
  ])
  | inr (t, found) ↦ elim (Bool-cases (s.completed id)) [
    | inl done ↦
        simp (found, done)
          (elim (Bool-cases (id == x)) [
            | inl e ↦ ground (arith, e, ap s.completed (sym ((str_eq_iff id x).0 e)) ∙ done)
            | inr n ↦ ground (arith, n)
          ])
    | inr c ↦
        simp (found, c)
          (ap (λ m. m x)
              (release-fixed (s.dependents id) (record s { completed = update s.completed id true })
                []).1
            ∙ elim (Bool-cases (id == x)) [
              | inl e ↦
                  ground
                    (arith, e, ap is_known (ap s.subtasks (sym ((str_eq_iff id x).0 e)) ∙ found))
              | inr n ↦ ground (arith, n)
            ])
  ]
]
