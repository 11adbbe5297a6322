-- ===== src/Orchestration/Scheduler/Roots.antt =====
-- The first loop of buildGraph, which enters the subtasks, and the order of the dependents.
use zheng_harness.Base.{
  String, Bool, true, false, ◌||◌, some, List, [], ◌∷◌, ◌++◌, map, ◌≡◌, ltb, length, contains,
  Distinct, count, arith, refl, sym, ap, subst, ◌∙◌, inl, inr, Bool-cases, str_eq_iff, str_eq_refl,
  contains-append, Distinct-append,
}
use zheng_harness.Base.Maps.{update}
use zheng_harness.Orchestration.Types.{Subtask, TaskDecomposition, normalize}
use zheng_harness.Orchestration.Scheduler.{DagScheduler, positions}
use zheng_harness.Orchestration.Scheduler.Invariant.{is_known}
use zheng_harness.Orchestration.Scheduler.Sorting.{contains-stable_sort, stable_sort-Distinct}
use zheng_harness.Orchestration.Scheduler.Build.{add_subtasks, sort_dependents, empty_scheduler}
use zheng_harness.Orchestration.Scheduler.Links.{Linked}

-- While the subtasks are entered.
record Fresh (s : DagScheduler) : Type 0 where
  ordered_distinct : Distinct s.ordered_subtask_ids
  known : (id : String) → is_known (s.subtasks id) ≡ contains s.ordered_subtask_ids id
  no_links : (p : String) → s.dependents p ≡ []
  no_counts : (d : String) → s.dependency_count d ≡ 0
  no_queue : s.ready_queue ≡ []
  untouched :
      (d : String) → (s.queued d ≡ false) × (s.scheduled d ≡ false) × (s.completed d ≡ false)

abbrev pub ids_of : List Subtask → List String
ids_of = map (λ t. t.id)

add_subtasks-Fresh :
    (ts : List Subtask) (s : DagScheduler)
    → Distinct (ids_of ts)
    → ((a : String) → contains (ids_of ts) a ≡ true → contains s.ordered_subtask_ids a ≡ false)
    → Fresh s
    → Fresh (add_subtasks ts s)
unfolding add_subtasks normalize
add_subtasks-Fresh [] s d new fresh = fresh
add_subtasks-Fresh (t ∷ rest) s d new fresh =
    add_subtasks-Fresh rest
      (record s {
        subtasks = update s.subtasks t.id (some (normalize t));
        ordered_subtask_ids = s.ordered_subtask_ids ++ t.id ∷ [];
        dependency_count = update s.dependency_count t.id 0;
      })
      d.1
      (λ a h. ground (
        arith,
        contains-append s.ordered_subtask_ids (t.id ∷ []) a,
        new a,
        h,
        str_eq_iff t.id a,
        d.0,
      ))
      (record {
        ordered_distinct =
            Distinct-append s.ordered_subtask_ids (t.id ∷ []) fresh.ordered_distinct (refl, tt)
              (λ a h. ground (arith, str_eq_iff t.id a, new a, h, str_eq_refl a));
        known = λ id.
            ground (arith, contains-append s.ordered_subtask_ids (t.id ∷ []) id, fresh.known id);
        no_links = fresh.no_links;
        no_counts = λ x. ground (arith, fresh.no_counts x);
        no_queue = fresh.no_queue;
        untouched = fresh.untouched;
      })

pub count_none :
    (p : String → Bool) (xs : List String) → ((a : String) → p a ≡ false) → count p xs ≡ 0
count_none p [] h = refl
count_none p (x ∷ xs) h = rw (h x) (count_none p xs h)

pub start-Linked :
    (d : TaskDecomposition)
    → Distinct (ids_of d.subtasks)
    → Linked
        (record { scheduler = add_subtasks d.subtasks (empty_scheduler d); edges = λ _ _. false })
start-Linked d distinct =
    let fresh =
      add_subtasks-Fresh d.subtasks (empty_scheduler d) distinct (λ a h. refl)
        (record {
          ordered_distinct = tt;
          known = λ id. refl;
          no_links = λ p. refl;
          no_counts = λ x. refl;
          no_queue = refl;
          untouched = λ x. (refl, refl, refl);
        }) in
    let s = add_subtasks d.subtasks (empty_scheduler d) in
    let apart : (p x : String) → contains (s.dependents p) x ≡ false =
      λ p x. ap (λ l. contains l x) (fresh.no_links p) in
    record {
      ordered_distinct = fresh.ordered_distinct;
      known = fresh.known;
      links_distinct = λ p. subst Distinct (sym (fresh.no_links p)) tt;
      links_known = λ p x l. ground (arith, apart p x, l);
      counts = λ x.
          fresh.no_counts x
          ∙ sym (
              count_none (λ p. contains (s.dependents p) x) s.ordered_subtask_ids (λ p. apart p x));
      edge_marks = λ p x. sym (apart p x);
      no_queue = fresh.no_queue;
      untouched = fresh.untouched;
    }

pub sort_dependents-contains :
    (s : DagScheduler) (p d : String)
    → contains ((sort_dependents s).dependents p) d ≡ contains (s.dependents p) d
unfolding sort_dependents
sort_dependents-contains s p d =
    ground
      (arith, contains-stable_sort (positions (λ _. 0) 0 s.ordered_subtask_ids) (s.dependents p) d)

pub sort_dependents-Distinct :
    (s : DagScheduler) (p : String)
    → Distinct (s.dependents p)
    → Distinct ((sort_dependents s).dependents p)
unfolding sort_dependents
sort_dependents-Distinct s p d = elim (Bool-cases (ltb 1 (length (s.dependents p)))) [
  | inl long ↦
      rw long (stable_sort-Distinct (positions (λ _. 0) 0 s.ordered_subtask_ids) (s.dependents p) d)
  | inr short ↦ rw short d
]

pub add_subtasks-order :
    (ts : List Subtask) (s : DagScheduler) (x : String)
    → contains (add_subtasks ts s).ordered_subtask_ids x
      ≡ (contains s.ordered_subtask_ids x || contains (ids_of ts) x)
unfolding add_subtasks normalize
add_subtasks-order [] s x = ground arith
add_subtasks-order (t ∷ rest) s x =
    let s' : DagScheduler = record s {
      subtasks = update s.subtasks t.id (some (normalize t));
      ordered_subtask_ids = s.ordered_subtask_ids ++ t.id ∷ [];
      dependency_count = update s.dependency_count t.id 0;
    } in
    ground
      (arith, contains-append s.ordered_subtask_ids (t.id ∷ []) x, add_subtasks-order rest s' x)
