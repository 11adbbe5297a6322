-- ===== src/Orchestration/Scheduler/Calls.antt =====
-- A client's calls of Schedule and MarkComplete in any order, and the ids that it is handed.
use zheng_harness.Base.{
  String, Bool, true, false, ◌&&◌, ◌||◌, List, [], ◌∷◌, ◌++◌, ◌≡◌, ◌==◌, contains, Distinct, arith,
  refl, sym, ap, ◌∙◌, contains-append, Distinct-append,
}
use zheng_harness.Orchestration.Scheduler.{DagScheduler, schedule_ids, mark_complete_ids}
use zheng_harness.Orchestration.Scheduler.Invariant.{Inv}
use zheng_harness.Orchestration.Scheduler.Completion.{mark_complete_ids-Inv}
use zheng_harness.Orchestration.Scheduler.Fixed.{
  mark_complete_ids-fixed, mark_complete_ids-completed,
}
use zheng_harness.Orchestration.Scheduler.Batches.{
  take_batch-others, take_batch-scheduled, schedule_ids-Inv,
}

pub data Call : Type 0 where
  next_batch : Call
  completes : String → Call

unfoldable pub call : Call → DagScheduler → DagScheduler × List String
unfolding schedule_ids mark_complete_ids
call next_batch s = schedule_ids s
call (completes id) s = ((mark_complete_ids id s).0, [])

-- The state after the calls, and all the ids that Schedule returned, in order.
unfoldable pub run_calls : List Call → DagScheduler → DagScheduler × List String
unfolding call
run_calls [] s = (s, [])
run_calls (c ∷ cs) s = let r = call c s in let rest = run_calls cs r.0 in (rest.0, r.1 ++ rest.1)

-- Whether MarkComplete was called for an id.
abbrev reports : Call → String → Bool
reports next_batch x = false
reports (completes id) x = id == x

abbrev pub reported : List Call → String → Bool
reported [] x = false
reported (c ∷ cs) x = reports c x || reported cs x

-- What one call does, by the invariant.
pub record Effect (c : Call) (s : DagScheduler) : Type 0 where
  pub keeps : Inv [] (call c s).0
  pub same_dependents : (call c s).0.dependents ≡ s.dependents
  pub same_order : (call c s).0.ordered_subtask_ids ≡ s.ordered_subtask_ids
  pub hands_once : Distinct (call c s).1
  pub hands_new : (x : String) → contains (call c s).1 x ≡ true → s.scheduled x ≡ false
  pub schedules :
      (x : String) → (call c s).0.scheduled x ≡ (contains (call c s).1 x || s.scheduled x)
  pub completed_by :
      (x : String)
      → (call c s).0.completed x
        ≡ (s.completed x || (reports c x && contains s.ordered_subtask_ids x))
  -- What is handed out has no open predecessor.
  pub hands_ready :
      (p x : String)
      → contains (call c s).1 x ≡ true
      → contains (s.dependents p) x ≡ true
      → s.completed p ≡ true

call-Effect : (c : Call) (s : DagScheduler) → Inv [] s → Effect c s
unfolding call schedule_ids
call-Effect next_batch s inv =
    let same = take_batch-others s.ready_queue (record s { ready_queue = [] }) in
    record {
      keeps = schedule_ids-Inv s inv;
      same_dependents = ap (λ r. r.dependents) same;
      same_order = ap (λ r. r.ordered_subtask_ids) same;
      hands_once = inv.queue_distinct;
      hands_new = λ x h. inv.fresh x (sym (inv.queue_marks x) ∙ h);
      schedules = λ x. take_batch-scheduled s.ready_queue (record s { ready_queue = [] }) x;
      completed_by = λ x. ap (λ r. r.completed x) same ∙ ground arith;
      hands_ready = λ p x h l. inv.released p x l (ground (arith, inv.queue_marks x, h));
    }
call-Effect (completes id) s inv =
    let (deps, order, known, sched) = mark_complete_ids-fixed id s in
    record {
      keeps = mark_complete_ids-Inv id s inv;
      same_dependents = deps;
      same_order = order;
      hands_once = tt;
      hands_new = λ x h. ground (arith, h);
      schedules = λ x. ap (λ m. m x) sched;
      completed_by = λ x. ground (arith, mark_complete_ids-completed id s x, inv.known x);
      hands_ready = λ p x h l. ground (arith, h);
    }

-- What a sequence of calls does, by the invariant.
pub record Effects (cs : List Call) (s : DagScheduler) : Type 0 where
  pub keeps : Inv [] (run_calls cs s).0
  pub same_dependents : (run_calls cs s).0.dependents ≡ s.dependents
  pub same_order : (run_calls cs s).0.ordered_subtask_ids ≡ s.ordered_subtask_ids
  pub hands_once : Distinct (run_calls cs s).1
  pub hands_new : (x : String) → contains (run_calls cs s).1 x ≡ true → s.scheduled x ≡ false
  pub schedules :
      (x : String)
      → (run_calls cs s).0.scheduled x ≡ (contains (run_calls cs s).1 x || s.scheduled x)
  pub completed_by :
      (x : String)
      → (run_calls cs s).0.completed x
        ≡ (s.completed x || (reported cs x && contains s.ordered_subtask_ids x))

pub run_calls-Effects : (cs : List Call) (s : DagScheduler) → Inv [] s → Effects cs s
unfolding run_calls
run_calls-Effects [] s inv = record {
  keeps = inv;
  same_dependents = refl;
  same_order = refl;
  hands_once = tt;
  hands_new = λ x h. ground (arith, h);
  schedules = λ x. refl;
  completed_by = λ x. ground arith;
}
run_calls-Effects (c ∷ cs) s inv =
    let one = call-Effect c s inv in
    let s' = (call c s).0 in
    let rest = run_calls-Effects cs s' one.keeps in
    let out = (call c s).1 in
    let more = (run_calls cs s').1 in
    record {
      keeps = rest.keeps;
      same_dependents = rest.same_dependents ∙ one.same_dependents;
      same_order = rest.same_order ∙ one.same_order;
      hands_once =
          Distinct-append out more one.hands_once rest.hands_once
            (λ a h. ground (arith, one.schedules a, rest.hands_new a, h));
      hands_new = λ x h. ground (
        arith,
        contains-append out more x,
        one.hands_new x,
        one.schedules x,
        rest.hands_new x,
        h,
      );
      schedules =
          λ x. ground (arith, contains-append out more x, one.schedules x, rest.schedules x);
      completed_by = λ x.
          ground
            (arith, one.completed_by x, rest.completed_by x, ap (λ o. contains o x) one.same_order);
    }

pub call-hands_ready :
    (s : DagScheduler) (p x : String)
    → Inv [] s
    → contains (schedule_ids s).1 x ≡ true
    → contains (s.dependents p) x ≡ true
    → s.completed p ≡ true
unfolding call
call-hands_ready s p x inv = (call-Effect next_batch s inv).hands_ready p x
