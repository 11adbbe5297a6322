-- ===== src/Orchestration/Scheduler/Batches.antt =====
-- Schedule keeps the invariant.
use zheng_harness.Base.{
  String, true, false, ◌||◌, List, [], ◌∷◌, ◌≡◌, contains, if◌then◌else◌, arith, refl, sym,
}
use zheng_harness.Base.Maps.{update}
use zheng_harness.Orchestration.Scheduler.{DagScheduler, take_batch, schedule_ids}
use zheng_harness.Orchestration.Scheduler.Invariant.{Inv}

pub take_batch-others :
    (ids : List String) (s : DagScheduler)
    → take_batch ids s
      ≡ record s { queued = (take_batch ids s).queued; scheduled = (take_batch ids s).scheduled }
unfolding take_batch
take_batch-others [] s = refl
take_batch-others (id ∷ rest) s =
    take_batch-others rest
      (record s { queued = update s.queued id false; scheduled = update s.scheduled id true })

pub take_batch-queued :
    (ids : List String) (s : DagScheduler) (d : String)
    → (take_batch ids s).queued d ≡ (if contains ids d then false else s.queued d)
unfolding take_batch
take_batch-queued [] s d = refl
take_batch-queued (id ∷ rest) s d = ground (
  arith,
  take_batch-queued rest
      (record s { queued = update s.queued id false; scheduled = update s.scheduled id true }) d,
)

pub take_batch-scheduled :
    (ids : List String) (s : DagScheduler) (d : String)
    → (take_batch ids s).scheduled d ≡ (contains ids d || s.scheduled d)
unfolding take_batch
take_batch-scheduled [] s d = refl
take_batch-scheduled (id ∷ rest) s d = ground (
  arith,
  take_batch-scheduled rest
      (record s { queued = update s.queued id false; scheduled = update s.scheduled id true }) d,
)

module _ (s : DagScheduler) (inv : Inv [] s) where
  taken : DagScheduler
  taken = take_batch s.ready_queue (record s { ready_queue = [] })

  taken-queued : (d : String) → taken.queued d ≡ false
  unfolding taken
  taken-queued d =
      ground (
        arith,
        take_batch-queued s.ready_queue (record s { ready_queue = [] }) d,
        inv.queue_marks d,
      )

  taken-scheduled : (d : String) → taken.scheduled d ≡ (s.queued d || s.scheduled d)
  unfolding taken
  taken-scheduled d = ground (
    arith,
    take_batch-scheduled s.ready_queue (record s { ready_queue = [] }) d,
    inv.queue_marks d,
  )

  taken-Inv :
      Inv [] (record s { ready_queue = []; queued = taken.queued; scheduled = taken.scheduled })
  taken-Inv = record {
    ordered_distinct = inv.ordered_distinct;
    known = inv.known;
    links_distinct = inv.links_distinct;
    links_known = inv.links_known;
    queue_distinct = tt;
    queue_marks = λ d. sym (taken-queued d);
    fresh = λ d q. ground (arith, taken-queued d, q);
    released = λ p d l q. inv.released p d l (ground (arith, taken-queued d, taken-scheduled d, q));
    counts = inv.counts;
    ready = λ d k c z. ground (arith, inv.ready d k c z, taken-scheduled d);
  }

  pub schedule_ids-Inv : Inv [] (schedule_ids s).0
  unfolding schedule_ids taken
  schedule_ids-Inv = rw (take_batch-others s.ready_queue (record s { ready_queue = [] })) taken-Inv
