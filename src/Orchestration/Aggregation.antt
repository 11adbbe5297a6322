-- ===== src/Orchestration/Aggregation.antt =====
-- internal/orchestration/aggregation.go: how results of subtasks roll up. Text that is printed into a
-- summary (numbers, durations) is the parameter `decimal`. Collect reads a channel and two contexts: it
-- takes what its select finds at each turn. The mutex is left out: one call runs at a time.
pub mod Tally
pub mod Collected
mod Samples
use zheng_harness.Base.{
  ℕ, zero, suc, ◌+◌, String, Bool, true, false, ◌||◌, Option, none, some, List, [], ◌∷◌, ◌++◌, ◌==◌,
  ltb, if◌then◌else◌, length,
}
use zheng_harness.Base.Int.{ℤ, pos, negsuc, positive_or}
use zheng_harness.Base.Maps.{update}
use zheng_harness.Base.Text.Words.{join}
use zheng_harness.Domain.Types.{Err, failure, VerificationStatus}
use zheng_harness.Domain.Types
use zheng_harness.Orchestration.Types.{SubtaskStatus}
use Prim.Native.String.{◌++◌ as ◌+++◌, compare}
use Prim.Native.Nat.{Ordering}

-- Thirty seconds.
abbrev pub default_aggregation_timeout : ℕ
default_aggregation_timeout = 30000000000

pub data AggregationStrategy : Type 0 where
  all_succeed best_effort : AggregationStrategy
  other : String → AggregationStrategy

unfoldable pub normalize_strategy : AggregationStrategy → AggregationStrategy
normalize_strategy best_effort = best_effort
normalize_strategy all_succeed = all_succeed
normalize_strategy (AggregationStrategy.other s) = all_succeed

pub data AggregationStatus : Type 0 where
  succeeded partial_success failed timed_out : AggregationStatus
  unset : AggregationStatus

pub record AggregatedSubtaskResult : Type 0 where
  pub subtask_id : String
  pub status : SubtaskStatus
  pub output : String
  pub error : Option Err
  pub verification_status : VerificationStatus
  pub duration : ℕ

pub record TaskResult : Type 0 where
  pub subtask_id : String
  pub output : String
  pub error : Option Err
  pub verification_status : VerificationStatus
  pub duration : ℕ

pub record AggregationResult : Type 0 where
  pub strategy : AggregationStrategy
  pub status : AggregationStatus
  pub results : String → Option AggregatedSubtaskResult
  pub completed : ℕ
  pub failed : ℕ
  pub timed_out : Bool
  pub summary : String

pub record Aggregator : Type 0 where
  pub strategy : AggregationStrategy
  pub results : String → Option AggregatedSubtaskResult
  pub timeout : ℤ

unfoldable pub ensure_defaults : Aggregator → Aggregator
unfolding normalize_strategy
ensure_defaults a = record a {
  strategy = normalize_strategy a.strategy;
  timeout = pos (positive_or default_aggregation_timeout a.timeout);
}

abbrev pub has_failed : Option Err → VerificationStatus → Bool
has_failed (some e) v = true
has_failed none VerificationStatus.failed = true
has_failed none _ = false

unfoldable pub normalize_task_result : TaskResult → AggregatedSubtaskResult
normalize_task_result r = record {
  subtask_id = r.subtask_id;
  status =
      if has_failed r.error r.verification_status
      then SubtaskStatus.failed
      else SubtaskStatus.completed;
  output = r.output;
  error = r.error;
  verification_status = r.verification_status;
  duration = r.duration;
}

abbrev pub is_failed : SubtaskStatus → Bool
is_failed SubtaskStatus.failed = true
is_failed _ = false

-- The variables of the loop over the results.
pub record Fold : Type 0 where
  pub kept : String → Option AggregatedSubtaskResult
  pub results : String → Option AggregatedSubtaskResult
  pub completed : ℕ
  pub failed : ℕ
  pub failure_ids : List String

abbrev pub fold_one : Fold → AggregatedSubtaskResult → Fold
fold_one f n = record {
  kept = update f.kept n.subtask_id (some n);
  results = update f.results n.subtask_id (some n);
  completed = suc f.completed;
  failed = if is_failed n.status then suc f.failed else f.failed;
  failure_ids = if is_failed n.status then f.failure_ids ++ n.subtask_id ∷ [] else f.failure_ids;
}

unfoldable pub fold_results : Fold → List TaskResult → Fold
unfolding normalize_task_result
fold_results f [] = f
fold_results f (r ∷ rest) = fold_results (fold_one f (normalize_task_result r)) rest

-- `sort.Strings`
abbrev insert_text : String → List String → List String
insert_text a [] = a ∷ []
insert_text a (b ∷ rest) =
    let later = insert_text a rest in
    elim (compare a b) [ Ordering.gt ↦ b ∷ later | _ ↦ a ∷ b ∷ rest ]

unfoldable pub sort_texts : List String → List String
sort_texts [] = []
sort_texts (a ∷ rest) = insert_text a (sort_texts rest)

pub record Outcome : Type 0 where
  pub result : AggregationResult
  pub error : Option Err

abbrev pub outcome : AggregationStrategy → Fold → AggregationStatus → String → Option Err → Outcome
outcome strategy f status summary error = record {
  result = record {
    strategy = strategy;
    status = status;
    results = f.results;
    completed = f.completed;
    failed = f.failed;
    timed_out = false;
    summary = summary;
  };
  error = error;
}

abbrev pub first_fold : Aggregator → Fold
first_fold a = record {
  kept = a.results;
  results = λ id. none;
  completed = 0;
  failed = 0;
  failure_ids = [];
}

-- What one turn of Collect's select finds.
pub data Pick : Type 0 where
  context_done : Err → Pick
  timeout_passed : Err → Pick
  received : TaskResult → Pick
  channel_closed : Pick

abbrev pub nonnegative : ℤ → ℕ
nonnegative (pos n) = n
nonnegative (negsuc n) = 0

module _ (decimal : ℕ → String) where
  unfoldable pub failure_summary : ℕ → ℕ → List String → String
  failure_summary broken completed ids =
      decimal broken
      +++ (" of " +++ (decimal completed +++ (" subtasks failed: " +++ join ids ", ")))

  unfoldable pub success_summary : ℕ → String
  success_summary completed = "all " +++ (decimal completed +++ " subtasks succeeded")

  -- The switch of Aggregate. The second test of each branch is on the number of failures.
  unfoldable pub verdict : AggregationStrategy → Fold → Outcome
  unfolding failure_summary success_summary sort_texts
  verdict best_effort f =
      if ltb 0 f.failed
      then outcome best_effort f partial_success
          (failure_summary f.failed f.completed (sort_texts f.failure_ids)) none
      else outcome best_effort f succeeded (success_summary f.completed) none
  verdict strategy f =
      if ltb 0 f.failed
      then outcome strategy f AggregationStatus.failed
          (failure_summary f.failed f.completed (sort_texts f.failure_ids))
          (some (
            failure (
              "all-succeed aggregation failed: "
              +++ failure_summary f.failed f.completed (sort_texts f.failure_ids))))
      else outcome strategy f succeeded (success_summary f.completed) none

  unfoldable pub aggregate : Aggregator → List TaskResult → Outcome × Aggregator
  unfolding ensure_defaults fold_results verdict
  aggregate a results =
      let a' = ensure_defaults a in
      let f = fold_results (first_fold a') results in
      (verdict a'.strategy f, record a' { results = f.kept })

  unfoldable pub timeout_summary : ℕ → ℕ → String
  timeout_summary collected expected =
      "timed out waiting for results: collected "
      +++ (decimal collected +++ (" of " +++ decimal expected))

  abbrev pub closed_error : ℕ → ℕ → Err
  closed_error collected expected = failure (
      "result channel closed after "
      +++ (decimal collected +++ (" of " +++ (decimal expected +++ " results"))))

  -- The branches of the select that give up.
  unfoldable pub give_up : Aggregator → ℕ → List TaskResult → Err → Outcome × Aggregator
  unfolding aggregate timeout_summary
  give_up a expected collected e =
      let (o, a') = aggregate a collected in
      (
        record {
          result = record o.result {
            status = timed_out;
            timed_out = true;
            summary = timeout_summary (length collected) expected;
          };
          error = some e;
        },
        a',
      )

  -- Collect with the results that it has collected so far; `none` while it waits.
  unfoldable pub collect_from :
      Aggregator → ℕ → List TaskResult → List Pick → Option (Outcome × Aggregator)
  unfolding give_up
  collect_from a expected collected [] =
      if ltb (length collected) expected then none else some (aggregate a collected)
  collect_from a expected collected (received r ∷ rest) =
      let later = collect_from a expected (collected ++ r ∷ []) rest in
      if ltb (length collected) expected then later else some (aggregate a collected)
  collect_from a expected collected (context_done e ∷ rest) =
      if ltb (length collected) expected
      then some (give_up a expected collected e)
      else some (aggregate a collected)
  collect_from a expected collected (timeout_passed e ∷ rest) =
      if ltb (length collected) expected
      then some (give_up a expected collected e)
      else some (aggregate a collected)
  collect_from a expected collected (channel_closed ∷ rest) =
      if ltb (length collected) expected
      then some (give_up a expected collected (closed_error (length collected) expected))
      else some (aggregate a collected)

  -- Collect: timeoutOrDefault sets the defaults of the aggregator first.
  unfoldable pub collect : Aggregator → ℤ → List Pick → Option (Outcome × Aggregator)
  unfolding ensure_defaults collect_from
  collect a expected picks = collect_from (ensure_defaults a) (nonnegative expected) [] picks
