-- ===== src/Orchestration/Aggregation/Tally.antt =====
-- Aggregate counts, keeps the latest result of each subtask, and judges by the number of failures.
use zheng_harness.Base.{
  ℕ, zero, suc, ◌+◌, String, Bool, true, false, ◌||◌, Option, none, some, List, [], ◌∷◌, ◌==◌, ◌≡◌,
  refl, ap, ◌∙◌, arith, ltb, if◌then◌else◌, length,
}
use zheng_harness.Domain.Types.{Err, VerificationStatus}
use zheng_harness.Orchestration.Aggregation.{
  AggregationStrategy, all_succeed, best_effort, normalize_strategy, AggregationStatus, succeeded,
  partial_success, AggregatedSubtaskResult, TaskResult, Aggregator, Outcome, Fold, fold_one,
  fold_results, first_fold, has_failed, is_failed, normalize_task_result, ensure_defaults, verdict,
  aggregate,
}

abbrev pub is_error : Option Err → Bool
is_error none = false
is_error (some e) = true

abbrev refutes : VerificationStatus → Bool
refutes VerificationStatus.failed = true
refutes _ = false

-- The result has an error, or its verification failed.
abbrev pub reports_failure : TaskResult → Bool
reports_failure r = is_error r.error || refutes r.verification_status

-- How many results report a failure.
abbrev pub failures : List TaskResult → ℕ
failures [] = 0
failures (r ∷ rest) = (if reports_failure r then 1 else 0) + failures rest

-- The last result of a subtask, or `old` if there is none.
abbrev pub latest :
    String → List TaskResult → Option AggregatedSubtaskResult → Option AggregatedSubtaskResult
latest id [] old = old
latest id (r ∷ rest) old =
    latest id rest (if r.subtask_id == id then some (normalize_task_result r) else old)

has_failed-eq :
    (e : Option Err) (v : VerificationStatus) → has_failed e v ≡ (is_error e || refutes v)
has_failed-eq (some e) v = refl
has_failed-eq none VerificationStatus.failed = refl
has_failed-eq none VerificationStatus.passed = refl
has_failed-eq none VerificationStatus.not_applicable = refl
has_failed-eq none VerificationStatus.empty = refl
has_failed-eq none (VerificationStatus.other s) = refl

is_failed-normalize_task_result :
    (r : TaskResult) → is_failed (normalize_task_result r).status ≡ reports_failure r
unfolding normalize_task_result
is_failed-normalize_task_result r = ground (arith, has_failed-eq r.error r.verification_status)

-- The loop over the results.
record IsFolded (f : Fold) (rs : List TaskResult) (g : Fold) : Type 0 where
  completed : g.completed ≡ f.completed + length rs
  failed : g.failed ≡ f.failed + failures rs
  results : (id : String) → g.results id ≡ latest id rs (f.results id)
  kept : (id : String) → g.kept id ≡ latest id rs (f.kept id)

fold_results-IsFolded : (f : Fold) (rs : List TaskResult) → IsFolded f rs (fold_results f rs)
unfolding fold_results
fold_results-IsFolded f [] = record {
  completed = omega arith;
  failed = omega arith;
  results = λ id. refl;
  kept = λ id. refl;
}
fold_results-IsFolded f (r ∷ rs) =
    let h = fold_results-IsFolded (fold_one f (normalize_task_result r)) rs in
    record {
      completed = omega (arith, h.completed);
      failed = ground (arith, h.failed, is_failed-normalize_task_result r);
      results = h.results;
      kept = h.kept;
    }

-- What a strategy makes of a number of failures.
abbrev pub status_for : AggregationStrategy → ℕ → AggregationStatus
status_for strategy zero = succeeded
status_for best_effort (suc n) = partial_success
status_for all_succeed (suc n) = AggregationStatus.failed
status_for (AggregationStrategy.other s) (suc n) = AggregationStatus.failed

-- Whether it is an error.
abbrev pub raises : AggregationStrategy → ℕ → Bool
raises strategy zero = false
raises best_effort (suc n) = false
raises all_succeed (suc n) = true
raises (AggregationStrategy.other s) (suc n) = true

positive : (n : ℕ) → ltb 0 (suc n) ≡ true
positive n = ground arith

module _ (decimal : ℕ → String) where
  record IsJudged (strategy : AggregationStrategy) (f : Fold) (n : ℕ) (o : Outcome) : Type 0 where
    status : o.result.status ≡ status_for strategy n
    error : is_error o.error ≡ raises strategy n
    completed : o.result.completed ≡ f.completed
    failed : o.result.failed ≡ f.failed
    results : o.result.results ≡ f.results
    timed_out : o.result.timed_out ≡ false

  verdict-IsJudged :
      (strategy : AggregationStrategy) (f : Fold) (n : ℕ)
      → f.failed ≡ n
      → IsJudged strategy f n (verdict decimal strategy f)
  unfolding verdict
  verdict-IsJudged best_effort f zero e = rw e (record {
    status = refl;
    error = refl;
    completed = refl;
    failed = refl;
    results = refl;
    timed_out = refl;
  })
  verdict-IsJudged best_effort f (suc n) e =
      rw (e, positive n)
        (record {
          status = refl;
          error = refl;
          completed = refl;
          failed = refl;
          results = refl;
          timed_out = refl;
        })
  verdict-IsJudged all_succeed f zero e = rw e (record {
    status = refl;
    error = refl;
    completed = refl;
    failed = refl;
    results = refl;
    timed_out = refl;
  })
  verdict-IsJudged all_succeed f (suc n) e =
      rw (e, positive n)
        (record {
          status = refl;
          error = refl;
          completed = refl;
          failed = refl;
          results = refl;
          timed_out = refl;
        })
  verdict-IsJudged (AggregationStrategy.other s) f zero e = rw e (record {
    status = refl;
    error = refl;
    completed = refl;
    failed = refl;
    results = refl;
    timed_out = refl;
  })
  verdict-IsJudged (AggregationStrategy.other s) f (suc n) e =
      rw (e, positive n)
        (record {
          status = refl;
          error = refl;
          completed = refl;
          failed = refl;
          results = refl;
          timed_out = refl;
        })

-- What Aggregate returns for the results, and what it leaves in the aggregator.
pub record IsTally (a : Aggregator) (rs : List TaskResult) (x : Outcome × Aggregator) : Type 0 where
  pub completed : x.0.result.completed ≡ length rs
  pub failed : x.0.result.failed ≡ failures rs
  pub results : (id : String) → x.0.result.results id ≡ latest id rs none
  pub kept : (id : String) → x.1.results id ≡ latest id rs (a.results id)
  pub status : x.0.result.status ≡ status_for (normalize_strategy a.strategy) (failures rs)
  pub error : is_error x.0.error ≡ raises (normalize_strategy a.strategy) (failures rs)
  pub timed_out : x.0.result.timed_out ≡ false

-- Aggregate counts the results and those that failed, returns the latest result of each subtask and
-- keeps it over what the aggregator held before, and judges by the number of failures and the
-- normalised strategy alone: without failures it succeeds under both strategies; otherwise best effort
-- is a partial success and no error, and any other strategy a failure and an error.
pub aggregate-IsTally :
    (decimal : ℕ → String) (a : Aggregator) (rs : List TaskResult)
    → IsTally a rs (aggregate decimal a rs)
unfolding aggregate ensure_defaults
aggregate-IsTally decimal a rs =
    let start = first_fold (ensure_defaults a) in
    let f = fold_results start rs in
    let folded = fold_results-IsFolded start rs in
    let judged =
      verdict-IsJudged decimal (normalize_strategy a.strategy) f (failures rs)
        (omega (arith, folded.failed)) in
    record {
      completed = judged.completed ∙ omega (arith, folded.completed);
      failed = judged.failed ∙ omega (arith, folded.failed);
      results = λ id. ap (λ m. m id) judged.results ∙ folded.results id;
      kept = λ id. folded.kept id;
      status = judged.status;
      error = judged.error;
      timed_out = judged.timed_out;
    }
