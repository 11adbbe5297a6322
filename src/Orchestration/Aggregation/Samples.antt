-- ===== src/Orchestration/Aggregation/Samples.antt =====
-- Two results, one of which failed.
use zheng_harness.Base.{ℕ, String, none, some, [], ◌∷◌, ◌≡◌, refl, arith}
use zheng_harness.Base.Int.{pos}
use zheng_harness.Domain.Types.{failure, deadline_exceeded, passed}
use zheng_harness.Orchestration.Aggregation.{
  best_effort, TaskResult, Aggregator, Outcome, received, timeout_passed, aggregate, collect,
  sort_texts,
}
use zheng_harness.Orchestration.Aggregation.Tally.{IsTally, aggregate-IsTally}
use zheng_harness.Orchestration.Aggregation.Collected.{GivesUp, collect_enough, collect_short}

abbrev digits : ℕ → String
digits n = "?"

abbrev good : TaskResult
good = record {
  subtask_id = "b";
  output = "done";
  error = none;
  verification_status = passed;
  duration = 3;
}

abbrev bad : TaskResult
bad = record good { subtask_id = "a"; error = some (failure "no") }

abbrev aggregator : Aggregator
aggregator = record { strategy = best_effort; results = λ id. none; timeout = pos 0 }

sorted : sort_texts ("b" ∷ "a" ∷ "c" ∷ []) ≡ "a" ∷ "b" ∷ "c" ∷ []
unfolding sort_texts
sorted = refl

aggregate-IsTally_example :
    IsTally aggregator (good ∷ bad ∷ []) (aggregate digits aggregator (good ∷ bad ∷ []))
aggregate-IsTally_example = aggregate-IsTally digits aggregator (good ∷ bad ∷ [])

collect_enough_example :
    collect digits aggregator (pos 2) (received good ∷ received bad ∷ received good ∷ [])
    ≡ some (aggregate digits aggregator (good ∷ bad ∷ []))
collect_enough_example = collect_enough digits aggregator (good ∷ bad ∷ []) (received good ∷ [])

collect_short_example :
    (y : Outcome × Aggregator) × (collect digits aggregator
        (pos 2)
        (received good ∷ timeout_passed deadline_exceeded ∷ [])
      ≡ some y)
    × GivesUp aggregator (good ∷ []) y
collect_short_example =
    collect_short digits aggregator 2 (good ∷ []) (timeout_passed deadline_exceeded) []
      (omega arith) tt
