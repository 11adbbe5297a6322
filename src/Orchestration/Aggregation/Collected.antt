-- ===== src/Orchestration/Aggregation/Collected.antt =====
-- Collect: enough results are aggregated, and what ends the wait before is reported.
use zheng_harness.Base.{
  ℕ, zero, suc, ◌+◌, ◌<◌, ◌≤◌, String, true, false, none, some, List, [], ◌∷◌, ◌++◌, ◌≡◌, refl, sym,
  ap, ◌∙◌, arith, ltb, map, length, length-append,
}
use zheng_harness.Base.Int.{ℤ, pos, negsuc, positive_or}
use zheng_harness.Domain.Types.{Err}
use mathlib.Core.List.{append_assoc, append-nil}
use zheng_harness.Orchestration.Aggregation.{
  AggregationStrategy, best_effort, all_succeed, normalize_strategy, TaskResult, Aggregator,
  Outcome, Pick, received, context_done, timeout_passed, channel_closed, timed_out, ensure_defaults,
  aggregate, give_up, closed_error, fold_results, first_fold, verdict, collect_from, collect,
  default_aggregation_timeout,
}
use zheng_harness.Orchestration.Aggregation.Tally.{aggregate-IsTally, is_error, latest}

normalize_strategy_again :
    (s : AggregationStrategy) → normalize_strategy (normalize_strategy s) ≡ normalize_strategy s
unfolding normalize_strategy
normalize_strategy_again best_effort = refl
normalize_strategy_again all_succeed = refl
normalize_strategy_again (AggregationStrategy.other s) = refl

positive_or_again :
    (t : ℤ)
    → positive_or default_aggregation_timeout (pos (positive_or default_aggregation_timeout t))
      ≡ positive_or default_aggregation_timeout t
positive_or_again (pos zero) = refl
positive_or_again (pos (suc n)) = refl
positive_or_again (negsuc n) = refl

ensure_defaults_again : (a : Aggregator) → ensure_defaults (ensure_defaults a) ≡ ensure_defaults a
unfolding ensure_defaults
ensure_defaults_again a = rw (normalize_strategy_again a.strategy, positive_or_again a.timeout) refl

below : (n m : ℕ) → n < m → ltb n m ≡ true
below n m h = ground (arith, h)

level : (n : ℕ) → ltb n n ≡ false
level n = ground arith

module _ (decimal : ℕ → String) (a : Aggregator) where
  -- The results that arrive are collected as long as there are too few.
  collect_from-received :
      (n : ℕ) (got rs : List TaskResult) (rest : List Pick)
      → length got + length rs ≤ n
      → collect_from decimal a n got (map received rs ++ rest)
        ≡ collect_from decimal a n (got ++ rs) rest
  unfolding collect_from
  collect_from-received n got [] rest e =
      ap (λ l. collect_from decimal a n l rest) (sym (append-nil got))
  collect_from-received n got (r ∷ rs) rest e = rw (below (length got) n (omega (arith, e))) (
      collect_from-received n (got ++ r ∷ []) rs rest
        (omega (arith, e, length-append {0} got (r ∷ [])))
      ∙ ap (λ l. collect_from decimal a n l rest) (append_assoc got (r ∷ []) rs))

  -- Enough results end the loop, whatever comes then.
  collect_from_full :
      (n : ℕ) (got : List TaskResult) (rest : List Pick)
      → ltb (length got) n ≡ false
      → collect_from decimal a n got rest ≡ some (aggregate decimal a got)
  unfolding collect_from
  collect_from_full n got [] h = rw h refl
  collect_from_full n got (received r ∷ rest) h = rw h refl
  collect_from_full n got (context_done e ∷ rest) h = rw h refl
  collect_from_full n got (timeout_passed e ∷ rest) h = rw h refl
  collect_from_full n got (channel_closed ∷ rest) h = rw h refl

aggregate-ensure_defaults :
    (decimal : ℕ → String) (a : Aggregator) (rs : List TaskResult)
    → aggregate decimal (ensure_defaults a) rs ≡ aggregate decimal a rs
unfolding aggregate
aggregate-ensure_defaults decimal a rs =
    ap
      (λ b.
        let f = fold_results (first_fold b) rs in
        (verdict decimal b.strategy f, record b { results = f.kept }))
      (ensure_defaults_again a)

-- As soon as as many results as expected have arrived, Collect returns what Aggregate returns for them,
-- and leaves the aggregator as Aggregate does, whatever its select would find later.
pub collect_enough :
    (decimal : ℕ → String) (a : Aggregator) (rs : List TaskResult) (rest : List Pick)
    → collect decimal a (pos (length rs)) (map received rs ++ rest) ≡ some (aggregate decimal a rs)
unfolding collect
collect_enough decimal a rs rest =
    collect_from-received decimal (ensure_defaults a) (length rs) [] rs rest (omega arith)
    ∙ (collect_from_full decimal (ensure_defaults a) (length rs) rs rest (level (length rs))
        ∙ ap some (aggregate-ensure_defaults decimal a rs))

-- What ends the wait: a context that is done, the timeout, the channel's end.
abbrev pub IsEnd : Pick → Type 0
IsEnd (received r) = ⊥
IsEnd _ = Unit

pub record GivesUp (a : Aggregator) (rs : List TaskResult) (x : Outcome × Aggregator) : Type 0 where
  pub status : x.0.result.status ≡ timed_out
  pub timed_out : x.0.result.timed_out ≡ true
  pub error : is_error x.0.error ≡ true
  pub completed : x.0.result.completed ≡ length rs
  pub results : (id : String) → x.0.result.results id ≡ latest id rs none
  pub kept : (id : String) → x.1.results id ≡ latest id rs (a.results id)

give_up-GivesUp :
    (decimal : ℕ → String) (a : Aggregator) (n : ℕ) (rs : List TaskResult) (e : Err)
    → GivesUp a rs (give_up decimal (ensure_defaults a) n rs e)
unfolding give_up ensure_defaults
give_up-GivesUp decimal a n rs e =
    let tally = aggregate-IsTally decimal (ensure_defaults a) rs in
    record {
      status = refl;
      timed_out = refl;
      error = refl;
      completed = tally.completed;
      results = tally.results;
      kept = tally.kept;
    }

-- If the wait ends while results are missing, Collect reports a timeout and an error, with the results
-- that have arrived, and keeps those.
pub collect_short :
    (decimal : ℕ → String) (a : Aggregator) (n : ℕ) (rs : List TaskResult) (x : Pick)
    (rest : List Pick)
    → length rs < n
    → IsEnd x
    → (y : Outcome × Aggregator) × (collect decimal a (pos n) (map received rs ++ (x ∷ rest))
        ≡ some y)
      × GivesUp a rs y
unfolding collect collect_from
collect_short decimal a n rs x rest short end =
    let (y, e, gives_up) = ended x end in
    (
      y,
      collect_from-received decimal (ensure_defaults a) n [] rs (x ∷ rest) (omega (arith, short))
          ∙ e,
      gives_up,
    )
  where
    gave :
        (x : Pick) (e : Err)
        → collect_from decimal (ensure_defaults a) n rs (x ∷ rest)
          ≡ some (give_up decimal (ensure_defaults a) n rs e)
        → (y : Outcome × Aggregator) × (collect_from decimal (ensure_defaults a) n rs (x ∷ rest)
            ≡ some y)
          × GivesUp a rs y
    gave x e found =
        (give_up decimal (ensure_defaults a) n rs e, found, give_up-GivesUp decimal a n rs e)

    ended :
        (x : Pick)
        → IsEnd x
        → (y : Outcome × Aggregator) × (collect_from decimal (ensure_defaults a) n rs (x ∷ rest)
            ≡ some y)
          × GivesUp a rs y
    ended (received r) end = absurd end
    ended (context_done e) end = gave (context_done e) e (rw (below (length rs) n short) refl)
    ended (timeout_passed e) end = gave (timeout_passed e) e (rw (below (length rs) n short) refl)
    ended channel_closed end =
        gave channel_closed (closed_error decimal (length rs) n)
          (rw (below (length rs) n short) refl)
