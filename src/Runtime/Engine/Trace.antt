-- ===== src/Runtime/Engine/Trace.antt =====
-- Every turn of the loop keeps the count of the steps, and a turn that ends the run ends it rightly.
pub mod Turns
pub mod Runs
pub mod Whole
use zheng_harness.Base.{
  ℕ, zero, suc, ◌+◌, ◌≤◌, ◌<◌, String, Bool, true, false, Option, none, some, List, [], ◌∷◌, ◌++◌,
  ◌≡◌, ◌≢◌, refl, ap, length, length-append, All, arith, ◌⊎◌, inl, inr, ltb, ◌=ℕ◌, Bool-cases,
  subst, sym,
}
use zheng_harness.Domain.Types.{
  Err, canceled, deadline_exceeded, failure, Session, SessionStatus, success, blocked_input,
  budget_exceeded, verification_failed, interrupted, fatal_error, Plan, Step, ActionType, respond,
  tool_call, request_input, complete, Observation,
}
use zheng_harness.Domain.Effect.{Result, ok, err, Effect, Ask, pure, run, settle, ◌>>=◌, ◌>>◌, on}
use zheng_harness.Domain.Effect.Ensures.{
  Ensures, Holds, Any, Ensures-pure, Ensures-bind, Ensures-follow, Ensures-run, on-Ensures, settled,
}
use zheng_harness.Runtime.Engine.{
  Engine, Ports, RunResult, no_plan, now, fail_session, end_session, record_step,
}
use zheng_harness.Runtime.Engine.Iteration.{
  Iteration, IterationOutcome, passed_outcome, outcome_by, decide_iteration_outcome,
}
use zheng_harness.Runtime.Engine.Loop.{
  Setup, LoopState, Progress, stopped, continued, stop, fail, settle_outcome, after_unfinished,
  after_step, replan, next_turn, retry_budget_exceeded, status_of_error,
}
use zheng_harness.Runtime.Engine.Journal.{Journal, journaled_ports}
use zheng_harness.Runtime.Engine.Rules.{Quiet, create_plan-Quiet, emit_step_complete_event-Quiet}
use zheng_harness.Runtime.Engine.Rules.Act.{Waits}
use zheng_harness.Runtime.Engine.Course.{
  Numbered, Numbered-append, Unfinished, All_append, Ending, succeeded, blocked, exhausted,
  out_of_retries, broken, Settled, Written, Written-Quiet,
}
use zheng_harness.Runtime.Engine.Course
use zheng_harness.Runtime.Engine.Course.Closing.{Sized, end_session-Settled, fail_session-Settled}

-- The variables of the loop before a turn that has `n` turns after it, itself included.
pub record Live (s : Setup) (n : ℕ) (c : LoopState) : Type 0 where
  pub index : c.step_index ≡ suc (length c.steps)
  pub retries : c.retries ≡ length c.steps
  pub left : length c.steps + n ≡ s.max_steps
  pub within : length c.steps ≤ s.max_retries
  pub numbered : Numbered 1 c.steps
  pub unfinished : All Unfinished c.steps

-- The variables after the step of the turn was added.
pub record Stepped (s : Setup) (n : ℕ) (it : Iteration) (earlier : List Step) (step : Step)
    (c : LoopState) : Type 0 where
  pub steps : c.steps ≡ earlier ++ step ∷ []
  pub action : step.action ≡ it.action
  pub verification : step.verification ≡ it.verification
  pub waits : Waits it
  pub index : c.step_index ≡ length c.steps
  pub retries : suc c.retries ≡ length c.steps
  pub left : length c.steps + n ≡ s.max_steps
  pub within : length c.steps ≤ suc s.max_retries
  pub numbered : Numbered 1 c.steps
  pub unfinished : All Unfinished earlier

-- What a turn comes to.
abbrev pub Turn : {W : Type 0} → Setup → ℕ → List Session → Progress × Journal W → Type 0
Turn s n before (stopped r, j) = Settled s.max_steps s.max_retries before (r, j)
Turn s n before (continued c, j) = Live s n c × Written before c.steps j

module _ {W : Type 0} (p : Ports W) (s : Setup) (n : ℕ) (before : List Session) where
  pub fail-Turn :
      (c : LoopState) (status : SessionStatus) (cause : Option Err) (j : Journal W)
      → Ending s.max_steps s.max_retries status c.steps cause
      → Sized s.max_steps s.max_retries c.steps
      → Written before c.steps j
      → Turn s n before (fail (journaled_ports p) c status cause j)
  fail-Turn c status cause j ending sized h =
      fail_session-Settled p s.max_steps s.max_retries before c.session status c.plan c.steps cause
        j ending sized h

  module _ (it : Iteration) (earlier : List Step) (step : Step) where
    sized :
        (c : LoopState) → Stepped s n it earlier step c → Sized s.max_steps s.max_retries c.steps
    sized c h = record {
      numbered = h.numbered;
      within_steps = omega (arith, h.left);
      within_retries = h.within;
    }

    replan-Turn :
        (c : LoopState) (j : Journal W)
        → Stepped s n it earlier step c
        → All Unfinished c.steps
        → suc c.retries ≤ s.max_retries
        → Written before c.steps j
        → Turn s n before (replan (journaled_ports p) s c j)
    unfolding replan
    replan-Turn c j h unfinished few w =
        let quiet = Written-Quiet p before c.steps in
        let j' = (now (journaled_ports p).engine j).1 in
        on-Ensures {I = Written before c.steps} {Q = Any} (Turn s n before) _ _ _
          ((create_plan-Quiet (journaled_ports p) quiet s.protocol c.session _).at j'
            (quiet.now j w))
          (λ e j2 w2.
            fail-Turn (record c { plan = no_plan }) fatal_error (some e) j2 (broken e refl refl)
              (sized c h) w2)
          λ plan j2 w2 _.
            on-Ensures {I = Written before c.steps} {Q = Any} (Turn s n before) _ _ _
              ((emit_step_complete_event-Quiet (journaled_ports p) quiet _ plan.summary).at j2 w2)
              (λ e j3 w3.
                fail-Turn (record c { plan = plan }) fatal_error (some e) j3 (broken e refl refl)
                  (sized c h) w3)
              λ _ j3 w3 _. (
                record {
                  index = ap suc h.index;
                  retries = h.retries;
                  left = h.left;
                  within = omega (arith, few, h.retries);
                  numbered = h.numbered;
                  unfinished = unfinished;
                },
                w3,
              )

    after_unfinished-Turn :
        (c : LoopState) (j : Journal W)
        → Stepped s n it earlier step c
        → All Unfinished c.steps
        → Written before c.steps j
        → Turn s n before (after_unfinished (journaled_ports p) s c j)
    unfolding after_unfinished
    after_unfinished-Turn c j h unfinished w = elim (Bool-cases (c.step_index =ℕ s.max_steps)) [
      | inl done ↦
          let all : length c.steps ≡ s.max_steps = ground (arith, done, h.index) in
          rw done
            (fail-Turn c budget_exceeded none j (exhausted refl all unfinished refl) (sized c h) w)
      | inr more ↦ elim (Bool-cases (ltb s.max_retries (suc c.retries))) [
        | inl many ↦
            let used : length c.steps ≡ suc s.max_retries =
              ground (arith, many, h.retries, h.within) in
            let spare : length c.steps < s.max_steps = ground (arith, more, h.index, h.left) in
            rw (more, many)
              (fail-Turn c verification_failed (some retry_budget_exceeded) j
                (out_of_retries refl used spare unfinished refl) (sized c h) w)
        | inr few ↦ rw (more, few) (replan-Turn c j h unfinished (ground (arith, few)) w)
      ]
    ]
