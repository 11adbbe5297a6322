-- ===== src/Runtime/Engine/Rules/Whole.antt =====
-- An invariant of the world that each call of a run keeps is kept by the run.
use zheng_harness.Base.{
  ℕ, zero, suc, String, Option, none, some, List, [], length, ltb, ◌=ℕ◌, Bool-cases, inl, inr,
}
use zheng_harness.Domain.Types.{
  Err, Time, Task, Session, SessionStatus, fatal_error, interrupted, budget_exceeded,
  verification_failed, Plan, Step, ToolCall, Observation,
}
use zheng_harness.Domain.Effect.{Ask, run, on}
use zheng_harness.Domain.Effect.Ensures.{
  Ensures, Any, Ensures-pure, Ensures-bind, Ensures-run, on-Ensures,
}
use zheng_harness.Runtime.TaskRegistry.{ResolvedTaskProtocol}
use zheng_harness.Runtime.AgentStrategy.{AgentStrategyPlugin}
use zheng_harness.Runtime.Engine.{
  Ports, RunResult, no_plan, now, emit_cause, emit_error_event, emit_session_complete_event,
  close_session, end_session, fail_session, record_step,
}
use zheng_harness.Runtime.Engine.Iteration.{Iteration, IterationOutcome, execute_iteration}
use zheng_harness.Runtime.Engine.Loop.{
  Setup, LoopState, Progress, stopped, continued, fail, settle_outcome, after_unfinished,
  after_step, after_iteration, attempt, with_step, proceed, loop, run_planned, run_session,
  run_ports, replan, retry_budget_exceeded, status_of_error,
}
use zheng_harness.Runtime.Engine.Rules.{
  Still, Quiet, QuietStrategy, create_plan-Quiet, emit_step_complete_event-Quiet, may_start-Quiet,
  emit-Quiet,
}

module _ {V : Type 0} {I : V → Type 0} {Permits : ToolCall → Type 0} (p : Ports V)
    (q : Quiet I Permits p) (saves : (s : Session) → Still I (p.sessions.save_session s))
    (appends : (id : String) (s : Step) → Still I (p.sessions.append_step id s))
    (iterates : (protocol : ResolvedTaskProtocol) (session : Session) (plan : Plan)
        (steps : List Step)
      → Ensures I Any (execute_iteration p protocol session plan steps)) where
  abbrev Kept : {A : Type 0} → A × V → Type 0
  Kept (a, v) = I v

  emit_cause-Kept : (i : ℕ) (cause : Option Err) → Ensures I Any (emit_cause p.engine i cause)
  unfolding emit_error_event
  emit_cause-Kept i none = Ensures-pure tt tt
  emit_cause-Kept i (some e) = emit-Quiet p q _ i _

  end_session-Kept :
      (session : Session) (plan : Plan) (steps : List Step) (cause : Option Err)
      → Still I (end_session p session plan steps cause)
  unfolding end_session close_session emit_session_complete_event
  end_session-Kept session plan steps cause v h =
      on-Ensures {I = I} {Q = Any} Kept _ _ _
        ((Ensures-bind {Q = Any} {R = Any} (run (p.sessions.save_session session)) _
            (Ensures-run _ (saves session))
            λ _ _.
              Ensures-bind {Q = Any} (emit_cause p.engine (length steps) cause) _
                (emit_cause-Kept (length steps) cause) λ _ _. emit-Quiet p q _ 0 _).at
          v h)
        (λ e w k. k) (λ _ w k _. k)

  fail_session-Kept :
      (session : Session) (status : SessionStatus) (plan : Plan) (steps : List Step)
      (cause : Option Err)
      → Still I (fail_session p session status plan steps cause)
  unfolding fail_session
  fail_session-Kept session status plan steps cause v h =
      end_session-Kept _ plan steps cause _ (q.now v h)

  fail-Kept :
      (c : LoopState) (status : SessionStatus) (cause : Option Err)
      → Still I (fail p c status cause)
  fail-Kept c status cause v h = fail_session-Kept c.session status c.plan c.steps cause v h

  replan-Kept : (s : Setup) (c : LoopState) → Still I (replan p s c)
  unfolding replan
  replan-Kept s c v h =
      on-Ensures {I = I} {Q = Any} Kept _ _ _
        ((create_plan-Quiet p q s.protocol c.session _).at _ (q.now v h))
        (λ e w k. fail-Kept (record c { plan = no_plan }) fatal_error (some e) w k)
        λ plan w k _.
          on-Ensures {I = I} {Q = Any} Kept _ _ _
            ((emit_step_complete_event-Quiet p q _ plan.summary).at w k)
            (λ e w' k'. fail-Kept (record c { plan = plan }) fatal_error (some e) w' k')
            (λ _ w' k' _. k')

  after_unfinished-Kept : (s : Setup) (c : LoopState) → Still I (after_unfinished p s c)
  unfolding after_unfinished
  after_unfinished-Kept s c v h = elim (Bool-cases (c.step_index =ℕ s.max_steps)) [
    | inl done ↦ rw done (fail-Kept c budget_exceeded none v h)
    | inr more ↦ elim (Bool-cases (ltb s.max_retries (suc c.retries))) [
      | inl many ↦
          rw (more, many) (fail-Kept c verification_failed (some retry_budget_exceeded) v h)
      | inr few ↦ rw (more, few) (replan-Kept s c v h)
    ]
  ]

  settle_outcome-Kept :
      (s : Setup) (c : LoopState) (o : IterationOutcome) → Still I (settle_outcome p s c o)
  settle_outcome-Kept s c o v h = elim (Bool-cases o.terminal) [
    | inl last ↦ simp last (end_session-Kept _ c.plan c.steps o.error v h)
    | inr on ↦ simp on (after_unfinished-Kept s c v h)
  ]

  record_step-Kept :
      (id : String) (step : Step) (o : Observation) → Ensures I Any (record_step p id step o)
  unfolding record_step
  record_step-Kept id step o =
      Ensures-bind (run (p.sessions.append_step id step)) _ (Ensures-run _ (appends id step))
        λ _ _. Ensures-run _ (q.remember id o)

  after_iteration-Kept :
      (s : Setup) (c : LoopState) (it : Iteration) → Still I (after_iteration p s c it)
  unfolding after_iteration with_step after_step
  after_iteration-Kept s c it v h =
      let stepped = with_step p s c it v in
      on-Ensures {I = I} {Q = Any} Kept _ _ _
        ((record_step-Kept _ _ it.observation).at _
          (q.verifier (p.engine.provider_provenance v).1 (q.provider v h)))
        (λ e w k. fail-Kept stepped.0.0 fatal_error (some e) w k)
        (λ _ w k _. settle_outcome-Kept s _ _ (now p.engine w).1 (q.now w k))

  attempt-Kept : (s : Setup) (c : LoopState) → Still I (attempt p s c)
  unfolding attempt
  attempt-Kept s c v h =
      on-Ensures {I = I} {Q = Any} Kept _ _ _ ((may_start-Quiet p q s.deadline).at v h)
        (λ e w k. fail-Kept c interrupted (some e) w k)
        λ _ w k _.
          on-Ensures {I = I} {Q = Any} Kept _ _ _
            ((iterates s.protocol c.session c.plan c.steps).at w k)
            (λ e w' k'. fail-Kept c (status_of_error e) (some e) w' k')
            (λ it w' k' _. after_iteration-Kept s c it w' k')

  proceed-Kept :
      (next : LoopState → Ask V RunResult) (x : Progress × V)
      → ((c : LoopState) → Still I (next c))
      → I x.1
      → I (proceed next x).1
  proceed-Kept next (stopped r, v) keeps h = h
  proceed-Kept next (continued c, v) keeps h = keeps c v h

  loop-Kept : (s : Setup) (n : ℕ) (c : LoopState) → Still I (loop p s n c)
  unfolding loop
  loop-Kept s zero c v h = fail_session-Kept c.session _ c.plan c.steps none v h
  loop-Kept s (suc n) c v h =
      proceed-Kept (loop p s n) (attempt p s c v) (loop-Kept s n) (attempt-Kept s c v h)

  run_session-Kept :
      (protocol : ResolvedTaskProtocol) (timestamp : Time) (strategy : AgentStrategyPlugin V)
      → Still I (run_session p protocol timestamp strategy)
  unfolding run_session run_planned
  run_session-Kept protocol timestamp strategy v h =
      on-Ensures {I = I} {Q = Any} Kept _ _ _
        ((Ensures-run _ (saves _)).at (p.engine.provider_provenance v).1 (q.provider v h))
        (λ e w k. k)
        λ _ w k _.
          on-Ensures {I = I} {Q = Any} Kept _ _ _
            ((create_plan-Quiet p q protocol _ timestamp).at w k)
            (λ e w' k'. fail_session-Kept _ fatal_error no_plan [] (some e) w' k')
            λ plan w' k' _.
              on-Ensures {I = I} {Q = Any} Kept _ _ _
                ((emit_step_complete_event-Quiet p q 0 plan.summary).at w' k')
                (λ e w2 k2. fail_session-Kept _ fatal_error plan [] (some e) w2 k2)
                (λ _ w2 k2 _.
                  loop-Kept _ _ _ (p.engine.environment.time_now w2).1 (q.time_now w2 k2))

  pub run_ports-Kept : (task : Task) → Still I (run_ports p task)
  run_ports-Kept task v h =
      on-Ensures {I = I} {Q = QuietStrategy I} Kept _ _ _
        (q.resolve.at (now p.engine v).1 (q.now v h)) (λ e w k. k)
        (λ strategy w k _. run_session-Kept _ _ strategy w k)
