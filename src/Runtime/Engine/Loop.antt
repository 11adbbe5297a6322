-- ===== src/Runtime/Engine/Loop.antt =====
-- internal/runtime/runtime.go: Run. One turn of its loop is `attempt`; `loop` takes turns as long as the
-- bound allows, so it ends by recursion on the turns that are left.
pub mod Ends
use zheng_harness.Base.{
  ℕ, zero, suc, ◌+◌, String, Bool, true, false, Option, none, some, List, [], ◌∷◌, ◌++◌, ltb, ◌=ℕ◌,
  if◌then◌else◌, length,
}
use zheng_harness.Base.Int.{positive_or}
use zheng_harness.Domain.Types.{
  Time, Err, canceled, deadline_exceeded, failure, Task, Session, SessionStatus, running,
  interrupted, fatal_error, budget_exceeded, verification_failed, Plan, Step, Provenance,
  PluginMetadata,
}
use zheng_harness.Domain.Effect.{
  Result, ok, err, Effect, Ask, pure, raise, lift, ask, run, ◌>>=◌, ◌>>◌, on,
}
use zheng_harness.Runtime.Provenance.{merge_provenance, agent_strategy_metadata}
use zheng_harness.Runtime.TaskRegistry.{ResolvedTaskProtocol}
use zheng_harness.Runtime.TaskRegistry
use zheng_harness.Runtime.AgentStrategy.{AgentStrategyPlugin}
use zheng_harness.Runtime.Engine.{
  Engine, Ports, context_err, RunResult, lost, no_plan, now, required_dependencies,
  resolve_agent_strategy, record_step, fail_session, end_session, emit_step_complete_event,
}
use zheng_harness.Runtime.Engine.Iteration.{
  Iteration, create_plan, execute_iteration, decide_iteration_outcome, IterationOutcome,
}
use Prim.Native.String.{◌++◌ as ◌+++◌}

abbrev pub retry_budget_exceeded : Err
retry_budget_exceeded = failure "runtime retry budget exceeded"

-- What stays the same during a run.
pub record Setup : Type 0 where
  pub protocol : ResolvedTaskProtocol
  pub strategy_metadata : Option PluginMetadata
  pub max_steps : ℕ
  pub max_retries : ℕ
  pub deadline : Time

-- The variables of the loop.
pub record LoopState : Type 0 where
  pub step_index : ℕ
  pub retries : ℕ
  pub session : Session
  pub plan : Plan
  pub steps : List Step

pub data Progress : Type 0 where
  stopped : RunResult → Progress
  continued : LoopState → Progress

abbrev pub stop : {W : Type 0} → Ask W RunResult → Ask W Progress
stop end w = let (r, w') = end w in (stopped r, w')

-- failSession on the variables of the loop.
abbrev pub fail : {W : Type 0} → Ports W → LoopState → SessionStatus → Option Err → Ask W Progress
fail p c status cause = stop (fail_session p c.session status c.plan c.steps cause)

unfoldable pub may_start : {W : Type 0} → Engine W → Time → Effect W (Unit {0})
unfolding context_err
may_start e deadline = do
  run (context_err e.environment)
  time ← ask e.environment.time_now
  if ltb time deadline then pure tt else raise deadline_exceeded

abbrev pub status_of_error : Err → SessionStatus
status_of_error canceled = interrupted
status_of_error deadline_exceeded = interrupted
status_of_error (failure s) = fatal_error

abbrev pub merge_optional : Option Provenance → Option PluginMetadata → Option Provenance
merge_optional existing none = existing
merge_optional existing (some m) = merge_provenance existing m

-- The plugins that a step and the session are credited to: strategy, provider, verifier.
abbrev pub credit :
    Option PluginMetadata
    → Option PluginMetadata
    → Option PluginMetadata
    → Option Provenance
    → Option Provenance
credit strategy provider verifier existing =
    merge_optional (merge_optional (merge_optional existing strategy) provider) verifier

-- The variables of the loop after a step was built.
unfoldable pub with_step :
    {W : Type 0} → Ports W → Setup → LoopState → Iteration → W → (LoopState × Step) × W
with_step p s c it w =
    let (provider, w1) = p.engine.provider_provenance w in
    let (verifier, w2) = p.verifier.verifier_provenance w1 in
    let step : Step = record {
      index = c.step_index;
      action = it.action;
      observation = it.observation;
      verification = it.verification;
      provenance = credit s.strategy_metadata provider verifier none;
    } in
    let session : Session = record c.session {
      provenance = credit s.strategy_metadata provider verifier c.session.provenance;
    } in
    ((record c { session = session; steps = c.steps ++ step ∷ [] }, step), w2)

abbrev pub next_turn : LoopState → Plan → LoopState
next_turn c plan = record c { step_index = suc c.step_index; retries = suc c.retries; plan = plan }

-- The new plan after a step that does not end the run.
unfoldable pub replan : {W : Type 0} → Ports W → Setup → LoopState → Ask W Progress
replan p s c w =
    let (time, w') = now p.engine w in
    on (create_plan p s.protocol c.session time w')
      (λ e. fail p (record c { plan = no_plan }) fatal_error (some e))
      (λ plan w2.
        on (emit_step_complete_event p.engine (suc (length c.steps)) plan.summary w2)
          (λ e. fail p (record c { plan = plan }) fatal_error (some e))
          (λ _ w3. (continued (next_turn c plan), w3)))

-- What follows a step that does not end the run by its own outcome.
unfoldable pub after_unfinished : {W : Type 0} → Ports W → Setup → LoopState → Ask W Progress
unfolding replan
after_unfinished p s c =
    if c.step_index =ℕ s.max_steps
    then fail p c budget_exceeded none
    else if ltb s.max_retries (suc c.retries)
    then fail p c verification_failed (some retry_budget_exceeded)
    else replan p s c

abbrev pub settle_outcome :
    {W : Type 0} → Ports W → Setup → LoopState → IterationOutcome → Ask W Progress
settle_outcome p s c outcome =
    if outcome.terminal
    then stop
        (end_session p (record c.session { status = outcome.status }) c.plan c.steps outcome.error)
    else after_unfinished p s c

-- The turn after the step was recorded.
unfoldable pub after_step : {W : Type 0} → Ports W → Setup → LoopState → Iteration → Ask W Progress
unfolding after_unfinished
after_step p s c it w =
    let (time, w') = now p.engine w in
    settle_outcome p s (record c { session = record c.session { updated_at = time } })
      (decide_iteration_outcome it.action it.verification) w'

-- The turn after the iteration.
unfoldable pub after_iteration :
    {W : Type 0} → Ports W → Setup → LoopState → Iteration → Ask W Progress
unfolding after_step with_step
after_iteration p s c it w =
    let ((c', step), w') = with_step p s c it w in
    on (record_step p c'.session.id step it.observation w') (λ e. fail p c' fatal_error (some e))
      (λ _. after_step p s c' it)

unfoldable pub attempt : {W : Type 0} → Ports W → Setup → LoopState → Ask W Progress
unfolding after_iteration
attempt p s c w =
    on (may_start p.engine s.deadline w) (λ e. fail p c interrupted (some e))
      (λ _ w1.
        on (execute_iteration p s.protocol c.session c.plan c.steps w1)
          (λ e. fail p c (status_of_error e) (some e)) (λ it. after_iteration p s c it))

abbrev pub proceed : {W : Type 0} → (LoopState → Ask W RunResult) → Progress × W → RunResult × W
proceed next (stopped r, w) = (r, w)
proceed next (continued c, w) = next c w

unfoldable pub loop : {W : Type 0} → Ports W → Setup → ℕ → LoopState → Ask W RunResult
unfolding attempt
loop p s zero c w = fail_session p c.session budget_exceeded c.plan c.steps none w
loop p s (suc n) c w = proceed (loop p s n) (attempt p s c w)

-- Five minutes.
abbrev pub default_session_timeout : ℕ
default_session_timeout = 300000000000

abbrev pub first_turn : Session → Plan → LoopState
first_turn session plan = record {
  step_index = 1;
  retries = 0;
  session = session;
  plan = plan;
  steps = [];
}

-- Run from the first plan on; `timestamp` is the time at which it started.
unfoldable pub run_planned :
    {W : Type 0}
    → Ports W
    → ResolvedTaskProtocol
    → Option PluginMetadata
    → Session
    → Plan
    → Ask W RunResult
unfolding loop
run_planned p protocol metadata session plan w =
    let (time, w') = p.engine.environment.time_now w in
    let setup : Setup = record {
      protocol = protocol;
      strategy_metadata = metadata;
      max_steps = positive_or 1 p.engine.max_steps;
      max_retries = positive_or 0 p.engine.max_retries;
      deadline = time + positive_or default_session_timeout p.engine.session_timeout;
    } in
    loop p setup setup.max_steps (first_turn session plan) w'

abbrev pub new_session : Task → Time → Option PluginMetadata → Option PluginMetadata → Session
new_session task timestamp strategy provider = record {
  id = task.id +++ "-session";
  task_id = task.id;
  status = running;
  provenance = merge_optional (merge_optional none strategy) provider;
  created_at = timestamp;
  updated_at = timestamp;
}

-- Run with its dependencies and its strategy.
unfoldable pub run_session :
    {W : Type 0} → Ports W → ResolvedTaskProtocol → Time → AgentStrategyPlugin W → Ask W RunResult
unfolding run_planned
run_session p protocol timestamp strategy w =
    let metadata = agent_strategy_metadata strategy.metadata in
    let (provider, w1) = p.engine.provider_provenance w in
    let session = new_session protocol.task timestamp metadata provider in
    on (run (p.sessions.save_session session) w1) (λ e w. (lost e, w))
      (λ _ w2.
        on (create_plan p protocol session timestamp w2)
          (λ e. fail_session p session fatal_error no_plan [] (some e))
          (λ plan w3.
            on (emit_step_complete_event p.engine 0 plan.summary w3)
              (λ e. fail_session p session fatal_error plan [] (some e))
              (λ _. run_planned p protocol metadata session plan)))

abbrev pub created : Time → Task → Task
created timestamp task = record task {
  created_at = if task.created_at =ℕ 0 then timestamp else task.created_at;
}

abbrev pub run_ports : {W : Type 0} → Ports W → Task → Ask W RunResult
run_ports p task w =
    let (timestamp, w') = now p.engine w in
    let protocol = TaskRegistry.resolve (created timestamp task) in
    on (resolve_agent_strategy p.engine w') (λ e w. (lost e, w))
      (λ strategy. run_session p protocol timestamp strategy)

abbrev pub run_with : {W : Type 0} → Option (Ports W) → Task → Ask W RunResult
run_with none task w = (lost (failure "runtime engine requires all dependencies"), w)
run_with (some p) task w = run_ports p task w

unfoldable pub run_engine : {W : Type 0} → Engine W → Task → Ask W RunResult
unfolding run_session
run_engine e task = run_with (required_dependencies e) task
