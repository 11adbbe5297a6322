-- ===== src/Runtime/Engine/Rules.antt =====
-- What the parts of an iteration leave alone: an invariant of the world that the ports keep, except for
-- SaveSession, AppendStep and the execution of a tool, is kept by the engine's own effects.
pub mod Act
pub mod Recorded
pub mod Whole
use zheng_harness.Base.{
  ℕ, suc, String, Bool, true, false, Option, none, some, List, [], ◌∷◌, ◌≡◌, refl, length,
  if◌then◌else◌, arith, ltb, Bool-cases, inl, inr, not,
}
use zheng_harness.Domain.Types.{
  Time, Err, deadline_exceeded, Task, Session, Plan, Step, MemoryEntry, RecallQuery, ToolInfo,
  ToolCall, ToolResult, Action, ActionType, tool_call, respond, request_input, complete,
  Observation, VerificationResult,
}
use zheng_harness.Domain.Effect.{
  Result, ok, err, Effect, Ask, pure, raise, lift, ask, run, ◌>>=◌, ◌>>◌,
}
use zheng_harness.Domain.Effect.Ensures.{
  Ensures, Holds, Any, Holds-Any, Ensures-pure, Ensures-raise, Ensures-lift, Ensures-ask,
  Ensures-run, Ensures-bind, Ensures-if,
}
use zheng_harness.Runtime.EventRelay.{StreamingEvent, EventType}
use zheng_harness.Runtime.TaskRegistry.{ResolvedTaskProtocol}
use zheng_harness.Runtime.AgentStrategy.{
  AgentStrategyPlugin, AgentPlanContext, AgentActionContext, AgentObservationContext,
  AgentActionDecision, is_allowed_tool, check_action, check_tool_call, check_no_tool_call,
  validate_agent_plan_decision, validate_agent_action_decision, validate_agent_observation_decision,
}
use zheng_harness.Runtime.Engine.{
  Ports, Engine, context_err, EventPayload, now, resolve_agent_strategy, emit, emit_event,
  new_streaming_event, emit_tool_start_event, emit_tool_end_event, emit_step_complete_event,
}
use zheng_harness.Runtime.Engine.Recall.{recall_memory, recall_each, ranked, queries}
use zheng_harness.Runtime.Engine.Iteration.{
  create_plan, fill_plan, execute_call, run_tool, verify_by, verify_iteration, act_on, Iteration,
}
use zheng_harness.Runtime.Engine.Loop.{may_start}

-- Asking leaves the invariant alone.
abbrev pub Still : {V A : Type 0} → (V → Type 0) → Ask V A → Type 0
Still {V = V} I f = (v : V) → I v → I (f v).1

module _ {V : Type 0} (I : V → Type 0) where
  pub record QuietStrategy (s : AgentStrategyPlugin V) : Type 0 where
    pub plans : (c : AgentPlanContext) → Still I (s.create_plan c)
    pub acts : (c : AgentActionContext) → Still I (s.next_action c)
    pub observes : (c : AgentObservationContext) → Still I (s.observe c)

  -- The ports keep `I`; a tool is executed only where `Permits` holds of the call.
  pub record Quiet (Permits : ToolCall → Type 0) (p : Ports V) : Type 0 where
    pub resolve : Ensures I QuietStrategy (resolve_agent_strategy p.engine)
    pub recall : (q : RecallQuery) → Still I (p.memory.recall q)
    pub remember : (id : String) (o : Observation) → Still I (p.memory.remember id o)
    pub save_plan : (plan : Plan) → Still I (p.sessions.save_plan plan)
    pub execute : (call : ToolCall) → Permits call → Still I (p.tools.execute call)
    pub verify :
        (t : Task) (s : Session) (plan : Plan) (l : List Step) (o : Observation)
        → Still I (p.verifier.verify t s plan l o)
    pub provider : Still I p.engine.provider_provenance
    pub verifier : Still I p.verifier.verifier_provenance
    pub context : Still I p.engine.environment.context
    pub time_now : Still I p.engine.environment.time_now
    pub now : Still I (now p.engine)
    pub emits : (event : StreamingEvent) → Ensures I Any (emit_event p.engine event)

pub Ensures-Still : {V A : Type 0} {I : V → Type 0} (m : Effect V A) → Still I m → Ensures I Any m
Ensures-Still m still = record { at = λ v h. (still v h, Holds-Any (m v).0) }

pub Ensures-asked :
    {V A : Type 0} {I : V → Type 0} (f : Ask V A) → Still I f → Ensures I Any (ask f)
Ensures-asked f still = Ensures-ask f λ v h. (still v h, tt)

module _ {V : Type 0} {I : V → Type 0} {Permits : ToolCall → Type 0} (p : Ports V)
    (q : Quiet I Permits p) where
  recall_each-Still :
      (qs : List RecallQuery) (combined : List MemoryEntry)
      → Ensures I Any (recall_each p qs combined)
  unfolding recall_each
  recall_each-Still [] combined = Ensures-pure combined tt
  recall_each-Still (query ∷ rest) combined =
      Ensures-bind (p.memory.recall query) _ (Ensures-Still _ (q.recall query))
        λ entries _. recall_each-Still rest _

  ranked_same : (task : Task) (r : Result (List MemoryEntry) × V) → I r.1 → I (ranked task r).1
  ranked_same task (ok combined, v) h = h
  ranked_same task (err e, v) h = h

  pub recall_memory-Still :
      (task : Task) (session : Session) → Still I (recall_memory p task session)
  unfolding recall_memory
  recall_memory-Still task session v h =
      ranked_same task (recall_each p (queries session) [] v)
        ((recall_each-Still (queries session) []).at v h).0

  pub emit-Quiet :
      (type : EventType) (i : ℕ) (payload : EventPayload)
      → Ensures I Any (emit p.engine type i payload)
  unfolding new_streaming_event
  emit-Quiet type i payload =
      Ensures-bind {Q = Any} (new_streaming_event p.engine.environment type i payload) _
        (Ensures-bind (lift (p.engine.environment.encode payload)) _
          (Ensures-lift _ (Holds-Any (p.engine.environment.encode payload)))
          λ text _.
            Ensures-bind (ask p.engine.environment.time_now) _ (Ensures-asked _ q.time_now)
              λ time _. Ensures-pure _ tt)
        λ event _. q.emits event

  pub emit_step_complete_event-Quiet :
      (i : ℕ) (summary : String) → Ensures I Any (emit_step_complete_event p.engine i summary)
  unfolding emit_step_complete_event
  emit_step_complete_event-Quiet i summary = emit-Quiet _ i _

  pub may_start-Quiet : (deadline : Time) → Ensures I Any (may_start p.engine deadline)
  unfolding may_start
  may_start-Quiet deadline =
      Ensures-bind (run (context_err p.engine.environment)) _ (Ensures-run _ q.context) λ _ _.
        Ensures-bind (ask p.engine.environment.time_now) _ (Ensures-asked _ q.time_now) λ time _.
          Ensures-if (ltb time deadline) (pure tt) (raise deadline_exceeded)
            (λ _. Ensures-pure tt tt) (λ _. Ensures-raise deadline_exceeded)

  pub create_plan-Quiet :
      (protocol : ResolvedTaskProtocol) (session : Session) (created_at : Time)
      → Ensures I Any (create_plan p protocol session created_at)
  unfolding create_plan
  create_plan-Quiet protocol session created_at =
      Ensures-bind (ask (recall_memory p protocol.task session)) _
        (Ensures-asked _ (recall_memory-Still protocol.task session))
        λ memory _. Ensures-bind (resolve_agent_strategy p.engine) _ q.resolve λ strategy quiet.
          Ensures-bind (strategy.create_plan _) _ (Ensures-Still _ (quiet.plans _)) λ decision _.
            Ensures-bind (lift (validate_agent_plan_decision protocol.task decision)) _
              (Ensures-lift _ (Holds-Any _))
              λ plan _.
                Ensures-bind (run (p.sessions.save_plan _)) _ (Ensures-run _ (q.save_plan _))
                  λ _ _. Ensures-pure _ tt
