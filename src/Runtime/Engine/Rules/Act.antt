-- ===== src/Runtime/Engine/Rules/Act.antt =====
-- One iteration: a tool is executed only if it is permitted, and what the iteration returns.
use zheng_harness.Base.{
  ℕ, true, false, Option, none, some, List, ◌≡◌, ◌≢◌, refl, arith, Bool-cases, inl, inr,
}
use zheng_harness.Domain.Types.{
  Session, Plan, Step, ToolInfo, ToolCall, Action, TaskCategory, ActionType, tool_call, respond,
  request_input, complete, VerificationResult,
}
use zheng_harness.Domain.Effect.{Result, ok, err, Effect, lift, ask}
use zheng_harness.Domain.Effect.Ensures.{
  Ensures, Holds, Any, Holds-Any, Ensures-pure, Ensures-lift, Ensures-bind,
}
use zheng_harness.Runtime.TaskRegistry.{ResolvedTaskProtocol}
use zheng_harness.Runtime.AgentStrategy.{
  AgentActionDecision, is_allowed_tool, check_action, check_tool_call, check_no_tool_call,
  validate_agent_action_decision, validate_agent_observation_decision,
}
use zheng_harness.Runtime.Engine.{
  Ports, resolve_agent_strategy, emit_tool_start_event, emit_tool_end_event,
  emit_step_complete_event, list_tool_info,
}
use zheng_harness.Runtime.Engine.Recall.{recall_memory}
use zheng_harness.Runtime.Engine.Iteration.{
  execute_call, run_tool, verify_by, verify_iteration, act_on, Iteration, execute_iteration,
}
use zheng_harness.Runtime.Engine.Rules.{
  Still, Quiet, Ensures-Still, Ensures-asked, recall_memory-Still, emit-Quiet,
  emit_step_complete_event-Quiet,
}

-- The tool call of an action, if it has one, names a tool of the list.
abbrev pub Allowed : List ToolInfo → Action → Type 0
Allowed tools action =
    (call : ToolCall) → action.tool_call ≡ some call → is_allowed_tool call.name tools ≡ true

check_tool_call-Allowed :
    (tools : List ToolInfo) (action : Action) (o : Option ToolCall)
    → action.tool_call ≡ o
    → Holds (Allowed tools) (check_tool_call tools action o)
check_tool_call-Allowed tools action none e = tt
check_tool_call-Allowed tools action (some call) e =
    elim (Bool-cases (is_allowed_tool call.name tools)) [
      | inl listed ↦ rw listed (λ other f. ground (arith, e, f, listed))
      | inr foreign ↦ rw foreign tt
    ]

check_no_tool_call-Allowed :
    (tools : List ToolInfo) (action : Action) (o : Option ToolCall)
    → action.tool_call ≡ o
    → Holds (Allowed tools) (check_no_tool_call action o)
check_no_tool_call-Allowed tools action none e = λ call f. cc (e, f)
check_no_tool_call-Allowed tools action (some call) e = tt

check_action-Allowed :
    (tools : List ToolInfo) (action : Action) (type : ActionType)
    → Holds (Allowed tools) (check_action tools action type)
check_action-Allowed tools action tool_call = check_tool_call-Allowed tools action _ refl
check_action-Allowed tools action respond = check_no_tool_call-Allowed tools action _ refl
check_action-Allowed tools action request_input = check_no_tool_call-Allowed tools action _ refl
check_action-Allowed tools action complete = check_no_tool_call-Allowed tools action _ refl
check_action-Allowed tools action (ActionType.other s) = tt

pub validate_agent_action_decision-Allowed :
    (tools : List ToolInfo) (decision : AgentActionDecision)
    → Holds (Allowed tools) (validate_agent_action_decision tools decision)
unfolding validate_agent_action_decision
validate_agent_action_decision-Allowed tools decision =
    check_action-Allowed tools decision.action decision.action.type

-- A task that waits for input has not passed.
abbrev pub WaitsFailed : ActionType → VerificationResult → Type 0
WaitsFailed type v = type ≡ request_input → v.passed ≡ false

unless_waiting :
    (type : ActionType) (r : Result VerificationResult)
    → type ≢ request_input
    → Holds (WaitsFailed type) r
unless_waiting type (ok v) apart = λ e. absurd (apart e)
unless_waiting type (err e) apart = tt

module _ {V : Type 0} {I : V → Type 0} where
  verified :
      (type : ActionType) (m : Effect V VerificationResult)
      → Still I m
      → type ≢ request_input
      → Ensures I (WaitsFailed type) m
  verified type m still apart = record {
    at = λ v h. (still v h, unless_waiting type (m v).0 apart);
  }

  verify_by-WaitsFailed :
      (type : ActionType) (category : TaskCategory) (m : Effect V VerificationResult)
      → Still I m
      → Ensures I (WaitsFailed type) (verify_by type category m)
  verify_by-WaitsFailed request_input category m still = Ensures-pure _ (λ _. refl)
  verify_by-WaitsFailed respond category m still = verified _ m still (λ e. cc e)
  verify_by-WaitsFailed tool_call category m still = verified _ m still (λ e. cc e)
  verify_by-WaitsFailed complete category m still = verified _ m still (λ e. cc e)
  verify_by-WaitsFailed (ActionType.other s) category m still = verified _ m still (λ e. cc e)

abbrev pub Waits : Iteration → Type 0
Waits it = WaitsFailed it.action.type it.verification

module _ {V : Type 0} {I : V → Type 0} {Permits : ToolCall → Type 0} (p : Ports V)
    (q : Quiet I Permits p) where
  run_tool-Quiet :
      (i : ℕ) (o : Option ToolCall)
      → ((call : ToolCall) → o ≡ some call → Permits call)
      → Ensures I Any (run_tool p i o)
  unfolding run_tool execute_call emit_tool_start_event emit_tool_end_event
  run_tool-Quiet i none permits = Ensures-pure none tt
  run_tool-Quiet i (some call) permits =
      Ensures-bind {Q = Any} (emit_tool_start_event p.engine i call) _ (emit-Quiet p q _ i _) λ _ _.
        Ensures-bind (ask (execute_call p call)) _
          (Ensures-asked _ (λ v h. q.execute call (permits call refl) v h))
          λ result _.
            Ensures-bind {Q = Any} (emit_tool_end_event p.engine i result) _ (emit-Quiet p q _ i _)
              λ _ _. Ensures-pure _ tt

  pub act_on-Quiet :
      (protocol : ResolvedTaskProtocol) (session : Session) (plan : Plan) (steps : List Step)
      (tools : List ToolInfo)
      → ((call : ToolCall) → is_allowed_tool call.name tools ≡ true → Permits call)
      → Ensures I Waits (act_on p protocol session plan steps tools)
  unfolding act_on verify_iteration
  act_on-Quiet protocol session plan steps tools permits =
      Ensures-bind (ask (recall_memory p protocol.task session)) _
        (Ensures-asked _ (recall_memory-Still p q protocol.task session))
        λ memory _. Ensures-bind (resolve_agent_strategy p.engine) _ q.resolve λ strategy quiet.
          Ensures-bind (strategy.next_action _) _ (Ensures-Still _ (quiet.acts _)) λ decision _.
            Ensures-bind (lift (validate_agent_action_decision tools decision)) _
              (Ensures-lift _ (validate_agent_action_decision-Allowed tools decision))
              λ action allowed.
                Ensures-bind (run_tool p _ action.tool_call) _
                  (run_tool-Quiet _ action.tool_call (λ call e. permits call (allowed call e)))
                  λ result _.
                    Ensures-bind (strategy.observe _) _ (Ensures-Still _ (quiet.observes _))
                      λ answer _.
                        Ensures-bind (lift (validate_agent_observation_decision answer)) _
                          (Ensures-lift _ (Holds-Any _))
                          λ given _.
                            Ensures-bind (emit_step_complete_event p.engine _ _) _
                              (emit_step_complete_event-Quiet p q _ _)
                              λ _ _.
                                Ensures-bind
                                  (verify_iteration p protocol session plan steps action _) _
                                  (verify_by-WaitsFailed action.type _ _ (q.verify _ _ _ _ _))
                                  λ verification waits. Ensures-pure _ waits

  pub execute_iteration-Quiet :
      (protocol : ResolvedTaskProtocol) (session : Session) (plan : Plan) (steps : List Step)
      → ((call : ToolCall) → Permits call)
      → Still I (list_tool_info p)
      → Ensures I Waits (execute_iteration p protocol session plan steps)
  unfolding execute_iteration
  execute_iteration-Quiet protocol session plan steps permits lists =
      Ensures-bind (ask (list_tool_info p)) _ (Ensures-asked _ lists)
        λ tools _. act_on-Quiet protocol session plan steps tools (λ call _. permits call)
