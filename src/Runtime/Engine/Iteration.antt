-- ===== src/Runtime/Engine/Iteration.antt =====
-- internal/runtime/runtime.go: one plan and one iteration of the engine.
use zheng_harness.Base.{
  ℕ, suc, String, Bool, true, false, Option, none, some, List, ◌==◌, ◌=ℕ◌, if◌then◌else◌, length,
}
use zheng_harness.Base.Text.{trim_space}
use zheng_harness.Domain.Types.{
  Time, Err, Task, Session, Plan, Step, ToolInfo, ToolCall, ToolResult, Action, ActionType, respond,
  request_input, complete, Observation, VerificationResult, not_applicable, SessionStatus,
  blocked_input, success, TaskCategory, coding, research, file_workflow, general,
}
use zheng_harness.Domain.Effect.{Effect, Ask, pure, lift, ask, run, ◌>>=◌, ◌>>◌}
use zheng_harness.Runtime.TaskRegistry.{ResolvedTaskProtocol}
use zheng_harness.Runtime.AgentStrategy.{
  validate_agent_plan_decision, validate_agent_action_decision, validate_agent_observation_decision,
}
use zheng_harness.Runtime.Engine.{
  Ports, resolve_agent_strategy, list_tool_info, emit_tool_start_event, emit_tool_end_event,
  emit_step_complete_event, error_text,
}
use zheng_harness.Runtime.Engine.Recall.{recall_memory}
use Prim.Native.String.{◌++◌ as ◌+++◌}

-- The fields that createPlan fills in.
abbrev pub fill_plan : Task → Time → Plan → Plan
fill_plan task created_at plan = record plan {
  task_id = if plan.task_id == "" then task.id else plan.task_id;
  created_at = if plan.created_at =ℕ 0 then created_at else plan.created_at;
}

unfoldable pub create_plan :
    {W : Type 0} → Ports W → ResolvedTaskProtocol → Session → Time → Effect W Plan
create_plan p protocol session created_at = do
  memory ← ask (recall_memory p protocol.task session)
  strategy ← resolve_agent_strategy p.engine
  decision ←
      strategy.create_plan (record { task = protocol.task; session = session; memory = memory })
  plan ← lift (validate_agent_plan_decision protocol.task decision)
  run (p.sessions.save_plan (fill_plan protocol.task created_at plan))
  pure (fill_plan protocol.task created_at plan)

abbrev with_error : Option Err → ToolResult → ToolResult
with_error none result = result
with_error (some e) result = record result { error = error_text e }

unfoldable pub execute_call : {W : Type 0} → Ports W → ToolCall → Ask W ToolResult
execute_call p call w = let ((result, e), w') = p.tools.execute call w in (with_error e result, w')

-- The two blocks of executeIteration for an action with a tool call.
unfoldable pub run_tool :
    {W : Type 0} → Ports W → ℕ → Option ToolCall → Effect W (Option ToolResult)
unfolding execute_call
run_tool p step_index none = pure none
run_tool p step_index (some call) = do
  emit_tool_start_event p.engine step_index call
  result ← ask (execute_call p call)
  emit_tool_end_event p.engine step_index result
  pure (some result)

abbrev or_trimmed : String → String → String
or_trimmed s fallback = if trim_space s == "" then trim_space fallback else s

abbrev final_response : ActionType → String → String → String
final_response respond response given = or_trimmed given response
final_response request_input response given = or_trimmed given response
final_response complete response given = or_trimmed given response
final_response _ response given = given

unfoldable pub normalize_observation_for_action : Action → Observation → Observation
normalize_observation_for_action action observation = record observation {
  summary = or_trimmed observation.summary action.summary;
  final_response = final_response action.type action.response observation.final_response;
}

abbrev category_text : TaskCategory → String
category_text coding = "coding"
category_text research = "research"
category_text file_workflow = "file_workflow"
category_text general = "general"
category_text (TaskCategory.other s) = s

abbrev pub verify_by :
    {W : Type 0}
    → ActionType
    → TaskCategory
    → Effect W VerificationResult
    → Effect W VerificationResult
verify_by request_input task_type verify = pure (record {
  passed = false;
  status = not_applicable;
  reason = category_text task_type +++ " task blocked waiting for external input";
})
verify_by _ task_type verify = verify

unfoldable pub verify_iteration :
    {W : Type 0}
    → Ports W
    → ResolvedTaskProtocol
    → Session
    → Plan
    → List Step
    → Action
    → Observation
    → Effect W VerificationResult
verify_iteration p protocol session plan steps action observation =
    verify_by action.type protocol.metadata.task_type
      (p.verifier.verify protocol.task session plan steps observation)

pub record IterationOutcome : Type 0 where
  pub terminal : Bool
  pub status : SessionStatus
  pub error : Option Err

abbrev pub passed_outcome : Bool → IterationOutcome
passed_outcome true = record { terminal = true; status = success; error = none }
passed_outcome false = record { terminal = false; status = SessionStatus.other ""; error = none }

abbrev pub outcome_by : ActionType → Bool → IterationOutcome
outcome_by request_input passed = record { terminal = true; status = blocked_input; error = none }
outcome_by _ passed = passed_outcome passed

unfoldable pub decide_iteration_outcome : Action → VerificationResult → IterationOutcome
decide_iteration_outcome action verification = outcome_by action.type verification.passed

pub record Iteration : Type 0 where
  pub action : Action
  pub observation : Observation
  pub verification : VerificationResult

-- What executeIteration makes of a validated observation.
abbrev pub observed : Action → Option ToolResult → Observation → Observation
observed action result observation =
    normalize_observation_for_action action (record observation { tool_result = result })

-- executeIteration once the tools are listed.
unfoldable pub act_on :
    {W : Type 0}
    → Ports W
    → ResolvedTaskProtocol
    → Session
    → Plan
    → List Step
    → List ToolInfo
    → Effect W Iteration
act_on p protocol session plan steps tools = do
  memory ← ask (recall_memory p protocol.task session)
  strategy ← resolve_agent_strategy p.engine
  decision ← strategy.next_action (record {
    task = protocol.task;
    session = session;
    plan = plan;
    steps = steps;
    memory = memory;
    allowed_tools = tools;
  })
  action ← lift (validate_agent_action_decision tools decision)
  result ← run_tool p (suc (length steps)) action.tool_call
  answer ← strategy.observe (record {
    task = protocol.task;
    session = session;
    plan = plan;
    action = action;
    tool_result = result;
  })
  given ← lift (validate_agent_observation_decision answer)
  emit_step_complete_event p.engine (suc (length steps)) (observed action result given).summary
  verification ←
      verify_iteration p protocol session plan steps action (observed action result given)
  pure (record {
    action = action;
    observation = observed action result given;
    verification = verification;
  })

unfoldable pub execute_iteration :
    {W : Type 0} → Ports W → ResolvedTaskProtocol → Session → Plan → List Step → Effect W Iteration
unfolding act_on
execute_iteration p protocol session plan steps = do
  tools ← ask (list_tool_info p)
  act_on p protocol session plan steps tools
