-- ===== src/Runtime/AgentStrategy.antt =====
-- internal/runtime/agent_strategy.go: strategies, their registry, and the checks of what they answer.
-- A strategy is code outside the program, so it is a record of functions over the world `W`; a nil
-- strategy or factory is `none`. The text of an error leaves out the values that are printed into it.
pub mod Registered
mod Samples
use zheng_harness.Base.{
  ℕ, String, Bool, true, false, not, ◌&&◌, ◌||◌, Option, none, some, List, [], ◌∷◌, ◌==◌,
  if◌then◌else◌,
}
use zheng_harness.Base.Maps.{lookup}
use zheng_harness.Base.Text.{trim_space}
use zheng_harness.Domain.Types.{
  Err, failure, Task, Session, Plan, Step, MemoryEntry, ToolInfo, ToolCall, ToolResult, Action,
  ActionType, respond, tool_call, request_input, complete, Observation, PluginMetadata,
  agent_strategy, native,
}
use zheng_harness.Domain.Effect.{Result, ok, err, Effect, Ask, pure, raise, lift, ask, run, ◌>>=◌}
use zheng_harness.Domain.PluginMetadata.{MetadataError, family_text, normalize, validate}

abbrev pub agent_strategy_plugin_contract_version : String
agent_strategy_plugin_contract_version = "1.0.0"

abbrev pub builtin_agent_strategy_host_default : String
builtin_agent_strategy_host_default = "host_default"

pub record AgentPlanContext : Type 0 where
  pub task : Task
  pub session : Session
  pub memory : List MemoryEntry

pub record AgentPlanDecision : Type 0 where
  pub plan : Plan

pub record AgentActionContext : Type 0 where
  pub task : Task
  pub session : Session
  pub plan : Plan
  pub steps : List Step
  pub memory : List MemoryEntry
  pub allowed_tools : List ToolInfo

pub record AgentActionDecision : Type 0 where
  pub action : Action

pub record AgentObservationContext : Type 0 where
  pub task : Task
  pub session : Session
  pub plan : Plan
  pub action : Action
  pub tool_result : Option ToolResult

pub record AgentObservationDecision : Type 0 where
  pub observation : Observation

pub record AgentStrategyPlugin (W : Type 0) : Type 0 where
  pub metadata : PluginMetadata
  pub create_plan : AgentPlanContext → Effect W AgentPlanDecision
  pub next_action : AgentActionContext → Effect W AgentActionDecision
  pub observe : AgentObservationContext → Effect W AgentObservationDecision

abbrev pub AgentStrategyFactory : Type 0 → Type 0
AgentStrategyFactory W = Effect W (Option (AgentStrategyPlugin W))

pub record AgentStrategyDescriptor (W : Type 0) : Type 0 where
  pub id : String
  pub factory : AgentStrategyFactory W

pub record AgentStrategyRegistry (W : Type 0) : Type 0 where
  pub entries : List (String × AgentStrategyDescriptor W)
  pub default_id : String

-- The model of a provider, as the built-in strategy uses it.
pub record Model (W : Type 0) : Type 0 where
  pub create_plan : Task → Session → List MemoryEntry → Effect W Plan
  pub next_action :
      Task → Session → Plan → List Step → List MemoryEntry → List ToolInfo → Effect W Action
  pub observe : Task → Session → Plan → Action → Option ToolResult → Effect W Observation

abbrev pub new_agent_strategy_registry : {W : Type 0} → AgentStrategyRegistry W
new_agent_strategy_registry = record {
  entries = [];
  default_id = builtin_agent_strategy_host_default;
}

-- What Register adds once its checks have passed.
abbrev pub insert_new :
    {W : Type 0}
    → AgentStrategyRegistry W
    → String
    → AgentStrategyFactory W
    → Option (AgentStrategyDescriptor W)
    → Result (AgentStrategyRegistry W)
insert_new r id factory (some found) = err (failure "duplicate agent strategy id")
insert_new r id factory none =
    ok (record r { entries = (id, record { id = id; factory = factory }) ∷ r.entries })

abbrev pub register_factory :
    {W : Type 0}
    → AgentStrategyRegistry W
    → String
    → Option (AgentStrategyFactory W)
    → Result (AgentStrategyRegistry W)
register_factory r id none = err (failure "agent strategy factory must not be nil")
register_factory r id (some factory) = insert_new r id factory (lookup id r.entries)

unfoldable pub register :
    {W : Type 0}
    → AgentStrategyRegistry W
    → String
    → Option (AgentStrategyFactory W)
    → Result (AgentStrategyRegistry W)
unfolding lookup
register r id factory =
    let normalized = trim_space id in
    if normalized == ""
    then err (failure "agent strategy id must not be empty")
    else register_factory r normalized factory

-- Get, on a registry that is not nil.
unfoldable pub get :
    {W : Type 0} → AgentStrategyRegistry W → String → Option (AgentStrategyDescriptor W)
unfolding lookup
get r id =
    let normalized = trim_space id in if normalized == "" then none else lookup normalized r.entries

unfoldable pub validate_agent_strategy_metadata : PluginMetadata → Result (Unit {0})
validate_agent_strategy_metadata metadata = elim (validate metadata) [
  | some _ ↦ err (failure "invalid plugin metadata")
  | none ↦
      if not (family_text metadata.family == "agent_strategy")
      then err (failure "agent strategy metadata family must be \"agent_strategy\"")
      else if not (metadata.contract_version == agent_strategy_plugin_contract_version)
      then err (failure "agent strategy plugin contract version mismatch")
      else ok tt
]

abbrev pub check_id :
    {W : Type 0}
    → String
    → AgentStrategyPlugin W
    → Result (Unit {0})
    → Result (AgentStrategyPlugin W)
check_id id strategy (err e) = err e
check_id id strategy (ok _) =
    if not ((normalize strategy.metadata).logical_id == id)
    then err (failure "agent strategy metadata logical id must match registry id")
    else ok strategy

-- The checks of Resolve on what a factory returned.
abbrev pub check_strategy :
    {W : Type 0} → String → Option (AgentStrategyPlugin W) → Result (AgentStrategyPlugin W)
check_strategy id none = err (failure "agent strategy factory returned nil strategy")
check_strategy id (some strategy) =
    check_id id strategy (validate_agent_strategy_metadata (normalize strategy.metadata))

abbrev pub build_strategy :
    {W : Type 0} → Option (AgentStrategyDescriptor W) → Effect W (AgentStrategyPlugin W)
build_strategy none = raise (failure "agent strategy not found")
build_strategy (some descriptor) = do
  strategy ← descriptor.factory
  lift (check_strategy descriptor.id strategy)

unfoldable pub resolve :
    {W : Type 0} → AgentStrategyRegistry W → String → Effect W (AgentStrategyPlugin W)
unfolding lookup
resolve r id =
    let given = trim_space id in
    let selected = if given == "" then r.default_id else given in
    build_strategy (lookup selected r.entries)

unfoldable pub validate_agent_plan_decision : Task → AgentPlanDecision → Result Plan
validate_agent_plan_decision task decision =
    if not (trim_space decision.plan.task_id == "") && not (decision.plan.task_id == task.id)
    then err (failure "invalid agent strategy response: plan task_id does not match task")
    else ok decision.plan

abbrev pub named : String → List ToolInfo → Bool
named name [] = false
named name (t ∷ ts) = t.name == name || named name ts

unfoldable pub is_allowed_tool : String → List ToolInfo → Bool
is_allowed_tool name [] = true
is_allowed_tool name (t ∷ ts) = named name (t ∷ ts)

abbrev pub check_tool_call : List ToolInfo → Action → Option ToolCall → Result Action
check_tool_call tools action none =
    err (failure "invalid agent strategy response: tool_call action requires tool call payload")
check_tool_call tools action (some call) =
    if not (is_allowed_tool call.name tools)
    then err (failure "invalid agent strategy response: tool is not in host allowlist")
    else ok action

abbrev pub check_no_tool_call : Action → Option ToolCall → Result Action
check_no_tool_call action (some call) =
    err (failure "invalid agent strategy response: action type must not include tool call payload")
check_no_tool_call action none = ok action

abbrev pub check_action : List ToolInfo → Action → ActionType → Result Action
check_action tools action tool_call = check_tool_call tools action action.tool_call
check_action tools action respond = check_no_tool_call action action.tool_call
check_action tools action request_input = check_no_tool_call action action.tool_call
check_action tools action complete = check_no_tool_call action action.tool_call
check_action tools action (ActionType.other s) =
    err (failure "invalid agent strategy response: unsupported action type")

unfoldable pub validate_agent_action_decision : List ToolInfo → AgentActionDecision → Result Action
validate_agent_action_decision tools decision =
    check_action tools decision.action decision.action.type

abbrev pub check_observation : Observation → Option ToolResult → Result Observation
check_observation o (some result) =
    err
      (failure "invalid agent strategy response: observation must not include tool result payload")
check_observation o none = ok o

unfoldable pub validate_agent_observation_decision : AgentObservationDecision → Result Observation
validate_agent_observation_decision decision =
    check_observation decision.observation decision.observation.tool_result

abbrev pub builtin_metadata : PluginMetadata
builtin_metadata = record {
  family = agent_strategy;
  logical_id = builtin_agent_strategy_host_default;
  display_name = "Host Default Runtime Strategy";
  contract_version = agent_strategy_plugin_contract_version;
  implementation_version = "1.0.0";
  execution_mode = native;
  source_path = "builtin://runtime/model";
}

unfoldable pub new_builtin_model_agent_strategy : {W : Type 0} → Model W → AgentStrategyPlugin W
new_builtin_model_agent_strategy model = record {
  metadata = builtin_metadata;
  create_plan = λ c. do
    plan ← model.create_plan c.task c.session c.memory
    pure (record { plan = plan });
  next_action = λ c. do
    action ← model.next_action c.task c.session c.plan c.steps c.memory c.allowed_tools
    pure (record { action = action });
  observe = λ c. do
    observation ← model.observe c.task c.session c.plan c.action c.tool_result
    pure (record { observation = record observation { tool_result = none } });
}
