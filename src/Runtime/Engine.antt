-- ===== src/Runtime/Engine.antt =====
-- internal/runtime/runtime.go: the Engine and what it depends on. A dependency is a record of functions
-- over the world `W`, and one that is nil is `none`; the context and the deadline that the program passes
-- on are read back from the world. RunStream is Run in a goroutine of its own and is not modelled.
pub mod Recall
pub mod Iteration
pub mod Loop
pub mod Journal
pub mod Rules
pub mod Course
pub mod Trace
pub mod Permitted
mod Samples
use zheng_harness.Base.{
  ℕ, String, Bool, true, false, Option, none, some, List, [], ◌∷◌, ◌==◌, ◌=ℕ◌, if◌then◌else◌,
  length,
}
use zheng_harness.Base.Int.{ℤ, positive_or}
use zheng_harness.Domain.Types.{
  Time, Err, canceled, deadline_exceeded, failure, Task, Session, SessionStatus, Plan, Step,
  MemoryEntry, RecallQuery, ToolInfo, ToolCall, ToolResult, Observation, VerificationResult,
  PluginMetadata, pending, running, blocked_input, success, verification_failed, budget_exceeded,
  fatal_error, interrupted, other,
}
use zheng_harness.Domain.Effect.{
  Result, ok, err, Effect, Ask, pure, raise, lift, ask, run, ◌>>=◌, ◌>>◌, on,
}
use zheng_harness.Runtime.EventRelay.{
  StreamingEvent, EventType, tool_start, tool_end, step_complete, error, session_complete,
}
use zheng_harness.Runtime.AgentStrategy.{
  Model, AgentStrategyRegistry, AgentStrategyPlugin, AgentStrategyFactory, AgentStrategyDescriptor,
  new_agent_strategy_registry, new_builtin_model_agent_strategy, register, get, resolve,
  builtin_agent_strategy_host_default,
}

pub record ToolExecutor (W : Type 0) : Type 0 where
  pub execute : ToolCall → W → (ToolResult × Option Err) × W
  -- ListToolInfo of its registry, where the executor has a method Registry that returns a toolInfoLister;
  -- the executors of internal/tools and internal/runtimebuilder return a *tools.Registry, and are `none`
  pub list_tool_info : Option (Ask W (List ToolInfo))

pub record MemoryStore (W : Type 0) : Type 0 where
  pub remember : String → Observation → Ask W (Option Err)
  pub recall : RecallQuery → Effect W (List MemoryEntry)

pub record SessionStore (W : Type 0) : Type 0 where
  pub save_session : Session → Ask W (Option Err)
  pub save_plan : Plan → Ask W (Option Err)
  pub append_step : String → Step → Ask W (Option Err)

pub record Verifier (W : Type 0) : Type 0 where
  pub verify : Task → Session → Plan → List Step → Observation → Effect W VerificationResult
  pub verifier_provenance : Ask W (Option PluginMetadata)

-- What the events carry, before json.Marshal.
pub data EventPayload : Type 0 where
  tool_start_payload : String → String → EventPayload
  tool_end_payload : String → String → String → EventPayload
  step_complete_payload : String → EventPayload
  error_payload : String → EventPayload
  session_complete_payload : String → String → EventPayload

-- What `ctx.Err()` says: it documents nil, context.Canceled and context.DeadlineExceeded.
pub data ContextState : Type 0 where
  live ended expired : ContextState

abbrev pub context_error : ContextState → Option Err
context_error live = none
context_error ended = some canceled
context_error expired = some deadline_exceeded

-- The run's context, the clock of the machine and the encoder of payloads.
pub record Environment (W : Type 0) : Type 0 where
  pub context : Ask W ContextState
  pub time_now : Ask W Time
  pub encode : EventPayload → Result String

unfoldable pub context_err : {W : Type 0} → Environment W → Ask W (Option Err)
context_err env w = let (state, w') = env.context w in (context_error state, w')

pub record Engine (W : Type 0) : Type 0 where
  pub model : Option (Model W)
  pub provider_provenance : Ask W (Option PluginMetadata)
  pub tools : Option (ToolExecutor W)
  pub memory : Option (MemoryStore W)
  pub sessions : Option (SessionStore W)
  pub verifier : Option (Verifier W)
  pub agent_strategies : Option (AgentStrategyRegistry W)
  pub agent_strategy_id : String
  pub event_channel : Option (StreamingEvent → Ask W (Option Err))
  pub clock : Option (Ask W Time)
  pub max_steps : ℤ
  pub max_retries : ℤ
  pub session_timeout : ℤ
  pub environment : Environment W

-- The engine with the dependencies that Run requires.
pub record Ports (W : Type 0) : Type 0 where
  pub engine : Engine W
  pub tools : ToolExecutor W
  pub memory : MemoryStore W
  pub sessions : SessionStore W
  pub verifier : Verifier W

abbrev pub has_planner : {W : Type 0} → Option (Model W) → Option (AgentStrategyRegistry W) → Bool
has_planner (some _) _ = true
has_planner none (some _) = true
has_planner none none = false

abbrev pub collect :
    {W : Type 0}
    → Engine W
    → Option (ToolExecutor W)
    → Option (MemoryStore W)
    → Option (SessionStore W)
    → Option (Verifier W)
    → Option (Ports W)
collect e (some tools) (some memory) (some sessions) (some verifier) =
    if has_planner e.model e.agent_strategies
    then some (record {
      engine = e;
      tools = tools;
      memory = memory;
      sessions = sessions;
      verifier = verifier;
    })
    else none
collect e _ _ _ _ = none

-- hasRequiredDependencies, with what it has found.
unfoldable pub required_dependencies : {W : Type 0} → Engine W → Option (Ports W)
required_dependencies e = collect e e.tools e.memory e.sessions e.verifier

-- `err.Error()`
abbrev pub error_text : Err → String
error_text canceled = "context canceled"
error_text deadline_exceeded = "context deadline exceeded"
error_text (failure s) = s

abbrev pub status_text : SessionStatus → String
status_text pending = "pending"
status_text running = "running"
status_text blocked_input = "blocked_input"
status_text success = "success"
status_text verification_failed = "verification_failed"
status_text budget_exceeded = "budget_exceeded"
status_text fatal_error = "fatal_error"
status_text interrupted = "interrupted"
status_text (SessionStatus.other s) = s

abbrev pub clock_or : {W : Type 0} → Option (Ask W Time) → Ask W Time → Ask W Time
clock_or none time_now = time_now
clock_or (some clock) time_now = clock

-- `e.Clock`, or `time.Now` where it is nil.
unfoldable pub now : {W : Type 0} → Engine W → Ask W Time
now e = clock_or e.clock e.environment.time_now

abbrev pub builtin_factory : {W : Type 0} → Option (Model W) → AgentStrategyFactory W
builtin_factory none = raise (failure "runtime engine requires model for built-in agent strategy")
builtin_factory (some model) = pure (some (new_builtin_model_agent_strategy model))

abbrev pub with_builtin :
    {W : Type 0} → Engine W → AgentStrategyRegistry W → Result (AgentStrategyRegistry W)
with_builtin e r = register r builtin_agent_strategy_host_default (some (builtin_factory e.model))

abbrev pub add_missing :
    {W : Type 0}
    → Engine W
    → AgentStrategyRegistry W
    → Option (AgentStrategyDescriptor W)
    → Result (AgentStrategyRegistry W)
add_missing e r (some found) = ok r
add_missing e r none = with_builtin e r

abbrev pub complete_registry :
    {W : Type 0} → Engine W → Option (AgentStrategyRegistry W) → Result (AgentStrategyRegistry W)
complete_registry e none = with_builtin e new_agent_strategy_registry
complete_registry e (some r) = add_missing e r (get r builtin_agent_strategy_host_default)

unfoldable pub resolve_agent_strategy : {W : Type 0} → Engine W → Effect W (AgentStrategyPlugin W)
unfolding register get
resolve_agent_strategy e = do
  registry ← lift (complete_registry e e.agent_strategies)
  resolve registry e.agent_strategy_id

abbrev pub listed : {W : Type 0} → Option (Ask W (List ToolInfo)) → Ask W (List ToolInfo)
listed none w = ([], w)
listed (some list) w = list w

unfoldable pub list_tool_info : {W : Type 0} → Ports W → Ask W (List ToolInfo)
list_tool_info p = listed p.tools.list_tool_info

abbrev pub send :
    {W : Type 0}
    → Option (StreamingEvent → Ask W (Option Err))
    → StreamingEvent
    → Effect W (Unit {0})
send none event = pure tt
send (some channel) event = run (channel event)

unfoldable pub emit_event : {W : Type 0} → Engine W → StreamingEvent → Effect W (Unit {0})
emit_event e event = send e.event_channel event

-- NewStreamingEvent
unfoldable pub new_streaming_event :
    {W : Type 0} → Environment W → EventType → ℕ → EventPayload → Effect W StreamingEvent
new_streaming_event env type step_index payload = do
  text ← lift (env.encode payload)
  timestamp ← ask env.time_now
  pure (record { type = type; step_index = step_index; payload = text; timestamp = timestamp })

abbrev pub emit : {W : Type 0} → Engine W → EventType → ℕ → EventPayload → Effect W (Unit {0})
emit e type step_index payload = do
  event ← new_streaming_event e.environment type step_index payload
  emit_event e event

unfoldable pub emit_tool_start_event : {W : Type 0} → Engine W → ℕ → ToolCall → Effect W (Unit {0})
emit_tool_start_event e i call = emit e tool_start i (tool_start_payload call.name call.input)

unfoldable pub emit_tool_end_event : {W : Type 0} → Engine W → ℕ → ToolResult → Effect W (Unit {0})
emit_tool_end_event e i r = emit e tool_end i (tool_end_payload r.tool_name r.output r.error)

unfoldable pub emit_step_complete_event : {W : Type 0} → Engine W → ℕ → String → Effect W (Unit {0})
emit_step_complete_event e i summary = emit e step_complete i (step_complete_payload summary)

unfoldable pub emit_error_event : {W : Type 0} → Engine W → ℕ → String → Effect W (Unit {0})
emit_error_event e i message = emit e error i (error_payload message)

unfoldable pub emit_session_complete_event : {W : Type 0} → Engine W → Session → Effect W (Unit {0})
emit_session_complete_event e session =
    emit e session_complete 0 (session_complete_payload session.id (status_text session.status))

unfoldable pub record_step :
    {W : Type 0} → Ports W → String → Step → Observation → Effect W (Unit {0})
record_step p session_id step observation = do
  run (p.sessions.append_step session_id step)
  run (p.memory.remember session_id observation)

-- What Run returns, and the zero values that it returns with some errors.
pub record RunResult : Type 0 where
  pub session : Session
  pub plan : Plan
  pub steps : List Step
  pub error : Option Err

abbrev pub no_session : Session
no_session = record {
  id = "";
  task_id = "";
  status = SessionStatus.other "";
  provenance = none;
  created_at = 0;
  updated_at = 0;
}

abbrev pub no_plan : Plan
no_plan = record { id = ""; task_id = ""; summary = ""; steps = []; created_at = 0 }

abbrev pub lost : Err → RunResult
lost e = record { session = no_session; plan = no_plan; steps = []; error = some e }

abbrev pub emit_cause : {W : Type 0} → Engine W → ℕ → Option Err → Effect W (Unit {0})
emit_cause e i none = pure tt
emit_cause e i (some cause) = emit_error_event e i (error_text cause)

-- Save, report the cause if there is one, and report the end.
unfoldable pub close_session :
    {W : Type 0} → Ports W → Session → List Step → Option Err → Effect W (Unit {0})
close_session p session steps cause = do
  run (p.sessions.save_session session)
  emit_cause p.engine (length steps) cause
  emit_session_complete_event p.engine session

-- The end of a run whose session has its last status.
unfoldable pub end_session :
    {W : Type 0} → Ports W → Session → Plan → List Step → Option Err → Ask W RunResult
end_session p session plan steps cause w =
    on (close_session p session steps cause w) (λ e w. (lost e, w))
      (λ _ w. (record { session = session; plan = plan; steps = steps; error = cause }, w))

unfoldable pub fail_session :
    {W : Type 0}
    → Ports W
    → Session
    → SessionStatus
    → Plan
    → List Step
    → Option Err
    → Ask W RunResult
fail_session p session status plan steps cause w =
    let (time, w') = now p.engine w in
    end_session p (record session { status = status; updated_at = time }) plan steps cause w'
