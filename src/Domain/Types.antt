-- ===== src/Domain/Types.antt =====
-- internal/domain: session.go, plan.go, action.go, step.go, observation.go, tool.go, task.go,
-- plugin_metadata.go, memory.go and verification.go, the data. A string type with constants is a data type with
-- a constructor for each constant and `other` for any other string.
use zheng_harness.Base.{ℕ, String, Bool, Option, List}
use zheng_harness.Base.Int.{ℤ}

abbrev pub Time : Type 0
Time = ℕ

pub data Err : Type 0 where
  canceled deadline_exceeded : Err
  failure : String → Err

pub data SessionStatus : Type 0 where
  pending running blocked_input success verification_failed budget_exceeded : SessionStatus
  fatal_error interrupted : SessionStatus
  other : String → SessionStatus

pub data VerificationStatus : Type 0 where
  passed failed not_applicable : VerificationStatus
  empty : VerificationStatus
  other : String → VerificationStatus

pub data ActionType : Type 0 where
  respond tool_call request_input complete : ActionType
  other : String → ActionType

pub data TaskCategory : Type 0 where
  coding research file_workflow general : TaskCategory
  other : String → TaskCategory

pub data PluginFamily : Type 0 where
  tool provider verifier agent_strategy : PluginFamily
  other : String → PluginFamily

pub data PluginExecutionMode : Type 0 where
  external native : PluginExecutionMode
  other : String → PluginExecutionMode

pub data MemoryScope : Type 0 where
  session project global : MemoryScope
  other : String → MemoryScope

pub data MemoryType : Type 0 where
  preference fact summary : MemoryType
  other : String → MemoryType

pub record MemoryEntry : Type 0 where
  pub id : String
  pub session_id : String
  pub project_key : String
  pub scope : MemoryScope
  pub type : MemoryType
  pub key : String
  pub content : String
  pub source : String
  pub confidence : ℤ
  pub provenance : String
  pub created_at : Time
  pub updated_at : Time
  pub expires_at : Option Time

pub record RecallQuery : Type 0 where
  pub session_id : String
  pub scope : MemoryScope
  pub type : MemoryType
  pub key : String
  pub source : String
  pub limit : ℤ
  pub prefix : String

pub record PluginMetadata : Type 0 where
  pub family : PluginFamily
  pub logical_id : String
  pub display_name : String
  pub contract_version : String
  pub implementation_version : String
  pub execution_mode : PluginExecutionMode
  pub source_path : String

pub record Provenance : Type 0 where
  pub plugins : List PluginMetadata

pub record Task : Type 0 where
  pub id : String
  pub description : String
  pub goal : String
  pub category : TaskCategory
  pub protocol_hint : String
  pub verification_policy : String
  pub created_at : Time

pub record Session : Type 0 where
  pub id : String
  pub task_id : String
  pub status : SessionStatus
  pub provenance : Option Provenance
  pub created_at : Time
  pub updated_at : Time

pub record ToolCall : Type 0 where
  pub name : String
  pub input : String
  pub timeout : ℕ

pub record ToolInfo : Type 0 where
  pub name : String
  pub description : String
  pub schema : String

pub record ToolResult : Type 0 where
  pub tool_name : String
  pub output : String
  pub error : String
  pub duration : ℕ

pub record Action : Type 0 where
  pub type : ActionType
  pub summary : String
  pub tool_call : Option ToolCall
  pub response : String

pub record EvidenceSource : Type 0 where
  pub id : String
  pub kind : String
  pub locator : String
  pub excerpt : String

pub record EvidenceFinding : Type 0 where
  pub claim : String
  pub supporting_source_ids : List String

pub record ResearchEvidence : Type 0 where
  pub sources : List EvidenceSource
  pub findings : List EvidenceFinding
  pub conclusion : String

pub record FileExpectation : Type 0 where
  pub path : String
  pub should_exist : Bool
  pub required_contents : List String

pub record FileResult : Type 0 where
  pub path : String
  pub exists : Bool
  pub content : String
  pub error : String

pub record FileWorkflowEvidence : Type 0 where
  pub expectations : List FileExpectation
  pub results : List FileResult
  pub summary : String

pub record Evidence : Type 0 where
  pub research : Option ResearchEvidence
  pub file_workflow : Option FileWorkflowEvidence

pub record Observation : Type 0 where
  pub summary : String
  pub tool_result : Option ToolResult
  pub final_response : String
  pub evidence : Option Evidence

pub record VerificationResult : Type 0 where
  pub passed : Bool
  pub status : VerificationStatus
  pub reason : String

pub record Step : Type 0 where
  pub index : ℕ
  pub action : Action
  pub observation : Observation
  pub verification : VerificationResult
  pub provenance : Option Provenance

pub record Plan : Type 0 where
  pub id : String
  pub task_id : String
  pub summary : String
  pub steps : List Step
  pub created_at : Time
