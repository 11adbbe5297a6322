-- ===== src/Runtime/TaskRegistry.antt =====
-- internal/runtime/task_registry.go and the normalisation of internal/domain/task.go: the protocol of a
-- task by its category. The registry is built from constant tables, so `entry_of` is its map.
pub mod Resolved
mod Samples
use zheng_harness.Base.{String, Option, none, some, List, [], ◌∷◌, ◌==◌, if◌then◌else◌}
use zheng_harness.Base.Text.{trim_space}
use zheng_harness.Domain.Types.{TaskCategory, coding, research, file_workflow, general, Task}

abbrev pub verifier_policy_command : String
verifier_policy_command = "command"

abbrev pub verifier_policy_evidence : String
verifier_policy_evidence = "evidence"

abbrev pub verifier_policy_state_output : String
verifier_policy_state_output = "state_output"

pub record TaskProtocolCompatibilityDefaults : Type 0 where
  pub protocol_hint : String
  pub verification_policy : String

pub record TaskProtocolMetadata : Type 0 where
  pub task_type : TaskCategory
  pub verifier_policy : String
  pub prompting_hints : List String
  pub compatibility_defaults : TaskProtocolCompatibilityDefaults

pub record ResolvedTaskProtocol : Type 0 where
  pub task : Task
  pub metadata : TaskProtocolMetadata

abbrev pub coding_protocol : TaskProtocolMetadata
coding_protocol = record {
  task_type = coding;
  verifier_policy = verifier_policy_command;
  prompting_hints =
      "Prefer repository-backed evidence and executable validation."
      ∷ "Use tool calls only when they advance the code or test state." ∷ [];
  compatibility_defaults = record {
    protocol_hint = "cli-first coding workflow";
    verification_policy = verifier_policy_command;
  };
}

abbrev pub research_protocol : TaskProtocolMetadata
research_protocol = record {
  task_type = research;
  verifier_policy = verifier_policy_evidence;
  prompting_hints =
      "Ground claims in gathered evidence before responding."
      ∷ "Prefer concise synthesis over speculative implementation steps." ∷ [];
  compatibility_defaults = record {
    protocol_hint = "evidence-first research workflow";
    verification_policy = verifier_policy_evidence;
  };
}

abbrev pub file_workflow_protocol : TaskProtocolMetadata
file_workflow_protocol = record {
  task_type = file_workflow;
  verifier_policy = verifier_policy_state_output;
  prompting_hints =
      "Track file inputs, outputs, and handoff state explicitly."
      ∷ "Confirm artifact paths and completion criteria before finishing." ∷ [];
  compatibility_defaults = record {
    protocol_hint = "artifact-tracking file workflow";
    verification_policy = verifier_policy_state_output;
  };
}

-- defaultFallbackTaskProtocolMetadata
abbrev pub fallback_protocol : TaskProtocolMetadata
fallback_protocol = record {
  task_type = general;
  verifier_policy = verifier_policy_evidence;
  prompting_hints =
      "Use a conservative general-purpose workflow when no specialized protocol exists." ∷ [];
  compatibility_defaults = record {
    protocol_hint = "general compatibility workflow";
    verification_policy = verifier_policy_evidence;
  };
}

abbrev pub entry_of : TaskCategory → Option TaskProtocolMetadata
entry_of coding = some coding_protocol
entry_of research = some research_protocol
entry_of file_workflow = some file_workflow_protocol
entry_of _ = none

unfoldable pub normalize_category : TaskCategory → TaskCategory
normalize_category coding = coding
normalize_category research = research
normalize_category file_workflow = file_workflow
normalize_category general = general
normalize_category (TaskCategory.other s) = general

unfoldable pub normalize_task : Task → Task
unfolding normalize_category
normalize_task t = record t { category = normalize_category t.category }

abbrev pub or_fallback : Option TaskProtocolMetadata → TaskProtocolMetadata
or_fallback (some metadata) = metadata
or_fallback none = fallback_protocol

unfoldable pub resolve_category : TaskCategory → TaskProtocolMetadata
unfolding normalize_category
resolve_category task_type = or_fallback (entry_of (normalize_category task_type))

abbrev pub or_default : String → String → String
or_default s default_value = if trim_space s == "" then default_value else s

-- The part of Resolve after it found the metadata.
abbrev pub complete : TaskProtocolMetadata → Task → ResolvedTaskProtocol
complete metadata resolved = record {
  task = record resolved {
    category = metadata.task_type;
    protocol_hint = or_default resolved.protocol_hint metadata.compatibility_defaults.protocol_hint;
    verification_policy =
        or_default resolved.verification_policy metadata.compatibility_defaults.verification_policy;
  };
  metadata = metadata;
}

unfoldable pub resolve : Task → ResolvedTaskProtocol
unfolding resolve_category normalize_category normalize_task
resolve task = complete (resolve_category (normalize_category task.category)) (normalize_task task)

-- The table in the order of its keys.
abbrev pub list : List TaskProtocolMetadata
list = coding_protocol ∷ file_workflow_protocol ∷ research_protocol ∷ []
