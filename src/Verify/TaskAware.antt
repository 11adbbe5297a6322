-- ===== src/Verify/TaskAware.antt =====
-- internal/verify/task_aware_verifier.go: the choice of a verifier by a task's policy or category. `J` is
-- the type of verifiers, which a registry resolves by id and mode; a nil registry was replaced by the
-- built-in one. `quote` prints a text as %q does. The switch of the constructor on the mode has one
-- outcome.
pub mod Refused
mod Samples
use zheng_harness.Base.{
  String, Bool, true, false, not, ◌&&◌, ◌||◌, Option, none, some, ◌==◌, if◌then◌else◌,
}
use zheng_harness.Base.Text.{trim_space}
use zheng_harness.Base.Text.Words.{to_lower}
use zheng_harness.Domain.Types.{
  Task, TaskCategory, coding, research, file_workflow, general, VerificationResult, failed,
}
use zheng_harness.Domain.Effect.{Effect, pure}
use zheng_harness.Runtime.TaskRegistry.{normalize_category}
use Prim.Native.String.{◌++◌ as ◌+++◌}

abbrev pub policy_command_backed : String
policy_command_backed = "command"

abbrev pub policy_evidence_based : String
policy_evidence_based = "evidence"

abbrev pub policy_state_output : String
policy_state_output = "state_output"

unfoldable pub normalize_policy_token : String → String
normalize_policy_token raw = to_lower (trim_space raw)

-- The switch of normalizeVerificationPolicy.
abbrev pub known_policy : String → String
known_policy text =
    if text == "" || text == "default"
    then ""
    else if text == policy_command_backed
        || text == "command_based"
        || text == "coding"
        || text == "code"
        || text == "exec_command"
    then policy_command_backed
    else if text == policy_evidence_based || text == "evidence_based" || text == "research"
    then policy_evidence_based
    else if text == policy_state_output
        || text == "state"
        || text == "output"
        || text == "checklist"
        || text == "file_workflow"
        || text == "file-workflow"
    then policy_state_output
    else ""

unfoldable pub normalize_verification_policy : String → String
unfolding normalize_policy_token
normalize_verification_policy raw = known_policy (normalize_policy_token raw)

pub record TaskAwareVerifier (J : Type 0) : Type 0 where
  pub fallback_policy : String
  pub mode : String
  pub registry : String → String → Option J
  pub resolved : Option J

abbrev pub new_task_aware_verifier :
    {J : Type 0} → String → (String → String → Option J) → TaskAwareVerifier J
new_task_aware_verifier mode registry = record {
  fallback_policy = policy_command_backed;
  mode = mode;
  registry = registry;
  resolved = none;
}

abbrev policy_by_category : String → TaskCategory → String
policy_by_category fallback coding = policy_command_backed
policy_by_category fallback research = policy_evidence_based
policy_by_category fallback file_workflow = policy_state_output
policy_by_category fallback _ = fallback

unfoldable pub select_policy : {J : Type 0} → TaskAwareVerifier J → Task → String
unfolding normalize_verification_policy normalize_category
select_policy v task =
    let policy = normalize_verification_policy task.verification_policy in
    if not (policy == "")
    then policy
    else policy_by_category v.fallback_policy (normalize_category task.category)

abbrev pub refusal : (String → String) → String → VerificationResult
refusal quote policy = record {
  passed = false;
  status = failed;
  reason = "verification policy " +++ (quote policy +++ " not configured");
}

module _ {J : Type 0} (quote : String → String) where
  abbrev pub verify_with :
      {W : Type 0}
      → (J → Effect W VerificationResult)
      → TaskAwareVerifier J
      → String
      → Option J
      → Effect W VerificationResult × TaskAwareVerifier J
  verify_with judge v policy none = (pure (refusal quote policy), v)
  verify_with judge v policy (some strategy) =
      (judge strategy, record v { resolved = some strategy })

  -- Verify; `judge` is the call of the chosen verifier with the arguments that Verify got.
  unfoldable pub verify :
      {W : Type 0}
      → (J → Effect W VerificationResult)
      → TaskAwareVerifier J
      → Task
      → Effect W VerificationResult × TaskAwareVerifier J
  unfolding select_policy
  verify judge v task =
      let raw = trim_space task.verification_policy in
      if not (raw == "") && normalize_verification_policy raw == ""
      then (pure (refusal quote raw), v)
      else verify_with judge v (select_policy v task) (v.registry (select_policy v task) v.mode)

-- The verifiers of the built-in registry.
pub data Builtin : Type 0 where
  command_verifier research_verifier file_workflow_verifier : Builtin

abbrev builtin_entry : String → Option Builtin
builtin_entry id =
    if id == policy_command_backed
    then some command_verifier
    else if id == policy_evidence_based
    then some research_verifier
    else if id == policy_state_output
    then some file_workflow_verifier
    else none

-- Resolve of builtinVerifierRegistry.
unfoldable pub builtin_registry : String → String → Option Builtin
builtin_registry id mode =
    let selected = trim_space id in
    builtin_entry (if selected == "" then policy_command_backed else selected)
