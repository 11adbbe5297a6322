-- ===== src/Verify/TaskAware/Samples.antt =====
-- Two tasks: one names a policy, one asks for the default.
use zheng_harness.Base.{ℕ, String, true, some, ◌≡◌, refl}
use zheng_harness.Base.Text.{trim_space}
use zheng_harness.Base.Text.Words.{to_lower}
use zheng_harness.Domain.Types.{Task, research, VerificationResult, passed}
use zheng_harness.Domain.Effect.{Effect, pure, ok}
use zheng_harness.Verify.TaskAware.{
  TaskAwareVerifier, Builtin, research_verifier, new_task_aware_verifier, builtin_registry,
  select_policy, normalize_policy_token, normalize_verification_policy, refusal, verify,
}
use zheng_harness.Verify.TaskAware.Refused.{default_refused}

abbrev a_verifier : TaskAwareVerifier Builtin
a_verifier = new_task_aware_verifier "strict" builtin_registry

abbrev by_default : Task
by_default = record {
  id = "t";
  description = "find sources";
  goal = "";
  category = research;
  protocol_hint = "";
  verification_policy = " Default ";
  created_at = 0;
}

abbrev unnamed : Task
unnamed = record by_default { verification_policy = "" }

chosen : builtin_registry (select_policy a_verifier unnamed) "strict" ≡ some research_verifier
unfolding builtin_registry select_policy trim_space to_lower
chosen = refl

abbrev approve : Builtin → Effect ℕ VerificationResult
approve b w = (ok (record { passed = true; status = passed; reason = "fine" }), w)

abbrev in_brackets : String → String
in_brackets s = "default"

reads_default : normalize_policy_token " Default " ≡ "default"
unfolding normalize_policy_token trim_space to_lower
reads_default = refl

default_refused_example :
    (verify in_brackets approve a_verifier by_default
      ≡ (pure (refusal in_brackets (trim_space " Default ")), a_verifier))
    × (normalize_verification_policy " Default " ≡ normalize_verification_policy "")
default_refused_example = default_refused in_brackets approve a_verifier by_default reads_default
