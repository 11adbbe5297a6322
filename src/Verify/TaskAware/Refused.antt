-- ===== src/Verify/TaskAware/Refused.antt =====
-- Which policies Verify refuses.
use zheng_harness.Base.{
  String, true, false, ◌==◌, ◌≡◌, refl, ap, ◌∙◌, arith, Bool-cases, inl, inr, str_eq_iff,
}
use zheng_harness.Base.Text.{trim_space}
use zheng_harness.Base.Text.Trim.{trim_space_again}
use zheng_harness.Base.Text.Words.{to_lower}
use zheng_harness.Domain.Types.{Task, VerificationResult}
use zheng_harness.Domain.Effect.{Effect, pure}
use zheng_harness.Verify.TaskAware.{
  TaskAwareVerifier, normalize_policy_token, known_policy, normalize_verification_policy, refusal,
  verify,
}

-- A policy that is given and names no verifier.
abbrev pub Unknown : String → Type 0
Unknown policy =
    ((trim_space policy == "") ≡ false) × ((normalize_verification_policy policy == "") ≡ true)

normalize_verification_policy-trim_space :
    (s : String) → normalize_verification_policy (trim_space s) ≡ normalize_verification_policy s
unfolding normalize_verification_policy
normalize_verification_policy-trim_space s =
    ap (λ t. known_policy (to_lower t)) (trim_space_again s)

module _ {J W : Type 0} (quote : String → String) (judge : J → Effect W VerificationResult) where
  verify-Unknown :
      (v : TaskAwareVerifier J) (task : Task)
      → Unknown task.verification_policy
      → verify quote judge v task ≡ (pure (refusal quote (trim_space task.verification_policy)), v)
  unfolding verify
  verify-Unknown v task h =
      let policy = task.verification_policy in
      let same : (normalize_verification_policy (trim_space policy) == "") ≡ true =
        ap (λ t. t == "") (normalize_verification_policy-trim_space policy) ∙ h.1 in
      rw (h.0, same) refl

lower_blank : (s : String) → (s == "") ≡ true → (to_lower s == "default") ≡ false
unfolding to_lower
lower_blank s h = rw ((str_eq_iff s "").0 h) refl

default-Unknown : (s : String) → normalize_policy_token s ≡ "default" → Unknown s
unfolding normalize_verification_policy
default-Unknown s h = (full, rw h refl)
  where
    full : (trim_space s == "") ≡ false
    full = elim (Bool-cases (trim_space s == "")) [
      | inr named ↦ named
      | inl blank ↦ ground (
        arith,
        lower_blank (trim_space s) blank,
        (str_eq_iff (to_lower (trim_space s)) "default").1 h,
      )
    ]

-- A task whose policy reads `default`, in any case and with any white space around it, is refused
-- whatever its category, and no verifier is chosen, although the policy's normal form is the one of
-- a policy that is left out.
pub default_refused :
    {J W : Type 0} (quote : String → String) (judge : J → Effect W VerificationResult)
    (v : TaskAwareVerifier J) (task : Task)
    → normalize_policy_token task.verification_policy ≡ "default"
    → (verify quote judge v task ≡ (pure (refusal quote (trim_space task.verification_policy)), v))
      × (normalize_verification_policy task.verification_policy ≡ normalize_verification_policy "")
unfolding normalize_verification_policy trim_space to_lower
default_refused quote judge v task h =
    (verify-Unknown quote judge v task (default-Unknown task.verification_policy h), rw h refl)
