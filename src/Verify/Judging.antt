-- ===== src/Verify/Judging.antt =====
-- internal/verify/noncoding_verifier.go: what Verify of ResearchVerifier and Verify of
-- FileWorkflowVerifier have in common. They differ in the `part` of the evidence that they take, in its
-- check, where `none` stands for the empty reason, and in two texts; `describe` prints a reason.
use zheng_harness.Base.{
  String, true, false, Option, none, some, if◌then◌else◌, ◌≡◌, ◌↔◌, refl, Bool-cases, inl, inr,
}
use zheng_harness.Base.Text.{is_blank}
use zheng_harness.Domain.PluginMetadata.{◌or_else◌}
use zheng_harness.Domain.Types.{
  Evidence, Observation, ToolResult, VerificationResult, passed, failed, not_applicable,
}

pub or_else_none :
    {E : Type 0} (o later : Option E) → ((o or_else later) ≡ none) ↔ ((o ≡ none) × (later ≡ none))
or_else_none none later = (λ h. (refl, h), λ h. h.1)
or_else_none (some e) later = (λ h. cc h, λ h. cc (h.0))

abbrev failed_result : String → VerificationResult
failed_result reason = record { passed = false; status = failed; reason = reason }

abbrev pending_result : String → VerificationResult
pending_result reason = record { passed = false; status = not_applicable; reason = reason }

module _ {P E : Type 0} (part : Evidence → Option P) (check : P → Option E) (describe : E → String)
    (pending done : String) where
  abbrev judge_reason : Option E → VerificationResult
  judge_reason (some e) = failed_result (describe e)
  judge_reason none = record { passed = true; status = passed; reason = done }

  abbrev judge_part : Option P → VerificationResult
  judge_part none = pending_result pending
  judge_part (some p) = judge_reason (check p)

  abbrev judge_evidence : Option Evidence → VerificationResult
  judge_evidence none = pending_result pending
  judge_evidence (some e) = judge_part (part e)

  abbrev judge_after_tool : Option ToolResult → Option Evidence → VerificationResult
  judge_after_tool none evidence = judge_evidence evidence
  judge_after_tool (some t) evidence =
      if is_blank t.error then judge_evidence evidence else failed_result t.error

  unfoldable pub judge : Observation → VerificationResult
  judge o = judge_after_tool o.tool_result o.evidence

-- The tool, if one ran, reported no error.
abbrev pub Untroubled : Option ToolResult → Type 0
Untroubled none = Unit
Untroubled (some t) = is_blank t.error ≡ true

abbrev Has : {P : Type 0} → (P → Type 0) → Option P → Type 0
Has Good none = ⊥
Has Good (some p) = Good p

-- The part is there, and it is good.
abbrev pub HasPart : {P : Type 0} → (Evidence → Option P) → (P → Type 0) → Option Evidence → Type 0
HasPart part Good none = ⊥
HasPart part Good (some e) = Has Good (part e)

module _ {P E : Type 0} (part : Evidence → Option P) (check : P → Option E) (describe : E → String)
    (pending done : String) (Good : P → Type 0)
    (check_iff : (p : P) → (check p ≡ none) ↔ Good p) where
  judge_reason_iff :
      (o : Option E)
      → ((judge_reason part check describe pending done o).passed ≡ true) ↔ (o ≡ none)
  judge_reason_iff none = (λ h. refl, λ h. refl)
  judge_reason_iff (some e) = (λ h. cc h, λ h. cc h)

  judge_part_iff :
      (o : Option P) → ((judge_part part check describe pending done o).passed ≡ true) ↔ Has Good o
  judge_part_iff none = (λ h. cc h, λ h. absurd h)
  judge_part_iff (some p) =
      let judged = judge_reason_iff (check p) in
      let valid = check_iff p in (λ h. valid.0 (judged.0 h), λ h. judged.1 (valid.1 h))

  judge_evidence_iff :
      (o : Option Evidence)
      → ((judge_evidence part check describe pending done o).passed ≡ true) ↔ HasPart part Good o
  judge_evidence_iff none = (λ h. cc h, λ h. absurd h)
  judge_evidence_iff (some e) = judge_part_iff (part e)

  judge_after_tool_iff :
      (t : Option ToolResult) (o : Option Evidence)
      → ((judge_after_tool part check describe pending done t o).passed ≡ true)
        ↔ (Untroubled t × HasPart part Good o)
  judge_after_tool_iff none o =
      let judged = judge_evidence_iff o in (λ h. (tt, judged.0 h), λ h. judged.1 h.1)
  judge_after_tool_iff (some t) o =
      let judged = judge_evidence_iff o in
      elim (Bool-cases (is_blank t.error)) [
        | inl silent ↦ rw silent (λ h. (refl, judged.0 h), λ h. judged.1 h.1)
        | inr loud ↦ rw loud (λ h. cc h, λ h. cc (h.0))
      ]

  -- Such a verifier passes an observation exactly when its tool, if one ran, reported no error and the
  -- part is there and good.
  pub judge_iff :
      (o : Observation)
      → ((judge part check describe pending done o).passed ≡ true)
        ↔ (Untroubled o.tool_result × HasPart part Good o.evidence)
  unfolding judge
  judge_iff o = judge_after_tool_iff o.tool_result o.evidence
