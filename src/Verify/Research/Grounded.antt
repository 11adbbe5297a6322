-- ===== src/Verify/Research/Grounded.antt =====
-- The evidence that ResearchVerifier takes.
use zheng_harness.Base.{
  String, true, false, Option, none, some, List, [], ◌∷◌, contains, if◌then◌else◌, ◌≡◌, ◌≢◌, ◌↔◌,
  refl, sym, ap, ◌∙◌, All, arith, Bool-cases, inl, inr,
}
use zheng_harness.Base.Text.{is_blank, trim_space}
use zheng_harness.Domain.Types.{
  EvidenceSource, EvidenceFinding, ResearchEvidence, Evidence, Observation,
}
use zheng_harness.Verify.Research.{
  ResearchError, missing_conclusion, missing_claim, check_sources, source_ids, check_support,
  check_finding, check_findings, check_listed, validate_research_evidence, verify_research,
}
use zheng_harness.Verify.Judging.{Untroubled, HasPart, judge_iff, or_else_none}

abbrev pub Filled : String → Type 0
Filled s = is_blank s ≡ false

-- The source has an id and a locator, and no source after the ids `seen` shares an id.
abbrev pub Sourced : List String → List EvidenceSource → Type 0
Sourced seen [] = Unit
Sourced seen (s ∷ rest) =
    Filled s.id
    × (contains seen (trim_space s.id) ≡ false)
    × Filled s.locator
    × Sourced (trim_space s.id ∷ seen) rest

-- The finding makes a claim, which names sources, all of them known.
pub record Supported (ids : List String) (f : EvidenceFinding) : Type 0 where
  pub claim : Filled f.claim
  pub sources : f.supporting_source_ids ≢ []
  pub known : All (λ s. Filled s × (contains ids (trim_space s) ≡ true)) f.supporting_source_ids

pub record IsGrounded (e : ResearchEvidence) : Type 0 where
  pub conclusion : Filled e.conclusion
  pub sources : e.sources ≢ []
  pub findings : e.findings ≢ []
  pub sourced : Sourced [] e.sources
  pub supported : All (Supported (source_ids e.sources)) e.findings

check_sources_iff :
    (seen : List String) (sources : List EvidenceSource)
    → (check_sources seen sources ≡ none) ↔ Sourced seen sources
unfolding check_sources
check_sources_iff seen [] = (λ h. tt, λ h. refl)
check_sources_iff seen (s ∷ rest) =
    let later = check_sources_iff (trim_space s.id ∷ seen) rest in
    (
      λ h. (ground (arith, h), ground (arith, h), ground (arith, h), later.0 (ground (arith, h))),
      λ h. ground (arith, h.0, h.1, h.2, later.1 h.3),
    )

abbrev Known : List String → String → Type 0
Known ids s = Filled s × (contains ids (trim_space s) ≡ true)

check_support_iff :
    (ids : List String) (claim : String) (support : List String)
    → (check_support ids claim support ≡ none) ↔ All (Known ids) support
unfolding check_support
check_support_iff ids claim [] = (λ h. tt, λ h. refl)
check_support_iff ids claim (s ∷ rest) =
    let later = check_support_iff ids claim rest in
    (
      λ h. ((ground (arith, h), ground (arith, h)), later.0 (ground (arith, h))),
      λ h. ground (arith, h.0.0, h.0.1, later.1 h.1),
    )

check_finding_iff :
    (ids : List String) (f : EvidenceFinding) (support : List String) (later : Option ResearchError)
    → (check_finding ids f support later ≡ none)
      ↔ ((support ≢ []) × All (Known ids) support × (later ≡ none))
check_finding_iff ids f [] later = (λ h. cc h, λ h. absurd (h.0 refl))
check_finding_iff ids f (s ∷ rest) later =
    let support = check_support_iff ids f.claim (s ∷ rest) in
    let both = or_else_none (check_support ids f.claim (s ∷ rest)) later in
    (
      λ h. let (good, after) = both.0 h in ((λ e. cc e), support.0 good, after),
      λ h. both.1 (support.1 h.1, h.2),
    )

check_findings_iff :
    (ids : List String) (fs : List EvidenceFinding)
    → (check_findings ids fs ≡ none) ↔ All (Supported ids) fs
unfolding check_findings
check_findings_iff ids [] = (λ h. tt, λ h. refl)
check_findings_iff ids (f ∷ fs) =
    let later = check_findings_iff ids fs in
    let one = check_finding_iff ids f f.supporting_source_ids (check_findings ids fs) in
    elim (Bool-cases (is_blank f.claim)) [
      | inl blank ↦ (λ h. ground (arith, h, blank), λ h. ground (arith, blank, h.0.claim))
      | inr full ↦ (
        λ h.
            let (named, known, after) = one.0 (
              sym (
                ap
                  (λ b.
                    if b
                    then some missing_claim
                    else check_finding ids f f.supporting_source_ids (check_findings ids fs))
                  full)
              ∙ h) in
            (record { claim = full; sources = named; known = known }, later.0 after),
        λ h.
            ap
              (λ b.
                if b
                then some missing_claim
                else check_finding ids f f.supporting_source_ids (check_findings ids fs))
              full
            ∙ one.1 (h.0.sources, h.0.known, later.1 h.1),
      )
    ]

check_listed_iff :
    (sources : List EvidenceSource) (findings : List EvidenceFinding)
    → (check_listed sources findings ≡ none) ↔ (
        (sources ≢ [])
        × (findings ≢ [])
        × Sourced [] sources
        × All (Supported (source_ids sources)) findings)
check_listed_iff [] findings = (λ h. cc h, λ h. absurd (h.0 refl))
check_listed_iff (s ∷ sources) [] = (λ h. cc h, λ h. absurd (h.1 refl))
check_listed_iff (s ∷ sources) (f ∷ findings) =
    let sourced = check_sources_iff [] (s ∷ sources) in
    let supported = check_findings_iff (source_ids (s ∷ sources)) (f ∷ findings) in
    let both =
      or_else_none (check_sources [] (s ∷ sources))
        (check_findings (source_ids (s ∷ sources)) (f ∷ findings)) in
    (
      λ h.
          let (good, after) = both.0 h in
          ((λ e. cc e), (λ e. cc e), sourced.0 good, supported.0 after),
      λ h. both.1 (sourced.1 h.2, supported.1 h.3),
    )

-- The verifier has no reason against the evidence exactly when it is grounded: it has a conclusion,
-- sources with ids of their own and locators, and findings that each make a claim and name sources,
-- all of which are among the evidence's own.
pub validate_research_evidence_iff :
    (e : ResearchEvidence) → (validate_research_evidence e ≡ none) ↔ IsGrounded e
unfolding validate_research_evidence
validate_research_evidence_iff e =
    let listed = check_listed_iff e.sources e.findings in
    elim (Bool-cases (is_blank e.conclusion)) [
      | inl blank ↦ (λ h. ground (arith, h, blank), λ h. ground (arith, blank, h.conclusion))
      | inr full ↦ (
        λ h.
            let (some_sources, some_findings, sourced, supported) = listed.0 (
              sym (
                ap (λ b. if b then some missing_conclusion else check_listed e.sources e.findings)
                  full)
              ∙ h) in
            record {
              conclusion = full;
              sources = some_sources;
              findings = some_findings;
              sourced = sourced;
              supported = supported;
            },
        λ h.
            ap (λ b. if b then some missing_conclusion else check_listed e.sources e.findings) full
            ∙ listed.1 (h.sources, h.findings, h.sourced, h.supported),
      )
    ]

abbrev pub GroundedEvidence : Option Evidence → Type 0
GroundedEvidence o = HasPart (λ e. e.research) IsGrounded o

-- ResearchVerifier passes an observation exactly when its tool, if one ran, reported no error and its
-- research evidence is there and grounded: it has a conclusion, sources with ids of their own and
-- locators, and findings that each make a claim and name sources, all of them the evidence's own.
pub verify_research_iff :
    (describe : ResearchError → String) (o : Observation)
    → ((verify_research describe o).passed ≡ true)
      ↔ (Untroubled o.tool_result × GroundedEvidence o.evidence)
unfolding verify_research
verify_research_iff describe o =
    judge_iff (λ e. e.research) validate_research_evidence describe
      "verification not applicable yet: research evidence pending"
      "research evidence is complete and consistent" IsGrounded validate_research_evidence_iff o
