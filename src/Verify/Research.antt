-- ===== src/Verify/Research.antt =====
-- internal/verify/noncoding_verifier.go: ResearchVerifier. An error of the evidence is a constructor of
-- its own; `none` stands for the empty reason. The text of a reason is the parameter `describe`.
pub mod Grounded
mod Samples
use zheng_harness.Base.{
  String, Bool, true, false, ◌||◌, Option, none, some, List, [], ◌∷◌, ◌++◌, ◌==◌, contains,
  if◌then◌else◌,
}
use zheng_harness.Base.Text.{is_blank, trim_space}
use zheng_harness.Domain.Types.{
  EvidenceSource, EvidenceFinding, ResearchEvidence, Evidence, Observation, ToolResult,
  VerificationResult, passed, failed, not_applicable,
}
use zheng_harness.Verify.Judging.{judge}
use zheng_harness.Domain.PluginMetadata.{◌or_else◌}

pub data ResearchError : Type 0 where
  missing_conclusion missing_sources missing_findings : ResearchError
  missing_id : ResearchError
  duplicate_id missing_locator : String → ResearchError
  missing_claim : ResearchError
  missing_support empty_support : String → ResearchError
  unknown_source : String → String → ResearchError

-- The loop over the sources, with the ids that it has stored.
unfoldable pub check_sources : List String → List EvidenceSource → Option ResearchError
check_sources ids [] = none
check_sources ids (s ∷ rest) =
    let id = trim_space s.id in
    let later = check_sources (id ∷ ids) rest in
    if id == ""
    then some missing_id
    else if contains ids id
    then some (duplicate_id id)
    else if is_blank s.locator
    then some (missing_locator id)
    else later

-- The ids that are stored after the loop.
abbrev pub source_ids : List EvidenceSource → List String
source_ids [] = []
source_ids (s ∷ rest) = trim_space s.id ∷ source_ids rest

unfoldable pub check_support : List String → String → List String → Option ResearchError
check_support ids claim [] = none
check_support ids claim (source ∷ rest) =
    let id = trim_space source in
    let later = check_support ids claim rest in
    if id == ""
    then some (empty_support claim)
    else if contains ids id
    then later
    else some (unknown_source claim id)

-- The checks of one finding, and then `later`.
abbrev pub check_finding :
    List String → EvidenceFinding → List String → Option ResearchError → Option ResearchError
check_finding ids f [] later = some (missing_support f.claim)
check_finding ids f (source ∷ rest) later = check_support ids f.claim (source ∷ rest) or_else later

unfoldable pub check_findings : List String → List EvidenceFinding → Option ResearchError
unfolding check_support
check_findings ids [] = none
check_findings ids (f ∷ rest) =
    let later = check_findings ids rest in
    if is_blank f.claim
    then some missing_claim
    else check_finding ids f f.supporting_source_ids later

abbrev pub check_listed : List EvidenceSource → List EvidenceFinding → Option ResearchError
check_listed [] findings = some missing_sources
check_listed (s ∷ sources) [] = some missing_findings
check_listed (s ∷ sources) (f ∷ findings) =
    check_sources [] (s ∷ sources) or_else check_findings (source_ids (s ∷ sources)) (f ∷ findings)

unfoldable pub validate_research_evidence : ResearchEvidence → Option ResearchError
unfolding check_sources check_findings
validate_research_evidence e =
    if is_blank e.conclusion then some missing_conclusion else check_listed e.sources e.findings

-- Verify of ResearchVerifier.
unfoldable pub verify_research : (ResearchError → String) → Observation → VerificationResult
unfolding validate_research_evidence judge
verify_research describe o =
    judge (λ e. e.research) validate_research_evidence describe
      "verification not applicable yet: research evidence pending"
      "research evidence is complete and consistent" o
