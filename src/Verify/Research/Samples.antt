-- ===== src/Verify/Research/Samples.antt =====
-- Evidence with two sources and a finding.
use zheng_harness.Base.{String, true, none, some, [], ◌∷◌, ◌≡◌, ◌↔◌, refl}
use zheng_harness.Base.Text.{trim_space}
use zheng_harness.Domain.Types.{ResearchEvidence, EvidenceSource, Observation}
use zheng_harness.Verify.Research.{
  ResearchError, unknown_source, validate_research_evidence, verify_research,
}
use zheng_harness.Verify.Judging.{Untroubled}
use zheng_harness.Verify.Research.Grounded.{GroundedEvidence, verify_research_iff}

abbrev paper : EvidenceSource
paper = record { id = "s1"; kind = "paper"; locator = "doi:1"; excerpt = "" }

abbrev evidence : ResearchEvidence
evidence = record {
  sources = paper ∷ record paper { id = " s2" } ∷ [];
  findings = record { claim = "it holds"; supporting_source_ids = "s2" ∷ "s1 " ∷ [] } ∷ [];
  conclusion = "yes";
}

complete : validate_research_evidence evidence ≡ none
unfolding validate_research_evidence trim_space
complete = refl

unsupported :
    validate_research_evidence (record evidence {
      findings = record { claim = "it holds"; supporting_source_ids = "s3" ∷ [] } ∷ [];
    })
    ≡ some (unknown_source "it holds" "s3")
unfolding validate_research_evidence trim_space
unsupported = refl

abbrev seen : Observation
seen = record {
  summary = "";
  tool_result = none;
  final_response = "";
  evidence = some (record { research = some evidence; file_workflow = none });
}

abbrev said : ResearchError → String
said e = "incomplete"

verify_research_iff_example :
    ((verify_research said seen).passed ≡ true)
    ↔ (Untroubled seen.tool_result × GroundedEvidence seen.evidence)
verify_research_iff_example = verify_research_iff said seen
