-- ===== src/Verify/FileWorkflow/Samples.antt =====
-- Evidence of one file that should be there and one that should not.
use zheng_harness.Base.{String, true, false, none, some, [], ◌∷◌, ◌≡◌, ◌↔◌, refl}
use zheng_harness.Base.Text.Words.{contains_text}
use zheng_harness.Domain.Types.{FileExpectation, FileResult, FileWorkflowEvidence, Observation}
use zheng_harness.Verify.FileWorkflow.{
  WorkflowError, missing_result, missing_content, duplicate_result, validate_file_workflow_evidence,
  verify_file_workflow, normalize_file_path,
}
use zheng_harness.Verify.Judging.{Untroubled}
use zheng_harness.Verify.FileWorkflow.Met.{CompleteEvidence, verify_file_workflow_iff}

abbrev made : FileResult
made = record { path = "out/a.txt"; exists = true; content = "hello"; error = "" }

abbrev gone : FileResult
gone = record { path = "tmp"; exists = false; content = ""; error = "" }

abbrev wanted : FileExpectation
wanted = record { path = " out\\a.txt"; should_exist = true; required_contents = "hell" ∷ " " ∷ [] }

abbrev unwanted : FileExpectation
unwanted = record { path = "tmp"; should_exist = false; required_contents = "x" ∷ [] }

abbrev evidence : FileWorkflowEvidence
evidence = record {
  expectations = wanted ∷ unwanted ∷ [];
  results = gone ∷ made ∷ [];
  summary = "";
}

complete : validate_file_workflow_evidence evidence ≡ none
unfolding validate_file_workflow_evidence normalize_file_path contains_text
complete = refl

twice :
    validate_file_workflow_evidence (record evidence { results = made ∷ made ∷ [] })
    ≡ some (duplicate_result "out/a.txt")
unfolding validate_file_workflow_evidence normalize_file_path contains_text
twice = refl

lost :
    validate_file_workflow_evidence (record evidence { results = made ∷ [] })
    ≡ some (missing_result "tmp")
unfolding validate_file_workflow_evidence normalize_file_path contains_text
lost = refl

other_content :
    validate_file_workflow_evidence
      (record evidence { results = record made { content = "bye" } ∷ gone ∷ [] })
    ≡ some (missing_content "out/a.txt" "hell")
unfolding validate_file_workflow_evidence normalize_file_path contains_text
other_content = refl

abbrev seen : Observation
seen = record {
  summary = "";
  tool_result = none;
  final_response = "";
  evidence = some (record { research = none; file_workflow = some evidence });
}

abbrev said : WorkflowError → String
said e = "incomplete"

verify_file_workflow_iff_example :
    ((verify_file_workflow said seen).passed ≡ true)
    ↔ (Untroubled seen.tool_result × CompleteEvidence seen.evidence)
verify_file_workflow_iff_example = verify_file_workflow_iff said seen
