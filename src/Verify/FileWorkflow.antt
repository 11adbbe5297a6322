-- ===== src/Verify/FileWorkflow.antt =====
-- internal/verify/noncoding_verifier.go: FileWorkflowVerifier. An error of the evidence is a constructor
-- of its own; `none` stands for the empty reason. The map of the results is read by key only and its
-- keys are distinct where it is read, so that it is the list of its entries.
mod Results
pub mod Met
mod Samples
use zheng_harness.Base.{
  String, Bool, true, false, not, ◌&&◌, ◌||◌, Option, none, some, List, [], ◌∷◌, ◌==◌, contains,
  if◌then◌else◌, ◌=ℕ◌, ◌≡◌, refl,
}
use zheng_harness.Base.Maps.{lookup}
use zheng_harness.Base.Text.{is_blank, trim_space}
use zheng_harness.Base.Text.Words.{contains_text}
use zheng_harness.Domain.Types.{
  FileExpectation, FileResult, FileWorkflowEvidence, Observation, VerificationResult,
}
use zheng_harness.Domain.PluginMetadata.{◌or_else◌}
use zheng_harness.Verify.Judging.{judge}
use Prim.Native.Char.{Char, code}
use Prim.Native.String.{char_at}

abbrev slash_char : Char → Char
slash_char c = if code c =ℕ 92 then char_at "/" 0 else c

-- `strings.ReplaceAll` of a backslash by a slash.
unfoldable pub slashes : String → String
slashes String.[] = String.[]
slashes (String.◌∷◌ c s) = String.◌∷◌ (slash_char c) (slashes s)

unfoldable pub normalize_file_path : String → String
unfolding slashes trim_space
normalize_file_path path = trim_space (slashes path)

pub data WorkflowError : Type 0 where
  missing_expectations missing_results missing_result_path missing_expectation_path : WorkflowError
  duplicate_result missing_result existence_mismatch : String → WorkflowError
  reported_error missing_content : String → String → WorkflowError

-- The loop over the results, with the paths that it has stored.
unfoldable pub check_results : List String → List FileResult → Option WorkflowError
check_results paths [] = none
check_results paths (r ∷ rest) =
    let path = normalize_file_path r.path in
    let later = check_results (path ∷ paths) rest in
    if path == ""
    then some missing_result_path
    else if contains paths path
    then some (duplicate_result path)
    else later

-- The entries that are stored after the loop.
abbrev pub entries : List FileResult → List (String × FileResult)
entries [] = []
entries (r ∷ rest) = (normalize_file_path r.path, r) ∷ entries rest

unfoldable pub check_contents : String → String → List String → Option WorkflowError
check_contents path content [] = none
check_contents path content (fragment ∷ rest) =
    let later = check_contents path content rest in
    if is_blank fragment || contains_text content (trim_space fragment)
    then later
    else some (missing_content path (trim_space fragment))

abbrev pub differ : Bool → Bool → Bool
differ true b = not b
differ false b = b

-- The checks of an expectation's result, and then `later`.
unfoldable pub check_result :
    String → FileExpectation → FileResult → Option WorkflowError → Option WorkflowError
unfolding check_contents
check_result path e r later =
    if differ r.exists e.should_exist
    then some (existence_mismatch path)
    else if not (is_blank r.error)
    then some (reported_error path (trim_space r.error))
    else if e.should_exist
    then check_contents path r.content e.required_contents or_else later
    else later

abbrev pub check_found :
    String → FileExpectation → Option FileResult → Option WorkflowError → Option WorkflowError
check_found path e none later = some (missing_result path)
check_found path e (some r) later = check_result path e r later

unfoldable pub check_expectations :
    List (String × FileResult) → List FileExpectation → Option WorkflowError
unfolding check_result lookup
check_expectations results [] = none
check_expectations results (e ∷ rest) =
    let path = normalize_file_path e.path in
    let later = check_expectations results rest in
    if path == ""
    then some missing_expectation_path
    else check_found path e (lookup path results) later

abbrev pub check_given : List FileExpectation → List FileResult → Option WorkflowError
check_given [] results = some missing_expectations
check_given (e ∷ expectations) [] = some missing_results
check_given (e ∷ expectations) (r ∷ results) =
    check_results [] (r ∷ results)
    or_else check_expectations (entries (r ∷ results)) (e ∷ expectations)

unfoldable pub validate_file_workflow_evidence : FileWorkflowEvidence → Option WorkflowError
unfolding check_results check_expectations
validate_file_workflow_evidence e = check_given e.expectations e.results

-- Verify of FileWorkflowVerifier.
unfoldable pub verify_file_workflow : (WorkflowError → String) → Observation → VerificationResult
unfolding validate_file_workflow_evidence judge
verify_file_workflow describe o =
    judge (λ e. e.file_workflow) validate_file_workflow_evidence describe
      "verification not applicable yet: file workflow evidence pending"
      "file workflow evidence satisfies expected conditions" o

slashed : normalize_file_path " a\\b " ≡ "a/b"
unfolding normalize_file_path
slashed = refl
