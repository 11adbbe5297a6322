-- ===== src/Verify/FileWorkflow/Met.antt =====
-- The evidence that FileWorkflowVerifier takes.
use zheng_harness.Base.{
  String, Bool, true, false, ◌||◌, Option, none, some, List, [], ◌∷◌, ◌==◌, if◌then◌else◌, ◌≡◌, ◌≢◌,
  ◌↔◌, inl, inr, refl, sym, ap, ◌∙◌, All, arith, Bool-cases,
}
use zheng_harness.Base.Maps.{lookup}
use zheng_harness.Base.Text.{is_blank, trim_space}
use zheng_harness.Base.Text.Words.{contains_text}
use zheng_harness.Domain.Types.{
  FileExpectation, FileResult, FileWorkflowEvidence, Evidence, Observation,
}
use zheng_harness.Domain.PluginMetadata.{◌or_else◌}
use zheng_harness.Verify.Judging.{Untroubled, HasPart, judge_iff, or_else_none}
use zheng_harness.Verify.FileWorkflow.{
  WorkflowError, missing_expectation_path, normalize_file_path, check_results, entries,
  check_contents, differ, check_result, check_found, check_expectations, check_given,
  validate_file_workflow_evidence, verify_file_workflow,
}
use zheng_harness.Verify.FileWorkflow.Results.{
  Apart, IsAmong, check_results_iff, lookup-entries, lookup-Apart,
}

-- The content has the fragment, trimmed, unless that is blank.
abbrev pub Holds : String → String → Type 0
Holds content fragment = (is_blank fragment || contains_text content (trim_space fragment)) ≡ true

-- The result is as expected: the file exists or not as it should, there was no error, and where it
-- should exist, its content has the fragments.
pub record Matches (e : FileExpectation) (r : FileResult) : Type 0 where
  pub existence : r.exists ≡ e.should_exist
  pub quiet : is_blank r.error ≡ true
  pub contents : e.should_exist ≡ true → All (Holds r.content) e.required_contents

-- The expectation names a path, and a result of that path matches it.
pub record IsMet (results : List FileResult) (e : FileExpectation) : Type 0 where
  pub path : (normalize_file_path e.path == "") ≡ false
  pub result : FileResult
  pub among : IsAmong result results
  pub same : normalize_file_path result.path ≡ normalize_file_path e.path
  pub matches : Matches e result

pub record IsComplete (e : FileWorkflowEvidence) : Type 0 where
  pub expectations : e.expectations ≢ []
  pub results : e.results ≢ []
  pub apart : Apart [] e.results
  pub met : All (IsMet e.results) e.expectations

check_contents_iff :
    (path content : String) (fragments : List String)
    → (check_contents path content fragments ≡ none) ↔ All (Holds content) fragments
unfolding check_contents
check_contents_iff path content [] = (λ h. tt, λ h. refl)
check_contents_iff path content (f ∷ rest) =
    let later = check_contents_iff path content rest in
    elim (Bool-cases (is_blank f || contains_text content (trim_space f))) [
      | inl good ↦
          (λ h. (good, later.0 (ground (arith, h, good))), λ h. ground (arith, good, later.1 h.1))
      | inr bad ↦ (λ h. ground (arith, h, bad), λ h. cc (bad, h.0))
    ]

differ_iff : (a b : Bool) → (differ a b ≡ false) ↔ (a ≡ b)
differ_iff true true = (λ h. refl, λ h. refl)
differ_iff true false = (λ h. cc h, λ h. cc h)
differ_iff false true = (λ h. cc h, λ h. cc h)
differ_iff false false = (λ h. refl, λ h. refl)

-- The contents are checked where the file should exist.
contents_iff :
    (path content : String) (should : Bool) (fragments : List String) (later : Option WorkflowError)
    → ((if should then check_contents path content fragments or_else later else later) ≡ none)
      ↔ ((should ≡ true → All (Holds content) fragments) × (later ≡ none))
contents_iff path content false fragments later = (λ h. ((λ e. cc e), h), λ h. h.1)
contents_iff path content true fragments later =
    let checked = check_contents_iff path content fragments in
    let both = or_else_none (check_contents path content fragments) later in
    (
      λ h. let (good, after) = both.0 h in ((λ _. checked.0 good), after),
      λ h. both.1 (checked.1 (h.0 refl), h.1),
    )

check_passes :
    (path : String) (e : FileExpectation) (r : FileResult) (later : Option WorkflowError)
    → differ r.exists e.should_exist ≡ false
    → is_blank r.error ≡ true
    → check_result path e r later ≡ (
        if e.should_exist
        then check_contents path r.content e.required_contents or_else later
        else later)
unfolding check_result
check_passes path e r later same silent = ground (arith, same, silent)

check_result_iff :
    (path : String) (e : FileExpectation) (r : FileResult) (later : Option WorkflowError)
    → (check_result path e r later ≡ none) ↔ (Matches e r × (later ≡ none))
unfolding check_result
check_result_iff path e r later =
    let contents = contents_iff path r.content e.should_exist e.required_contents later in
    elim (Bool-cases (differ r.exists e.should_exist)) [
      | inl different ↦ (
        λ h. ground (arith, h, different),
        λ h. ground (arith, different, (differ_iff r.exists e.should_exist).1 h.0.existence),
      )
      | inr same ↦ elim (Bool-cases (is_blank r.error)) [
        | inr loud ↦ (λ h. ground (arith, h, same, loud), λ h. ground (arith, loud, h.0.quiet))
        | inl silent ↦
            let passes = check_passes path e r later same silent in
            (
              λ h.
                  let (fragments, after) = contents.0 (sym passes ∙ h) in
                  (
                    record {
                      existence = (differ_iff r.exists e.should_exist).0 same;
                      quiet = silent;
                      contents = fragments;
                    },
                    after,
                  ),
              λ h. passes ∙ contents.1 (h.0.contents, h.1),
            )
      ]
    ]

found-some :
    (path : String) (e : FileExpectation) (found : Option FileResult) (later : Option WorkflowError)
    → check_found path e found later ≡ none
    → (r : FileResult) × (found ≡ some r) × (Matches e r × (later ≡ none))
found-some path e none later h = cc h
found-some path e (some r) later h = (r, refl, (check_result_iff path e r later).0 h)

check_found_iff :
    (results : List FileResult) (e : FileExpectation) (later : Option WorkflowError)
    → Apart [] results
    → (normalize_file_path e.path == "") ≡ false
    → (check_found
          (normalize_file_path e.path)
          e
          (lookup (normalize_file_path e.path) (entries results))
          later
        ≡ none)
      ↔ (IsMet results e × (later ≡ none))
check_found_iff results e later apart named = (
  λ h.
      let (r, found, good) =
        found-some (normalize_file_path e.path) e
          (lookup (normalize_file_path e.path) (entries results)) later h in
      let (among, same) = lookup-entries (normalize_file_path e.path) results r found in
      (record { path = named; result = r; among = among; same = same; matches = good.0 }, good.1),
  λ h.
      ap (λ o. check_found (normalize_file_path e.path) e o later)
        (ap (λ p. lookup p (entries results)) (sym h.0.same)
          ∙ lookup-Apart [] results h.0.result apart h.0.among)
      ∙ (check_result_iff (normalize_file_path e.path) e h.0.result later).1 (h.0.matches, h.1),
)

abbrev unless_blank : Option WorkflowError → Bool → Option WorkflowError
unless_blank later blank = if blank then some missing_expectation_path else later

check_expectations_iff :
    (results : List FileResult) (expectations : List FileExpectation)
    → Apart [] results
    → (check_expectations (entries results) expectations ≡ none) ↔ All (IsMet results) expectations
unfolding check_expectations
check_expectations_iff results [] apart = (λ h. tt, λ h. refl)
check_expectations_iff results (e ∷ rest) apart =
    let later = check_expectations_iff results rest apart in
    elim (Bool-cases (normalize_file_path e.path == "")) [
      | inl blank ↦ (λ h. ground (arith, h, blank), λ h. ground (arith, blank, h.0.path))
      | inr named ↦
          let found =
            check_found_iff results e (check_expectations (entries results) rest) apart named in
          (
            λ h.
                let (met, after) = found.0 (
                  sym (
                    ap
                      (unless_blank (
                        check_found (normalize_file_path e.path) e
                          (lookup (normalize_file_path e.path) (entries results))
                          (check_expectations (entries results) rest)))
                      named)
                  ∙ h) in
                (met, later.0 after),
            λ h.
                ap
                  (unless_blank (
                    check_found (normalize_file_path e.path) e
                      (lookup (normalize_file_path e.path) (entries results))
                      (check_expectations (entries results) rest)))
                  named
                ∙ found.1 (h.0, later.1 h.1),
          )
    ]

check_given_iff :
    (expectations : List FileExpectation) (results : List FileResult)
    → (check_given expectations results ≡ none)
      ↔ ((expectations ≢ []) × (results ≢ []) × Apart [] results × All (IsMet results) expectations)
check_given_iff [] results = (λ h. cc h, λ h. absurd (h.0 refl))
check_given_iff (e ∷ expectations) [] = (λ h. cc h, λ h. absurd (h.1 refl))
check_given_iff (e ∷ expectations) (r ∷ results) =
    let apart = check_results_iff [] (r ∷ results) in
    let both =
      or_else_none (check_results [] (r ∷ results))
        (check_expectations (entries (r ∷ results)) (e ∷ expectations)) in
    (
      λ h.
          let (good, after) = both.0 h in
          (
            (λ x. cc x),
            (λ x. cc x),
            apart.0 good,
            (check_expectations_iff (r ∷ results) (e ∷ expectations) (apart.0 good)).0 after,
          ),
      λ h.
          both.1 (apart.1 h.2, (check_expectations_iff (r ∷ results) (e ∷ expectations) h.2).1 h.3),
    )

-- The verifier has no reason against the evidence exactly when it is complete: it has expectations and
-- results, no two results have the same path, and each expectation is met by the result of its path.
pub validate_file_workflow_evidence_iff :
    (e : FileWorkflowEvidence) → (validate_file_workflow_evidence e ≡ none) ↔ IsComplete e
unfolding validate_file_workflow_evidence
validate_file_workflow_evidence_iff e =
    let given = check_given_iff e.expectations e.results in
    (
      λ h.
          let (some_expectations, some_results, apart, met) = given.0 h in
          record {
            expectations = some_expectations;
            results = some_results;
            apart = apart;
            met = met;
          },
      λ h. given.1 (h.expectations, h.results, h.apart, h.met),
    )

abbrev pub CompleteEvidence : Option Evidence → Type 0
CompleteEvidence o = HasPart (λ e. e.file_workflow) IsComplete o

-- FileWorkflowVerifier passes an observation exactly when its tool, if one ran, reported no error and
-- its file workflow evidence is there and complete: it has expectations and results, the results have
-- paths, all different, and each expectation has a path and among the results one of that path, which
-- exists or not as it should, has no error and, where it should exist, has every required fragment
-- that is not blank in its content.
pub verify_file_workflow_iff :
    (describe : WorkflowError → String) (o : Observation)
    → ((verify_file_workflow describe o).passed ≡ true)
      ↔ (Untroubled o.tool_result × CompleteEvidence o.evidence)
unfolding verify_file_workflow
verify_file_workflow_iff describe o =
    judge_iff (λ e. e.file_workflow) validate_file_workflow_evidence describe
      "verification not applicable yet: file workflow evidence pending"
      "file workflow evidence satisfies expected conditions" IsComplete
      validate_file_workflow_evidence_iff o
