-- ===== src/Domain/Verification/Samples.antt =====
-- Verification results that exercise the schema.
use zheng_harness.Base.{true, ◌≡◌, refl, ◌↔◌, ◌≢◌, none, some}
use zheng_harness.Base.Text.{trim_space}
use zheng_harness.Domain.Types.{passed, failed, VerificationResult}
use zheng_harness.Domain.Verification.{validate, marshalled, unmarshalled}
use zheng_harness.Domain.Verification.RoundTrip.{Agrees, validate_iff, unmarshalled-marshalled}

abbrev good : VerificationResult
good = record { passed = true; status = passed; reason = "tests pass" }

abbrev mixed : VerificationResult
mixed = record { passed = true; status = failed; reason = "tests pass" }

abbrev silent : VerificationResult
silent = record { passed = true; status = passed; reason = " " }

verdicts :
    (validate good ≡ none)
    × (unmarshalled (marshalled mixed) ≡ none)
    × ((marshalled silent).reason ≡ "verified")
unfolding validate unmarshalled marshalled trim_space
verdicts = (refl, refl, refl)

validate_iff_example :
    (validate good ≡ none) ↔ ((trim_space good.reason ≢ "") × Agrees good.status good.passed)
validate_iff_example = validate_iff good

unmarshalled-marshalled_example :
    (unmarshalled (marshalled silent) ≡ some (marshalled silent))
    ↔ Agrees silent.status silent.passed
unmarshalled-marshalled_example = unmarshalled-marshalled silent
