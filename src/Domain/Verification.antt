-- ===== src/Domain/Verification.antt =====
-- internal/domain/verification.go: the defaults and the schema of a verification result.
-- JSON encoding itself is not modelled; the value that MarshalJSON encodes is.
pub mod RoundTrip
mod Samples
use zheng_harness.Base.{
  String, Bool, true, false, not, ◌≡◌, refl, Option, none, some, ◌==◌, ◌&&◌, if◌then◌else◌,
}
use zheng_harness.Base.Text.{trim_space}
use zheng_harness.Domain.Types.{
  VerificationStatus, passed, failed, not_applicable, empty, other, VerificationResult,
}

-- The errors that Validate returns.
pub data SchemaError : Type 0 where
  empty_reason requires_passed requires_not_passed unknown_status : SchemaError

abbrev is_empty : VerificationStatus → Bool
is_empty empty = true
is_empty _ = false

unfoldable pub status_or_default : VerificationResult → VerificationStatus
status_or_default r =
    if not (is_empty r.status) then r.status else if r.passed then passed else failed

unfoldable pub normalize : VerificationResult → VerificationResult
unfolding status_or_default
normalize r = record r { status = status_or_default r }

-- The switch of Validate.
unfoldable pub check_status : VerificationStatus → Bool → Option SchemaError
check_status passed p = if not p then some requires_passed else none
check_status failed p = if p then some requires_not_passed else none
check_status not_applicable p = if p then some requires_not_passed else none
check_status _ p = some unknown_status

unfoldable pub validate : VerificationResult → Option SchemaError
unfolding normalize check_status
validate r =
    let n = normalize r in
    if trim_space n.reason == "" then some empty_reason else check_status n.status n.passed

abbrev has_status : VerificationStatus → Bool
has_status s = not (is_empty s)

-- What MarshalJSON encodes.
unfoldable pub marshalled : VerificationResult → VerificationResult
unfolding normalize
marshalled r =
    let n = normalize r in
    if trim_space n.reason == "" && has_status n.status then record n { reason = "verified" } else n

-- What UnmarshalJSON stores for decoded fields.
unfoldable pub unmarshalled : VerificationResult → Option VerificationResult
unfolding normalize validate
unmarshalled decoded =
    let n = normalize decoded in elim (validate n) [ none ↦ some n | some _ ↦ none ]
