-- ===== src/Domain/Verification/RoundTrip.antt =====
-- internal/domain/verification.go: what the schema accepts, and encoding followed by decoding.
use zheng_harness.Base.{
  Bool, true, false, not, ◌≡◌, refl, ◌↔◌, ◌≢◌, none, some, ◌==◌, if◌then◌else◌, arith, str_eq_iff,
}
use zheng_harness.Base.Text.{trim_space}
use zheng_harness.Domain.Types.{
  VerificationStatus, passed, failed, not_applicable, empty, other, VerificationResult,
}
use zheng_harness.Domain.Verification.{
  normalize, status_or_default, check_status, validate, marshalled, unmarshalled,
}

-- The flag and the status of a result say the same: an independent reading of the schema.
abbrev pub Agrees : VerificationStatus → Bool → Type 0
Agrees passed p = p ≡ true
Agrees failed p = p ≡ false
Agrees not_applicable p = p ≡ false
Agrees empty p = Unit
Agrees (other s) p = ⊥

abbrev agrees : VerificationStatus → Bool → Bool
agrees passed p = p
agrees failed p = not p
agrees not_applicable p = not p
agrees empty p = true
agrees (other s) p = false

check_status-eq :
    (r : VerificationResult)
    → check_status (status_or_default r) r.passed ≡ none ↔ agrees r.status r.passed ≡ true
unfolding check_status status_or_default
check_status-eq r = ground arith

Agrees-iff : (s : VerificationStatus) (p : Bool) → agrees s p ≡ true ↔ Agrees s p
Agrees-iff passed p = ground arith
Agrees-iff failed p = ground arith
Agrees-iff not_applicable p = ground arith
Agrees-iff empty p = (λ _. tt, λ _. refl)
Agrees-iff (other s) p = (λ h. cc, λ h. absurd h)

-- A result passes Validate exactly when its reason is not blank and its status, where it has one,
-- agrees with its flag.
pub validate_iff :
    (r : VerificationResult)
    → (validate r ≡ none) ↔ ((trim_space r.reason ≢ "") × Agrees r.status r.passed)
unfolding validate
validate_iff r = (
  λ h. (
    ground (arith, str_eq_iff (trim_space r.reason) ""),
    (Agrees-iff _ _).0
        ((check_status-eq r).0 (ground (arith, str_eq_iff (trim_space r.reason) ""))),
  ),
  λ h.
      let k = (check_status-eq r).1 ((Agrees-iff _ _).1 h.1) in
      ground (arith, str_eq_iff (trim_space r.reason) "", k),
)

verified-not-blank : (trim_space "verified" == "") ≡ false
unfolding trim_space
verified-not-blank = refl

unmarshalled-marshalled-eq :
    (r : VerificationResult)
    → unmarshalled (marshalled r) ≡ (if agrees r.status r.passed then some (marshalled r) else none)
unfolding unmarshalled marshalled validate normalize status_or_default check_status
unmarshalled-marshalled-eq r = ground (arith, verified-not-blank)

-- What MarshalJSON writes, UnmarshalJSON reads back unchanged, exactly when the status of the
-- result, where it has one, agrees with its flag. A blank reason does not stand in the way, since
-- MarshalJSON fills it in.
pub unmarshalled-marshalled :
    (r : VerificationResult)
    → (unmarshalled (marshalled r) ≡ some (marshalled r)) ↔ Agrees r.status r.passed
unmarshalled-marshalled r = (
  λ h. (Agrees-iff _ _).0 (ground (arith, unmarshalled-marshalled-eq r)),
  λ h. let k = (Agrees-iff _ _).1 h in rw (unmarshalled-marshalled-eq r, k),
)
