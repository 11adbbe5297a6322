-- ===== src/Runtime/Engine/Course/Verdicts.antt =====
-- The status of a run that has ended, unless it is fatal, tells how its last step went.
use zheng_harness.Base.{
  ℕ, Option, none, some, List, [], ◌∷◌, ◌++◌, ◌≡◌, ◌≢◌, ◌↔◌, refl, sym, ap, ◌∙◌, subst, All,
}
use zheng_harness.Domain.Types.{Err, SessionStatus, success, blocked_input, fatal_error, Step}
use zheng_harness.Runtime.Engine.Course.{
  Ending, succeeded, blocked, exhausted, out_of_retries, stopped, broken, Unfinished, LastIs,
  Passed, AsksInput,
}

abbrev last_of : List Step → Option Step
last_of [] = none
last_of (x ∷ []) = some x
last_of (x ∷ y ∷ rest) = last_of (y ∷ rest)

last_of-append : (before : List Step) (final : Step) → last_of (before ++ final ∷ []) ≡ some final
last_of-append [] final = refl
last_of-append (x ∷ []) final = refl
last_of-append (x ∷ y ∷ rest) final = last_of-append (y ∷ rest) final

same_last :
    {steps : List Step} (before before' : List Step) (final final' : Step)
    → steps ≡ before ++ final ∷ []
    → steps ≡ before' ++ final' ∷ []
    → some final ≡ some final'
same_last before before' final final' e e' =
    sym (last_of-append before final) ∙ ap last_of (sym e ∙ e') ∙ last_of-append before' final'

last_Unfinished :
    (before : List Step) (final : Step) → All Unfinished (before ++ final ∷ []) → Unfinished final
last_Unfinished [] final h = h.0
last_Unfinished (x ∷ before) final h = last_Unfinished before final h.1

Unfinished-last :
    {steps : List Step} (before : List Step) (final : Step)
    → All Unfinished steps
    → steps ≡ before ++ final ∷ []
    → Unfinished final
Unfinished-last before final h e = last_Unfinished before final (subst (All Unfinished) e h)

never_Passed : {steps : List Step} → All Unfinished steps → LastIs Passed steps → ⊥
never_Passed missed (before, final, e, passed) =
    cc ((Unfinished-last before final missed e).1, passed.0)

never_AsksInput : {steps : List Step} → All Unfinished steps → LastIs AsksInput steps → ⊥
never_AsksInput missed (before, final, e, asks) = (Unfinished-last before final missed e).0 asks

module _ {m k : ℕ} {status : SessionStatus} {steps : List Step} {error : Option Err} where
  pub success-Passed :
      Ending m k status steps error
      → status ≢ fatal_error
      → (status ≡ success) ↔ LastIs Passed steps
  success-Passed (succeeded before final s e missed passed type none_left) sane =
      (λ _. (before, final, e, (passed, type)), λ _. s)
  success-Passed (blocked before final s e missed waits type none_left) sane = (
    λ h. cc (s, h),
    λ (before', final', e', passed).
        cc (same_last before before' final final' e e', waits, passed.0),
  )
  success-Passed (exhausted s used missed none_left) sane =
      (λ h. cc (s, h), λ h. absurd (never_Passed missed h))
  success-Passed (out_of_retries s used spare missed given) sane =
      (λ h. cc (s, h), λ h. absurd (never_Passed missed h))
  success-Passed (stopped cause s why missed given) sane =
      (λ h. cc (s, h), λ h. absurd (never_Passed missed h))
  success-Passed (broken cause s given) sane = absurd (sane s)

  pub blocked-AsksInput :
      Ending m k status steps error
      → status ≢ fatal_error
      → (status ≡ blocked_input) ↔ LastIs AsksInput steps
  blocked-AsksInput (succeeded before final s e missed passed type none_left) sane = (
    λ h. cc (s, h),
    λ (before', final', e', asks).
        absurd (type (cc (same_last before before' final final' e e', asks))),
  )
  blocked-AsksInput (blocked before final s e missed waits type none_left) sane =
      (λ _. (before, final, e, type), λ _. s)
  blocked-AsksInput (exhausted s used missed none_left) sane =
      (λ h. cc (s, h), λ h. absurd (never_AsksInput missed h))
  blocked-AsksInput (out_of_retries s used spare missed given) sane =
      (λ h. cc (s, h), λ h. absurd (never_AsksInput missed h))
  blocked-AsksInput (stopped cause s why missed given) sane =
      (λ h. cc (s, h), λ h. absurd (never_AsksInput missed h))
  blocked-AsksInput (broken cause s given) sane = absurd (sane s)
