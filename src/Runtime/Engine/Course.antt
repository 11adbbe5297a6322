-- ===== src/Runtime/Engine/Course.antt =====
-- How a run may end, and what it has written down by then.
pub mod Closing
mod Verdicts
use zheng_harness.Base.{
  ℕ, suc, ◌+◌, ◌≤◌, ◌<◌, String, Bool, true, false, Option, none, some, List, [], ◌∷◌, ◌++◌, ◌≡◌,
  ◌≢◌, ◌↔◌, refl, length, All, arith, ◌⊎◌, inl, inr, length-append,
}
use zheng_harness.Domain.Types.{
  Err, canceled, deadline_exceeded, Session, SessionStatus, success, blocked_input, budget_exceeded,
  verification_failed, interrupted, fatal_error, Plan, Step, ToolCall, ToolInfo, ActionType,
  request_input,
}
use zheng_harness.Domain.Effect.{Result, ok, err, Effect, Ask, pure, run, settle, ◌>>=◌, ◌>>◌, on}
use zheng_harness.Domain.Effect.Ensures.{
  Ensures, Holds, Any, Ensures-pure, Ensures-bind, Ensures-follow, on-Ensures, settled,
}
use zheng_harness.Runtime.Engine.{
  Engine, Ports, RunResult, lost, now, emit_cause, emit_error_event, emit_session_complete_event,
  close_session, end_session, fail_session, listed, list_tool_info,
}
use zheng_harness.Runtime.Engine.Loop.{retry_budget_exceeded}
use zheng_harness.Runtime.Engine.Journal.{Journal, journaled_ports, note_listing}
use zheng_harness.Runtime.Engine.Rules.{Quiet, emit-Quiet, Still}
use zheng_harness.Runtime.Engine.Rules.Recorded.{Ignores, journaled_ports-Quiet}

-- The step indices count up from `n`.
abbrev pub Numbered : ℕ → List Step → Type 0
Numbered n [] = Unit
Numbered n (s ∷ rest) = (s.index ≡ n) × Numbered (suc n) rest

pub Numbered-append :
    (n : ℕ) (steps : List Step) (s : Step)
    → Numbered n steps
    → s.index ≡ n + length steps
    → Numbered n (steps ++ s ∷ [])
Numbered-append n [] s h e = (omega (arith, e), tt)
Numbered-append n (x ∷ steps) s h e = (h.0, Numbered-append (suc n) steps s h.1 (omega (arith, e)))

-- A step after which the engine goes on.
abbrev pub Unfinished : Step → Type 0
Unfinished s = (s.action.type ≢ request_input) × (s.verification.passed ≡ false)

pub All_append :
    (steps : List Step) (s : Step)
    → All Unfinished steps
    → Unfinished s
    → All Unfinished (steps ++ s ∷ [])
All_append [] s h u = (u, tt)
All_append (x ∷ steps) s h u = (h.0, All_append steps s h.1 u)

-- The status of a session that has ended, by its steps and the error that Run returns with it.
pub data Ending (max_steps max_retries : ℕ) (status : SessionStatus) (steps : List Step)
    (error : Option Err) : Type 0 where
  -- the last step passed, and no other did
  succeeded :
      (before : List Step) (final : Step)
      → status ≡ success
      → steps ≡ before ++ final ∷ []
      → All Unfinished before
      → final.verification.passed ≡ true
      → final.action.type ≢ request_input
      → error ≡ none
      → Ending max_steps max_retries status steps error
  -- the last step asks for input, which counts as not passed
  blocked :
      (before : List Step) (final : Step)
      → status ≡ blocked_input
      → steps ≡ before ++ final ∷ []
      → All Unfinished before
      → final.verification.passed ≡ false
      → final.action.type ≡ request_input
      → error ≡ none
      → Ending max_steps max_retries status steps error
  -- all steps were used up
  exhausted :
      status ≡ budget_exceeded
      → length steps ≡ max_steps
      → All Unfinished steps
      → error ≡ none
      → Ending max_steps max_retries status steps error
  -- all retries were used up, with steps to spare
  out_of_retries :
      status ≡ verification_failed
      → length steps ≡ suc max_retries
      → length steps < max_steps
      → All Unfinished steps
      → error ≡ some retry_budget_exceeded
      → Ending max_steps max_retries status steps error
  stopped :
      (cause : Err)
      → status ≡ interrupted
      → (cause ≡ canceled) ⊎ (cause ≡ deadline_exceeded)
      → All Unfinished steps
      → error ≡ some cause
      → Ending max_steps max_retries status steps error
  broken :
      (cause : Err)
      → status ≡ fatal_error
      → error ≡ some cause
      → Ending max_steps max_retries status steps error

-- There is a last step, and P holds of it.
abbrev pub LastIs : (Step → Type 0) → List Step → Type 0
LastIs P steps = (before : List Step) × (final : Step) × (steps ≡ before ++ final ∷ []) × P final

abbrev pub Passed : Step → Type 0
Passed s = (s.verification.passed ≡ true) × (s.action.type ≢ request_input)

abbrev pub AsksInput : Step → Type 0
AsksInput s = s.action.type ≡ request_input

-- A run that returned a session: AppendStep was called for the returned steps, in order, and
-- SaveSession for the returned session, after the sessions `before`.
pub record Closed {W : Type 0} (max_steps max_retries : ℕ) (before : List Session) (r : RunResult)
    (j : Journal W) : Type 0 where
  pub ending : Ending max_steps max_retries r.session.status r.steps r.error
  pub success_iff :
      r.session.status ≢ fatal_error → (r.session.status ≡ success) ↔ LastIs Passed r.steps
  pub blocked_iff :
      r.session.status ≢ fatal_error → (r.session.status ≡ blocked_input) ↔ LastIs AsksInput r.steps
  pub numbered : Numbered 1 r.steps
  pub appended : j.appended ≡ r.steps
  pub saved : j.saved ≡ r.session ∷ before
  pub within_steps : length r.steps ≤ max_steps
  pub within_retries : length r.steps ≤ suc max_retries

-- Either so, or a session could not be saved or reported, and Run returned the error alone.
abbrev pub Settled : {W : Type 0} → ℕ → ℕ → List Session → RunResult × Journal W → Type 0
Settled max_steps max_retries before (r, j) =
    ((e : Err) × (r ≡ lost e)) ⊎ Closed max_steps max_retries before r j

-- What the journal holds of sessions and steps.
abbrev pub Written : {W : Type 0} → List Session → List Step → Journal W → Type 0
Written saved appended j = (j.saved ≡ saved) × (j.appended ≡ appended)

abbrev pub NoCondition : ToolCall → Type 0
NoCondition call = Unit

module _ {W : Type 0} (p : Ports W) (saved : List Session) (appended : List Step) where
  pub Written-Quiet : Quiet (Written saved appended) NoCondition (journaled_ports p)
  Written-Quiet =
      journaled_ports-Quiet (Written saved appended)
        (record { world = λ j w h. h; emitted = λ j w t h. h }) p (λ call _ j h. h)

listed-Written :
    {W : Type 0} (saved : List Session) (appended : List Step) (o : Option (Ask W (List ToolInfo)))
    → Still (Written saved appended) (listed (note_listing o))
listed-Written saved appended none j h = h
listed-Written saved appended (some list) j h = h

pub list_tool_info-Written :
    {W : Type 0} (p : Ports W) (saved : List Session) (appended : List Step)
    → Still (Written saved appended) (list_tool_info (journaled_ports p))
unfolding list_tool_info
list_tool_info-Written p saved appended = listed-Written saved appended p.tools.list_tool_info
