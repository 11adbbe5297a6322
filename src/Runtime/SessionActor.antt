-- ===== src/Runtime/SessionActor.antt =====
-- internal/runtime/session_manager.go: one session's actor. A method that writes the actor under its
-- mutex returns the new record. Methods on nil receivers are not modelled: a record is never nil.
use zheng_harness.Base.{
  String, Bool, true, false, Option, none, some, List, ◌||◌, not, if◌then◌else◌,
}
use zheng_harness.Domain.Types.{Time, Err, SessionStatus, Task, Session, Plan, Step}

pub data ActorState : Type 0 where
  pending running completed failed cancelled : ActorState

pub record SessionActorResult : Type 0 where
  pub session_id : String
  pub task : Task
  pub state : ActorState
  pub session : Session
  pub plan : Plan
  pub steps : List Step
  pub err : Option Err
  pub created_at : Time
  pub started_at : Time
  pub finished_at : Time
  pub cancelled : Bool

-- `context_live` and `has_cancel` stand for the run's context and the function that cancels it:
-- `cancel` is nil until `attach_cancel`, and a call of it ends the context.
pub record SessionActor : Type 0 where
  pub session_id : String
  pub task : Task
  pub state : ActorState
  pub created_at : Time
  pub started_at : Time
  pub finished_at : Time
  pub err : Option Err
  pub result : Option SessionActorResult
  pub cancelled : Bool
  pub cancel_cause : Option Err
  pub finalized : Bool
  pub has_cancel : Bool
  pub context_live : Bool

abbrev is_context_error : Option Err → Bool
is_context_error (some Err.canceled) = true
is_context_error (some Err.deadline_exceeded) = true
is_context_error _ = false

abbrev is_interrupted : SessionStatus → Bool
is_interrupted SessionStatus.interrupted = true
is_interrupted _ = false

-- The switch at the end of classifyActorState.
abbrev classify_status : SessionStatus → ActorState
classify_status SessionStatus.fatal_error = failed
classify_status SessionStatus.verification_failed = failed
classify_status SessionStatus.budget_exceeded = failed
classify_status SessionStatus.interrupted = cancelled
classify_status _ = completed

abbrev classify_error : Option Err → SessionStatus → ActorState
classify_error (some e) status = failed
classify_error none status = classify_status status

unfoldable pub classify_actor_state : Session → Option Err → Bool → ActorState
classify_actor_state session run_err was_cancelled =
    if was_cancelled || is_context_error run_err || is_interrupted session.status
    then ActorState.cancelled
    else classify_error run_err session.status

-- The actor that Start builds.
unfoldable pub new_actor : String → Task → Time → SessionActor
new_actor session_id task now = record {
  session_id = session_id;
  task = task;
  state = pending;
  created_at = now;
  started_at = 0;
  finished_at = 0;
  err = none;
  result = none;
  cancelled = false;
  cancel_cause = none;
  finalized = false;
  has_cancel = false;
  context_live = true;
}

unfoldable pub attach_cancel : SessionActor → SessionActor
attach_cancel a = record a { has_cancel = true }

unfoldable pub transition_to_running : Time → SessionActor → SessionActor
transition_to_running started_at a = record a { state = running; started_at = started_at }

-- The cancel function is called after the mutex is released; nothing of the actor is written then.
unfoldable pub mark_cancelled : Option Err → SessionActor → SessionActor
mark_cancelled cause a = record a {
  cancelled = true;
  cancel_cause = cause;
  context_live = if a.has_cancel then false else a.context_live;
}

unfoldable pub finish :
    Time
    → Session
    → Plan
    → List Step
    → Option Err
    → SessionActor
    → SessionActor × SessionActorResult
unfolding classify_actor_state
finish finished_at session plan steps run_err a =
    let state = classify_actor_state session run_err a.cancelled in
    let result : SessionActorResult = record {
      session_id = a.session_id;
      task = a.task;
      state = state;
      session = session;
      plan = plan;
      steps = steps;
      err = run_err;
      created_at = a.created_at;
      started_at = a.started_at;
      finished_at = finished_at;
      cancelled = a.cancelled;
    } in
    (
      record a {
        state = state;
        finished_at = finished_at;
        err = run_err;
        result = some result;
        finalized = true;
      },
      result,
    )

-- Result(): the result once the actor is finalized.
unfoldable pub result : SessionActor → Option SessionActorResult
result a = if not a.finalized then none else a.result

pub record SessionActorSnapshot : Type 0 where
  pub session_id : String
  pub state : ActorState
  pub created_at : Time
  pub started_at : Time
  pub finished_at : Time
  pub err : Option Err
  pub cancelled : Bool
  pub cancel_cause : Option Err

unfoldable pub snapshot : SessionActor → SessionActorSnapshot
snapshot a = record {
  session_id = a.session_id;
  state = a.state;
  created_at = a.created_at;
  started_at = a.started_at;
  finished_at = a.finished_at;
  err = a.err;
  cancelled = a.cancelled;
  cancel_cause = a.cancel_cause;
}
