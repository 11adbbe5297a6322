-- ===== src/Runtime/SessionManager.antt =====
-- internal/runtime/session_manager.go: the manager, and the goroutine that runs each actor.
-- The actors are shared pointers: `heap` holds every goroutine that Start launched, with the actor it
-- runs, and the manager's map holds references into it. `pc` is the place that the goroutine has
-- reached in runActor; every function below is one critical section or one call of it. The clock, the
-- runner factory and the runner are the environment's: a step takes what they return.
pub mod Steps
use zheng_harness.Base.{
  ℕ, zero, suc, ◌+◌, ◌-◌, String, Bool, true, false, not, Option, none, some, List, [], ◌∷◌, map,
  ◌==◌, ltb, leb, if◌then◌else◌,
}
use zheng_harness.Base.Int.{ℤ, positive_or}
use zheng_harness.Base.Maps.{lookup, delete, update_at}
use zheng_harness.Domain.Types.{Time, Err, Session, SessionStatus, Task, Plan, Step}
use zheng_harness.Runtime.SessionActor.{
  SessionActor, new_actor, attach_cancel, transition_to_running, mark_cancelled, finish,
}

abbrev pub default_active_session_cap : ℕ
default_active_session_cap = 8

-- 30 * time.Second
abbrev pub default_shutdown_timeout : ℕ
default_shutdown_timeout = 30000000000

abbrev pub default_event_buffer_size : ℕ
default_event_buffer_size = 64

pub data StartError : Type 0 where
  missing_runner_factory missing_task_id missing_session_id task_id_mismatch : StartError
  manager_closed session_already_active active_session_limit : StartError

pub record StartRequest : Type 0 where
  pub session_id : String
  pub task : Task
  pub has_new_runner : Bool

pub record SessionManager : Type 0 where
  pub actors : List (String × ℕ)
  pub active_count : ℕ
  pub accepting : Bool
  pub active_session_cap : ℕ
  pub shutdown_timeout : ℕ
  pub event_buffer_size : ℕ
  pub wg : ℕ
  pub shutdown_once : Bool

-- Where the goroutine of runActor stands: before attachCancel, before transitionToRunning, in the
-- runner, before completeActor, before the deferred calls, and at its end.
pub data Pc : Type 0 where
  spawned attached running finished removed exited : Pc

pub record Goroutine : Type 0 where
  pub actor : SessionActor
  pub request : StartRequest
  pub pc : Pc

pub record System : Type 0 where
  pub manager : SessionManager
  pub heap : ℕ → Goroutine
  pub next : ℕ

unfoldable pub new_session_manager : ℤ → ℤ → ℤ → SessionManager
new_session_manager limit timeout buffer = record {
  actors = [];
  active_count = 0;
  accepting = true;
  active_session_cap = positive_or default_active_session_cap limit;
  shutdown_timeout = positive_or default_shutdown_timeout timeout;
  event_buffer_size = positive_or default_event_buffer_size buffer;
  wg = 0;
  shutdown_once = false;
}

unfoldable pub validate_session_start_request : StartRequest → Option StartError
validate_session_start_request req =
    if not req.has_new_runner
    then some missing_runner_factory
    else if req.task.id == ""
    then some missing_task_id
    else if req.session_id == ""
    then some missing_session_id
    else if not (req.task.id == req.session_id)
    then some task_id_mismatch
    else none

abbrev is_some {ℓ} : {A : Type ℓ} → Option A → Bool
is_some none = false
is_some (some _) = true

-- The checks that Start makes under the manager's mutex.
unfoldable pub admit : SessionManager → StartRequest → Option StartError
unfolding lookup
admit m req =
    if not m.accepting
    then some manager_closed
    else if is_some (lookup req.session_id m.actors)
    then some session_already_active
    else if leb m.active_session_cap m.active_count
    then some active_session_limit
    else none

unfoldable pub launch : StartRequest → Time → System → System
unfolding new_actor
launch req now s =
    let m = s.manager in
    let g : Goroutine = record {
      actor = new_actor req.session_id req.task now;
      request = req;
      pc = spawned;
    } in
    record {
      manager = record m {
        actors = (req.session_id, s.next) ∷ m.actors;
        active_count = m.active_count + 1;
        wg = m.wg + 1;
      };
      heap = update_at s.heap s.next g;
      next = suc s.next;
    }

-- Start: the new state, and why the request was refused, if it was.
unfoldable pub start : StartRequest → Time → System → System × Option StartError
start req now s = elim (validate_session_start_request req) [
  | some e ↦ (s, some e)
  | none ↦ elim (admit s.manager req) [ some e ↦ (s, some e) | none ↦ (launch req now s, none) ]
]

unfoldable pub lookup_actor : String → System → Option SessionActor
unfolding lookup
lookup_actor session_id s = elim (lookup session_id s.manager.actors) [
  | none ↦ none
  | some r ↦ some (s.heap r).actor
]

-- A write to one goroutine.
abbrev pub put : ℕ → Goroutine → System → System
put r g s = record s { heap = update_at s.heap r g }

unfoldable pub attach : ℕ → System → System
unfolding attach_cancel
attach r s = let g = s.heap r in put r (record g { actor = attach_cancel g.actor; pc = attached }) s

unfoldable pub run : Time → ℕ → System → System
unfolding transition_to_running
run now r s =
    let g = s.heap r in
    put r (record g { actor = transition_to_running now g.actor; pc = running }) s

-- What the runner factory and the runner gave back.
pub data RunOutcome : Type 0 where
  build_error : Err → RunOutcome
  nil_runner : RunOutcome
  ran : Session → Plan → List Step → Option Err → RunOutcome

abbrev zero_session : Session
zero_session = record {
  id = "";
  task_id = "";
  status = SessionStatus.other "";
  provenance = none;
  created_at = 0;
  updated_at = 0;
}

abbrev zero_plan : Plan
zero_plan = record { id = ""; task_id = ""; summary = ""; steps = []; created_at = 0 }

unfoldable pub finish_outcome : Time → RunOutcome → SessionActor → SessionActor
finish_outcome now (build_error e) a = (finish now zero_session zero_plan [] (some e) a).0
finish_outcome now nil_runner a =
    let e = Err.failure "runtime session runner factory returned nil runner" in
    (finish now zero_session zero_plan [] (some e) a).0
finish_outcome now (ran session plan steps err) a = (finish now session plan steps err a).0

unfoldable pub end_run : Time → RunOutcome → ℕ → System → System
unfolding finish_outcome
end_run now outcome r s =
    let g = s.heap r in
    put r (record g { actor = finish_outcome now outcome g.actor; pc = finished }) s

-- completeActor under the mutex. PersistFinal runs afterwards, and its error is dropped.
unfoldable pub complete_actor : ℕ → System → System
unfolding delete
complete_actor r s =
    let g = s.heap r in
    let m = s.manager in
    let m' = record m {
      actors = delete g.request.session_id m.actors;
      active_count = if ltb 0 m.active_count then m.active_count - 1 else m.active_count;
    } in
    record s { manager = m'; heap = update_at s.heap r (record g { pc = removed }) }

-- The deferred calls; `wg.Done` is the last.
unfoldable pub exit : ℕ → System → System
exit r s =
    let g = s.heap r in
    let m = s.manager in
    record s {
      manager = record m { wg = m.wg - 1 };
      heap = update_at s.heap r (record g { pc = exited });
    }

-- Cancel on an actor that some client still holds.
unfoldable pub cancel : Option Err → ℕ → System → System
unfolding mark_cancelled
cancel cause r s = let g = s.heap r in put r (record g { actor = mark_cancelled cause g.actor }) s

unfoldable pub cancel_each : Option Err → List (String × ℕ) → System → System
unfolding cancel
cancel_each cause [] s = s
cancel_each cause ((id, r) ∷ rest) s = cancel_each cause rest (cancel cause r s)

unfoldable pub cancel_all_active : Option Err → System → System
unfolding cancel_each
cancel_all_active cause s = cancel_each cause s.manager.actors s

-- The first statement of Shutdown. What follows it waits for `wg`, and cancels on a timeout.
unfoldable pub begin_shutdown : System → System
begin_shutdown s =
    let m = s.manager in
    if m.shutdown_once
    then s
    else record s { manager = record m { accepting = false; shutdown_once = true } }
