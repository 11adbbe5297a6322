-- ===== src/Runtime/SessionManager/Steps/Samples.antt =====
-- A session that is started, cancelled and run to its end, and a shutdown.
use zheng_harness.Base.{ℕ, ◌<◌, ◌≡◌, ◌≢◌, refl, String, true, false, none, [], arith}
use zheng_harness.Base.Int.{pos}
use zheng_harness.Domain.Types.{Task, TaskCategory, SessionStatus}
use zheng_harness.Runtime.SessionActor.{ActorState, new_actor}
use zheng_harness.Runtime.SessionManager.{
  System, StartRequest, Goroutine, spawned, RunOutcome, ran, start, attach, run, end_run,
  complete_actor, exit, cancel, begin_shutdown, running, new_session_manager,
  validate_session_start_request, admit, launch,
}
use zheng_harness.Runtime.SessionManager.Steps.{
  starts, attaches, runs, ends, completes, exits, cancels, Reach, here, next, initial,
}
use zheng_harness.Runtime.SessionManager.Steps.Invariant.{Inv, Finished, is_tracked}
use zheng_harness.Runtime.SessionManager.Steps.Claims.{
  Reach-Inv, one_goroutine_per_session, shutdown_leaves_nothing,
}
use zheng_harness.Runtime.SessionManager.Steps.Outcomes.{
  is_ended, ended_is_final, cancelled_before_end, shutdown_admits_nobody, cancel_before_attach,
}

abbrev job : String → Task
job id = record {
  id = id;
  description = "";
  goal = "";
  category = TaskCategory.other "";
  protocol_hint = "";
  verification_policy = "";
  created_at = 0;
}

abbrev request : String → StartRequest
request id = record { session_id = id; task = job id; has_new_runner = true }

abbrev unused : ℕ → Goroutine
unfolding new_actor
unused r = record { actor = new_actor "" (job "") 0; request = request ""; pc = spawned }

abbrev success : RunOutcome
success =
    ran
      (record {
        id = "a";
        task_id = "a";
        status = SessionStatus.success;
        provenance = none;
        created_at = 1;
        updated_at = 3;
      })
      (record { id = ""; task_id = "a"; summary = ""; steps = []; created_at = 0 }) [] none

-- The session is started, cancelled, and run to its end.
abbrev empty_system : System
empty_system = initial (pos 2) (pos 0) (pos 0) unused

abbrev started : System
started = (start (request "a") 1 empty_system).0

abbrev ready : System
ready = attach 0 started

abbrev busy : System
busy = run 2 0 ready

abbrev stopping : System
stopping = cancel none 0 busy

abbrev ended : System
ended = end_run 3 success 0 stopping

abbrev dropped : System
dropped = complete_actor 0 ended

abbrev over : System
over = exit 0 dropped

path_to_busy : Reach empty_system busy
unfolding new_session_manager new_actor validate_session_start_request admit launch start attach run
    cancel end_run complete_actor exit
path_to_busy =
    next (next (next here (starts (request "a") 1)) (attaches 0 (omega arith) refl))
      (runs 2 0 (omega arith) refl)

path_to_end : Reach stopping over
unfolding new_session_manager new_actor validate_session_start_request admit launch start attach run
    cancel end_run complete_actor exit
path_to_end =
    next (next (next here (ends 3 success 0 (omega arith) refl)) (completes 0 (omega arith) refl))
      (exits 0 (omega arith) refl)

path_over : Reach empty_system over
unfolding new_session_manager new_actor validate_session_start_request admit launch start attach run
    cancel end_run complete_actor exit
path_over =
    next
      (next
        (next (next path_to_busy (cancels none 0 (omega arith)))
          (ends 3 success 0 (omega arith) refl))
        (completes 0 (omega arith) refl))
      (exits 0 (omega arith) refl)

path_after_end : Reach ended over
unfolding new_session_manager new_actor validate_session_start_request admit launch start attach run
    cancel end_run complete_actor exit
path_after_end = next (next here (completes 0 (omega arith) refl)) (exits 0 (omega arith) refl)

busy_is_tracked : is_tracked (busy.heap 0).pc ≡ true
unfolding new_session_manager new_actor validate_session_start_request admit launch start attach run
    cancel end_run complete_actor exit
busy_is_tracked = refl

busy_exists : 0 < busy.next
unfolding new_session_manager new_actor validate_session_start_request admit launch start attach run
    cancel end_run complete_actor exit
busy_exists = omega arith

over_exists : (0 < over.next) × (over.manager.wg ≡ 0)
unfolding new_session_manager new_actor validate_session_start_request admit launch start attach run
    cancel end_run complete_actor exit
over_exists = (omega arith, refl)

ended_exists : (0 < ended.next) × (is_ended (ended.heap 0).pc ≡ true)
unfolding new_session_manager new_actor validate_session_start_request admit launch start attach run
    cancel end_run complete_actor exit
ended_exists = (omega arith, refl)

stopping_is_open :
    (0 < stopping.next)
    × ((stopping.heap 0).actor.cancelled ≡ true)
    × (is_ended (stopping.heap 0).pc ≡ false)
    × (is_ended (over.heap 0).pc ≡ true)
unfolding new_session_manager new_actor validate_session_start_request admit launch start attach run
    cancel end_run complete_actor exit
stopping_is_open = (omega arith, refl, refl, refl)

started_is_live :
    ((started.heap 0).actor.has_cancel ≡ false) × ((started.heap 0).actor.context_live ≡ true)
unfolding new_session_manager new_actor validate_session_start_request admit launch start attach run
    cancel end_run complete_actor exit
started_is_live = (refl, refl)

Reach-Inv_example : Inv busy
Reach-Inv_example = Reach-Inv (pos 2) (pos 0) (pos 0) unused path_to_busy

abbrev place : ℕ
place = 0

one_goroutine_per_session_example : place ≡ 0
one_goroutine_per_session_example =
    one_goroutine_per_session (pos 2) (pos 0) (pos 0) unused path_to_busy 0 0 busy_exists
      busy_exists busy_is_tracked busy_is_tracked refl

shutdown_leaves_nothing_example :
    (over.manager.actors ≡ []) × (over.manager.active_count ≡ 0) × Finished (over.heap 0).actor
shutdown_leaves_nothing_example =
    shutdown_leaves_nothing (pos 2) (pos 0) (pos 0) unused path_over over_exists.1 0 over_exists.0

ended_is_final_example :
    ((over.heap 0).actor.state ≡ (ended.heap 0).actor.state)
    × ((over.heap 0).actor.result ≡ (ended.heap 0).actor.result)
ended_is_final_example = ended_is_final 0 path_after_end ended_exists.0 ended_exists.1

cancelled_before_end_example : (over.heap 0).actor.state ≡ ActorState.cancelled
cancelled_before_end_example =
    cancelled_before_end 0 path_to_end stopping_is_open.0 stopping_is_open.1 stopping_is_open.2
      stopping_is_open.3

shutdown_admits_nobody_example :
    ((begin_shutdown busy).next ≡ busy.next)
    × ((start (request "b") 4 (begin_shutdown busy)).0 ≡ begin_shutdown busy)
    × ((start (request "b") 4 (begin_shutdown busy)).1 ≢ none)
shutdown_admits_nobody_example =
    shutdown_admits_nobody (pos 2) (pos 0) (pos 0) unused path_to_busy here (request "b") 4

cancel_before_attach_example :
    let g = (run 2 0 (attach 0 (cancel none 0 started))).heap 0 in
    (g.pc ≡ running) × (g.actor.cancelled ≡ true) × (g.actor.context_live ≡ true)
cancel_before_attach_example =
    cancel_before_attach none 2 0 started started_is_live.0 started_is_live.1
