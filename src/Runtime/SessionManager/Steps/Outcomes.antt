-- ===== src/Runtime/SessionManager/Steps/Outcomes.antt =====
-- How a session ends: its result is final, a cancelled run is reported as cancelled, and shutdown
-- admits nobody.
use zheng_harness.Base.{
  ℕ, ◌<◌, ◌≡◌, ◌≢◌, refl, ◌∙◌, String, Bool, true, false, Option, none, List, [], ◌∷◌, arith,
}
use zheng_harness.Base.Int.{ℤ}
use zheng_harness.Domain.Types.{Time, Err, Session, Plan, Step}
use zheng_harness.Runtime.SessionActor.{
  SessionActor, SessionActorResult, ActorState, attach_cancel, transition_to_running,
  mark_cancelled, finish, classify_actor_state,
}
use zheng_harness.Runtime.SessionManager.{
  System, StartRequest, Goroutine, Pc, running, finished, removed, exited, RunOutcome, build_error,
  nil_runner, ran, finish_outcome, new_session_manager, start, launch, admit, attach, run, end_run,
  complete_actor, exit, cancel, cancel_each, cancel_all_active, begin_shutdown,
}
use zheng_harness.Runtime.SessionManager.Steps.{
  Move, starts, cancels_all, shuts_down, Reach, here, next, initial,
}
use zheng_harness.Runtime.SessionManager.Steps.Local.{Stable, Reach-keeps-local}

-- The three places that come after the run.
abbrev pub is_ended : Pc → Bool
is_ended finished = true
is_ended removed = true
is_ended exited = true
is_ended _ = false

ended-Stable :
    (state : ActorState) (res : Option SessionActorResult)
    → Stable (λ g. (is_ended g.pc ≡ true) × (g.actor.state ≡ state) × (g.actor.result ≡ res))
unfolding mark_cancelled
ended-Stable state res = record {
  attaching = λ g at h. cc;
  running_on = λ now g at h. cc;
  ending = λ now o g at h. cc;
  completing = λ g at h. (refl, h.1, h.2);
  exiting = λ g at h. (refl, h.1, h.2);
  cancelling = λ cause g h. h;
}

-- Once a run has ended, its actor's state and result never change again, whatever comes after:
-- clients that cancel it late, shutdown, or other sessions.
pub ended_is_final :
    {s t : System} (r : ℕ)
    → Reach s t
    → r < s.next
    → is_ended (s.heap r).pc ≡ true
    → ((t.heap r).actor.state ≡ (s.heap r).actor.state)
      × ((t.heap r).actor.result ≡ (s.heap r).actor.result)
ended_is_final {s} r reach lt ended =
    let kept =
      Reach-keeps-local (ended-Stable (s.heap r).actor.state (s.heap r).actor.result) reach r lt
        (ended, refl, refl) in
    (kept.1, kept.2)

finish-cancelled :
    (now : Time) (session : Session) (plan : Plan) (steps : List Step) (e : Option Err)
    (a : SessionActor)
    → a.cancelled ≡ true
    → let b = (finish now session plan steps e a).0 in
      (b.cancelled ≡ true) × (b.state ≡ ActorState.cancelled)
unfolding finish classify_actor_state
finish-cancelled now session plan steps e a h = ground arith

finish_outcome-cancelled :
    (now : Time) (o : RunOutcome) (a : SessionActor)
    → a.cancelled ≡ true
    → ((finish_outcome now o a).cancelled ≡ true)
      × ((finish_outcome now o a).state ≡ ActorState.cancelled)
unfolding finish_outcome
finish_outcome-cancelled now (build_error e) a h = finish-cancelled now _ _ _ _ a h
finish_outcome-cancelled now nil_runner a h = finish-cancelled now _ _ _ _ a h
finish_outcome-cancelled now (ran session plan steps e) a h = finish-cancelled now _ _ _ _ a h

abbrev Doomed : Goroutine → Type 0
Doomed g =
    (g.actor.cancelled ≡ true) × (is_ended g.pc ≡ true → g.actor.state ≡ ActorState.cancelled)

Doomed-Stable : Stable Doomed
unfolding mark_cancelled attach_cancel transition_to_running
Doomed-Stable = record {
  attaching = λ g at h. (h.0, λ e. cc);
  running_on = λ now g at h. (h.0, λ e. cc);
  ending = λ now o g at h.
      let done = finish_outcome-cancelled now o g.actor h.0 in (done.0, λ e. done.1);
  completing = λ g at h. (h.0, λ e. h.1 (rw at));
  exiting = λ g at h. (h.0, λ e. h.1 (rw at));
  cancelling = λ cause g h. (refl, h.1);
}

-- A session that was cancelled before its run ended is reported as cancelled in every later state
-- in which the run has ended, also where the runner returned success.
pub cancelled_before_end :
    {s t : System} (r : ℕ)
    → Reach s t
    → r < s.next
    → (s.heap r).actor.cancelled ≡ true
    → is_ended (s.heap r).pc ≡ false
    → is_ended (t.heap r).pc ≡ true
    → (t.heap r).actor.state ≡ ActorState.cancelled
cancelled_before_end r reach lt was open_ ended =
    (Reach-keeps-local Doomed-Stable reach r lt (was, λ e. cc)).1 ended

abbrev Closed : System → Type 0
Closed s = (s.manager.accepting ≡ false) × (s.manager.shutdown_once ≡ true)

cancel_each-manager :
    (cause : Option Err) (rs : List (String × ℕ)) (s : System)
    → (cancel_each cause rs s).manager ≡ s.manager
unfolding cancel_each cancel
cancel_each-manager cause [] s = refl
cancel_each-manager cause ((id, q) ∷ rs) s = cancel_each-manager cause rs (cancel cause q s)

cancel_each-next :
    (cause : Option Err) (rs : List (String × ℕ)) (s : System)
    → (cancel_each cause rs s).next ≡ s.next
unfolding cancel_each cancel
cancel_each-next cause [] s = refl
cancel_each-next cause ((id, q) ∷ rs) s = cancel_each-next cause rs (cancel cause q s)

-- A closed manager refuses every request, whatever else is wrong with it.
start-closed :
    (req : StartRequest) (now : Time) (s : System)
    → s.manager.accepting ≡ false
    → (start req now s).0 ≡ s
unfolding start admit
start-closed req now s h = ground arith

start-refused :
    (req : StartRequest) (now : Time) (s : System)
    → s.manager.accepting ≡ false
    → (start req now s).1 ≢ none
unfolding start admit
start-refused req now s h = ground arith

Move-Closed : {s t : System} → Move s t → Closed s → Closed t × (t.next ≡ s.next)
Move-Closed {s} (starts req now) c = let same = start-closed req now s c.0 in rw same (c, refl)
Move-Closed {s} (cancels_all cause) c =
    unfold cancel_all_active in
    rw (cancel_each-manager cause s.manager.actors s) (c, cancel_each-next cause s.manager.actors s)
Move-Closed {s} shuts_down c = unfold begin_shutdown in ground arith
Move-Closed {s} _ c = unfold attach run end_run complete_actor exit cancel in (c, refl)

Reach-Closed : {s t : System} → Closed s → Reach s t → Closed t × (t.next ≡ s.next)
Reach-Closed c here = (c, refl)
Reach-Closed c (next r m) =
    let (d, same) = Reach-Closed c r in let (e, also) = Move-Closed m d in (e, also ∙ same)

-- The `once` has run only where the manager is closed.
abbrev Latch : System → Type 0
Latch s = s.manager.shutdown_once ≡ true → s.manager.accepting ≡ false

Move-Latch : {s t : System} → Move s t → Latch s → Latch t
Move-Latch {s} (starts req now) l = unfold start launch in ground arith
Move-Latch {s} (cancels_all cause) l =
    unfold cancel_all_active in rw (cancel_each-manager cause s.manager.actors s) l
Move-Latch {s} shuts_down l = unfold begin_shutdown in ground arith
Move-Latch {s} _ l = unfold attach run end_run complete_actor exit cancel in l

Reach-Latch : {s t : System} → Latch s → Reach s t → Latch t
Reach-Latch l here = l
Reach-Latch l (next r m) = Move-Latch m (Reach-Latch l r)

initial-Latch :
    (limit timeout buffer : ℤ) (heap : ℕ → Goroutine) → Latch (initial limit timeout buffer heap)
unfolding new_session_manager
initial-Latch limit timeout buffer heap e = cc

begin_shutdown-Closed :
    (s : System) → Latch s → Closed (begin_shutdown s) × ((begin_shutdown s).next ≡ s.next)
unfolding begin_shutdown
begin_shutdown-Closed s l = ground arith

-- After Shutdown has begun, no interleaving starts a session any more: the number of goroutines
-- ever launched stays what it was, and every request is refused.
pub shutdown_admits_nobody :
    (limit timeout buffer : ℤ) (heap : ℕ → Goroutine) {s t : System}
    → Reach (initial limit timeout buffer heap) s
    → Reach (begin_shutdown s) t
    → (req : StartRequest) (now : Time)
    → (t.next ≡ s.next) × ((start req now t).0 ≡ t) × ((start req now t).1 ≢ none)
shutdown_admits_nobody limit timeout buffer heap {s} {t} before after req now =
    let (closed, same) =
      begin_shutdown-Closed s (Reach-Latch (initial-Latch limit timeout buffer heap) before) in
    let (still, also) = Reach-Closed closed after in
    (also ∙ same, start-closed req now t still.0, start-refused req now t still.0)

-- A cancellation that comes after Start and before attachCancel finds no cancel function: the
-- session is marked as cancelled, and its runner is then started with a context that stays live.
pub cancel_before_attach :
    (cause : Option Err) (now : Time) (r : ℕ) (s : System)
    → (s.heap r).actor.has_cancel ≡ false
    → (s.heap r).actor.context_live ≡ true
    → let g = (run now r (attach r (cancel cause r s))).heap r in
      (g.pc ≡ running) × (g.actor.cancelled ≡ true) × (g.actor.context_live ≡ true)
unfolding run attach cancel
cancel_before_attach cause now r s none_yet live = ground arith
