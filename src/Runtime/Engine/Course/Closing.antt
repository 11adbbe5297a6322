-- ===== src/Runtime/Engine/Course/Closing.antt =====
-- The end of a run: what SaveSession is given is what Run returns.
use zheng_harness.Base.{ℕ, suc, ◌≤◌, Option, none, some, List, ◌∷◌, refl, ap, length, inl, inr}
use zheng_harness.Domain.Types.{Err, Session, SessionStatus, Plan, Step}
use zheng_harness.Domain.Effect.{run, settle, ◌>>=◌}
use zheng_harness.Domain.Effect.Ensures.{
  Ensures, Holds, Any, Ensures-pure, Ensures-bind, Ensures-follow, on-Ensures, settled,
}
use zheng_harness.Runtime.Engine.{
  Ports, emit_cause, emit_error_event, emit_session_complete_event, close_session, end_session,
  fail_session,
}
use zheng_harness.Runtime.Engine.Journal.{Journal, journaled_ports, journaled}
use zheng_harness.Runtime.Engine.Rules.{emit-Quiet}
use zheng_harness.Runtime.Engine.Course.Verdicts.{success-Passed, blocked-AsksInput}
use zheng_harness.Runtime.Engine.Course.{Numbered, Ending, Settled, Written, Written-Quiet}

-- What holds of the steps of a run at any time.
pub record Sized (max_steps max_retries : ℕ) (steps : List Step) : Type 0 where
  pub numbered : Numbered 1 steps
  pub within_steps : length steps ≤ max_steps
  pub within_retries : length steps ≤ suc max_retries

module _ {W : Type 0} (p : Ports W) where
  emit_cause-Written :
      (saved : List Session) (steps : List Step) (i : ℕ) (cause : Option Err)
      → Ensures (Written saved steps) Any (emit_cause (journaled p.engine) i cause)
  unfolding emit_error_event
  emit_cause-Written saved steps i none = Ensures-pure tt tt
  emit_cause-Written saved steps i (some e) =
      emit-Quiet (journaled_ports p) (Written-Quiet p saved steps) _ i _

  close_session-Written :
      (before : List Session) (session : Session) (steps : List Step) (cause : Option Err)
      (j : Journal W)
      → Written before steps j
      → let after = close_session (journaled_ports p) session steps cause j in
        Written (session ∷ before) steps after.1 × Holds Any after.0
  unfolding close_session ◌>>=◌ run emit_session_complete_event
  close_session-Written before session steps cause j h =
      let (e, w) = p.sessions.save_session session j.world in
      let j' : Journal W = record j { world = w; saved = session ∷ j.saved } in
      (Ensures-follow {I = Written (session ∷ before) steps} {Q = Any} {R = Any} (settle e) _
          (settled e)
          λ _ _.
            Ensures-bind {Q = Any} (emit_cause (journaled p.engine) (length steps) cause) _
              (emit_cause-Written (session ∷ before) steps (length steps) cause)
              λ _ _.
                emit-Quiet (journaled_ports p) (Written-Quiet p (session ∷ before) steps) _ 0 _).at
        j' (ap (λ l. session ∷ l) h.0, h.1)

  module _ (m k : ℕ) (before : List Session) where
    pub end_session-Settled :
        (session : Session) (plan : Plan) (steps : List Step) (cause : Option Err) (j : Journal W)
        → Ending m k session.status steps cause
        → Sized m k steps
        → Written before steps j
        → Settled m k before (end_session (journaled_ports p) session plan steps cause j)
    unfolding end_session
    end_session-Settled session plan steps cause j ending sized h =
        on-Ensures {I = Written (session ∷ before) steps} {Q = Any} (Settled m k before)
          (close_session (journaled_ports p) session steps cause j) _ _
          (close_session-Written before session steps cause j h) (λ e w _. inl (e, refl))
          (λ _ w written _. inr (record {
            ending = ending;
            success_iff = success-Passed ending;
            blocked_iff = blocked-AsksInput ending;
            numbered = sized.numbered;
            appended = written.1;
            saved = written.0;
            within_steps = sized.within_steps;
            within_retries = sized.within_retries;
          }))

    pub fail_session-Settled :
        (session : Session) (status : SessionStatus) (plan : Plan) (steps : List Step)
        (cause : Option Err) (j : Journal W)
        → Ending m k status steps cause
        → Sized m k steps
        → Written before steps j
        → Settled m k before (fail_session (journaled_ports p) session status plan steps cause j)
    unfolding fail_session
    fail_session-Settled session status plan steps cause j ending sized h =
        end_session-Settled _ plan steps cause _ ending sized
          ((Written-Quiet p before steps).now j h)
