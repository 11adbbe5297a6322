-- ===== src/Runtime/Engine/Trace/Whole.antt =====
-- Run from its first call to its last.
use zheng_harness.Base.{
  ℕ, zero, suc, Option, none, some, List, [], ◌∷◌, ◌≡◌, refl, ap, arith, ◌⊎◌, inl, inr, Bool-cases,
}
use zheng_harness.Base.Int.{positive_or}
use zheng_harness.Domain.Types.{
  Err, Session, fatal_error, Plan, Task, Time, PluginMetadata, running,
}
use zheng_harness.Domain.Effect.{run}
use zheng_harness.Domain.Effect.Ensures.{Holds, Any, on-Ensures, settled}
use zheng_harness.Runtime.TaskRegistry.{ResolvedTaskProtocol}
use zheng_harness.Runtime.AgentStrategy.{AgentStrategyPlugin}
use zheng_harness.Runtime.Provenance.{agent_strategy_metadata}
use zheng_harness.Runtime.Engine.{
  Engine, Ports, ToolExecutor, MemoryStore, SessionStore, Verifier, collect, has_planner,
  required_dependencies, RunResult, lost, no_plan, now, fail_session,
}
use zheng_harness.Runtime.Engine.Loop.{
  Setup, LoopState, Progress, stopped, continued, attempt, proceed, loop, run_planned, run_session,
  run_ports, run_with, run_engine, new_session,
}
use zheng_harness.Runtime.Engine.Journal.{Journal, journaled_ports}
use zheng_harness.Runtime.Engine.Rules.{
  QuietStrategy, create_plan-Quiet, emit_step_complete_event-Quiet,
}
use zheng_harness.Runtime.Engine.Course.{exhausted, broken, Settled, Written, Written-Quiet}
use zheng_harness.Runtime.Engine.Course.Closing.{Sized, fail_session-Settled}
use zheng_harness.Runtime.Engine.Trace.{Live, Turn}
use zheng_harness.Runtime.Engine.Trace.Runs.{attempt-Turn}
use zheng_harness.Runtime.Engine.Course.{Closed}
use zheng_harness.Runtime.Engine.Journal.{
  journaled, map_option, note_tools, note_memory, note_sessions, note_verifier, blank,
}

module _ {W : Type 0} (p : Ports W) (s : Setup) (before : List Session) where
  proceed-Settled :
      (n : ℕ) (x : Progress × Journal W)
      → ((c : LoopState) (j : Journal W)
          → Live s n c
          → Written before c.steps j
          → Settled s.max_steps s.max_retries before (loop (journaled_ports p) s n c j))
      → Turn s n before x
      → Settled s.max_steps s.max_retries before (proceed (loop (journaled_ports p) s n) x)
  proceed-Settled n (stopped r, j) next h = h
  proceed-Settled n (continued c, j) next h = next c j h.0 h.1

  loop-Settled :
      (n : ℕ) (c : LoopState) (j : Journal W)
      → Live s n c
      → Written before c.steps j
      → Settled s.max_steps s.max_retries before (loop (journaled_ports p) s n c j)
  unfolding loop
  loop-Settled zero c j live w =
      fail_session-Settled p s.max_steps s.max_retries before c.session _ c.plan c.steps none j
        (exhausted refl (omega (arith, live.left)) live.unfinished refl)
        (record {
          numbered = live.numbered;
          within_steps = omega (arith, live.left);
          within_retries = omega (arith, live.within);
        })
        w
  loop-Settled (suc n) c j live w =
      proceed-Settled n (attempt (journaled_ports p) s c j) (loop-Settled n)
        (attempt-Turn p s n before c j live w)

-- At most so many steps, and retries.
abbrev pub steps_of : {W : Type 0} → Engine W → ℕ
steps_of e = positive_or 1 e.max_steps

abbrev pub retries_of : {W : Type 0} → Engine W → ℕ
retries_of e = positive_or 0 e.max_retries

module _ {W : Type 0} (p : Ports W) where
  run_planned-Settled :
      (protocol : ResolvedTaskProtocol) (metadata : Option PluginMetadata) (session : Session)
      (plan : Plan) (before : List Session) (j : Journal W)
      → Written before [] j
      → Settled
          (steps_of p.engine)
          (retries_of p.engine)
          before
          (run_planned (journaled_ports p) protocol metadata session plan j)
  unfolding run_planned
  run_planned-Settled protocol metadata session plan before j w =
      loop-Settled p _ before _ _ _
        (record {
          index = refl;
          retries = refl;
          left = omega arith;
          within = omega arith;
          numbered = tt;
          unfinished = tt;
        })
        ((Written-Quiet p before []).time_now j w)

-- Run returned a session, and saved one session before it, with the status `running`.
pub record Complete {W : Type 0} (e : Engine W) (x : RunResult × Journal W) : Type 0 where
  pub first : Session
  pub starts : first.status ≡ running
  pub closed : Closed (steps_of e) (retries_of e) (first ∷ []) x.0 x.1

-- Either so, or Run returned an error and nothing else.
abbrev pub Finished : {W : Type 0} → Engine W → RunResult × Journal W → Type 0
Finished e (r, j) = ((cause : Err) × (r ≡ lost cause)) ⊎ Complete e (r, j)

Settled-Finished :
    {W : Type 0} (e : Engine W) (first : Session) (x : RunResult × Journal W)
    → first.status ≡ running
    → Settled (steps_of e) (retries_of e) (first ∷ []) x
    → Finished e x
Settled-Finished e first (r, j) starts (inl gone) = inl gone
Settled-Finished e first (r, j) starts (inr closed) =
    inr (record { first = first; starts = starts; closed = closed })

module _ {W : Type 0} (p : Ports W) where
  save_session-Written :
      (session : Session) (j : Journal W)
      → Written [] [] j
      → let after = run ((journaled_ports p).sessions.save_session session) j in
        Written (session ∷ []) [] after.1 × Holds Any after.0
  unfolding run
  save_session-Written session j h =
      ((ap (λ l. session ∷ l) h.0, h.1), settled (p.sessions.save_session session j.world).0)

  no_steps : Sized (steps_of p.engine) (retries_of p.engine) []
  no_steps = record { numbered = tt; within_steps = omega arith; within_retries = omega arith }

  run_session-Finished :
      (protocol : ResolvedTaskProtocol) (timestamp : Time)
      (strategy : AgentStrategyPlugin (Journal W)) (j : Journal W)
      → Written [] [] j
      → Finished p.engine (run_session (journaled_ports p) protocol timestamp strategy j)
  unfolding run_session
  run_session-Finished protocol timestamp strategy j w =
      let metadata = agent_strategy_metadata strategy.metadata in
      let asked = (journaled_ports p).engine.provider_provenance j in
      let session = new_session protocol.task timestamp metadata asked.0 in
      let quiet = Written-Quiet p (session ∷ []) [] in
      let give_up : (plan : Plan) (e : Err) (j' : Journal W)
          → Written (session ∷ []) [] j'
          → Finished p.engine
              (fail_session (journaled_ports p) session fatal_error plan [] (some e) j') =
        λ plan e j' w'. Settled-Finished p.engine session _ refl (
          fail_session-Settled p _ _ (session ∷ []) session fatal_error plan [] (some e) j'
            (broken e refl refl) no_steps w') in
      on-Ensures {I = Written (session ∷ []) []} {Q = Any} (Finished p.engine) _ _ _
        (save_session-Written session asked.1 ((Written-Quiet p [] []).provider j w))
        (λ e j2 _. inl (e, refl))
        λ _ j2 w2 _.
          on-Ensures {I = Written (session ∷ []) []} {Q = Any} (Finished p.engine) _ _ _
            ((create_plan-Quiet (journaled_ports p) quiet protocol session timestamp).at j2 w2)
            (give_up no_plan)
            λ plan j3 w3 _.
              on-Ensures {I = Written (session ∷ []) []} {Q = Any} (Finished p.engine) _ _ _
                ((emit_step_complete_event-Quiet (journaled_ports p) quiet 0 plan.summary).at j3 w3)
                (give_up plan)
                λ _ j4 w4 _.
                  Settled-Finished p.engine session _ refl
                    (run_planned-Settled p protocol metadata session plan (session ∷ []) j4 w4)

  run_ports-Finished :
      (task : Task) (j : Journal W)
      → Written [] [] j
      → Finished p.engine (run_ports (journaled_ports p) task j)
  run_ports-Finished task j w =
      let quiet = Written-Quiet p [] [] in
      let timed = now (journaled_ports p).engine j in
      on-Ensures {I = Written [] []} {Q = QuietStrategy (Written [] [])} (Finished p.engine) _ _ _
        (quiet.resolve.at timed.1 (quiet.now j w)) (λ e j2 _. inl (e, refl))
        λ strategy j2 w2 _. run_session-Finished _ _ strategy j2 w2

collected-Finished :
    {W : Type 0} (e : Engine W) (task : Task) (j : Journal W) (t : Option (ToolExecutor W))
    (m : Option (MemoryStore W)) (s : Option (SessionStore W)) (v : Option (Verifier W))
    → Written [] [] j
    → Finished e (
        run_with
          (collect
            (journaled e)
            (map_option note_tools t)
            (map_option note_memory m)
            (map_option note_sessions s)
            (map_option note_verifier v))
          task
          j)
collected-Finished e task j none m s v w = inl (_, refl)
collected-Finished e task j (some t) none s v w = inl (_, refl)
collected-Finished e task j (some t) (some m) none v w = inl (_, refl)
collected-Finished e task j (some t) (some m) (some s) none w = inl (_, refl)
collected-Finished e task j (some t) (some m) (some s) (some v) w =
    elim (Bool-cases (has_planner (journaled e).model (journaled e).agent_strategies)) [
      | inl planned ↦ rw planned (
          run_ports-Finished
            (record { engine = e; tools = t; memory = m; sessions = s; verifier = v }) task j w)
      | inr unplanned ↦ rw unplanned (inl (_, refl))
    ]

-- Whatever the model, the strategies, the tools, the stores, the verifier, the clock and the
-- context answer: if Run returns a session, then SaveSession was called exactly twice, first for
-- a session that is running and last for the one returned; AppendStep was called for exactly the
-- steps returned, in their order, which are numbered from 1; they are at most MaxSteps (at least
-- 1) and at most MaxRetries + 1; and the status tells how the run went: unless it is fatal, it is
-- success if and only if the last step passed and asks for no input, and blocked if and only if
-- the last step asks for input, and in both cases no other step passed; budget exceeded only
-- after MaxSteps steps, verification failed only after MaxRetries + 1, none of which passed;
-- interrupted only by the context's two errors; fatal only with an error, whatever the steps.
-- Otherwise Run returns an error and nothing else.
pub run_engine-Finished :
    {W : Type 0} (e : Engine W) (task : Task) (w : W)
    → Finished e (run_engine (journaled e) task (blank w))
unfolding run_engine required_dependencies
run_engine-Finished e task w =
    collected-Finished e task (blank w) e.tools e.memory e.sessions e.verifier (refl, refl)
