-- ===== src/Runtime/Engine/Trace/Runs.antt =====
-- The loop and the whole of Run.
use zheng_harness.Base.{
  ℕ, suc, some, List, [], ◌∷◌, ◌++◌, ◌≡◌, refl, length-append, All, arith, ◌⊎◌, inl, inr, ltb,
  Bool-cases,
}
use zheng_harness.Domain.Types.{
  Err, canceled, deadline_exceeded, failure, Session, interrupted, fatal_error, Step, Time,
}
use zheng_harness.Domain.Effect.{err, Effect, pure, raise, ask, follow, run, settle, ◌>>=◌}
use zheng_harness.Domain.Effect.Ensures.{Any, on-Ensures, on-Ensures_cause}
use zheng_harness.Runtime.Engine.{
  Engine, Ports, ContextState, ended, expired, context_error, context_err,
}
use zheng_harness.Runtime.Engine.Iteration.{Iteration}
use zheng_harness.Runtime.Engine.Loop.{
  Setup, LoopState, may_start, after_iteration, attempt, with_step, status_of_error,
}
use zheng_harness.Runtime.Engine.Journal.{Journal, journaled_ports}
use zheng_harness.Runtime.Engine.Rules.{may_start-Quiet}
use zheng_harness.Runtime.Engine.Rules.Act.{Waits, execute_iteration-Quiet}
use zheng_harness.Runtime.Engine.Course.{
  Numbered, Numbered-append, Unfinished, All_append, Ending, succeeded, blocked, exhausted,
  out_of_retries, broken, Settled, Written, Written-Quiet, list_tool_info-Written,
}
use zheng_harness.Runtime.Engine.Course
use zheng_harness.Runtime.Engine.Course.Closing.{Sized}
use zheng_harness.Runtime.Engine.Trace.Turns.{after_step-Turn, record_step-Written}
use zheng_harness.Runtime.Engine.Trace.{Live, Stepped, Turn, fail-Turn, sized}

interrupted_or_fatal :
    (m k : ℕ) (steps : List Step) (e : Err)
    → All Unfinished steps
    → Ending m k (status_of_error e) steps (some e)
interrupted_or_fatal m k steps canceled h = Course.stopped canceled refl (inl refl) h refl
interrupted_or_fatal m k steps deadline_exceeded h =
    Course.stopped deadline_exceeded refl (inr refl) h refl
interrupted_or_fatal m k steps (failure text) h = broken (failure text) refl refl

abbrev OfContext : Err → Type 0
OfContext e = (e ≡ canceled) ⊎ (e ≡ deadline_exceeded)

after_context :
    {V : Type 0} (state : ContextState) (rest : Effect V (Unit {0})) (v : V) (e : Err)
    → ((v' : V) (e' : Err) → (rest v').0 ≡ err e' → OfContext e')
    → (follow (settle (context_error state)) (λ _. rest) v).0 ≡ err e
    → OfContext e
after_context ContextState.live rest v e h f = h v e f
after_context ended rest v e h f = inl (ground (arith, f))
after_context expired rest v e h f = inr (ground (arith, f))

-- The context ends a run by one of its two errors, and so does the deadline.
may_start-OfContext :
    {V : Type 0} (engine : Engine V) (deadline : Time) (v : V) (e : Err)
    → (may_start engine deadline v).0 ≡ err e
    → OfContext e
unfolding may_start context_err ◌>>=◌ run ask pure raise
may_start-OfContext engine deadline v e f =
    let (state, v') = engine.environment.context v in
    after_context state _ v' e
      (λ w e' g. elim (Bool-cases (ltb (engine.environment.time_now w).0 deadline)) [
        | inl early ↦ ground (arith, g, early)
        | inr late ↦ inr (ground (arith, g, late))
      ])
      f

module _ {W : Type 0} (p : Ports W) (s : Setup) (n : ℕ) (before : List Session) where
  after_iteration-Turn :
      (c : LoopState) (it : Iteration) (j : Journal W)
      → Live s (suc n) c
      → Waits it
      → Written before c.steps j
      → Turn s n before (after_iteration (journaled_ports p) s c it j)
  unfolding after_iteration with_step
  after_iteration-Turn c it j live waits w =
      let quiet = Written-Quiet p before c.steps in
      let stepped = with_step (journaled_ports p) s c it j in
      let c' = stepped.0.0 in
      let step = stepped.0.1 in
      let grown = length-append {0} c.steps (step ∷ []) in
      let h : Stepped s n it c.steps step c' = record {
        steps = refl;
        action = refl;
        verification = refl;
        waits = waits;
        index = omega (arith, live.index, grown);
        retries = omega (arith, live.retries, grown);
        left = omega (arith, live.left, grown);
        within = omega (arith, live.within, grown);
        numbered = Numbered-append 1 c.steps step live.numbered (omega (arith, live.index));
        unfinished = live.unfinished;
      } in
      on-Ensures {I = Written before (c.steps ++ step ∷ [])} {Q = Any} (Turn s n before) _ _ _
        (record_step-Written p s n before it c.steps step c'.session.id it.observation stepped.1 (
          quiet.verifier ((journaled_ports p).engine.provider_provenance j).1 (quiet.provider j w)))
        (λ e j2 w2.
          fail-Turn p s n before c' fatal_error (some e) j2 (broken e refl refl)
            (sized p s n before it c.steps step c' h) w2)
        (λ _ j2 w2 _. after_step-Turn p s n before it c.steps step c' j2 h w2)

  pub attempt-Turn :
      (c : LoopState) (j : Journal W)
      → Live s (suc n) c
      → Written before c.steps j
      → Turn s n before (attempt (journaled_ports p) s c j)
  unfolding attempt
  attempt-Turn c j live w =
      let quiet = Written-Quiet p before c.steps in
      let sized : Sized s.max_steps s.max_retries c.steps = record {
        numbered = live.numbered;
        within_steps = omega (arith, live.left);
        within_retries = omega (arith, live.within);
      } in
      on-Ensures_cause {I = Written before c.steps} {Q = Any} (Turn s n before) OfContext _ _ _
        ((may_start-Quiet (journaled_ports p) quiet s.deadline).at j w)
        (λ e f. may_start-OfContext (journaled_ports p).engine s.deadline j e f)
        (λ e j2 w2 cause.
          fail-Turn p s n before c interrupted (some e) j2
            (Course.stopped e refl cause live.unfinished refl) sized w2)
        λ _ j2 w2 _.
          on-Ensures {I = Written before c.steps} {Q = Waits} (Turn s n before) _ _ _
            ((execute_iteration-Quiet (journaled_ports p) quiet s.protocol c.session c.plan c.steps
                (λ call. tt) (list_tool_info-Written p before c.steps)).at
              j2 w2)
            (λ e j3 w3.
              fail-Turn p s n before c (status_of_error e) (some e) j3
                (interrupted_or_fatal _ _ c.steps e live.unfinished) sized w3)
            λ it j3 w3 waits. after_iteration-Turn c it j3 live waits w3
