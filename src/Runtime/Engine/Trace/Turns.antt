-- ===== src/Runtime/Engine/Trace/Turns.antt =====
-- The part of a turn after the iteration, and what AppendStep is given.
use zheng_harness.Base.{
  ℕ, String, Bool, true, false, none, List, [], ◌∷◌, ◌++◌, ◌≡◌, ◌≢◌, refl, ap, ◌∙◌, All, subst, sym,
}
use zheng_harness.Domain.Types.{
  Session, Step, ActionType, respond, tool_call, request_input, complete, Observation,
}
use zheng_harness.Domain.Effect.{run, settle, ◌>>=◌}
use zheng_harness.Domain.Effect.Ensures.{Holds, Any, Ensures-follow, Ensures-run, settled}
use zheng_harness.Runtime.Engine.{Ports, now, record_step}
use zheng_harness.Runtime.Engine.Iteration.{
  Iteration, passed_outcome, outcome_by, decide_iteration_outcome,
}
use zheng_harness.Runtime.Engine.Loop.{Setup, LoopState, settle_outcome, after_step}
use zheng_harness.Runtime.Engine.Journal.{Journal, journaled_ports}
use zheng_harness.Runtime.Engine.Course.{
  Unfinished, All_append, succeeded, blocked, Written, Written-Quiet,
}
use zheng_harness.Runtime.Engine.Course.Closing.{end_session-Settled}
use zheng_harness.Runtime.Engine.Trace.{Stepped, Turn, sized, after_unfinished-Turn}

module _ {W : Type 0} (p : Ports W) (s : Setup) (n : ℕ) (before : List Session) (it : Iteration)
    (earlier : List Step) (step : Step) where
  Unfinished-all :
      (c : LoopState)
      → Stepped s n it earlier step c
      → it.action.type ≢ request_input
      → it.verification.passed ≡ false
      → All Unfinished c.steps
  Unfinished-all c h apart failed = subst (All Unfinished) (sym h.steps) (
      All_append earlier step h.unfinished (
        λ e. apart (ap (λ a. a.type) (sym h.action) ∙ e),
        ap (λ v. v.passed) h.verification ∙ failed,
      ))

  passed-Turn :
      (passed : Bool) (c : LoopState) (j : Journal W)
      → Stepped s n it earlier step c
      → it.action.type ≢ request_input
      → it.verification.passed ≡ passed
      → Written before c.steps j
      → Turn s n before (settle_outcome (journaled_ports p) s c (passed_outcome passed) j)
  passed-Turn true c j h apart e w =
      end_session-Settled p s.max_steps s.max_retries before _ c.plan c.steps none j
        (succeeded earlier step refl h.steps h.unfinished (ap (λ v. v.passed) h.verification ∙ e)
          (λ asks. apart (ap (λ a. a.type) (sym h.action) ∙ asks)) refl)
        (sized p s n before it earlier step c h) w
  passed-Turn false c j h apart e w =
      after_unfinished-Turn p s n before it earlier step c j h (Unfinished-all c h apart e) w

  settle_outcome-Turn :
      (type : ActionType) (passed : Bool) (c : LoopState) (j : Journal W)
      → Stepped s n it earlier step c
      → it.action.type ≡ type
      → it.verification.passed ≡ passed
      → Written before c.steps j
      → Turn s n before (settle_outcome (journaled_ports p) s c (outcome_by type passed) j)
  settle_outcome-Turn request_input passed c j h t e w =
      end_session-Settled p s.max_steps s.max_retries before _ c.plan c.steps none j
        (blocked earlier step refl h.steps h.unfinished
          (ap (λ v. v.passed) h.verification ∙ h.waits t) (ap (λ a. a.type) h.action ∙ t) refl)
        (sized p s n before it earlier step c h) w
  settle_outcome-Turn respond passed c j h t e w = passed-Turn passed c j h (λ x. cc (x, t)) e w
  settle_outcome-Turn tool_call passed c j h t e w = passed-Turn passed c j h (λ x. cc (x, t)) e w
  settle_outcome-Turn complete passed c j h t e w = passed-Turn passed c j h (λ x. cc (x, t)) e w
  settle_outcome-Turn (ActionType.other name) passed c j h t e w =
      passed-Turn passed c j h (λ x. cc (x, t)) e w

  pub after_step-Turn :
      (c : LoopState) (j : Journal W)
      → Stepped s n it earlier step c
      → Written before c.steps j
      → Turn s n before (after_step (journaled_ports p) s c it j)
  unfolding after_step decide_iteration_outcome
  after_step-Turn c j h w =
      let later = now (journaled_ports p).engine j in
      settle_outcome-Turn it.action.type it.verification.passed
        (record c { session = record c.session { updated_at = later.0 } }) later.1
        (record {
          steps = h.steps;
          action = h.action;
          verification = h.verification;
          waits = h.waits;
          index = h.index;
          retries = h.retries;
          left = h.left;
          within = h.within;
          numbered = h.numbered;
          unfinished = h.unfinished;
        })
        refl refl ((Written-Quiet p before c.steps).now j w)

  pub record_step-Written :
      (id : String) (o : Observation) (j : Journal W)
      → Written before earlier j
      → let after = record_step (journaled_ports p) id step o j in
        Written before (earlier ++ step ∷ []) after.1 × Holds Any after.0
  unfolding record_step ◌>>=◌ run
  record_step-Written id o j h =
      let (e, w) = p.sessions.append_step id step j.world in
      let j' : Journal W = record j { world = w; appended = j.appended ++ step ∷ [] } in
      let steps = earlier ++ step ∷ [] in
      (Ensures-follow {I = Written before steps} {Q = Any} {R = Any} (settle e) _ (settled e)
          λ _ _. Ensures-run _ ((Written-Quiet p before steps).remember id o)).at
        j' (h.0, ap (λ l. l ++ step ∷ []) h.1)
