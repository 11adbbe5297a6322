-- ===== src/Runtime/Engine/Loop/Ends.antt =====
-- The loop of Run ends by a return in its body: the turns that MaxSteps allows are enough.
use zheng_harness.Base.{
  ℕ, zero, suc, ◌+◌, ◌≤◌, ◌≡◌, ◌≢◌, refl, arith, ltb, ◌=ℕ◌, Bool-cases, inl, inr, length,
}
use zheng_harness.Domain.Effect.{Ask, on}
use zheng_harness.Domain.Effect.Ensures.{on_cases}
use zheng_harness.Runtime.Engine.{Ports, RunResult, now, record_step, emit_step_complete_event}
use zheng_harness.Runtime.Engine.Iteration.{
  IterationOutcome, create_plan, execute_iteration, decide_iteration_outcome,
}
use zheng_harness.Runtime.Engine.Loop.{
  Setup, LoopState, Progress, stopped, continued, settle_outcome, after_unfinished, after_step,
  after_iteration, attempt, with_step, proceed, loop, replan, may_start,
}

-- A turn that goes on is not the last that MaxSteps allows, and the next has the next index.
abbrev pub Advances : {W : Type 0} → Setup → LoopState → Progress × W → Type 0
Advances s c (stopped r, w) = Unit
Advances s c (continued c', w) = (c'.step_index ≡ suc c.step_index) × (c.step_index ≢ s.max_steps)

module _ {W : Type 0} (p : Ports W) (s : Setup) where
  replan-Advances :
      (c : LoopState) (w : W) → c.step_index ≢ s.max_steps → Advances s c (replan p s c w)
  unfolding replan
  replan-Advances c w more =
      let timed = now p.engine w in
      on_cases (Advances s c) (create_plan p s.protocol c.session timed.0 timed.1) _ _ (λ e w1. tt)
        λ plan w1.
          on_cases (Advances s c)
            (emit_step_complete_event p.engine (suc (length c.steps)) plan.summary w1) _ _
            (λ e w2. tt) (λ _ w2. (refl, more))

  after_unfinished-Advances : (c : LoopState) (w : W) → Advances s c (after_unfinished p s c w)
  unfolding after_unfinished
  after_unfinished-Advances c w = elim (Bool-cases (c.step_index =ℕ s.max_steps)) [
    | inl done ↦ rw done tt
    | inr more ↦ elim (Bool-cases (ltb s.max_retries (suc c.retries))) [
      | inl many ↦ rw (more, many) tt
      | inr few ↦ rw (more, few) (replan-Advances c w (ground (arith, more)))
    ]
  ]

  settle_outcome-Advances :
      (c : LoopState) (o : IterationOutcome) (w : W) → Advances s c (settle_outcome p s c o w)
  settle_outcome-Advances c o w = elim (Bool-cases o.terminal) [
    | inl last ↦ simp last tt
    | inr on ↦ simp on (after_unfinished-Advances c w)
  ]

  attempt-Advances : (c : LoopState) (w : W) → Advances s c (attempt p s c w)
  unfolding attempt after_iteration with_step after_step
  attempt-Advances c w =
      on_cases (Advances s c) (may_start p.engine s.deadline w) _ _ (λ e w1. tt)
        λ _ w1.
          on_cases (Advances s c) (execute_iteration p s.protocol c.session c.plan c.steps w1) _ _
            (λ e w2. tt)
            λ it w2.
              let stepped = with_step p s c it w2 in
              let recorded =
                record_step p stepped.0.0.session.id stepped.0.1 it.observation stepped.1 in
              on_cases (Advances s c) recorded _ _ (λ e w3. tt)
                λ _ w3.
                  let timed = now p.engine w3 in
                  settle_outcome-Advances
                    (record stepped.0.0 {
                      session = record stepped.0.0.session { updated_at = timed.0 };
                    })
                    (decide_iteration_outcome it.action it.verification) timed.1

  proceed_last :
      (next other : LoopState → Ask W RunResult) (c : LoopState) (x : Progress × W)
      → c.step_index ≡ s.max_steps
      → Advances s c x
      → proceed next x ≡ proceed other x
  proceed_last next other c (stopped r, w) last h = refl
  proceed_last next other c (continued c', w) last h = absurd (h.1 last)

  proceed_same :
      (n : ℕ) (next other : LoopState → Ask W RunResult) (c : LoopState) (x : Progress × W)
      → c.step_index + suc n ≡ s.max_steps
      → ((c' : LoopState) (w : W) → c'.step_index + n ≡ s.max_steps → next c' w ≡ other c' w)
      → Advances s c x
      → proceed next x ≡ proceed other x
  proceed_same n next other c (stopped r, w) left same h = refl
  proceed_same n next other c (continued c', w) left same h = same c' w (omega (arith, left, h.0))

  -- With the turns that MaxSteps leaves after the one with the index of `c`, Run returns by itself: it
  -- would return the same, and leave the same world, if any number of further turns were allowed.
  pub loop_enough :
      (n m : ℕ) (c : LoopState) (w : W)
      → c.step_index + n ≡ s.max_steps
      → n ≤ m
      → loop p s (suc m) c w ≡ loop p s (suc n) c w
  unfolding loop
  loop_enough zero m c w left more =
      proceed_last (loop p s m) (loop p s zero) c (attempt p s c w) (omega (arith, left))
        (attempt-Advances c w)
  loop_enough (suc n) zero c w left more = absurd (omega (arith, more))
  loop_enough (suc n) (suc m) c w left more =
      proceed_same n (loop p s (suc m)) (loop p s (suc n)) c (attempt p s c w) left
        (λ c' w' left'. loop_enough n m c' w' left' (omega (arith, more))) (attempt-Advances c w)
