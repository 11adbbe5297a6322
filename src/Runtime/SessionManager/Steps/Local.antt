-- ===== src/Runtime/SessionManager/Steps/Local.antt =====
-- A rule for facts about one goroutine: it is enough that each of its own sections, and a
-- cancellation from outside, keeps the fact.
use zheng_harness.Base.{
  ℕ, ◌≤◌, ◌<◌, ◌≡◌, refl, String, Option, List, [], ◌∷◌, arith, Option-cases, subst, sym, inl, inr,
}
use zheng_harness.Base.Maps.{update_at, update_at_ind}
use zheng_harness.Domain.Types.{Time, Err}
use zheng_harness.Runtime.SessionActor.{attach_cancel, transition_to_running, mark_cancelled}
use zheng_harness.Runtime.SessionManager.{
  System, StartRequest, Goroutine, spawned, attached, running, finished, removed, exited,
  RunOutcome, start, launch, admit, attach, run, end_run, finish_outcome, complete_actor, exit,
  cancel, cancel_each, cancel_all_active, begin_shutdown, validate_session_start_request,
}
use zheng_harness.Runtime.SessionManager.Steps.{
  Move, starts, attaches, runs, ends, completes, exits, cancels, cancels_all, shuts_down, Reach,
  here, next,
}

pub record Stable (P : Goroutine → Type 0) : Type 0 where
  pub attaching :
      (g : Goroutine)
      → g.pc ≡ spawned
      → P g
      → P (record g { actor = attach_cancel g.actor; pc = attached })
  pub running_on :
      (now : Time) (g : Goroutine)
      → g.pc ≡ attached
      → P g
      → P (record g { actor = transition_to_running now g.actor; pc = running })
  pub ending :
      (now : Time) (o : RunOutcome) (g : Goroutine)
      → g.pc ≡ running
      → P g
      → P (record g { actor = finish_outcome now o g.actor; pc = finished })
  pub completing : (g : Goroutine) → g.pc ≡ finished → P g → P (record g { pc = removed })
  pub exiting : (g : Goroutine) → g.pc ≡ removed → P g → P (record g { pc = exited })
  pub cancelling :
      (cause : Option Err) (g : Goroutine)
      → P g
      → P (record g { actor = mark_cancelled cause g.actor })

begin_shutdown-heap : (s : System) (r : ℕ) → (begin_shutdown s).heap r ≡ s.heap r
unfolding begin_shutdown
begin_shutdown-heap s r = ground arith

module _ {P : Goroutine → Type 0} (rule : Stable P) where
  -- A write at one place keeps the fact at every place, if it keeps it there.
  at_one :
      (heap : ℕ → Goroutine) (q : ℕ) (g : Goroutine) (r : ℕ)
      → (P (heap q) → P g)
      → P (heap r)
      → P (update_at heap q g r)
  at_one heap q g r keep h =
      update_at_ind (λ _ x. P x) heap q g r (λ e. keep (subst (λ p. P (heap p)) (sym e) h)) (λ _. h)

  cancel-keeps :
      (cause : Option Err) (s : System) (q r : ℕ) → P (s.heap r) → P ((cancel cause q s).heap r)
  unfolding cancel
  cancel-keeps cause s q r h = at_one s.heap q _ r (rule.cancelling cause (s.heap q)) h

  cancel_each-keeps :
      (cause : Option Err) (rs : List (String × ℕ)) (s : System) (r : ℕ)
      → P (s.heap r)
      → P ((cancel_each cause rs s).heap r)
  unfolding cancel_each
  cancel_each-keeps cause [] s r h = h
  cancel_each-keeps cause ((id, q) ∷ rs) s r h =
      cancel_each-keeps cause rs (cancel cause q s) r (cancel-keeps cause s q r h)

  start-keeps :
      (req : StartRequest) (now : Time) (s : System) (r : ℕ)
      → r < s.next
      → P (s.heap r)
      → P ((start req now s).0.heap r)
  unfolding launch start
  start-keeps req now s r lt h = elim (Option-cases (validate_session_start_request req)) [
    | inr (e, bad) ↦ rw (bad, start) h
    | inl good ↦ elim (Option-cases (admit s.manager req)) [
      | inr (e, bad) ↦ rw (good, bad, start) h
      | inl ok ↦
          rw (good, ok, start)
            (update_at_ind (λ _ x. P x) s.heap s.next _ r (λ e. absurd (omega arith)) (λ _. h))
    ]
  ]

  pub Move-keeps : {s t : System} → Move s t → (r : ℕ) → r < s.next → P (s.heap r) → P (t.heap r)
  unfolding attach run end_run complete_actor exit cancel_all_active
  Move-keeps {s} (starts req now) r lt h = start-keeps req now s r lt h
  Move-keeps {s} (attaches q small at) r lt h = at_one s.heap q _ r (rule.attaching (s.heap q) at) h
  Move-keeps {s} (runs now q small at) r lt h =
      at_one s.heap q _ r (rule.running_on now (s.heap q) at) h
  Move-keeps {s} (ends now o q small at) r lt h =
      at_one s.heap q _ r (rule.ending now o (s.heap q) at) h
  Move-keeps {s} (completes q small at) r lt h =
      at_one s.heap q _ r (rule.completing (s.heap q) at) h
  Move-keeps {s} (exits q small at) r lt h = at_one s.heap q _ r (rule.exiting (s.heap q) at) h
  Move-keeps {s} (cancels cause q small) r lt h = cancel-keeps cause s q r h
  Move-keeps {s} (cancels_all cause) r lt h = cancel_each-keeps cause s.manager.actors s r h
  Move-keeps {s} shuts_down r lt h = rw (begin_shutdown-heap s r) h

cancel_each-next :
    (cause : Option Err) (rs : List (String × ℕ)) (s : System)
    → (cancel_each cause rs s).next ≡ s.next
unfolding cancel_each cancel
cancel_each-next cause [] s = refl
cancel_each-next cause ((id, q) ∷ rs) s = cancel_each-next cause rs (cancel cause q s)

pub Move-next : {s t : System} → Move s t → s.next ≤ t.next
Move-next {s} (starts req now) = unfold start launch in ground arith
Move-next {s} (cancels_all cause) =
    unfold cancel_all_active in omega (arith, cancel_each-next cause s.manager.actors s)
Move-next {s} shuts_down = unfold begin_shutdown in ground arith
Move-next {s} _ = unfold attach run end_run complete_actor exit cancel in omega arith

pub Reach-next : {s t : System} → Reach s t → s.next ≤ t.next
Reach-next here = omega arith
Reach-next (next r m) = omega (arith, Reach-next r, Move-next m)

pub Reach-keeps-local :
    {P : Goroutine → Type 0} (rule : Stable P) {s t : System}
    → Reach s t
    → (r : ℕ) → r < s.next
    → P (s.heap r)
    → P (t.heap r)
Reach-keeps-local rule here r lt h = h
Reach-keeps-local rule (next steps m) r lt h =
    Move-keeps rule m r (omega (arith, Reach-next steps)) (Reach-keeps-local rule steps r lt h)
