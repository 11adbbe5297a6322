-- ===== src/Runtime/SessionManager/Steps/Preserved.antt =====
-- The moves of one goroutine, cancellations and shutdown keep the invariant.
use zheng_harness.Base.{
  ℕ, suc, ◌<◌, ◌≡◌, inl, inr, refl, sym, subst, ◌∙◌, ap, String, Bool, true, Option, List, [], ◌∷◌,
  arith, Bool-cases,
}
use zheng_harness.Base.Maps.{
  update_at, update_at_ind, update_at-keeps, count_below, count_below-same, count_below-drop,
}
use zheng_harness.Domain.Types.{Time, Err, Session, Plan, Step}
use zheng_harness.Runtime.SessionActor.{SessionActor, mark_cancelled, classify_actor_state, finish}
use zheng_harness.Runtime.SessionManager.{
  System, StartRequest, Goroutine, Pc, spawned, attached, running, removed, exited, put, RunOutcome,
  build_error, nil_runner, ran, attach, run, end_run, finish_outcome, exit, cancel, cancel_each,
  cancel_all_active, begin_shutdown,
}
use zheng_harness.Runtime.SessionManager.Steps.Invariant.{
  Inv, is_tracked, is_live, live, is_terminal, Finished, Staged,
}

module _ (s : System) (r : ℕ) (g : Goroutine) (same_request : g.request ≡ (s.heap r).request)
    (same_name : g.actor.session_id ≡ (s.heap r).actor.session_id)
    (same_tracked : is_tracked g.pc ≡ is_tracked (s.heap r).pc)
    (same_live : is_live g.pc ≡ is_live (s.heap r).pc)
    (stage : r < s.next → Staged g.pc g.actor) where
  put-tracked : (q : ℕ) → is_tracked (update_at s.heap r g q).pc ≡ is_tracked (s.heap q).pc
  put-tracked = update_at-keeps (λ h. is_tracked h.pc) s.heap r g same_tracked

  put-request : (q : ℕ) → (update_at s.heap r g q).request ≡ (s.heap q).request
  put-request = update_at-keeps (λ h. h.request) s.heap r g same_request

  put-name : (q : ℕ) → (update_at s.heap r g q).actor.session_id ≡ (s.heap q).actor.session_id
  put-name = update_at-keeps (λ h. h.actor.session_id) s.heap r g same_name

  put-live : (q : ℕ) → live (update_at s.heap r g) q ≡ live s.heap q
  put-live = update_at-keeps (λ h. is_live h.pc) s.heap r g same_live

  put-Inv : Inv s → Inv (put r g s)
  put-Inv v = record {
    counted = v.counted;
    capped = v.capped;
    distinct = v.distinct;
    linked = λ id q e. rw (put-request q, put-tracked q) (v.linked id q e);
    tracked = λ q lt t. rw (put-request q) (v.tracked q lt (sym (put-tracked q) ∙ t));
    waiting = v.waiting ∙ count_below-same _ _ s.next (λ q _. sym (put-live q));
    named = λ q lt.
        put-name q ∙ v.named q lt ∙ ap (λ (x : StartRequest). x.session_id) (sym (put-request q));
    staged = λ q.
        update_at_ind (λ p h. p < s.next → Staged h.pc h.actor) s.heap r g q (λ e. rw (← e) stage)
          (λ _. v.staged q);
  }

pub attach-Inv : (s : System) (r : ℕ) → (s.heap r).pc ≡ spawned → Inv s → Inv (attach r s)
unfolding attach
attach-Inv s r at v =
    put-Inv s r _ refl refl (rw at) (rw at)
      (λ lt. subst (λ p. Staged p (s.heap r).actor) at (v.staged r lt)) v

pub run-Inv :
    (s : System) (now : Time) (r : ℕ) → (s.heap r).pc ≡ attached → Inv s → Inv (run now r s)
unfolding run
run-Inv s now r at v =
    put-Inv s r _ refl refl (rw at) (rw at)
      (λ lt. (refl, (subst (λ p. Staged p (s.heap r).actor) at (v.staged r lt)).1)) v

classify-terminal :
    (session : Session) (e : Option Err) (c : Bool)
    → is_terminal (classify_actor_state session e c) ≡ true
unfolding classify_actor_state
classify-terminal session e c = ground arith

module _ (now : Time) (session : Session) (plan : Plan) (steps : List Step) (e : Option Err)
    (a : SessionActor) where
  finish-name : (finish now session plan steps e a).0.session_id ≡ a.session_id
  unfolding finish
  finish-name = refl

  finish-Finished : Finished (finish now session plan steps e a).0
  unfolding finish
  finish-Finished = (classify-terminal session e a.cancelled, refl, (_, refl, refl))

finish_outcome-name :
    (now : Time) (o : RunOutcome) (a : SessionActor)
    → (finish_outcome now o a).session_id ≡ a.session_id
unfolding finish_outcome
finish_outcome-name now (build_error e) a = finish-name now _ _ _ _ a
finish_outcome-name now nil_runner a = finish-name now _ _ _ _ a
finish_outcome-name now (ran session plan steps err) a = finish-name now _ _ _ _ a

finish_outcome-Finished :
    (now : Time) (o : RunOutcome) (a : SessionActor) → Finished (finish_outcome now o a)
unfolding finish_outcome
finish_outcome-Finished now (build_error e) a = finish-Finished now _ _ _ _ a
finish_outcome-Finished now nil_runner a = finish-Finished now _ _ _ _ a
finish_outcome-Finished now (ran session plan steps err) a = finish-Finished now _ _ _ _ a

pub end_run-Inv :
    (s : System) (now : Time) (o : RunOutcome) (r : ℕ)
    → (s.heap r).pc ≡ running
    → Inv s
    → Inv (end_run now o r s)
unfolding end_run
end_run-Inv s now o r at v =
    put-Inv s r _ refl (finish_outcome-name now o _) (rw at) (rw at)
      (λ _. finish_outcome-Finished now o _) v

mark_cancelled-Staged :
    (p : Pc) (cause : Option Err) (a : SessionActor)
    → Staged p a
    → Staged p (mark_cancelled cause a)
unfolding mark_cancelled
mark_cancelled-Staged spawned cause a h = h
mark_cancelled-Staged _ cause a h = h

pub cancel-Inv : (s : System) (cause : Option Err) (r : ℕ) → Inv s → Inv (cancel cause r s)
unfolding cancel mark_cancelled
cancel-Inv s cause r v =
    put-Inv s r _ refl refl refl refl (λ lt. mark_cancelled-Staged _ cause _ (v.staged r lt)) v

cancel_each-Inv :
    (s : System) (cause : Option Err) (rs : List (String × ℕ))
    → Inv s
    → Inv (cancel_each cause rs s)
unfolding cancel_each
cancel_each-Inv s cause [] v = v
cancel_each-Inv s cause ((id, r) ∷ rs) v =
    cancel_each-Inv (cancel cause r s) cause rs (cancel-Inv s cause r v)

pub cancel_all_active-Inv :
    (s : System) (cause : Option Err) → Inv s → Inv (cancel_all_active cause s)
unfolding cancel_all_active
cancel_all_active-Inv s cause v = cancel_each-Inv s cause s.manager.actors v

pub begin_shutdown-Inv : (s : System) → Inv s → Inv (begin_shutdown s)
unfolding begin_shutdown
begin_shutdown-Inv s v = elim (Bool-cases s.manager.shutdown_once) [
  | inl e ↦ simp e v
  | inr n ↦ simp n (record {
    counted = v.counted;
    capped = v.capped;
    distinct = v.distinct;
    linked = v.linked;
    tracked = v.tracked;
    waiting = v.waiting;
    named = v.named;
    staged = v.staged;
  })
]

pub exit-Inv : (s : System) (r : ℕ) → r < s.next → (s.heap r).pc ≡ removed → Inv s → Inv (exit r s)
unfolding exit
exit-Inv s r lt at v = record {
  counted = v.counted;
  capped = v.capped;
  distinct = v.distinct;
  linked = λ id q e. rw (request q, tracks q) (v.linked id q e);
  tracked = λ q small t. rw (request q) (v.tracked q small (sym (tracks q) ∙ t));
  waiting = omega (arith, v.waiting, dropped);
  named = λ q small. named q small;
  staged = λ q.
      update_at_ind (λ p h. p < s.next → Staged h.pc h.actor) s.heap r g q
        (λ e. rw (← e) λ _. subst (λ p. Staged p (s.heap r).actor) at (v.staged r lt))
        (λ _. v.staged q);
}
  where
    g : Goroutine
    g = record (s.heap r) { pc = exited }

    request : (q : ℕ) → (update_at s.heap r g q).request ≡ (s.heap q).request
    request = update_at-keeps (λ h. h.request) s.heap r g refl

    tracks : (q : ℕ) → is_tracked (update_at s.heap r g q).pc ≡ is_tracked (s.heap q).pc
    tracks = update_at-keeps (λ h. is_tracked h.pc) s.heap r g (rw at)

    name : (q : ℕ) → (update_at s.heap r g q).actor ≡ (s.heap q).actor
    name = update_at-keeps (λ h. h.actor) s.heap r g refl

    named :
        (q : ℕ)
        → q < s.next
        → (update_at s.heap r g q).actor.session_id ≡ (update_at s.heap r g q).request.session_id
    named q small = rw (name q, request q) (v.named q small)

    dropped :
        count_below (live s.heap) s.next ≡ suc (count_below (live (update_at s.heap r g)) s.next)
    dropped = count_below-drop _ _ s.next r lt (rw at) (ground arith) (λ q ne. ground arith)
