-- ===== src/Runtime/SessionManager/Steps/Claims.antt =====
-- What the session manager promises its callers, over every interleaving.
use zheng_harness.Base.{
  ℕ, ◌<◌, ◌≡◌, refl, sym, ◌∙◌, String, true, false, some, List, [], ◌∷◌, arith, str_eq_refl,
}
use zheng_harness.Base.Int.{ℤ}
use zheng_harness.Base.Maps.{lookup, count_below, count_below_zero}
use zheng_harness.Runtime.SessionActor.{SessionActor}
use zheng_harness.Runtime.SessionManager.{
  System, Goroutine, Pc, spawned, exited, new_session_manager,
}
use zheng_harness.Runtime.SessionManager.Steps.{
  Move, starts, attaches, runs, ends, completes, exits, cancels, cancels_all, shuts_down, Reach,
  here, next, initial,
}
use zheng_harness.Runtime.SessionManager.Steps.Invariant.{
  Inv, is_tracked, is_live, live, Finished, Staged,
}
use zheng_harness.Runtime.SessionManager.Steps.Preserved.{
  attach-Inv, run-Inv, end_run-Inv, exit-Inv, cancel-Inv, cancel_all_active-Inv, begin_shutdown-Inv,
}
use zheng_harness.Runtime.SessionManager.Steps.Registry.{start-Inv, complete_actor-Inv}

Move-Inv : {s t : System} → Move s t → Inv s → Inv t
Move-Inv {s} (starts req now) v = start-Inv s req now v
Move-Inv {s} (attaches r lt at) v = attach-Inv s r at v
Move-Inv {s} (runs now r lt at) v = run-Inv s now r at v
Move-Inv {s} (ends now o r lt at) v = end_run-Inv s now o r at v
Move-Inv {s} (completes r lt at) v = complete_actor-Inv s r lt at v
Move-Inv {s} (exits r lt at) v = exit-Inv s r lt at v
Move-Inv {s} (cancels cause r lt) v = cancel-Inv s cause r v
Move-Inv {s} (cancels_all cause) v = cancel_all_active-Inv s cause v
Move-Inv {s} shuts_down v = begin_shutdown-Inv s v

Reach-keeps : {s t : System} → Inv s → Reach s t → Inv t
Reach-keeps v here = v
Reach-keeps v (next r m) = Move-Inv m (Reach-keeps v r)

initial-Inv :
    (limit timeout buffer : ℤ) (heap : ℕ → Goroutine) → Inv (initial limit timeout buffer heap)
unfolding new_session_manager lookup count_below
initial-Inv limit timeout buffer heap = record {
  counted = refl;
  capped = omega arith;
  distinct = tt;
  linked = λ id r e. cc;
  tracked = λ r lt t. elim lt [ ];
  waiting = refl;
  named = λ r lt. elim lt [ ];
  staged = λ r lt. elim lt [ ];
}

-- In every state that a new manager can reach, by any interleaving of starts, goroutines,
-- cancellations and shutdown, the invariant holds: the counter is the size of the map and is within
-- the cap, the map leads exactly to the goroutines that have not yet run completeActor, the wait
-- group counts those that have not ended, and each actor's state follows its goroutine.
pub Reach-Inv :
    (limit timeout buffer : ℤ) (heap : ℕ → Goroutine) {t : System}
    → Reach (initial limit timeout buffer heap) t
    → Inv t
Reach-Inv limit timeout buffer heap r = Reach-keeps (initial-Inv limit timeout buffer heap) r

-- While its goroutine has not run completeActor, a session id has one goroutine only: no two run
-- the same session at the same time.
pub one_goroutine_per_session :
    (limit timeout buffer : ℤ) (heap : ℕ → Goroutine) {t : System}
    → Reach (initial limit timeout buffer heap) t
    → (q r : ℕ) → q < t.next
    → r < t.next
    → is_tracked (t.heap q).pc ≡ true
    → is_tracked (t.heap r).pc ≡ true
    → (t.heap q).request.session_id ≡ (t.heap r).request.session_id
    → q ≡ r
one_goroutine_per_session limit timeout buffer heap {t} reach q r ltq ltr tq tr same =
    let v = Reach-Inv limit timeout buffer heap reach in
    ground (arith, v.tracked q ltq tq, v.tracked r ltr tr)

exited_of_idle :
    (p : Pc) (a : SessionActor)
    → is_live p ≡ false
    → Staged p a
    → (is_tracked p ≡ false) × Finished a
exited_of_idle exited a h f = (refl, f)
exited_of_idle spawned a h f = cc
exited_of_idle _ a h f = cc

empty_of_lookups :
    (m : List (String × ℕ)) → ((id : String) (r : ℕ) → lookup id m ≡ some r → ⊥) → m ≡ []
unfolding lookup
empty_of_lookups [] none_found = refl
empty_of_lookups ((id, r) ∷ m) none_found = absurd (none_found id r (rw (str_eq_refl id)))

-- When the wait group has come to zero, which is what Shutdown waits for before it returns nil, no
-- actor is left in the map, the counter is zero, and every actor that was ever started has its
-- result and a terminal state.
pub shutdown_leaves_nothing :
    (limit timeout buffer : ℤ) (heap : ℕ → Goroutine) {t : System}
    → Reach (initial limit timeout buffer heap) t
    → t.manager.wg ≡ 0
    → (r : ℕ) → r < t.next
    → (t.manager.actors ≡ []) × (t.manager.active_count ≡ 0) × Finished (t.heap r).actor
shutdown_leaves_nothing limit timeout buffer heap {t} reach idle r lt =
    (nobody, rw (v.counted, nobody) refl, (over r lt).1)
  where
    v : Inv t
    v = Reach-Inv limit timeout buffer heap reach

    over : (q : ℕ) → q < t.next → (is_tracked (t.heap q).pc ≡ false) × Finished (t.heap q).actor
    over q small =
        exited_of_idle _ _ (count_below_zero (live t.heap) t.next q (sym v.waiting ∙ idle) small)
          (v.staged q small)

    nobody : t.manager.actors ≡ []
    nobody =
        empty_of_lookups t.manager.actors
          λ id q e. let (small, name, on) = v.linked id q e in ground (arith, on, (over q small).0)
