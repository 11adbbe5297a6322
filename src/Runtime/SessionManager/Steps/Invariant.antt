-- ===== src/Runtime/SessionManager/Steps/Invariant.antt =====
-- What holds between any two critical sections.
use zheng_harness.Base.{ℕ, ◌≤◌, ◌<◌, ◌≡◌, String, Bool, true, false, some, length}
use zheng_harness.Base.Maps.{lookup, KeysDistinct, count_below}
use zheng_harness.Runtime.SessionActor.{SessionActor, SessionActorResult, ActorState}
use zheng_harness.Runtime.SessionManager.{
  System, Goroutine, Pc, spawned, attached, running, removed, exited,
}

-- The goroutine's actor is in the manager's map.
abbrev pub is_tracked : Pc → Bool
is_tracked removed = false
is_tracked exited = false
is_tracked _ = true

-- The goroutine has not yet called `wg.Done`.
abbrev pub is_live : Pc → Bool
is_live exited = false
is_live _ = true

abbrev pub live : (ℕ → Goroutine) → ℕ → Bool
live heap r = is_live (heap r).pc

abbrev pub is_terminal : ActorState → Bool
is_terminal ActorState.pending = false
is_terminal ActorState.running = false
is_terminal _ = true

-- What an actor is before its run has ended, and after.
abbrev pub Unfinished : ActorState → SessionActor → Type 0
Unfinished state a = (a.state ≡ state) × (a.finalized ≡ false)

abbrev pub Finished : SessionActor → Type 0
Finished a =
    (is_terminal a.state ≡ true)
    × (a.finalized ≡ true)
    × ((res : SessionActorResult) × (a.result ≡ some res) × (res.state ≡ a.state))

-- The state of the actor follows the place of its goroutine.
abbrev pub Staged : Pc → SessionActor → Type 0
Staged spawned a = Unfinished ActorState.pending a
Staged attached a = Unfinished ActorState.pending a
Staged running a = Unfinished ActorState.running a
Staged _ a = Finished a

pub record Inv (s : System) : Type 0 where
  pub counted : s.manager.active_count ≡ length s.manager.actors
  pub capped : s.manager.active_count ≤ s.manager.active_session_cap
  pub distinct : KeysDistinct s.manager.actors
  pub linked :
      (id : String) (r : ℕ)
      → lookup id s.manager.actors ≡ some r
      → (r < s.next) × ((s.heap r).request.session_id ≡ id) × (is_tracked (s.heap r).pc ≡ true)
  pub tracked :
      (r : ℕ)
      → r < s.next
      → is_tracked (s.heap r).pc ≡ true
      → lookup (s.heap r).request.session_id s.manager.actors ≡ some r
  pub waiting : s.manager.wg ≡ count_below (live s.heap) s.next
  pub named : (r : ℕ) → r < s.next → (s.heap r).actor.session_id ≡ (s.heap r).request.session_id
  pub staged : (r : ℕ) → r < s.next → Staged (s.heap r).pc (s.heap r).actor
