-- ===== src/Runtime/SessionManager/Steps.antt =====
-- internal/runtime/session_manager.go: every interleaving of clients, goroutines and shutdown.
pub mod Invariant
pub mod Preserved
pub mod Registry
pub mod Local
pub mod Claims
pub mod Outcomes
mod Samples
use zheng_harness.Base.{ℕ, ◌<◌, ◌≡◌, Option, Bool, true, false}
use zheng_harness.Base.Int.{ℤ}
use zheng_harness.Domain.Types.{Time, Err}
use zheng_harness.Runtime.SessionManager.{
  System, SessionManager, StartRequest, Goroutine, Pc, spawned, attached, running, finished,
  removed, RunOutcome, new_session_manager, start, attach, run, end_run, complete_actor, exit,
  cancel, cancel_all_active, begin_shutdown,
}

-- One critical section of one thread. A goroutine takes its own sections in order; the clients and
-- Shutdown may come between any two.
pub data Move (s : System) : System → Type 0 where
  starts : (req : StartRequest) (now : Time) → Move s (start req now s).0
  attaches : (r : ℕ) → r < s.next → (s.heap r).pc ≡ spawned → Move s (attach r s)
  runs : (now : Time) (r : ℕ) → r < s.next → (s.heap r).pc ≡ attached → Move s (run now r s)
  ends :
      (now : Time) (outcome : RunOutcome) (r : ℕ)
      → r < s.next
      → (s.heap r).pc ≡ running
      → Move s (end_run now outcome r s)
  completes : (r : ℕ) → r < s.next → (s.heap r).pc ≡ finished → Move s (complete_actor r s)
  exits : (r : ℕ) → r < s.next → (s.heap r).pc ≡ removed → Move s (exit r s)
  cancels : (cause : Option Err) (r : ℕ) → r < s.next → Move s (cancel cause r s)
  cancels_all : (cause : Option Err) → Move s (cancel_all_active cause s)
  shuts_down : Move s (begin_shutdown s)

pub data Reach (s : System) : System → Type 0 where
  here : Reach s s
  next : {t u : System} → Reach s t → Move t u → Reach s u

-- A manager as NewSessionManager returns it, before any Start; the heap holds no goroutine yet.
abbrev pub initial : ℤ → ℤ → ℤ → (ℕ → Goroutine) → System
initial limit timeout buffer heap = record {
  manager = new_session_manager limit timeout buffer;
  heap = heap;
  next = 0;
}
