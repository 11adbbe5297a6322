-- ===== src/Runtime/EventRelay/Received.antt =====
-- What one subscriber has of the events, and that receiving keeps it.
use mathlib.Core.List.{append_assoc}
use zheng_harness.Base.{
  ℕ, zero, suc, ◌≤◌, true, false, none, some, List, [], ◌∷◌, ◌++◌, length, if◌then◌else◌, ◌≡◌, refl,
  sym, ap, ◌∙◌, ◌⊎◌, inl, inr, arith,
}
use zheng_harness.Runtime.EventRelay.{
  StreamingEvent, error, is_session_complete, EventSubscription, receive, receive_many, received,
}

-- The subscription is open, and what was taken and what is buffered are the events so far.
pub record Whole (sent got : List StreamingEvent) (s : EventSubscription) : Type 0 where
  pub is_open : s.closed ≡ false
  pub no_overflow : s.overflowed ≡ false
  pub has_room : 1 ≤ s.buffer
  pub fits : length s.ch ≤ s.buffer
  pub complete : got ++ s.ch ≡ sent

-- The subscriber fell behind at the event `late`: at most one event is missing, the oldest that it had
-- not taken, `late` and the events after it are refused, and the signal stands last.
pub record Cut (sent got : List StreamingEvent) (s : EventSubscription) : Type 0 where
  pub is_closed : s.closed ≡ true
  pub overflow : s.overflowed ≡ true
  pub before : List StreamingEvent
  pub missing : List StreamingEvent
  pub after : List StreamingEvent
  pub late : StreamingEvent
  pub refused : List StreamingEvent
  pub signal : StreamingEvent
  pub few : length missing ≤ 1
  pub events : sent ≡ before ++ (missing ++ (after ++ late ∷ refused))
  pub seen : got ++ s.ch ≡ before ++ (after ++ signal ∷ [])
  pub recorded : s.error_event ≡ some signal
  pub signalled : signal.type ≡ (if is_session_complete late.type then late.type else error)

-- Taking an event moves it from the buffer to what the client has.
pub taken-Whole :
    (sent got : List StreamingEvent) (x : StreamingEvent) (rest : List StreamingEvent)
    (s : EventSubscription)
    → s.ch ≡ x ∷ rest
    → Whole sent got s
    → Whole sent (got ++ x ∷ []) (record s { ch = rest })
taken-Whole sent got x rest s first w = record {
  is_open = w.is_open;
  no_overflow = w.no_overflow;
  has_room = w.has_room;
  fits = omega (arith, w.fits, ap length first);
  complete = append_assoc got (x ∷ []) rest ∙ ap (λ l. got ++ l) (sym first) ∙ w.complete;
}

pub taken-Cut :
    (sent got : List StreamingEvent) (x : StreamingEvent) (rest : List StreamingEvent)
    (s : EventSubscription)
    → s.ch ≡ x ∷ rest
    → Cut sent got s
    → Cut sent (got ++ x ∷ []) (record s { ch = rest })
taken-Cut sent got x rest s first c = record {
  is_closed = c.is_closed;
  overflow = c.overflow;
  before = c.before;
  missing = c.missing;
  after = c.after;
  late = c.late;
  refused = c.refused;
  signal = c.signal;
  few = c.few;
  events = c.events;
  seen = append_assoc got (x ∷ []) rest ∙ ap (λ l. got ++ l) (sym first) ∙ c.seen;
  recorded = c.recorded;
  signalled = c.signalled;
}

List-cases :
    (xs : List StreamingEvent)
    → (xs ≡ []) ⊎ ((x : StreamingEvent) × (rest : List StreamingEvent) × (xs ≡ x ∷ rest))
List-cases [] = inl refl
List-cases (x ∷ rest) = inr (x, rest, refl)

receive-eq :
    (s : EventSubscription) (xs : List StreamingEvent)
    → s.ch ≡ xs
    → receive s ≡ elim xs [ [] ↦ (none, s) | x ∷ rest ↦ (some x, record s { ch = rest }) ]
unfolding receive
receive-eq s xs e =
    ap (λ l. elim l [ [] ↦ (none, s) | x ∷ rest ↦ (some x, record s { ch = rest }) ]) e

module _ (K : List StreamingEvent → EventSubscription → Type 0)
    (taken : (got : List StreamingEvent) (x : StreamingEvent) (rest : List StreamingEvent)
        (s : EventSubscription)
      → s.ch ≡ x ∷ rest
      → K got s
      → K (got ++ x ∷ []) (record s { ch = rest })) where
  pub receive-keeps :
      (got : List StreamingEvent) (s : EventSubscription)
      → K got s
      → K (received got (receive s).0) (receive s).1
  receive-keeps got s k = elim (List-cases s.ch) [
    | inl empty ↦ rw (receive-eq s [] empty) k
    | inr (x, rest, first) ↦ rw (receive-eq s (x ∷ rest) first) (taken got x rest s first k)
  ]

  pub receive_many-keeps :
      (n : ℕ) (got : List StreamingEvent) (s : EventSubscription)
      → K got s
      → K (receive_many n got s).0 (receive_many n got s).1
  unfolding receive_many
  receive_many-keeps zero got s k = k
  receive_many-keeps (suc n) got s k =
      receive_many-keeps n (received got (receive s).0) (receive s).1 (receive-keeps got s k)
