-- ===== src/Runtime/EventRelay.antt =====
-- internal/runtime/session_manager.go: sessionEventRelay and EventSubscription. Subscriptions are
-- shared pointers: `heap` holds them all, and the relay's set of subscribers has references into it.
-- A send on a closed channel panics, in a select as well: such a step has no result, `none`. The
-- encoding of the overflow event's payload and the clock are the environment's.
mod Received
pub mod Delivery
pub mod Streams
mod Samples
use zheng_harness.Base.{
  ℕ, zero, suc, ◌+◌, String, Bool, true, false, not, Option, none, some, List, [], ◌∷◌, ◌++◌,
  length, ltb, ◌=ℕ◌, if◌then◌else◌,
}
use zheng_harness.Base.Int.{ℤ, positive_or}
use zheng_harness.Base.Maps.{update_at}
use zheng_harness.Domain.Types.{Time}

pub data EventType : Type 0 where
  token_delta tool_start tool_end step_complete error session_complete : EventType
  other : String → EventType

pub record StreamingEvent : Type 0 where
  pub type : EventType
  pub step_index : ℕ
  pub payload : String
  pub timestamp : Time

abbrev pub default_subscriber_buffer : ℕ
default_subscriber_buffer = 256

-- `ch` is what the channel's buffer holds, the oldest event first.
pub record EventSubscription : Type 0 where
  pub ch : List StreamingEvent
  pub buffer : ℕ
  pub closed : Bool
  pub overflowed : Bool
  pub error_event : Option StreamingEvent

abbrev pub open_subscription : ℕ → EventSubscription
open_subscription buffer = record {
  ch = [];
  buffer = buffer;
  closed = false;
  overflowed = false;
  error_event = none;
}

unfoldable pub new_closed_event_subscription : ℤ → EventSubscription
new_closed_event_subscription buffer =
    record (open_subscription (positive_or default_subscriber_buffer buffer)) { closed = true }

-- Close, on the subscription itself.
unfoldable pub close : EventSubscription → EventSubscription
close s = record s { closed = true }

unfoldable pub overflow_event : EventSubscription → Option StreamingEvent
overflow_event s = if s.overflowed then s.error_event else none

-- trySend: whether the event was taken.
unfoldable pub try_send : StreamingEvent → EventSubscription → Bool × EventSubscription
try_send event s =
    if s.closed
    then (false, s)
    else if ltb (length s.ch) s.buffer
    then (true, record s { ch = s.ch ++ event ∷ [] })
    else (false, s)

abbrev pub drop_oldest : List StreamingEvent → List StreamingEvent
drop_oldest [] = []
drop_oldest (e ∷ rest) = rest

-- The second select of markOverflow; the panic on a closed channel.
unfoldable pub send_signal : StreamingEvent → EventSubscription → Option EventSubscription
send_signal event s =
    if s.closed
    then none
    else if ltb (length s.ch) s.buffer
    then some (record s { ch = s.ch ++ event ∷ [] })
    else some s

abbrev close_if_sent : Option EventSubscription → Option EventSubscription
close_if_sent none = none
close_if_sent (some s) = some (record s { closed = true })

-- markOverflow for an event that is not nil, as both of its callers give one.
unfoldable pub mark_overflow : StreamingEvent → EventSubscription → Option EventSubscription
unfolding send_signal
mark_overflow event s =
    if s.overflowed
    then some s
    else close_if_sent (
        send_signal event
          (record s { overflowed = true; error_event = some event; ch = drop_oldest s.ch }))

-- newSubscriberOverflowEvent; the encoder may fail.
unfoldable pub new_subscriber_overflow_event : Option String → Time → StreamingEvent
new_subscriber_overflow_event encoded now = record {
  type = error;
  step_index = 0;
  payload = elim encoded [ none ↦ "" | some text ↦ text ];
  timestamp = now;
}

abbrev pub is_session_complete : EventType → Bool
is_session_complete session_complete = true
is_session_complete _ = false

unfoldable pub overflow_signal_for_event : Option String → Time → StreamingEvent → StreamingEvent
unfolding new_subscriber_overflow_event
overflow_signal_for_event encoded now event =
    if is_session_complete event.type then event else new_subscriber_overflow_event encoded now

abbrev pub received : List StreamingEvent → Option StreamingEvent → List StreamingEvent
received got none = got
received got (some e) = got ++ e ∷ []

-- What a client takes from the channel: the oldest event, if there is one.
unfoldable pub receive : EventSubscription → Option StreamingEvent × EventSubscription
receive s = elim s.ch [ [] ↦ (none, s) | e ∷ rest ↦ (some e, record s { ch = rest }) ]

-- A client takes `n` events, or as many as there are.
unfoldable pub receive_many :
    ℕ → List StreamingEvent → EventSubscription → List StreamingEvent × EventSubscription
unfolding receive
receive_many zero got s = (got, s)
receive_many (suc n) got s = let (e, s') = receive s in receive_many n (received got e) s'

abbrev pub with_note : {A : Type 0} → A → Option EventSubscription → Option (A × EventSubscription)
with_note note none = none
with_note note (some s) = some (note, s)

-- The body of the loop in broadcast: trySend and markOverflow are two critical sections, and `between`
-- is what clients do to the subscription after the first, with a note of what they got. A receive
-- during the second comes to the same as one after it, since the channel has the rest in its order.
unfoldable pub deliver :
    {A : Type 0}
    → A
    → (EventSubscription → A × EventSubscription)
    → Option String
    → Time
    → StreamingEvent
    → EventSubscription
    → Option (A × EventSubscription)
unfolding try_send mark_overflow overflow_signal_for_event
deliver idle between encoded now event s =
    let (sent, s') = try_send event s in
    if sent
    then some (idle, s')
    else let (note, s'') = between s' in
      with_note note (mark_overflow (overflow_signal_for_event encoded now event) s'')

pub record EventRelay : Type 0 where
  pub buffer_size : ℕ
  pub subscribers : List ℕ
  pub closed : Bool
  pub heap : ℕ → EventSubscription
  pub next : ℕ

unfoldable pub new_session_event_relay : ℤ → (ℕ → EventSubscription) → EventRelay
new_session_event_relay buffer heap = record {
  buffer_size = positive_or default_subscriber_buffer buffer;
  subscribers = [];
  closed = false;
  heap = heap;
  next = 0;
}

-- subscribe: the relay, and the reference of the new subscription.
unfoldable pub subscribe : ℤ → EventRelay → EventRelay × ℕ
unfolding new_closed_event_subscription
subscribe buffer r =
    let size = positive_or r.buffer_size buffer in
    if r.closed
    then (
      record r {
        heap = update_at r.heap r.next (record (open_subscription size) { closed = true });
        next = suc r.next;
      },
      r.next,
    )
    else (
      record r {
        subscribers = r.next ∷ r.subscribers;
        heap = update_at r.heap r.next (open_subscription size);
        next = suc r.next;
      },
      r.next,
    )

unfoldable pub remove : ℕ → List ℕ → List ℕ
remove q [] = []
remove q (p ∷ rest) = let later = remove q rest in if p =ℕ q then later else p ∷ later

-- Close with its onClose, as a client or closeAll calls it.
unfoldable pub close_subscription : ℕ → EventRelay → EventRelay
unfolding close remove
close_subscription q r = record r {
  subscribers = remove q r.subscribers;
  heap = update_at r.heap q (close (r.heap q));
}

unfoldable pub close_each : List ℕ → EventRelay → EventRelay
unfolding close_subscription
close_each [] r = r
close_each (q ∷ rest) r = close_each rest (close_subscription q r)

unfoldable pub close_all : EventRelay → EventRelay
unfolding close_each
close_all r = close_each r.subscribers (record r { closed = true; subscribers = [] })

-- What a delivery leaves: a subscription that it closed takes itself out of the set.
unfoldable pub settle : ℕ → EventSubscription → EventRelay → EventRelay
unfolding remove
settle q s r = record r {
  subscribers = if s.closed then remove q r.subscribers else r.subscribers;
  heap = update_at r.heap q s;
}

-- A write to a subscription that leaves the set alone.
unfoldable pub put : ℕ → EventSubscription → EventRelay → EventRelay
put q s r = record r { heap = update_at r.heap q s }

module _ {A : Type 0} (idle : A) (between : ℕ → EventSubscription → A × EventSubscription) where
  -- The loop of broadcast over the set that it copied.
  unfoldable pub broadcast_each :
      Option String → Time → StreamingEvent → List ℕ → EventRelay → Option EventRelay
  unfolding deliver settle
  broadcast_each encoded now e [] r = some r
  broadcast_each encoded now e (q ∷ rest) r =
      elim (deliver idle (between q) encoded now e (r.heap q)) [
        | none ↦ none
        | some p ↦ broadcast_each encoded now e rest (settle q p.1 r)
      ]

  unfoldable pub broadcast : Option String → Time → StreamingEvent → EventRelay → Option EventRelay
  unfolding broadcast_each
  broadcast encoded now e r = broadcast_each encoded now e r.subscribers r

-- Subscribe on an actor; `finalized` is the actor's flag.
unfoldable pub subscribe_actor : Bool → ℤ → EventRelay → EventRelay × ℕ
unfolding subscribe new_closed_event_subscription
subscribe_actor finalized buffer r =
    if finalized
    then (
      record r {
        heap = update_at r.heap r.next (new_closed_event_subscription buffer);
        next = suc r.next;
      },
      r.next,
    )
    else subscribe buffer r
