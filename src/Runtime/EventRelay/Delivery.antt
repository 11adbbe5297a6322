-- ===== src/Runtime/EventRelay/Delivery.antt =====
-- What one subscriber sees of the events that broadcast delivers, whatever it takes in between.
use mathlib.Core.List.{append_assoc, append-nil}
use zheng_harness.Base.{
  ℕ, ◌≤◌, String, true, false, Option, none, some, List, [], ◌∷◌, ◌++◌, length, ltb, if◌then◌else◌,
  length-append, ◌≡◌, refl, sym, ap, subst, ◌∙◌, ◌⊎◌, inl, inr, arith, Bool-cases,
}
use zheng_harness.Domain.Types.{Time}
use zheng_harness.Runtime.EventRelay.{
  StreamingEvent, error, is_session_complete, EventSubscription, open_subscription, deliver,
  receive, receive_many, received, with_note, drop_oldest, try_send, mark_overflow, send_signal,
  overflow_signal_for_event, new_subscriber_overflow_event, close,
}
use zheng_harness.Runtime.EventRelay.Received.{
  Whole, Cut, taken-Whole, taken-Cut, receive-keeps, receive_many-keeps,
}

-- A delivery by broadcast, with what the encoder and the clock answer and how many events the client
-- takes between its two critical sections; or a receive by the client.
pub data Op : Type 0 where
  delivers : Option String → Time → StreamingEvent → ℕ → Op
  receives : Op

abbrev pub delivered : List Op → List StreamingEvent
delivered [] = []
delivered (delivers encoded now e n ∷ ops) = e ∷ delivered ops
delivered (receives ∷ ops) = delivered ops

unfoldable pub take_step :
    Op → List StreamingEvent → EventSubscription → Option (List StreamingEvent × EventSubscription)
unfolding deliver receive receive_many
take_step (delivers encoded now e n) got s = deliver got (receive_many n got) encoded now e s
take_step receives got s = let (e, s') = receive s in some (received got e, s')

-- The operations in turn; `none` where one panics.
unfoldable pub run_ops :
    List Op
    → List StreamingEvent
    → EventSubscription
    → Option (List StreamingEvent × EventSubscription)
unfolding take_step
run_ops [] got s = some (got, s)
run_ops (op ∷ ops) got s = elim (take_step op got s) [ none ↦ none | some p ↦ run_ops ops p.0 p.1 ]

abbrev pub Kept : List StreamingEvent → List StreamingEvent → EventSubscription → Type 0
Kept sent got s = Whole sent got s ⊎ Cut sent got s

abbrev pub Outcome : List StreamingEvent → Option (List StreamingEvent × EventSubscription) → Type 0
Outcome sent none = ⊥
Outcome sent (some p) = Kept sent p.0 p.1

signal-type :
    (encoded : Option String) (now : Time) (e : StreamingEvent)
    → (overflow_signal_for_event encoded now e).type
      ≡ (if is_session_complete e.type then e.type else error)
unfolding overflow_signal_for_event new_subscriber_overflow_event
signal-type encoded now e = elim (Bool-cases (is_session_complete e.type)) [
  | inl ends ↦ rw ends refl
  | inr goes_on ↦ rw goes_on refl
]

abbrev open_with : List StreamingEvent → ℕ → Option StreamingEvent → EventSubscription
open_with ch buffer err = record {
  ch = ch;
  buffer = buffer;
  closed = false;
  overflowed = false;
  error_event = err;
}

abbrev cut_with : List StreamingEvent → ℕ → StreamingEvent → EventSubscription
cut_with ch buffer signal = record {
  ch = ch ++ signal ∷ [];
  buffer = buffer;
  closed = true;
  overflowed = true;
  error_event = some signal;
}

-- The overflow of an open subscription.
module _ (encoded : Option String) (now : Time) (e : StreamingEvent) where
  abbrev signal_of : StreamingEvent
  signal_of = overflow_signal_for_event encoded now e

  mark-eq :
      (ch : List StreamingEvent) (buffer : ℕ) (err : Option StreamingEvent)
      → ltb (length (drop_oldest ch)) buffer ≡ true
      → mark_overflow signal_of (open_with ch buffer err)
        ≡ some (cut_with (drop_oldest ch) buffer signal_of)
  unfolding mark_overflow send_signal
  mark-eq ch buffer err room = rw room refl

  cut_with-Cut :
      (sent got missing after : List StreamingEvent) (buffer : ℕ)
      → length missing ≤ 1
      → sent ≡ got ++ (missing ++ after)
      → Cut (sent ++ e ∷ []) got (cut_with after buffer signal_of)
  cut_with-Cut sent got missing after buffer few complete = record {
    is_closed = refl;
    overflow = refl;
    before = got;
    missing = missing;
    after = after;
    late = e;
    refused = [];
    signal = signal_of;
    few = few;
    events =
        ap (λ l. l ++ e ∷ []) complete
        ∙ append_assoc got (missing ++ after) (e ∷ [])
        ∙ ap (λ l. got ++ l) (append_assoc missing after (e ∷ []));
    seen = refl;
    recorded = refl;
    signalled = signal-type encoded now e;
  }

  mark_open-Outcome :
      (sent got ch : List StreamingEvent) (buffer : ℕ) (err : Option StreamingEvent)
      → 1 ≤ buffer
      → length ch ≤ buffer
      → got ++ ch ≡ sent
      → Outcome (sent ++ e ∷ []) (with_note got (mark_overflow signal_of (open_with ch buffer err)))
  mark_open-Outcome sent got [] buffer err wide fits complete =
      rw (mark-eq [] buffer err (ground (arith, wide)))
        (inr (cut_with-Cut sent got [] [] buffer (omega arith) (sym complete)))
  mark_open-Outcome sent got (x ∷ after) buffer err wide fits complete =
      rw (mark-eq (x ∷ after) buffer err (ground (arith, fits)))
        (inr (cut_with-Cut sent got (x ∷ []) after buffer (omega arith) (sym complete)))

  mark_whole-Outcome :
      (sent got : List StreamingEvent) (s : EventSubscription)
      → Whole sent got s
      → Outcome (sent ++ e ∷ []) (with_note got (mark_overflow signal_of s))
  mark_whole-Outcome sent got s w =
      let shape : s ≡ open_with s.ch s.buffer s.error_event =
        ap (λ c. record s { closed = c }) w.is_open
        ∙ ap (λ o. record s { closed = false; overflowed = o }) w.no_overflow in
      subst (λ x. Outcome (sent ++ e ∷ []) (with_note got (mark_overflow signal_of x))) (sym shape)
        (mark_open-Outcome sent got s.ch s.buffer s.error_event w.has_room w.fits w.complete)

  late-Cut :
      (sent got : List StreamingEvent) (s : EventSubscription)
      → Cut sent got s
      → Cut (sent ++ e ∷ []) got s
  late-Cut sent got s c = record {
    is_closed = c.is_closed;
    overflow = c.overflow;
    before = c.before;
    missing = c.missing;
    after = c.after;
    late = c.late;
    refused = c.refused ++ e ∷ [];
    signal = c.signal;
    few = c.few;
    events =
        ap (λ l. l ++ e ∷ []) c.events
        ∙ append_assoc c.before (c.missing ++ (c.after ++ c.late ∷ c.refused)) (e ∷ [])
        ∙ ap (λ l. c.before ++ l)
            (append_assoc c.missing (c.after ++ c.late ∷ c.refused) (e ∷ [])
              ∙ ap (λ l. c.missing ++ l) (append_assoc c.after (c.late ∷ c.refused) (e ∷ [])));
    seen = c.seen;
    recorded = c.recorded;
    signalled = c.signalled;
  }

  mark_cut-Outcome :
      (sent got : List StreamingEvent) (s : EventSubscription)
      → Cut sent got s
      → Outcome (sent ++ e ∷ []) (with_note got (mark_overflow signal_of s))
  unfolding mark_overflow
  mark_cut-Outcome sent got s c = simp (mark_overflow, c.overflow) (inr (late-Cut sent got s c))

  try_send-shut : (s : EventSubscription) → s.closed ≡ true → try_send e s ≡ (false, s)
  unfolding try_send
  try_send-shut s shut = simp (try_send, shut) refl

  try_send-full :
      (s : EventSubscription) → ltb (length s.ch) s.buffer ≡ false → try_send e s ≡ (false, s)
  unfolding try_send
  try_send-full s full = elim (Bool-cases s.closed) [
    | inl shut ↦ simp (try_send, shut) refl
    | inr live ↦ simp (try_send, live, full) refl
  ]

  try_send-room :
      (s : EventSubscription)
      → s.closed ≡ false
      → ltb (length s.ch) s.buffer ≡ true
      → try_send e s ≡ (true, record s { ch = s.ch ++ e ∷ [] })
  unfolding try_send
  try_send-room s live room = simp (try_send, live, room) refl

  deliver-refused :
      (n : ℕ) (sent got : List StreamingEvent) (s : EventSubscription)
      → try_send e s ≡ (false, s)
      → Outcome
          (sent ++ e ∷ [])
          (with_note (receive_many n got s).0 (mark_overflow signal_of (receive_many n got s).1))
      → Outcome (sent ++ e ∷ []) (deliver got (receive_many n got) encoded now e s)
  unfolding deliver
  deliver-refused n sent got s refused h = rw refused h

  deliver-Outcome :
      (n : ℕ) (sent got : List StreamingEvent) (s : EventSubscription)
      → Kept sent got s
      → Outcome (sent ++ e ∷ []) (deliver got (receive_many n got) encoded now e s)
  unfolding deliver
  deliver-Outcome n sent got s (inr c) =
      deliver-refused n sent got s (try_send-shut s c.is_closed) (
        mark_cut-Outcome sent (receive_many n got s).0 (receive_many n got s).1
          (receive_many-keeps (Cut sent) (taken-Cut sent) n got s c))
  deliver-Outcome n sent got s (inl w) = elim (Bool-cases (ltb (length s.ch) s.buffer)) [
    | inl room ↦ rw (try_send-room s w.is_open room) (
        inl (record {
          is_open = w.is_open;
          no_overflow = w.no_overflow;
          has_room = w.has_room;
          fits = ground (arith, room, length-append s.ch (e ∷ []));
          complete = sym (append_assoc got s.ch (e ∷ [])) ∙ ap (λ l. l ++ e ∷ []) w.complete;
        }))
    | inr full ↦ deliver-refused n sent got s (try_send-full s full) (
        mark_whole-Outcome sent (receive_many n got s).0 (receive_many n got s).1
          (receive_many-keeps (Whole sent) (taken-Whole sent) n got s w))
  ]

take_step-Outcome :
    (op : Op) (sent got : List StreamingEvent) (s : EventSubscription)
    → Kept sent got s
    → Outcome (sent ++ delivered (op ∷ [])) (take_step op got s)
unfolding take_step
take_step-Outcome (delivers encoded now e n) sent got s k =
    deliver-Outcome encoded now e n sent got s k
take_step-Outcome receives sent got s (inl w) =
    rw (append-nil sent) (inl (receive-keeps (Whole sent) (taken-Whole sent) got s w))
take_step-Outcome receives sent got s (inr c) =
    rw (append-nil sent) (inr (receive-keeps (Cut sent) (taken-Cut sent) got s c))

delivered-cons :
    (op : Op) (ops : List Op) (sent : List StreamingEvent)
    → (sent ++ delivered (op ∷ [])) ++ delivered ops ≡ sent ++ delivered (op ∷ ops)
delivered-cons (delivers encoded now e n) ops sent = append_assoc sent (e ∷ []) (delivered ops)
delivered-cons receives ops sent = ap (λ l. l ++ delivered ops) (append-nil sent)

then_Outcome :
    (ops : List Op) (sent total : List StreamingEvent)
    (o : Option (List StreamingEvent × EventSubscription))
    → Outcome sent o
    → ((got : List StreamingEvent) (s : EventSubscription)
        → Kept sent got s
        → Outcome total (run_ops ops got s))
    → Outcome total (elim o [ none ↦ none | some p ↦ run_ops ops p.0 p.1 ])
then_Outcome ops sent total none h k = absurd h
then_Outcome ops sent total (some p) h k = k p.0 p.1 h

run_ops-Outcome :
    (ops : List Op) (sent got : List StreamingEvent) (s : EventSubscription)
    → Kept sent got s
    → Outcome (sent ++ delivered ops) (run_ops ops got s)
unfolding run_ops
run_ops-Outcome [] sent got s k = rw (append-nil sent) k
run_ops-Outcome (op ∷ ops) sent got s k =
    then_Outcome ops (sent ++ delivered (op ∷ [])) (sent ++ delivered (op ∷ ops))
      (take_step op got s) (take_step-Outcome op sent got s k)
      (λ got' s' k'.
        subst (λ l. Outcome l (run_ops ops got' s')) (delivered-cons op ops sent)
          (run_ops-Outcome ops (sent ++ delivered (op ∷ [])) got' s' k'))

-- A subscription that no client closes never panics, for any events and any receives in between, also
-- between the two critical sections of a delivery, and loses nothing silently: either it is open, and
-- what the client took with what is buffered are all the events in order; or it fell behind at a late
-- event, and then at most one event before the late one is missing, the signal stands last and is
-- recorded, and the late event and everything after it are refused.
pub run_ops-Kept :
    (buffer : ℕ) (ops : List Op)
    → 1 ≤ buffer
    → Outcome (delivered ops) (run_ops ops [] (open_subscription buffer))
run_ops-Kept buffer ops wide = run_ops-Outcome ops [] [] (open_subscription buffer) (
    inl (record {
      is_open = refl;
      no_overflow = refl;
      has_room = wide;
      fits = omega (arith, wide);
      complete = refl;
    }))

shut_overflow :
    (got : List StreamingEvent) (signal : StreamingEvent) (t : EventSubscription)
    → t.closed ≡ true
    → t.overflowed ≡ false
    → with_note got (mark_overflow signal t) ≡ none
unfolding mark_overflow send_signal
shut_overflow got signal t shut still = rw (still, shut) refl

-- A client that closes its subscription after broadcast has taken it from the set of subscribers and
-- before the event is delivered makes the delivery panic, where it had not overflowed before, whatever
-- it receives meanwhile: the send that is refused counts as an overflow, and its signal is sent on the
-- closed channel.
pub deliver-close :
    (encoded : Option String) (now : Time) (e : StreamingEvent) (n : ℕ) (got : List StreamingEvent)
    (s : EventSubscription)
    → s.overflowed ≡ false
    → deliver got (receive_many n got) encoded now e (close s) ≡ none
unfolding deliver try_send close
deliver-close encoded now e n got s fine =
    let (shut, still) =
      receive_many-keeps (λ _ t. (t.closed ≡ true) × (t.overflowed ≡ false)) (λ _ _ _ _ _ h. h) n
        got (close s) (refl, fine) in
    shut_overflow (receive_many n got (close s)).0 (overflow_signal_for_event encoded now e)
      (receive_many n got (close s)).1 shut still
