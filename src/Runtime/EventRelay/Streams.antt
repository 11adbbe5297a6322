-- ===== src/Runtime/EventRelay/Streams.antt =====
-- Every stream ends: over every interleaving of broadcasts, subscribers and the end of the relay.
use zheng_harness.Base.{
  ℕ, ◌<◌, ◌=ℕ◌, Bool, true, false, some, List, [], ◌∷◌, if◌then◌else◌, ◌≡◌, ◌≢◌, refl, sym, ap,
  subst, ◌||◌, arith, inl, inr, Bool-cases,
}
use zheng_harness.Base.Int.{ℤ}
use zheng_harness.Base.Maps.{update_at_ind}
use zheng_harness.Runtime.EventRelay.{
  StreamingEvent, EventSubscription, EventRelay, put, receive, try_send, mark_overflow, send_signal,
  settle, remove, close, close_subscription, close_each, close_all, subscribe, subscribe_actor,
  new_session_event_relay, new_closed_event_subscription,
}

-- One step of the relay's goroutine or of a client. The two critical sections of a delivery are steps
-- of their own, so that anything may come between them; they may come long after broadcast copied the
-- set, so to any subscription. One that panics has no step.
pub data Move (r : EventRelay) : EventRelay → Type 0 where
  subscribes : (finalized : Bool) (buffer : ℤ) → Move r (subscribe_actor finalized buffer r).0
  receives : (q : ℕ) → q < r.next → Move r (put q (receive (r.heap q)).1 r)
  tries : (e : StreamingEvent) (q : ℕ) → q < r.next → Move r (put q (try_send e (r.heap q)).1 r)
  marks :
      (signal : StreamingEvent) (q : ℕ) (s : EventSubscription)
      → q < r.next
      → mark_overflow signal (r.heap q) ≡ some s
      → Move r (settle q s r)
  closes : (q : ℕ) → q < r.next → Move r (close_subscription q r)
  ends : Move r (close_all r)

pub data Reach (r : EventRelay) : EventRelay → Type 0 where
  here : Reach r r
  next : {t u : EventRelay} → Reach r t → Move t u → Reach r u

abbrev member : List ℕ → ℕ → Bool
member [] q = false
member (p ∷ rest) q = p =ℕ q || member rest q

-- A subscription is in the set, or closed.
abbrev Tracked : EventRelay → Type 0
Tracked r = (q : ℕ) → q < r.next → (member r.subscribers q || (r.heap q).closed) ≡ true

member-remove : (q p : ℕ) (xs : List ℕ) → q ≢ p → member (remove q xs) p ≡ member xs p
unfolding remove
member-remove q p [] ne = refl
member-remove q p (x ∷ xs) ne = ground (arith, member-remove q p xs ne)

mark-closed :
    (signal : StreamingEvent) (s s' : EventSubscription)
    → s.closed ≡ true
    → mark_overflow signal s ≡ some s'
    → s'.closed ≡ true
unfolding mark_overflow send_signal
mark-closed signal s s' shut h = elim (Bool-cases s.overflowed) [
  | inl over ↦ ground (arith, h, over, shut)
  | inr fine ↦ ground (arith, h, fine, shut)
]

try_send-closed : (e : StreamingEvent) (s : EventSubscription) → (try_send e s).1.closed ≡ s.closed
unfolding try_send
try_send-closed e s = ground arith

receive-closed : (s : EventSubscription) → (receive s).1.closed ≡ s.closed
unfolding receive
receive-closed s = ground arith

put-Tracked :
    (r : EventRelay) (q : ℕ) (s : EventSubscription)
    → s.closed ≡ (r.heap q).closed
    → Tracked r
    → Tracked (put q s r)
unfolding put
put-Tracked r q s same k p lt =
    update_at_ind (λ x v. (member r.subscribers x || v.closed) ≡ true) r.heap q s p
      (λ e.
        subst (λ x. (member r.subscribers x || s.closed) ≡ true) e
          (ground (arith, same, k q (subst (λ x. x < r.next) (sym e) lt))))
      (λ ne. k p lt)

settle-Tracked :
    (r : EventRelay) (q : ℕ) (s : EventSubscription)
    → ((r.heap q).closed ≡ true → s.closed ≡ true)
    → Tracked r
    → Tracked (settle q s r)
unfolding settle
settle-Tracked r q s stays k p lt = elim (Bool-cases s.closed) [
  | inl shut ↦
      update_at_ind
        (λ x v.
          (member (if s.closed then remove q r.subscribers else r.subscribers) x || v.closed)
          ≡ true)
        r.heap q s p (λ e. ground (arith, shut))
        (λ ne. ground (arith, shut, member-remove q p r.subscribers ne, k p lt))
  | inr live ↦
      update_at_ind
        (λ x v.
          (member (if s.closed then remove q r.subscribers else r.subscribers) x || v.closed)
          ≡ true)
        r.heap q s p
        (λ e.
          subst
            (λ x.
              (member (if s.closed then remove q r.subscribers else r.subscribers) x || s.closed)
              ≡ true)
            e (ground (arith, live, stays, ap r.heap e, k q (subst (λ x. x < r.next) (sym e) lt))))
        (λ ne. ground (arith, live, k p lt))
]

close_subscription-Tracked : (r : EventRelay) (q : ℕ) → Tracked r → Tracked (close_subscription q r)
unfolding close_subscription close
close_subscription-Tracked r q k p lt =
    update_at_ind (λ x v. (member (remove q r.subscribers) x || v.closed) ≡ true) r.heap q _ p
      (λ e. ground arith) (λ ne. ground (arith, member-remove q p r.subscribers ne, k p lt))

-- A loop of closings leaves closed what it closes and what was closed.
close_each-closes :
    (qs : List ℕ) (r : EventRelay) (p : ℕ)
    → (member qs p || (r.heap p).closed) ≡ true
    → ((close_each qs r).heap p).closed ≡ true
unfolding close_each close_subscription close
close_each-closes [] r p h = h
close_each-closes (q ∷ qs) r p h = close_each-closes qs (close_subscription q r) p (
    update_at_ind (λ x v. (member qs x || v.closed) ≡ true) r.heap q (close (r.heap q)) p
      (λ e. ground arith) (λ ne. ground (arith, h, ne)))

close_each-fixed :
    (qs : List ℕ) (r : EventRelay)
    → r.subscribers ≡ []
    → let t = close_each qs r in (t.subscribers ≡ []) × (t.closed ≡ r.closed) × (t.next ≡ r.next)
unfolding close_each close_subscription
close_each-fixed [] r e = (e, refl, refl)
close_each-fixed (q ∷ qs) r e = close_each-fixed qs (close_subscription q r) (ap (remove q) e)

-- The relay has come to its end.
abbrev pub Ended : EventRelay → Type 0
Ended r = (r.closed ≡ true) × (r.subscribers ≡ [])

close_all-Ended : (r : EventRelay) → Ended (close_all r) × ((close_all r).next ≡ r.next)
unfolding close_all
close_all-Ended r =
    let (subs, shut, same) =
      close_each-fixed r.subscribers (record r { closed = true; subscribers = [] }) refl in
    ((shut, subs), same)

close_all-Tracked : (r : EventRelay) → Tracked r → Tracked (close_all r)
unfolding close_all
close_all-Tracked r k p lt =
    let (subs, shut, same) =
      close_each-fixed r.subscribers (record r { closed = true; subscribers = [] }) refl in
    let done =
      close_each-closes r.subscribers (record r { closed = true; subscribers = [] }) p
        (k p (subst (λ n. p < n) same lt)) in
    ground (arith, done)

subscribe-Tracked : (buffer : ℤ) (r : EventRelay) → Tracked r → Tracked (subscribe buffer r).0
unfolding subscribe
subscribe-Tracked buffer r k = elim (Bool-cases r.closed) [
  | inl shut ↦
      rw (subscribe, shut)
        (λ p lt.
          update_at_ind (λ x v. (member r.subscribers x || v.closed) ≡ true) r.heap r.next _ p
            (λ e. ground arith) (λ ne. k p (omega (arith, lt, ne))))
  | inr live ↦
      rw (subscribe, live)
        (λ p lt.
          update_at_ind (λ x v. (member (r.next ∷ r.subscribers) x || v.closed) ≡ true) r.heap
            r.next _ p (λ e. ground (arith, e)) (λ ne. ground (arith, k p (omega (arith, lt, ne)))))
]

subscribe_actor-Tracked :
    (finalized : Bool) (buffer : ℤ) (r : EventRelay)
    → Tracked r
    → Tracked (subscribe_actor finalized buffer r).0
unfolding subscribe_actor new_closed_event_subscription
subscribe_actor-Tracked true buffer r k p lt =
    update_at_ind (λ x v. (member r.subscribers x || v.closed) ≡ true) r.heap r.next _ p
      (λ e. ground arith) (λ ne. k p (omega (arith, lt, ne)))
subscribe_actor-Tracked false buffer r k p lt = subscribe-Tracked buffer r k p lt

Move-Tracked : {r t : EventRelay} → Move r t → Tracked r → Tracked t
Move-Tracked {r} (subscribes finalized buffer) k = subscribe_actor-Tracked finalized buffer r k
Move-Tracked {r} (receives q lt) k = put-Tracked r q _ (receive-closed (r.heap q)) k
Move-Tracked {r} (tries e q lt) k = put-Tracked r q _ (try_send-closed e (r.heap q)) k
Move-Tracked {r} (marks signal q s lt h) k =
    settle-Tracked r q s (λ shut. mark-closed signal (r.heap q) s shut h) k
Move-Tracked {r} (closes q lt) k = close_subscription-Tracked r q k
Move-Tracked {r} ends k = close_all-Tracked r k

Reach-Tracked : {r t : EventRelay} → Tracked r → Reach r t → Tracked t
Reach-Tracked k here = k
Reach-Tracked k (next path m) = Move-Tracked m (Reach-Tracked k path)

subscribe_actor-Ended :
    (finalized : Bool) (buffer : ℤ) (r : EventRelay)
    → Ended r
    → Ended (subscribe_actor finalized buffer r).0
unfolding subscribe_actor subscribe
subscribe_actor-Ended true buffer r e = e
subscribe_actor-Ended false buffer r e = ground (arith, e)

settle-Ended : (q : ℕ) (s : EventSubscription) (r : EventRelay) → Ended r → Ended (settle q s r)
unfolding settle remove
settle-Ended q s r e = (
  e.0,
  elim (Bool-cases s.closed) [ inl shut ↦ rw shut (ap (remove q) e.1) | inr live ↦ rw live e.1 ],
)

Move-Ended : {r t : EventRelay} → Move r t → Ended r → Ended t
Move-Ended {r} (subscribes finalized buffer) e = subscribe_actor-Ended finalized buffer r e
Move-Ended {r} (receives q lt) e = unfold put in e
Move-Ended {r} (tries event q lt) e = unfold put in e
Move-Ended {r} (marks signal q s lt h) e = settle-Ended q s r e
Move-Ended {r} (closes q lt) e = unfold close_subscription remove in (e.0, ap (remove q) e.1)
Move-Ended {r} ends e = (close_all-Ended r).0

Reach-Ended : {r t : EventRelay} → Ended r → Reach r t → Ended t
Reach-Ended e here = e
Reach-Ended e (next path m) = Move-Ended m (Reach-Ended e path)

-- Once the relay has closed its subscribers, every subscription that was ever made, before or
-- after, is closed, in every state that any interleaving of deliveries, receives, subscribers and
-- closings reaches: no client waits on a stream for ever.
pub ended_relay_closes_streams :
    (buffer : ℤ) (heap : ℕ → EventSubscription) {r t : EventRelay}
    → Reach (new_session_event_relay buffer heap) r
    → Reach (close_all r) t
    → (q : ℕ) → q < t.next
    → (t.heap q).closed ≡ true
ended_relay_closes_streams buffer heap {r} {t} before after q lt =
    let start : Tracked (new_session_event_relay buffer heap) =
      unfold new_session_event_relay in λ p small. elim small [ ] in
    let tracked = Reach-Tracked (close_all-Tracked r (Reach-Tracked start before)) after in
    let ended = Reach-Ended (close_all-Ended r).0 after in
    ground (arith, tracked q lt, ap (λ l. member l q) ended.1)
