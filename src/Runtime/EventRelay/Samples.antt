-- ===== src/Runtime/EventRelay/Samples.antt =====
-- A subscriber with room for two events, a slow one, and the end of a relay.
use zheng_harness.Base.{
  ◌≤◌, ◌<◌, ◌≡◌, refl, String, true, false, Option, none, some, List, [], ◌∷◌, arith,
}
use zheng_harness.Base.Int.{pos}
use zheng_harness.Runtime.EventRelay.{
  StreamingEvent, token_delta, session_complete, EventSubscription, open_subscription, EventRelay,
  new_session_event_relay, subscribe_actor, close_all, close, deliver, receive_many,
  overflow_signal_for_event,
}
use zheng_harness.Runtime.EventRelay.Delivery.{
  Op, delivers, receives, delivered, run_ops, Outcome, run_ops-Kept, deliver-close,
}
use zheng_harness.Runtime.EventRelay.Streams.{
  Reach, here, next, subscribes, ended_relay_closes_streams,
}

abbrev token : String → StreamingEvent
token text = record { type = token_delta; step_index = 0; payload = text; timestamp = 0 }

abbrev finish : StreamingEvent
finish = record { type = session_complete; step_index = 0; payload = "done"; timestamp = 0 }

abbrev send : StreamingEvent → Op
send e = delivers none 9 e 0

-- The client takes one event and then falls behind; the end of the session comes through.
abbrev slow : List Op
slow =
    send (token "a")
    ∷ receives
    ∷ send (token "b")
    ∷ send (token "c")
    ∷ send finish
    ∷ send (token "d")
    ∷ receives
    ∷ receives
    ∷ receives
    ∷ []

abbrev got_of : Option (List StreamingEvent × EventSubscription) → List StreamingEvent
got_of none = []
got_of (some p) = p.0

slow_sees : got_of (run_ops slow [] (open_subscription 2)) ≡ token "a" ∷ token "c" ∷ finish ∷ []
unfolding run_ops
slow_sees = refl

-- The client empties the channel after the send was refused and before the overflow is marked: no
-- event but the late one is lost.
abbrev caught_up : List Op
caught_up = send (token "a") ∷ delivers none 9 (token "b") 1 ∷ receives ∷ []

caught_up_sees :
    got_of (run_ops caught_up [] (open_subscription 1))
    ≡ token "a" ∷ overflow_signal_for_event none 9 (token "b") ∷ []
unfolding run_ops
caught_up_sees = refl

two_fit : 1 ≤ 2
two_fit = omega arith

run_ops-Kept_example : Outcome (delivered slow) (run_ops slow [] (open_subscription 2))
run_ops-Kept_example = run_ops-Kept 2 slow two_fit

deliver-close_example :
    deliver [] (receive_many 1 []) none 9 (token "a") (close (open_subscription 2)) ≡ none
deliver-close_example = deliver-close none 9 (token "a") 1 [] (open_subscription 2) refl

abbrev empty_relay : EventRelay
empty_relay = new_session_event_relay (pos 4) (λ _. open_subscription 1)

abbrev with_client : EventRelay
with_client = (subscribe_actor false (pos 2) empty_relay).0

one_client : Reach empty_relay with_client
one_client = next here (subscribes false (pos 2))

late_client : Reach (close_all with_client) (subscribe_actor true (pos 0) (close_all with_client)).0
late_client = next here (subscribes true (pos 0))

both_exist : 1 < (subscribe_actor true (pos 0) (close_all with_client)).0.next
unfolding subscribe_actor close_all new_session_event_relay
both_exist = omega arith

ended_relay_closes_streams_example :
    ((subscribe_actor true (pos 0) (close_all with_client)).0.heap 1).closed ≡ true
ended_relay_closes_streams_example =
    ended_relay_closes_streams (pos 4) (λ _. open_subscription 1) one_client late_client 1
      both_exist
