-- ===== src/Ws/Reach/Safety.antt =====
-- app/services/ws/manager.py: the states that a run of the manager reaches.
use stream_sight_backend.Prelude.{ℕ, ◌≡◌, true, arith}
use stream_sight_backend.Ws.Manager.{
  Manager, teardown, connections_for_principal, connections_for_sid,
}
use stream_sight_backend.Ws.Manager.Invariant.{IsForgotten, teardown-IsIndexed, closed-IsForgotten}
use stream_sight_backend.Ws.Delivery.{
  kick_local, kick_local_sid, close_all, broadcast_local, all_connections,
}
use stream_sight_backend.Ws.Delivery.Queues.{teardown-IsBounded}
use stream_sight_backend.Ws.Control.Authority.{keeps-IsAuthorized, teardown-keeps}
use stream_sight_backend.Ws.Reach.{
  empty_manager, Step, accepts, controls, beats, tears_down, shuts, kicks, kicks_sid, shuts_down,
  sends, broadcasts, answers, Reached, at_start, further,
}
use stream_sight_backend.Ws.Reach.Steps.{
  IsSound, accepts-IsSound, close_and_teardown-IsSound, close_each-IsSound, deliver-IsSound,
  send_local-IsSound, send-IsSound,
}
use stream_sight_backend.Ws.Reach.Frames.{handle_control-IsSound, heartbeat-IsSound}

Step-IsSound : (m n : Manager) → Step m n → IsSound m → IsSound n
Step-IsSound m _ (accepts c p role s d now size message new) v =
    accepts-IsSound c p role s d now size message m new v
Step-IsSound m _ (controls c control live) v = handle_control-IsSound c control m live v
Step-IsSound m _ (beats settings c now) v = heartbeat-IsSound settings c now m v
Step-IsSound m _ (tears_down c) v = record {
  indexed = teardown-IsIndexed c m v.indexed;
  bounded = teardown-IsBounded c m v.bounded;
  authorized = keeps-IsAuthorized m (teardown c m) (teardown-keeps c m) v.authorized;
}
Step-IsSound m _ (shuts code c) v = close_and_teardown-IsSound code c m v
Step-IsSound m _ (kicks p code) v =
    unfold kick_local in close_each-IsSound code (connections_for_principal p m) m v
Step-IsSound m _ (kicks_sid s code) v =
    unfold kick_local_sid in close_each-IsSound code (connections_for_sid s m) m v
Step-IsSound m _ (shuts_down code) v =
    unfold close_all in close_each-IsSound code (all_connections m) m v
Step-IsSound m _ (sends p t message) v = send_local-IsSound p t message m v
Step-IsSound m _ (broadcasts message) v =
    unfold broadcast_local in deliver-IsSound message (all_connections m) m v
Step-IsSound m _ (answers c message) v = send-IsSound c message m v

start-IsSound : IsSound empty_manager
start-IsSound = record {
  indexed = record { principals = tt; topics = tt; sids = tt; tabs = tt };
  bounded = λ d sized. omega arith;
  authorized = λ d t h. absurd (ground (arith, h));
}

-- In every state that a run of the manager's calls reaches from a new instance, where a control
-- message is handled only while its connection is open: each index entry
-- names an open connection with that principal, session, tab or subscription; no bounded queue
-- holds more than its size; and no connection is subscribed to a topic that asks for a higher rank
-- than the connection was accepted with.
pub Reached-IsSound : (m : Manager) → Reached m → IsSound m
Reached-IsSound _ at_start = start-IsSound
Reached-IsSound _ (further {m} {n} r s) = Step-IsSound m n s (Reached-IsSound m r)

-- In every state that a run of the manager's calls reaches from a new instance, where a control
-- message is handled only while its connection is open, a connection that is closed is in none of
-- the four indices.
Reached-closed-IsForgotten :
    (m : Manager) → Reached m → (c : ℕ) → (m.heap c).closed ≡ true → IsForgotten c m
Reached-closed-IsForgotten m r c shut = closed-IsForgotten c m (Reached-IsSound m r).indexed shut
