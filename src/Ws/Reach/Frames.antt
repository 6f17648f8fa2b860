-- ===== src/Ws/Reach/Frames.antt =====
-- app/api/routers/ws/router.py: a control message and a turn of the heartbeat, and the invariants.
use stream_sight_backend.Prelude.{
  ℕ, ◌≡◌, false, none, some, ltb, leb, ◌+◌, suc, if_true, if_false, Bool-cases, inl, inr,
}
use stream_sight_backend.Ws.Protocol.{
  heartbeat_timeout, ping, error, subscribed, unsubscribed, Control, subscribe_message,
  unsubscribe_message, pong_message, malformed, topic_min_role,
}
use stream_sight_backend.Ws.Manager.{Manager, subscribe, unsubscribe}
use stream_sight_backend.Ws.Control.{below, set_missed, Settings, handle_control, heartbeat}
use stream_sight_backend.Ws.Control.Heartbeat.{
  heartbeat-closed, heartbeat-idle, heartbeat-late, heartbeat-early,
}
use stream_sight_backend.Ws.Reach.Steps.{
  IsSound, close_and_teardown-IsSound, send-IsSound, set_missed-IsSound, subscribe-IsSound,
  unsubscribe-IsSound,
}

pub handle_control-IsSound :
    (c : ℕ) (control : Control) (m : Manager)
    → (m.heap c).closed ≡ false
    → IsSound m
    → IsSound (handle_control c control m)
unfolding handle_control
handle_control-IsSound c malformed m live v = send-IsSound c (error "invalid_message") m v
handle_control-IsSound c (pong_message t) m live v = set_missed-IsSound c 0 m v
handle_control-IsSound c (subscribe_message none) m live v =
    send-IsSound c (error "missing_topic") m v
handle_control-IsSound c (subscribe_message (some t)) m live v =
    elim (Bool-cases (below (topic_min_role t) (m.heap c).admin_role)) [
      | inl low ↦ rw (if_true _ _ low) (send-IsSound c (error "forbidden_topic") m v)
      | inr ok ↦
          rw (if_false _ _ ok)
            (send-IsSound c (subscribed t) (subscribe c t m) (subscribe-IsSound c t m live ok v))
    ]
handle_control-IsSound c (unsubscribe_message none) m live v =
    send-IsSound c (error "missing_topic") m v
handle_control-IsSound c (unsubscribe_message (some t)) m live v =
    send-IsSound c (unsubscribed t) (unsubscribe c t m) (unsubscribe-IsSound c t m v)

pub heartbeat-IsSound :
    (settings : Settings) (c now : ℕ) (m : Manager)
    → IsSound m
    → IsSound (heartbeat settings c now m)
heartbeat-IsSound settings c now m v = elim (Bool-cases (m.heap c).closed) [
  | inl shut ↦ rw (heartbeat-closed settings c now m shut) v
  | inr live ↦ elim (Bool-cases (ltb ((m.heap c).last_seen + settings.idle_timeout) now)) [
    | inl idle ↦
        rw (heartbeat-idle settings c now m live idle)
          (close_and_teardown-IsSound heartbeat_timeout c m v)
    | inr fresh ↦ elim (Bool-cases (leb settings.missed_pong_limit (m.heap c).missed_pongs)) [
      | inl late ↦
          rw (heartbeat-late settings c now m live fresh late)
            (close_and_teardown-IsSound heartbeat_timeout c m v)
      | inr early ↦ rw (heartbeat-early settings c now m live fresh early) (
          send-IsSound c ping (set_missed c (suc (m.heap c).missed_pongs) m)
            (set_missed-IsSound c (suc (m.heap c).missed_pongs) m v))
    ]
  ]
]
