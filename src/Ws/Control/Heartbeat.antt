-- ===== src/Ws/Control/Heartbeat.antt =====
-- app/api/routers/ws/router.py: the turns of `_run_heartbeat`.
use stream_sight_backend.Prelude.{
  ℕ, suc, ◌+◌, ◌<◌, ◌≡◌, refl, Bool, true, false, List, [], ◌∷◌, arith, ltb, leb, ==_refl, length,
  Bool-cases, inl, inr, ◌⊎◌, ◌∙◌, ap, if_true, if_false,
}
use stream_sight_backend.Ws.Protocol.{heartbeat_timeout, backpressure, Message, ping}
use stream_sight_backend.Ws.Manager.{Manager, close, close_and_teardown}
use stream_sight_backend.Ws.Manager.Invariant.{teardown-shuts}
use stream_sight_backend.Ws.Delivery.{has_room, put_nowait, send_to_connection}
use stream_sight_backend.Ws.Control.{send, set_missed, Settings, heartbeat, heartbeats}

pub send-closed :
    (c : ℕ) (message : Message) (m : Manager) → (m.heap c).closed ≡ true → send c message m ≡ m
unfolding send_to_connection
send-closed c message m shut = ap (λ (r : Bool × Manager). r.1) (if_true _ _ shut)

pub send-room :
    (c : ℕ) (message : Message) (m : Manager)
    → (m.heap c).closed ≡ false
    → has_room c m ≡ true
    → send c message m ≡ put_nowait c message m
unfolding send_to_connection
send-room c message m live room =
    ap (λ (r : Bool × Manager). r.1) (if_false _ _ live ∙ if_true _ _ room)

pub send-full :
    (c : ℕ) (message : Message) (m : Manager)
    → (m.heap c).closed ≡ false
    → has_room c m ≡ false
    → send c message m ≡ close_and_teardown backpressure c m
unfolding send_to_connection
send-full c message m live full =
    ap (λ (r : Bool × Manager). r.1) (if_false _ _ live ∙ if_false _ _ full)

-- What a message may do: nothing, one more message in the queue, or a teardown.
pub send-cases :
    (c : ℕ) (message : Message) (m : Manager)
    → (send c message m ≡ m)
      ⊎ (send c message m ≡ put_nowait c message m)
      ⊎ (send c message m ≡ close_and_teardown backpressure c m)
send-cases c message m = elim (Bool-cases (m.heap c).closed) [
  | inl shut ↦ inl (send-closed c message m shut)
  | inr live ↦ inr (elim (Bool-cases (has_room c m)) [
    | inl room ↦ inl (send-room c message m live room)
    | inr full ↦ inr (send-full c message m live full)
  ])
]

close_and_teardown-shuts :
    (c : ℕ) (m : Manager) → ((close_and_teardown heartbeat_timeout c m).heap c).closed ≡ true
unfolding close_and_teardown
close_and_teardown-shuts c m = teardown-shuts c (close c heartbeat_timeout m)

-- A message to a connection leaves its count of missed pongs, or closes it.
send-missed :
    (c : ℕ) (message : Message) (m : Manager)
    → (((send c message m).heap c).closed ≡ true)
      ⊎ (((send c message m).heap c).missed_pongs ≡ (m.heap c).missed_pongs)
send-missed c message m = elim (send-cases c message m) [
  | inl e ↦ inr (rw e refl)
  | inr (inl e) ↦ inr (rw e (unfold put_nowait in rw (==_refl c) refl))
  | inr (inr e) ↦
      inl (rw e (unfold close_and_teardown in teardown-shuts c (close c backpressure m)))
]

pub heartbeat-closed :
    (settings : Settings) (c now : ℕ) (m : Manager)
    → (m.heap c).closed ≡ true
    → heartbeat settings c now m ≡ m
unfolding heartbeat
heartbeat-closed settings c now m shut = if_true _ _ shut

abbrev pub Counted : ℕ → ℕ → ℕ → Manager → Type 0
Counted limit c n m = ((m.heap c).closed ≡ true) ⊎ ((m.heap c).missed_pongs ≡ suc n) × (n < limit)

module _ (settings : Settings) (c now : ℕ) (m : Manager) (live : (m.heap c).closed ≡ false) where
  pub heartbeat-idle :
      ltb ((m.heap c).last_seen + settings.idle_timeout) now ≡ true
      → heartbeat settings c now m ≡ close_and_teardown heartbeat_timeout c m
  unfolding heartbeat
  heartbeat-idle idle = if_false _ _ live ∙ if_true _ _ idle

  pub heartbeat-late :
      ltb ((m.heap c).last_seen + settings.idle_timeout) now ≡ false
      → leb settings.missed_pong_limit (m.heap c).missed_pongs ≡ true
      → heartbeat settings c now m ≡ close_and_teardown heartbeat_timeout c m
  unfolding heartbeat
  heartbeat-late fresh late = if_false _ _ live ∙ if_false _ _ fresh ∙ if_true _ _ late

  pub heartbeat-early :
      ltb ((m.heap c).last_seen + settings.idle_timeout) now ≡ false
      → leb settings.missed_pong_limit (m.heap c).missed_pongs ≡ false
      → heartbeat settings c now m ≡ send c ping (set_missed c (suc (m.heap c).missed_pongs) m)
  unfolding heartbeat
  heartbeat-early fresh early = if_false _ _ live ∙ if_false _ _ fresh ∙ if_false _ _ early

  -- One turn on an open connection closes it or counts one more missed pong, below the limit.
  live-counts :
      Counted settings.missed_pong_limit c (m.heap c).missed_pongs (heartbeat settings c now m)
  live-counts = elim (Bool-cases (ltb ((m.heap c).last_seen + settings.idle_timeout) now)) [
    | inl idle ↦ inl (rw (heartbeat-idle idle) (close_and_teardown-shuts c m))
    | inr fresh ↦ elim (Bool-cases (leb settings.missed_pong_limit (m.heap c).missed_pongs)) [
      | inl late ↦ inl (rw (heartbeat-late fresh late) (close_and_teardown-shuts c m))
      | inr early ↦
          rw (heartbeat-early fresh early)
            (counted early (send-missed c ping (set_missed c (suc (m.heap c).missed_pongs) m)))
    ]
  ]
    where
      counted :
          leb settings.missed_pong_limit (m.heap c).missed_pongs ≡ false
          → (((send c ping (set_missed c (suc (m.heap c).missed_pongs) m)).heap c).closed ≡ true)
            ⊎ (((send c ping (set_missed c (suc (m.heap c).missed_pongs) m)).heap c).missed_pongs
                ≡ ((set_missed c (suc (m.heap c).missed_pongs) m).heap c).missed_pongs)
          → Counted settings.missed_pong_limit c
              (m.heap c).missed_pongs
              (send c ping (set_missed c (suc (m.heap c).missed_pongs) m))
      counted early (inl shut) = inl shut
      counted early (inr e) = inr ((e ∙ rw (==_refl c) refl), ground (arith, early))

heartbeat-counts :
    (settings : Settings) (c now : ℕ) (m : Manager)
    → Counted settings.missed_pong_limit c (m.heap c).missed_pongs (heartbeat settings c now m)
heartbeat-counts settings c now m = elim (Bool-cases (m.heap c).closed) [
  | inl shut ↦ inl (rw (heartbeat-closed settings c now m shut) shut)
  | inr live ↦ live-counts settings c now m live
]

heartbeats-closed :
    (settings : Settings) (c : ℕ) (times : List ℕ) (m : Manager)
    → (m.heap c).closed ≡ true
    → ((heartbeats settings c times m).heap c).closed ≡ true
unfolding heartbeats
heartbeats-closed settings c [] m shut = shut
heartbeats-closed settings c (now ∷ times) m shut =
    heartbeats-closed settings c times (heartbeat settings c now m)
      (rw (heartbeat-closed settings c now m shut) shut)

-- A connection of which no message comes in is closed after turns of the heartbeat, one or more at
-- any times, that together with the pongs already missed are more than the limit of missed pongs.
pub heartbeats_shut :
    (settings : Settings) (c : ℕ) (times : List ℕ) (m : Manager)
    → settings.missed_pong_limit < (m.heap c).missed_pongs + length times
    → 0 < length times
    → ((heartbeats settings c times m).heap c).closed ≡ true
unfolding heartbeats
heartbeats_shut settings c [] m enough any = absurd (ground arith)
heartbeats_shut settings c (now ∷ []) m enough any = elim (heartbeat-counts settings c now m) [
  | inl shut ↦ shut
  | inr e ↦ absurd (ground (arith, e.0, e.1))
]
heartbeats_shut settings c (now ∷ next ∷ times) m enough any =
    elim (heartbeat-counts settings c now m) [
      | inl shut ↦ heartbeats-closed settings c (next ∷ times) (heartbeat settings c now m) shut
      | inr e ↦
          heartbeats_shut settings c (next ∷ times) (heartbeat settings c now m)
            (ground (arith, e.0, e.1)) (ground arith)
    ]
