-- ===== src/Ws/Control/Rate.antt =====
-- app/api/routers/ws/router.py: the sliding window of the control messages.
use stream_sight_backend.Prelude.{
  ℕ, ◌+◌, ◌≤◌, ◌<◌, ◌≡◌, refl, true, List, [], ◌∷◌, ◌++◌, arith, length, leb, All, Option, none,
  some, ◌⊎◌, Bool-cases, inl, inr,
}
use stream_sight_backend.Sql.{select_where}
use stream_sight_backend.Ws.Protocol.{Control, error}
use stream_sight_backend.Ws.Manager.{Manager}
use stream_sight_backend.Ws.Control.{
  Settings, expire, Frame, touch, send, parse_and_handle, rate_limited, receive,
}

-- The times of control messages, in their order and none after `now`.
abbrev pub IsWindow : ℕ → List ℕ → Type 0
IsWindow now [] = Unit
IsWindow now (t ∷ ts) = (t ≤ now) × All (λ u. t ≤ u) ts × IsWindow now ts

-- the times of the last ten seconds
abbrev pub within : ℕ → List ℕ → List ℕ
within now ts = select_where (λ t. leb now (t + 10000)) ts

within_keeps :
    (now t : ℕ) (ts : List ℕ) → now ≤ t + 10000 → All (λ u. t ≤ u) ts → within now ts ≡ ts
unfolding select_where
within_keeps now t [] e h = refl
within_keeps now t (u ∷ ts) e h = ground (arith, h.0, within_keeps now t ts e h.1)

expire-within : (now : ℕ) (ts : List ℕ) → IsWindow now ts → expire now ts ≡ within now ts
unfolding expire select_where
expire-within now [] h = refl
expire-within now (t ∷ ts) h = elim (Bool-cases (leb now (t + 10000))) [
  | inl e ↦ ground (arith, e, within_keeps now t ts (ground (arith, e)) h.1)
  | inr e ↦ ground (arith, e, expire-within now ts h.2)
]

All-within : (t now : ℕ) (ts : List ℕ) → All (λ u. t ≤ u) ts → All (λ u. t ≤ u) (within now ts)
unfolding select_where
All-within t now [] h = tt
All-within t now (u ∷ ts) h = elim (Bool-cases (leb now (u + 10000))) [
  | inl e ↦ rw e (h.0, All-within t now ts h.1)
  | inr e ↦ rw e (All-within t now ts h.1)
]

within-IsWindow : (now : ℕ) (ts : List ℕ) → IsWindow now ts → IsWindow now (within now ts)
unfolding select_where
within-IsWindow now [] h = tt
within-IsWindow now (t ∷ ts) h = elim (Bool-cases (leb now (t + 10000))) [
  | inl e ↦ rw e (h.0, All-within t now ts h.1, within-IsWindow now ts h.2)
  | inr e ↦ rw e (within-IsWindow now ts h.2)
]

All-append_last :
    (t now : ℕ) (ts : List ℕ) → t ≤ now → All (λ u. t ≤ u) ts → All (λ u. t ≤ u) (ts ++ now ∷ [])
All-append_last t now [] e h = (e, tt)
All-append_last t now (u ∷ ts) e h = (h.0, All-append_last t now ts e h.1)

append-IsWindow : (now : ℕ) (ts : List ℕ) → IsWindow now ts → IsWindow now (ts ++ now ∷ [])
append-IsWindow now [] h = (omega arith, tt, tt)
append-IsWindow now (t ∷ ts) h = (h.0, All-append_last t now ts h.0 h.1, append-IsWindow now ts h.2)

parse_and_handle-recent :
    (c : ℕ) (parsed : Option Control) (recent : List ℕ) (m : Manager)
    → (parse_and_handle c parsed recent m).recent ≡ recent
unfolding parse_and_handle
parse_and_handle-recent c none recent m = refl
parse_and_handle-recent c (some control) recent m = refl

module _ (settings : Settings) (c seen now : ℕ) (frame : Frame) (recent : List ℕ) (m : Manager)
    (fits : frame.size ≤ settings.max_message_bytes) (window : IsWindow now recent) where
  turn_limited :
      settings.control_msg_rate_limit ≤ length (within now recent)
      → receive settings c seen now frame recent m ≡ record {
        reads_on = true;
        recent = within now recent;
        manager = send c (error "rate_limited") (touch c seen m);
      }
  unfolding receive rate_limited
  turn_limited full = ground (arith, fits, full, expire-within now recent window)

  turn_handled :
      length (within now recent) < settings.control_msg_rate_limit
      → receive settings c seen now frame recent m
        ≡ parse_and_handle c frame.parsed (within now recent ++ now ∷ []) (touch c seen m)
  unfolding receive rate_limited
  turn_handled free = ground (arith, fits, free, expire-within now recent window)

-- A turn of the reader on a frame of at most the greatest size, with the times of the earlier
-- control messages in their order and none in the future: if at least as many of them as the limit
-- are of the last ten seconds, the frame is not handled but answered by `rate_limited`, and those
-- times are kept; if fewer, the frame is parsed and handled, and its time is kept after those. What
-- is kept is again in order and not in the future.
pub receive_limits :
    (settings : Settings) (c seen now : ℕ) (frame : Frame) (recent : List ℕ) (m : Manager)
    → frame.size ≤ settings.max_message_bytes
    → IsWindow now recent
    → let recent' = within now recent in
      let r = receive settings c seen now frame recent m in
      IsWindow now r.recent
      × (((settings.control_msg_rate_limit ≤ length recent')
            × (r.recent ≡ recent')
            × (r.reads_on ≡ true)
            × (r.manager ≡ send c (error "rate_limited") (touch c seen m)))
          ⊎ ((length recent' < settings.control_msg_rate_limit)
              × (r.recent ≡ recent' ++ now ∷ [])
              × (r.manager
                  ≡ (parse_and_handle c frame.parsed
                      (recent' ++ now ∷ [])
                      (touch c seen m)).manager)))
receive_limits settings c seen now frame recent m fits window =
    let w = within-IsWindow now recent window in
    elim (Bool-cases (leb settings.control_msg_rate_limit (length (within now recent)))) [
      | inl full ↦
          let same =
            turn_limited settings c seen now frame recent m fits window (ground (arith, full)) in
          rw same (w, inl (ground (arith, full), refl, refl, refl))
      | inr free ↦
          let same =
            turn_handled settings c seen now frame recent m fits window (ground (arith, free)) in
          rw (same, parse_and_handle-recent)
            (append-IsWindow now (within now recent) w, inr (ground (arith, free), refl, refl))
    ]
