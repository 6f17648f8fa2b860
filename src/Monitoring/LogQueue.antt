-- ===== src/Monitoring/LogQueue.antt =====
-- app/services/monitoring/log_handler.py: the bounded queue of `RedisStreamLogHandler.emit` and the
-- batches of `run_log_flusher`. An item is held by a number that stands for its dict.
use stream_sight_backend.Prelude.{
  ℕ, zero, suc, ◌≤◌, ◌<◌, ◌≡◌, refl, ap, ◌∙◌, Bool, true, ◌||◌, List, [], ◌∷◌, ◌++◌, arith, ltb,
  ◌==◌, length, if◌then◌else◌,
}
use mathlib.Core.List.{append_assoc}

-- the queue, and what the stream has taken
pub record LogState : Type 0 where
  pub queue : List ℕ
  pub stream : List ℕ

-- `put_nowait`: QueueFull is swallowed, and the new item is dropped
unfoldable pub emit : ℕ → ℕ → LogState → LogState
emit maxsize x s =
    if maxsize == 0 || ltb (length s.queue) maxsize
    then record s { queue = s.queue ++ x ∷ [] }
    else s

-- the inner loop: the batch and what stays in the queue
unfoldable pub batch_of : ℕ → List ℕ → List ℕ × List ℕ
batch_of zero q = ([], q)
batch_of (suc n) [] = ([], [])
batch_of (suc n) (x ∷ q) = let rest = batch_of n q in (x ∷ rest.0, rest.1)

-- one round of `run_log_flusher`, with whether `append_many` returns
unfoldable pub flush_logs : ℕ → Bool → LogState → LogState
flush_logs batch_size appends s =
    let b = batch_of batch_size s.queue in
    record { queue = b.1; stream = if appends then s.stream ++ b.0 else s.stream }

-- what happens to the queue, in order
pub data LogEvent : Type 0 where
  emitted : ℕ → LogEvent
  flushed : Bool → LogEvent

unfoldable pub log_step : ℕ → ℕ → LogEvent → LogState → LogState
log_step maxsize batch_size (emitted x) s = emit maxsize x s
log_step maxsize batch_size (flushed appends) s = flush_logs batch_size appends s

unfoldable pub log_run : ℕ → ℕ → List LogEvent → LogState → LogState
log_run maxsize batch_size [] s = s
log_run maxsize batch_size (e ∷ es) s =
    log_run maxsize batch_size es (log_step maxsize batch_size e s)

batch_of-append : (n : ℕ) (q : List ℕ) → (batch_of n q).0 ++ (batch_of n q).1 ≡ q
unfolding batch_of
batch_of-append zero q = refl
batch_of-append (suc n) [] = refl
batch_of-append (suc n) (x ∷ q) = ap (λ l. x ∷ l) (batch_of-append n q)

length-batch_of : (n : ℕ) (q : List ℕ) → length (batch_of n q).1 ≤ length q
unfolding batch_of
length-batch_of zero q = omega arith
length-batch_of (suc n) [] = omega arith
length-batch_of (suc n) (x ∷ q) = omega (arith, length-batch_of n q)

length-append_one : (q : List ℕ) (x : ℕ) → length (q ++ x ∷ []) ≡ suc (length q)
length-append_one [] x = refl
length-append_one (y ∷ q) x = ap suc (length-append_one q x)

emit_bounded :
    (maxsize x : ℕ) (s : LogState)
    → 0 < maxsize
    → length s.queue ≤ maxsize
    → length (emit maxsize x s).queue ≤ maxsize
unfolding emit
emit_bounded maxsize x s p h = ground (arith, p, h, length-append_one s.queue x)

-- The queue never holds more than its size, through any sequence of emits and flushes.
log_run_bounded :
    (maxsize batch_size : ℕ) (es : List LogEvent) (s : LogState)
    → 0 < maxsize
    → length s.queue ≤ maxsize
    → length (log_run maxsize batch_size es s).queue ≤ maxsize
unfolding log_run log_step flush_logs
log_run_bounded maxsize batch_size [] s p h = h
log_run_bounded maxsize batch_size (emitted x ∷ es) s p h =
    log_run_bounded maxsize batch_size es (emit maxsize x s) p (emit_bounded maxsize x s p h)
log_run_bounded maxsize batch_size (flushed b ∷ es) s p h =
    log_run_bounded maxsize batch_size es (flush_logs batch_size b s) p
      (omega (arith, length-batch_of batch_size s.queue, h))

-- A flush whose append returns moves the oldest items to the end of the stream: the stream followed
-- by the queue stays as it is.
flush_logs_order :
    (batch_size : ℕ) (s : LogState)
    → (flush_logs batch_size true s).stream ++ (flush_logs batch_size true s).queue
      ≡ s.stream ++ s.queue
unfolding flush_logs
flush_logs_order batch_size s =
    append_assoc s.stream (batch_of batch_size s.queue).0 (batch_of batch_size s.queue).1
    ∙ ap (λ l. s.stream ++ l) (batch_of-append batch_size s.queue)

-- A full queue drops the new item, not the oldest one.
emit_full :
    (maxsize x : ℕ) (s : LogState) → 0 < maxsize → length s.queue ≡ maxsize → emit maxsize x s ≡ s
unfolding emit
emit_full maxsize x s p h = ground (arith, p, h)
