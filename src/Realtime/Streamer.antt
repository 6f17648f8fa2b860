-- ===== src/Realtime/Streamer.antt =====
-- app/services/realtime/streamer.py: the batch of `RealtimeStreamer` and its flushes. SHA-256 with
-- the rounding of `sample_value` is a parameter. Each round and the shutdown take what Redis, the
-- clock, the publisher and the database answered.
pub mod Batches
use stream_sight_backend.Prelude.{
  ℕ, Bool, true, false, Option, none, some, List, [], ◌∷◌, ◌++◌, leb, length, if◌then◌else◌,
}

-- a row of the table, and an element of the batch
pub record Reading : Type 0 where
  pub value : ℕ
  pub ts : ℕ

-- what comes of the transaction of a flush: committed, failed, or committed although the caller got
-- an error or was cancelled
pub data Stored : Type 0 where
  committed failed unanswered : Stored

pub record Round : Type 0 where
  -- INCR, or its exception
  pub incr : Option ℕ
  pub now : ℕ
  -- whether `to_topic` returns
  pub publishes : Bool
  pub stored : Stored

-- `_batch`, the table, and the values that went to `realtime.stream`
pub record Streamer : Type 0 where
  pub batch : List Reading
  pub table : List Reading
  pub sent : List ℕ

abbrev pub batch_size : ℕ
batch_size = 60

abbrev pub flush_batch : Stored → Streamer → Streamer
flush_batch committed s = record s { batch = []; table = s.table ++ s.batch }
flush_batch failed s = s
flush_batch unanswered s = record s { table = s.table ++ s.batch }

abbrev pub is_empty : List Reading → Bool
is_empty [] = true
is_empty (r ∷ rs) = false

-- `_flush`
unfoldable pub flush : Stored → Streamer → Streamer
flush stored s = if is_empty s.batch then s else flush_batch stored s

abbrev pub flush_full : Stored → Streamer → Streamer
flush_full stored s = if leb batch_size (length s.batch) then flush stored s else s

-- what follows the publication
abbrev pub keep : Bool → Stored → Reading → Streamer → Streamer
keep false stored r s = s
keep true stored r s = flush_full stored (record s { batch = s.batch ++ r ∷ [] })

abbrev pub sampled : Bool → Round → Reading → Streamer → Streamer
sampled has_store t r s =
    if t.publishes
    then keep has_store t.stored r (record s { sent = s.sent ++ r.value ∷ [] })
    else s

-- `_tick` under `_loop`, which skips a round that raises
unfoldable pub tick : (ℕ → ℕ) → Bool → Round → Streamer → Streamer
tick sample_value has_store t s = elim t.incr [
  | none ↦ s
  | some n ↦ sampled has_store t (record { value = sample_value n; ts = t.now }) s
]

-- `_loop` until it is cancelled between two rounds, with the flush at the end
unfoldable pub rounds : (ℕ → ℕ) → Bool → List Round → Streamer → Streamer
rounds sample_value has_store [] s = s
rounds sample_value has_store (t ∷ ts) s =
    rounds sample_value has_store ts (tick sample_value has_store t s)

unfoldable pub shut_down : (ℕ → ℕ) → Bool → List Round → Stored → Streamer → Streamer
shut_down sample_value has_store ts stored s = flush stored (rounds sample_value has_store ts s)
