-- ===== src/Realtime/Streamer/Batches.antt =====
-- app/services/realtime/streamer.py: no reading is lost or stored twice, and the batch stays small.
use stream_sight_backend.Prelude.{
  ℕ, ◌<◌, ◌≡◌, ◌≢◌, refl, sym, ap, ◌∙◌, Bool, true, false, Option, none, some, List, [], ◌∷◌, ◌++◌,
  arith, leb, length, All, Bool-cases, Option-cases, inl, inr,
}
use mathlib.Core.List.{append_assoc, append-nil}
use stream_sight_backend.Realtime.Streamer.{
  Reading, Stored, committed, failed, unanswered, Round, Streamer, batch_size, flush_batch,
  is_empty, flush, flush_full, tick, rounds, shut_down,
}

-- the readings of the rounds that were sampled and published, in their order
abbrev pub reading_of : (ℕ → ℕ) → Round → Option ℕ → Bool → List Reading
reading_of sample_value t none b = []
reading_of sample_value t (some n) false = []
reading_of sample_value t (some n) true = record { value = sample_value n; ts = t.now } ∷ []

abbrev pub readings : (ℕ → ℕ) → List Round → List Reading
readings sample_value [] = []
readings sample_value (t ∷ ts) =
    reading_of sample_value t t.incr t.publishes ++ readings sample_value ts

-- The answer of the database tells what it did.
abbrev pub IsAnswered : Stored → Type 0
IsAnswered s = s ≢ unanswered

-- what is stored and what waits
abbrev kept : Streamer → List Reading
kept s = s.table ++ s.batch

flush_batch-kept :
    (stored : Stored) (s : Streamer) → IsAnswered stored → kept (flush_batch stored s) ≡ kept s
flush_batch-kept committed s h = append-nil (s.table ++ s.batch)
flush_batch-kept failed s h = refl
flush_batch-kept unanswered s h = absurd (h refl)

flush-kept : (stored : Stored) (s : Streamer) → IsAnswered stored → kept (flush stored s) ≡ kept s
unfolding flush
flush-kept stored s h = elim (Bool-cases (is_empty s.batch)) [
  | inl e ↦ rw e refl
  | inr e ↦ rw e (flush_batch-kept stored s h)
]

flush_full-kept :
    (stored : Stored) (s : Streamer) → IsAnswered stored → kept (flush_full stored s) ≡ kept s
flush_full-kept stored s h = elim (Bool-cases (leb batch_size (length s.batch))) [
  | inl e ↦ rw e (flush-kept stored s h)
  | inr e ↦ rw e refl
]

-- a round's reading in the batch, before the flush
abbrev with_reading : (ℕ → ℕ) → Round → ℕ → Streamer → Streamer
with_reading sample_value t n s = record s {
  sent = s.sent ++ sample_value n ∷ [];
  batch = s.batch ++ record { value = sample_value n; ts = t.now } ∷ [];
}

tick-kept :
    (sample_value : ℕ → ℕ) (t : Round) (s : Streamer)
    → IsAnswered t.stored
    → kept (tick sample_value true t s) ≡ kept s ++ reading_of sample_value t t.incr t.publishes
unfolding tick
tick-kept sample_value t s h = elim (Option-cases t.incr) [
  | inl e ↦ rw e (sym (append-nil (kept s)))
  | inr (n, e) ↦ elim (Bool-cases t.publishes) [
    | inl p ↦
        rw (e, p)
          (flush_full-kept t.stored (with_reading sample_value t n s) h
            ∙ sym
                (append_assoc s.table s.batch (record { value = sample_value n; ts = t.now } ∷ [])))
    | inr p ↦ rw (e, p) (sym (append-nil (kept s)))
  ]
]

rounds-kept :
    (sample_value : ℕ → ℕ) (ts : List Round) (s : Streamer)
    → All (λ (t : Round). IsAnswered t.stored) ts
    → kept (rounds sample_value true ts s) ≡ kept s ++ readings sample_value ts
unfolding rounds
rounds-kept sample_value [] s h = sym (append-nil (kept s))
rounds-kept sample_value (t ∷ ts) s h =
    rounds-kept sample_value ts (tick sample_value true t s) h.1
    ∙ ap (λ l. l ++ readings sample_value ts) (tick-kept sample_value t s h.0)
    ∙ append_assoc (kept s) (reading_of sample_value t t.incr t.publishes)
        (readings sample_value ts)

-- nothing stored and nothing waiting
abbrev pub start : Streamer
start = record { batch = []; table = []; sent = [] }

is_empty-nil : (l : List Reading) → is_empty l ≡ true → l ≡ []
is_empty-nil [] h = refl
is_empty-nil (r ∷ l) h = absurd (cc)

flush-empties : (s : Streamer) → (flush committed s).batch ≡ []
unfolding flush
flush-empties s = elim (Bool-cases (is_empty s.batch)) [
  | inl e ↦ rw e (is_empty-nil s.batch e)
  | inr e ↦ rw e refl
]

-- From a start with nothing stored and nothing waiting, after any number of rounds and a shutdown
-- whose flush commits, the table holds the reading of each round that was sampled and published,
-- once and in order, and nothing waits, whatever flushes failed before; each flush must have been
-- committed or failed, not committed without an answer.
pub shut_down_keeps_each :
    (sample_value : ℕ → ℕ) (ts : List Round)
    → All (λ (t : Round). IsAnswered t.stored) ts
    → let s = shut_down sample_value true ts committed start in
      (s.table ≡ readings sample_value ts) × (s.batch ≡ [])
unfolding shut_down
shut_down_keeps_each sample_value ts h =
    let s = rounds sample_value true ts start in
    (
      sym (append-nil (flush committed s).table)
          ∙ ap (λ b. (flush committed s).table ++ b) (sym (flush-empties s))
          ∙ flush-kept committed s (λ e. absurd (cc))
          ∙ rounds-kept sample_value ts start h,
      flush-empties s,
    )

flush_full-IsSmall : (s : Streamer) → length (flush_full committed s).batch < batch_size
flush_full-IsSmall s = elim (Bool-cases (leb batch_size (length s.batch))) [
  | inl e ↦ rw (e, flush-empties s) (omega arith)
  | inr e ↦ rw e (ground (arith, e))
]

tick-IsSmall :
    (sample_value : ℕ → ℕ) (t : Round) (s : Streamer)
    → t.stored ≡ committed
    → length s.batch < batch_size
    → length (tick sample_value true t s).batch < batch_size
unfolding tick
tick-IsSmall sample_value t s c l = elim (Option-cases t.incr) [
  | inl e ↦ rw e l
  | inr (n, e) ↦ elim (Bool-cases t.publishes) [
    | inl p ↦ rw (e, p, c) (flush_full-IsSmall (with_reading sample_value t n s))
    | inr p ↦ rw (e, p) l
  ]
]

-- While each flush commits, fewer than sixty readings wait after each round.
rounds-IsSmall :
    (sample_value : ℕ → ℕ) (ts : List Round) (s : Streamer)
    → All (λ (t : Round). t.stored ≡ committed) ts
    → length s.batch < batch_size
    → length (rounds sample_value true ts s).batch < batch_size
unfolding rounds
rounds-IsSmall sample_value [] s h l = l
rounds-IsSmall sample_value (t ∷ ts) s h l =
    rounds-IsSmall sample_value ts (tick sample_value true t s) h.1
      (tick-IsSmall sample_value t s h.0 l)
