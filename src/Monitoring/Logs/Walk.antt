-- ===== src/Monitoring/Logs/Walk.antt =====
-- app/services/monitoring/logs.py: a reader that follows `next_cursor` from page to page.
use stream_sight_backend.Prelude.{
  ℕ, zero, suc, ◌*◌, ◌≤◌, ◌≡◌, inl, inr, refl, ap, subst, ◌∙◌, min, Bool, true, false, not, ◌&&◌,
  Option, none, some, List, [], ◌∷◌, ◌++◌, String, arith, leb, ltb, length, take, drop, All,
  Bool-cases, if◌then◌else◌,
}
use mathlib.Core.List.{map, append_assoc}
use stream_sight_backend.Prelude.Slices.{length-map}
use stream_sight_backend.Sql.{select_where}
use stream_sight_backend.Monitoring.Stream.{
  StreamId, id_less, Entry, Start, oldest, from_ms, after, End, newest, until_ms, Item, StorePage,
  start_of, end_of, items_of, last_id, page_of, query,
}
use stream_sight_backend.Monitoring.Logs.{
  LogEntry, LogPage, LogFilter, collect, finish, next_of, query_logs,
}
use stream_sight_backend.Monitoring.Logs.Loop.{Outcome, wanted, IsReadable, collect_outcome}

-- Which ids are within the bounds of XRANGE.
abbrev pub at_start : Start → StreamId → Bool
at_start oldest k = true
at_start (from_ms ms) k = leb ms k.ms
at_start (after c) k = id_less c k

abbrev pub at_end : End → StreamId → Bool
at_end newest k = true
at_end (until_ms ms) k = not (id_less (record { ms = ms; seq = 9999999 }) k)

-- the items of a stream within bounds
abbrev pub range : Start → End → List Item → List Item
range s e stream = select_where (λ (i : Item). at_start s i._id && at_end e i._id) stream

abbrev pub entry_of : Item → Entry
entry_of i = record { id = i._id; fields = some i.get }

-- XRANGE as documented: the first entries of the range, in the order of the stream, each with its
-- fields.
abbrev pub IsXrange : List Item → (Start → End → ℕ → List Entry) → Type 0
IsXrange stream xrange =
    (s : Start) (e : End) (count : ℕ)
    → xrange s e count ≡ map entry_of (take count (range s e stream))

-- The ids rise along the stream.
abbrev pub IsAscending : List Item → Type 0
IsAscending [] = Unit
IsAscending (x ∷ l) = All (λ (y : Item). id_less x._id y._id ≡ true) l × IsAscending l

items_of-map : (l : List Item) → items_of (map entry_of l) ≡ l
unfolding items_of
items_of-map [] = refl
items_of-map (i ∷ l) = ap (λ t. i ∷ t) (items_of-map l)

take-map : (n : ℕ) (l : List Item) → take n (map entry_of l) ≡ map entry_of (take n l)
take-map zero l = refl
take-map (suc n) [] = refl
take-map (suc n) (i ∷ l) = ap (λ t. entry_of i ∷ t) (take-map n l)

take-take-suc : {A : Type 0} (n : ℕ) (l : List A) → take n (take (suc n) l) ≡ take n l
take-take-suc zero l = refl
take-take-suc (suc n) [] = refl
take-take-suc (suc n) (x ∷ l) = ap (λ t. x ∷ t) (take-take-suc n l)

take-drop : {A : Type 0} (n : ℕ) (l : List A) → take n l ++ drop n l ≡ l
take-drop zero l = refl
take-drop (suc n) [] = refl
take-drop (suc n) (x ∷ l) = ap (λ t. x ∷ t) (take-drop n l)

length-take_more :
    {A : Type 0} (n : ℕ) (l : List A) → ltb n (length (take (suc n) l)) ≡ ltb n (length l)
length-take_more zero [] = refl
length-take_more zero (x ∷ l) = ground arith
length-take_more (suc n) [] = refl
length-take_more (suc n) (x ∷ l) = ground (arith, length-take_more n l)

take_all : {A : Type 0} (n : ℕ) (l : List A) → ltb n (length l) ≡ false → take n l ≡ l
take_all zero [] h = refl
take_all zero (x ∷ l) h = absurd (ground (arith, h))
take_all (suc n) [] h = refl
take_all (suc n) (x ∷ l) h = ap (λ t. x ∷ t) (take_all n l (ground (arith, h)))

-- a list that is not empty, by its last item
last_item :
    (d : Option StreamId) (x : Item) (l : List Item)
    → (pre : List Item) × (i : Item) × (x ∷ l ≡ pre ++ i ∷ []) × (last_id d (x ∷ l) ≡ some i._id)
last_item d x [] = ([], x, refl, refl)
last_item d x (y ∷ l) =
    let (pre, i, s, e) = last_item (some x._id) y l in (x ∷ pre, i, ap (λ t. x ∷ t) s, e)

items_of_page :
    (n : ℕ) (l : List Item) → items_of (take n (map entry_of (take (suc n) l))) ≡ take n l
items_of_page n l =
    ap items_of (take-map n (take (suc n) l))
    ∙ items_of-map (take n (take (suc n) l))
    ∙ take-take-suc n l

-- the page of the store, as a slice of the range
abbrev slice : ℕ → List Item → StorePage
slice n l = record {
  items = take n l;
  next_cursor = if ltb n (length l) then last_id none (take n l) else none;
}

page_of-slice : (n : ℕ) (l : List Item) → page_of n (map entry_of (take (suc n) l)) ≡ slice n l
unfolding page_of
page_of-slice n l =
    rw (items_of_page n l, length-map entry_of (take (suc n) l), length-take_more n l) refl

ltb_zero : (m : ℕ) → ltb (suc m) 0 ≡ false
ltb_zero m = ground arith

next_of-none : (c : Option StreamId) → next_of c none ≡ c
next_of-none none = refl
next_of-none (some k) = refl

All-take {κ} : {A : Type 0} (P : A → Type κ) (n : ℕ) (l : List A) → All P l → All P (take n l)
All-take P zero l h = tt
All-take P (suc n) [] h = tt
All-take P (suc n) (x ∷ l) h = (h.0, All-take P n l h.1)

module _ (int : String → Option ℕ) (f : LogFilter) (readable : Item → LogEntry) where
  abbrev PageOutcome : ℕ → List Item → StorePage → Type 0
  PageOutcome limit l p =
      (q : LogPage) × (finish p (collect int f limit p.items) ≡ some q)
      × Outcome (wanted int f readable) l q.items q.next_cursor

  -- the last page of the store
  last_page :
      (limit : ℕ) (l : List Item)
      → All (IsReadable int f readable) l
      → PageOutcome limit l (record { items = l; next_cursor = none })
  last_page limit l h =
      let (c, e, o) = collect_outcome int f readable limit l h in
      (record { items = c.entries; next_cursor = c.cut_at }, rw (e, next_of-none c.cut_at) refl, o)

  -- a page of the store that more pages follow
  page_with_more :
      (limit : ℕ) (x : Item) (t rest : List Item)
      → All (IsReadable int f readable) (x ∷ t)
      → PageOutcome limit
          ((x ∷ t) ++ rest)
          (record { items = x ∷ t; next_cursor = last_id none (x ∷ t) })
  page_with_more limit x t rest h =
      let (c, e, o) = collect_outcome int f readable limit (x ∷ t) h in
      elim o [
        | inl (a, b) ↦
            let (pre, i, s, k) = last_item none x t in
            (
              record { items = c.entries; next_cursor = some i._id },
              rw (e, b, k) refl,
              inr (
                pre,
                i,
                rest,
                ap (λ u. u ++ rest) s ∙ append_assoc pre (i ∷ []) rest,
                a ∙ ap (wanted int f readable) s,
                refl,
              ),
            )
        | inr (pre, j, post, s, a, b) ↦ (
          record { items = c.entries; next_cursor = some j._id },
          rw (e, b) refl,
          inr (
            pre,
            j,
            post ++ rest,
            ap (λ u. u ++ rest) s ∙ append_assoc pre (j ∷ post) rest,
            a,
            refl,
          ),
        )
      ]

  slice_outcome :
      (limit n : ℕ) (l : List Item)
      → 1 ≤ n
      → All (IsReadable int f readable) l
      → PageOutcome limit l (slice n l)
  slice_outcome limit zero l p h = absurd (omega arith)
  slice_outcome limit (suc m) [] p h = rw (ltb_zero m) (last_page limit [] h)
  slice_outcome limit (suc m) (x ∷ l) p h = elim (Bool-cases (ltb (suc m) (suc (length l)))) [
    | inr e ↦ rw (e, take_all (suc m) (x ∷ l) e) (last_page limit (x ∷ l) h)
    | inl e ↦ rw e (
        subst
          (λ r.
            PageOutcome limit r
              (record { items = x ∷ take m l; next_cursor = last_id none (x ∷ take m l) }))
          (ap (λ u. x ∷ u) (take-drop m l))
          (page_with_more limit x (take m l) (drop m l)
            (h.0, All-take (IsReadable int f readable) m l h.1)))
  ]

  -- a page of the log query, in the range that is left
  pub query_logs-Outcome :
      (stream : List Item) (xrange : Start → End → ℕ → List Entry) (since until : Option ℕ)
      (cursor : Option StreamId) (limit : ℕ)
      → IsXrange stream xrange
      → 1 ≤ limit
      → (l : List Item) → range (start_of since cursor) (end_of until) stream ≡ l
      → All (IsReadable int f readable) l
      → (q : LogPage) × (query_logs int xrange f since until cursor limit ≡ some q)
        × Outcome (wanted int f readable) l q.items q.next_cursor
  unfolding query_logs query
  query_logs-Outcome stream xrange since until cursor limit x p l e h =
      let n = min (limit * 4) 2000 in
      rw (x (start_of since cursor) (end_of until) (suc n), e, page_of-slice n l, items_of_page n l)
        (slice_outcome limit n l (omega (arith, p)) h)
