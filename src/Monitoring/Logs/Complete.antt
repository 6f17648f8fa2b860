-- ===== src/Monitoring/Logs/Complete.antt =====
-- app/services/monitoring/logs.py: following the cursors reads each wanted entry once.
use stream_sight_backend.Prelude.{
  ℕ, zero, suc, ◌≤◌, ◌<◌, ◌≡◌, inl, inr, refl, sym, ap, subst, ◌∙◌, Bool, true, false, ◌&&◌, Option,
  none, some, List, [], ◌∷◌, ◌++◌, String, arith, length, All, Bool-cases,
}
use mathlib.Core.List.{append_assoc}
use stream_sight_backend.Sql.{select_where}
use stream_sight_backend.Sql.Laws.{select_where-All}
use stream_sight_backend.Monitoring.Stream.{
  StreamId, id_less, Entry, Start, oldest, from_ms, after, End, Item, start_of, end_of,
}
use stream_sight_backend.Monitoring.Logs.{LogEntry, LogPage, LogFilter, accepts, query_logs}
use stream_sight_backend.Monitoring.Logs.Loop.{images-append, wanted, IsReadable}
use stream_sight_backend.Monitoring.Logs.Walk.{
  at_start, at_end, range, IsXrange, IsAscending, query_logs-Outcome,
}

id_less_trans : (a b c : StreamId) → id_less a b ≡ true → id_less b c ≡ true → id_less a c ≡ true
id_less_trans a b c h k = ground (arith, h, k)

id_less_asym : (a b : StreamId) → id_less a b ≡ true → id_less b a ≡ false
id_less_asym a b h = ground (arith, h)

id_less_irrefl : (a : StreamId) → id_less a a ≡ false
id_less_irrefl a = ground arith

at_start_later :
    (s : Start) (a b : StreamId) → at_start s a ≡ true → id_less a b ≡ true → at_start s b ≡ true
at_start_later oldest a b h k = refl
at_start_later (from_ms ms) a b h k = ground (arith, h, k)
at_start_later (after c) a b h k = id_less_trans c a b h k

module _ {A : Type 0} where
  select_where-select_where :
      (p q r : A → Bool) (l : List A)
      → ((x : A) → (q x && p x) ≡ r x)
      → select_where q (select_where p l) ≡ select_where r l
  unfolding select_where
  select_where-select_where p q r [] h = refl
  select_where-select_where p q r (x ∷ l) h =
      ground (arith, h x, select_where-select_where p q r l h)

  select_where-append :
      (p : A → Bool) (xs ys : List A)
      → select_where p (xs ++ ys) ≡ select_where p xs ++ select_where p ys
  unfolding select_where
  select_where-append p [] ys = refl
  select_where-append p (x ∷ xs) ys = ground (arith, select_where-append p xs ys)

  select_where_id : (p : A → Bool) (l : List A) → All (λ x. p x ≡ true) l → select_where p l ≡ l
  unfolding select_where
  select_where_id p [] h = refl
  select_where_id p (x ∷ l) h = rw h.0 (ap (λ t. x ∷ t) (select_where_id p l h.1))

  All-select {κ} : (P : A → Type κ) (p : A → Bool) (l : List A) → All P l → All P (select_where p l)
  unfolding select_where
  All-select P p [] h = tt
  All-select P p (x ∷ l) h = elim (Bool-cases (p x)) [
    | inl e ↦ rw e (h.0, All-select P p l h.1)
    | inr e ↦ rw e (All-select P p l h.1)
  ]

  All-second {κ} :
      (P : A → Type κ) (pre : List A) (x : A) (post : List A) → All P (pre ++ x ∷ post) → P x
  All-second P [] x post h = h.0
  All-second P (y ∷ pre) x post h = All-second P pre x post h.1

  All-third {κ} :
      (P : A → Type κ) (pre : List A) (x : A) (post : List A) → All P (pre ++ x ∷ post) → All P post
  All-third P [] x post h = h.1
  All-third P (y ∷ pre) x post h = All-third P pre x post h.1

length_third :
    {A : Type 0} (pre : List A) (x : A) (post : List A) → length post < length (pre ++ x ∷ post)
length_third [] x post = omega arith
length_third (y ∷ pre) x post = omega (arith, length_third pre x post)

length_select :
    {A : Type 0} (p : A → Bool) (l : List A) → length (select_where p l) < suc (length l)
unfolding select_where
length_select p [] = omega arith
length_select p (x ∷ l) = ground (arith, length_select p l)

select_where-IsAscending :
    (p : Item → Bool) (l : List Item) → IsAscending l → IsAscending (select_where p l)
unfolding select_where
select_where-IsAscending p [] h = tt
select_where-IsAscending p (x ∷ l) h = elim (Bool-cases (p x)) [
  | inl e ↦ rw e (
    All-select (λ (y : Item). id_less x._id y._id ≡ true) p l h.0,
    select_where-IsAscending p l h.1,
  )
  | inr e ↦ rw e (select_where-IsAscending p l h.1)
]

-- what is after an item of a rising list
select_after :
    (pre : List Item) (i : Item) (post : List Item)
    → IsAscending (pre ++ i ∷ post)
    → select_where (λ (x : Item). id_less i._id x._id) (pre ++ i ∷ post) ≡ post
unfolding select_where
select_after [] i post h =
    rw (id_less_irrefl i._id) (select_where_id (λ (x : Item). id_less i._id x._id) post h.0)
select_after (x ∷ pre) i post h =
    rw
      (id_less_asym x._id i._id
        (All-second (λ (y : Item). id_less x._id y._id ≡ true) pre i post h.0))
      (select_after pre i post h.1)

after_within :
    (s : Start) (e : End) (i x : Item)
    → at_start s i._id ≡ true
    → (id_less i._id x._id && (at_start s x._id && at_end e x._id))
      ≡ (id_less i._id x._id && at_end e x._id)
after_within s e i x h = elim (Bool-cases (id_less i._id x._id)) [
  | inl k ↦ rw (k, at_start_later s i._id x._id h k) refl
  | inr k ↦ rw k refl
]

range_after :
    (s : Start) (e : End) (stream pre : List Item) (i : Item) (post : List Item)
    → IsAscending stream
    → range s e stream ≡ pre ++ i ∷ post
    → range (after i._id) e stream ≡ post
range_after s e stream pre i post asc h =
    let p = λ (x : Item). at_start s x._id && at_end e x._id in
    let q = λ (x : Item). id_less i._id x._id in
    let r = λ (x : Item). id_less i._id x._id && at_end e x._id in
    let pi =
      All-second (λ (x : Item). p x ≡ true) pre i post
        (subst (λ l. All (λ (x : Item). p x ≡ true) l) h (select_where-All p stream)) in
    sym (select_where-select_where p q r stream (λ x. after_within s e i x (ground (arith, pi))))
    ∙ ap (select_where q) h
    ∙ select_after pre i post (subst IsAscending h (select_where-IsAscending p stream asc))

module _ (int : String → Option ℕ) (xrange : Start → End → ℕ → List Entry) (f : LogFilter)
    (since until : Option ℕ) (limit : ℕ) where
  abbrev append_page : List LogEntry → Option (List LogEntry) → Option (List LogEntry)
  append_page l none = none
  append_page l (some m) = some (l ++ m)

  abbrev rest_of : LogPage → (StreamId → Option (List LogEntry)) → Option (List LogEntry)
  rest_of q k = elim q.next_cursor [ none ↦ some q.items | some c ↦ append_page q.items (k c) ]

  abbrev follow : Option LogPage → (StreamId → Option (List LogEntry)) → Option (List LogEntry)
  follow none k = none
  follow (some q) k = rest_of q k

  -- a reader that asks for page after page, for at most a number of pages
  unfoldable pub read_all : ℕ → Option StreamId → Option (List LogEntry)
  read_all zero cursor = none
  read_all (suc fuel) cursor =
      follow (query_logs int xrange f since until cursor limit) (λ c. read_all fuel (some c))

module _ (int : String → Option ℕ) (f : LogFilter) (readable : Item → LogEntry) (stream : List Item)
    (xrange : Start → End → ℕ → List Entry) (since until : Option ℕ) (limit : ℕ) where
  follow_end :
      (q : LogPage) (k : StreamId → Option (List LogEntry))
      → q.next_cursor ≡ none
      → follow int xrange f since until limit (some q) k ≡ some q.items
  follow_end q k b = rw b refl

  follow_more :
      (q : LogPage) (k : StreamId → Option (List LogEntry)) (c : StreamId)
      → q.next_cursor ≡ some c
      → follow int xrange f since until limit (some q) k
        ≡ append_page int xrange f since until limit q.items (k c)
  follow_more q k c b = rw b refl

  joined_pages :
      (pre : List Item) (i : Item) (post : List Item) {items : List LogEntry}
      → items ≡ wanted int f readable (pre ++ i ∷ [])
      → items ++ wanted int f readable post ≡ wanted int f readable (pre ++ i ∷ post)
  joined_pages pre i post a =
      ap (λ l. l ++ wanted int f readable post) a
      ∙ sym (images-append readable (accepts f) (pre ++ i ∷ []) post)
      ∙ ap (wanted int f readable) (append_assoc pre (i ∷ []) post)

  read_rest :
      IsXrange stream xrange
      → IsAscending stream
      → 1 ≤ limit
      → (fuel : ℕ) (cursor : Option StreamId) (l : List Item)
      → range (start_of since cursor) (end_of until) stream ≡ l
      → All (IsReadable int f readable) l
      → length l < fuel
      → read_all int xrange f since until limit fuel cursor ≡ some (wanted int f readable l)
  unfolding read_all start_of
  read_rest x asc p zero cursor l e h lt = absurd (omega (arith, lt))
  read_rest x asc p (suc fuel) cursor l e h lt =
      let k' = λ (c : StreamId). read_all int xrange f since until limit fuel (some c) in
      let (q, k, o) =
        query_logs-Outcome int f readable stream xrange since until cursor limit x p l e h in
      elim o [
        | inl (a, b) ↦
            ap (λ r. follow int xrange f since until limit r k') k ∙ follow_end q k' b ∙ ap some a
        | inr (pre, i, post, s, a, b) ↦
            let ih =
              read_rest x asc p fuel (some i._id) post
                (range_after (start_of since cursor) (end_of until) stream pre i post asc (e ∙ s))
                (All-third (IsReadable int f readable) pre i post
                  (subst (All (IsReadable int f readable)) s h))
                (omega (arith, lt, ap length s, length_third pre i post)) in
            ap (λ r. follow int xrange f since until limit r k') k
            ∙ follow_more q k' i._id b
            ∙ ap (append_page int xrange f since until limit q.items) ih
            ∙ ap some (joined_pages pre i post a ∙ ap (wanted int f readable) (sym s))
      ]

  -- A reader that follows the cursors, each with the same filter, bounds and limit, is given the
  -- wanted entries of the range, each once and in the order of the stream, after at most one page
  -- more than the stream has entries. The limit must be at least 1, the ids must rise along the
  -- stream, which stays as it is, XRANGE must be as documented, and `int` must read the numbers of
  -- each entry in the range.
  pub read_all_complete :
      IsXrange stream xrange
      → IsAscending stream
      → 1 ≤ limit
      → All (IsReadable int f readable) (range (start_of since none) (end_of until) stream)
      → read_all int xrange f since until limit (suc (length stream)) none
        ≡ some (wanted int f readable (range (start_of since none) (end_of until) stream))
  read_all_complete x asc p h =
      let l = range (start_of since none) (end_of until) stream in
      read_rest x asc p (suc (length stream)) none l refl h (
        length_select
          (λ (x : Item). at_start (start_of since none) x._id && at_end (end_of until) x._id)
          stream)
