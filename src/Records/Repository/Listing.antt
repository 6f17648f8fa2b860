-- ===== src/Records/Repository/Listing.antt =====
-- app/repositories/repo_record.py: the order, the pages and the count of the records.
use Prim.Native.Nat.{compare, Ordering}
use stream_sight_backend.Prelude.{
  ℕ, zero, suc, ◌+◌, ◌≤◌, ◌≡◌, refl, sym, ◌∙◌, Bool, true, false, List, [], ◌∷◌, ◌++◌, String,
  arith, is_some, length, take, drop, All, Bool-cases, inl, inr,
}
use stream_sight_backend.Prelude.Slices.{take-drop, take-nil, length-take_all}
use stream_sight_backend.Sql.{select_where}
use stream_sight_backend.Sql.Laws.{count_where-select_where}
use stream_sight_backend.Accounts.Rows.{Record, Db}
use stream_sight_backend.Records.Repository.{
  SortField, id, title, value, category, created_at, SortDirection, asc, desc, Collation,
  RecordListRow, Filters, predicate, category_of, creator_of, rows, compare_column, first_then,
  directed, is_not_after, stands_before, insert_by, order_by, ordered_records, list_records,
  count_records,
}

-- Neighbours stand in the order.
abbrev pub IsSorted {ℓ} : {A : Type ℓ} → (A → A → Bool) → List A → Type 0
IsSorted before [] = Unit
IsSorted before (x ∷ []) = Unit
IsSorted before (x ∷ y ∷ l) = (before x y ≡ true) × IsSorted before (y ∷ l)

module _ {A : Type 0} (before : A → A → Bool)
    (total : (x y : A) → before x y ≡ false → before y x ≡ true) where
  -- `y` may stand before the head
  abbrev MayPrecede : A → List A → Type 0
  MayPrecede y [] = Unit
  MayPrecede y (x ∷ l) = before y x ≡ true

  IsSorted-cons :
      (y : A) (l : List A) → MayPrecede y l → IsSorted before l → IsSorted before (y ∷ l)
  IsSorted-cons y [] m s = tt
  IsSorted-cons y (x ∷ l) m s = (m, s)

  IsSorted-tail : (y : A) (l : List A) → IsSorted before (y ∷ l) → IsSorted before l
  IsSorted-tail y [] s = tt
  IsSorted-tail y (x ∷ l) s = s.1

  MayPrecede-head : (y : A) (l : List A) → IsSorted before (y ∷ l) → MayPrecede y l
  MayPrecede-head y [] s = tt
  MayPrecede-head y (x ∷ l) s = s.0

  MayPrecede-insert_by :
      (y x : A) (l : List A)
      → before y x ≡ true
      → MayPrecede y l
      → MayPrecede y (insert_by before x l)
  unfolding insert_by
  MayPrecede-insert_by y x [] e m = e
  MayPrecede-insert_by y x (z ∷ l) e m = elim (Bool-cases (before x z)) [
    | inl b ↦ rw b e
    | inr b ↦ rw b m
  ]

  insert_by-IsSorted :
      (x : A) (l : List A) → IsSorted before l → IsSorted before (insert_by before x l)
  unfolding insert_by
  insert_by-IsSorted x [] s = tt
  insert_by-IsSorted x (y ∷ l) s = elim (Bool-cases (before x y)) [
    | inl b ↦ rw b (b, s)
    | inr b ↦ rw b (
        IsSorted-cons y (insert_by before x l)
          (MayPrecede-insert_by y x l (total x y b) (MayPrecede-head y l s))
          (insert_by-IsSorted x l (IsSorted-tail y l s)))
  ]

  pub order_by-IsSorted : (l : List A) → IsSorted before (order_by before l)
  unfolding order_by
  order_by-IsSorted [] = tt
  order_by-IsSorted (x ∷ l) = insert_by-IsSorted x (order_by before l) (order_by-IsSorted l)

module _ {A : Type 0} (before : A → A → Bool) where
  length-insert_by : (x : A) (l : List A) → length (insert_by before x l) ≡ suc (length l)
  unfolding insert_by
  length-insert_by x [] = refl
  length-insert_by x (y ∷ l) = ground (arith, length-insert_by x l)

  length-order_by : (l : List A) → length (order_by before l) ≡ length l
  unfolding order_by
  length-order_by [] = refl
  length-order_by (x ∷ l) = omega (arith, length-insert_by x (order_by before l), length-order_by l)

-- the opposite of an outcome
abbrev pub opposite : Ordering → Ordering
opposite Ordering.lt = Ordering.gt
opposite Ordering.eq = Ordering.eq
opposite Ordering.gt = Ordering.lt

-- What is relied on of a collation: the comparison the other way round is the opposite.
abbrev pub IsOpposite : Collation → Type 0
IsOpposite sql = (s t : String) → sql.compare_text t s ≡ opposite (sql.compare_text s t)

pub compare-opposite : (a b : ℕ) → compare b a ≡ opposite (compare a b)
compare-opposite a b = ground arith

compare_column-opposite :
    (sql : Collation) (field : SortField) (a b : RecordListRow)
    → IsOpposite sql
    → compare_column sql field b a ≡ opposite (compare_column sql field a b)
unfolding compare_column
compare_column-opposite sql id a b o = compare-opposite a.record_of.id b.record_of.id
compare_column-opposite sql title a b o = o a.record_of.title b.record_of.title
compare_column-opposite sql value a b o = compare-opposite a.record_of.value b.record_of.value
compare_column-opposite sql category a b o = o a.category_name b.category_name
compare_column-opposite sql created_at a b o =
    compare-opposite a.record_of.created_at b.record_of.created_at

outcomes_total :
    (dir : SortDirection) (c d : Ordering)
    → is_not_after (first_then (directed dir c) (directed dir d)) ≡ false
    → is_not_after (first_then (directed dir (opposite c)) (directed dir (opposite d))) ≡ true
outcomes_total asc Ordering.lt Ordering.lt h = absurd (cc)
outcomes_total asc Ordering.lt Ordering.eq h = absurd (cc)
outcomes_total asc Ordering.lt Ordering.gt h = absurd (cc)
outcomes_total asc Ordering.eq Ordering.lt h = absurd (cc)
outcomes_total asc Ordering.eq Ordering.eq h = absurd (cc)
outcomes_total asc Ordering.eq Ordering.gt h = refl
outcomes_total asc Ordering.gt Ordering.lt h = refl
outcomes_total asc Ordering.gt Ordering.eq h = refl
outcomes_total asc Ordering.gt Ordering.gt h = refl
outcomes_total desc Ordering.lt Ordering.lt h = refl
outcomes_total desc Ordering.lt Ordering.eq h = refl
outcomes_total desc Ordering.lt Ordering.gt h = refl
outcomes_total desc Ordering.eq Ordering.lt h = refl
outcomes_total desc Ordering.eq Ordering.eq h = absurd (cc)
outcomes_total desc Ordering.eq Ordering.gt h = absurd (cc)
outcomes_total desc Ordering.gt Ordering.lt h = absurd (cc)
outcomes_total desc Ordering.gt Ordering.eq h = absurd (cc)
outcomes_total desc Ordering.gt Ordering.gt h = absurd (cc)

stands_before_total :
    (sql : Collation) (field : SortField) (dir : SortDirection)
    → IsOpposite sql
    → (a b : RecordListRow) → stands_before sql field dir a b ≡ false
    → stands_before sql field dir b a ≡ true
unfolding stands_before
stands_before_total sql field dir o a b h =
    rw (compare_column-opposite sql field a b o, compare-opposite a.record_of.id b.record_of.id)
      (outcomes_total dir (compare_column sql field a b) (compare a.record_of.id b.record_of.id) h)

-- The foreign keys of a record name rows.
abbrev pub IsReferenced : Db → Record → Type 0
IsReferenced db r = (is_some (category_of r db) ≡ true) × (is_some (creator_of r db) ≡ true)

length-rows : (db : Db) (l : List Record) → All (IsReferenced db) l → length (rows db l) ≡ length l
unfolding rows
length-rows db [] h = refl
length-rows db (r ∷ l) h = ground (arith, h.0, length-rows db l h.1)

All-select_where {κ} :
    {A : Type 0} (P : A → Type κ) (p : A → Bool) (l : List A) → All P l → All P (select_where p l)
unfolding select_where
All-select_where P p [] h = tt
All-select_where P p (x ∷ l) h = elim (Bool-cases (p x)) [
  | inl e ↦ rw e (h.0, All-select_where P p l h.1)
  | inr e ↦ rw e (All-select_where P p l h.1)
]

module _ {A : Type 0} (before : A → A → Bool) where
  IsSorted-drop : (n : ℕ) (l : List A) → IsSorted before l → IsSorted before (drop n l)
  IsSorted-drop zero l s = s
  IsSorted-drop (suc n) [] s = tt
  IsSorted-drop (suc n) (x ∷ []) s = IsSorted-drop n [] tt
  IsSorted-drop (suc n) (x ∷ y ∷ l) s = IsSorted-drop n (y ∷ l) s.1

  pub IsSorted-take : (n : ℕ) (l : List A) → IsSorted before l → IsSorted before (take n l)
  IsSorted-take zero l s = tt
  IsSorted-take (suc n) [] s = tt
  IsSorted-take (suc n) (x ∷ []) s = rw (take-nil n) tt
  IsSorted-take (suc zero) (x ∷ y ∷ l) s = tt
  IsSorted-take (suc (suc n)) (x ∷ y ∷ l) s = (s.0, IsSorted-take (suc n) (y ∷ l) s.1)

-- Each page of the records is sorted: of two neighbours the first has the lower value in the sort
-- column, the higher one when the direction is descending, or the same value and an id that is not
-- higher, not lower when descending. The collation must be such that a comparison the other way
-- round has the opposite outcome.
pub list_records-IsSorted :
    (sql : Collation) (f : Filters) (field : SortField) (dir : SortDirection) (limit offset : ℕ)
    (db : Db)
    → IsOpposite sql
    → IsSorted (stands_before sql field dir) (list_records sql f field dir limit offset db)
unfolding list_records ordered_records
list_records-IsSorted sql f field dir limit offset db o =
    let before = stands_before sql field dir in
    let l = rows db (select_where (predicate sql f) db.records) in
    IsSorted-take before limit (drop offset (order_by before l)) (
      IsSorted-drop before offset (order_by before l)
        (order_by-IsSorted before (stands_before_total sql field dir o) l))

-- Two consecutive pages of the records join to one page: no row is repeated or skipped at the seam.
list_records-append :
    (sql : Collation) (f : Filters) (field : SortField) (dir : SortDirection) (m n offset : ℕ)
    (db : Db)
    → list_records sql f field dir m offset db ++ list_records sql f field dir n (offset + m) db
      ≡ list_records sql f field dir (m + n) offset db
unfolding list_records
list_records-append sql f field dir m n offset db =
    take-drop m n offset (ordered_records sql f field dir db)

length-ordered_records :
    (sql : Collation) (f : Filters) (field : SortField) (dir : SortDirection) (db : Db)
    → All (IsReferenced db) db.records
    → length (ordered_records sql f field dir db) ≡ count_records sql f db
unfolding ordered_records count_records
length-ordered_records sql f field dir db h =
    length-order_by (stands_before sql field dir)
      (rows db (select_where (predicate sql f) db.records))
    ∙ length-rows db (select_where (predicate sql f) db.records)
        (All-select_where (IsReferenced db) (predicate sql f) db.records h)
    ∙ sym (count_where-select_where (predicate sql f) db.records)

-- The total of a filter, which is counted without the joins, is the number of rows of a page from
-- offset 0 whose size is at least the total, given that each record's foreign keys name rows.
length-list_records :
    (sql : Collation) (f : Filters) (field : SortField) (dir : SortDirection) (n : ℕ) (db : Db)
    → All (IsReferenced db) db.records
    → count_records sql f db ≤ n
    → length (list_records sql f field dir n 0 db) ≡ count_records sql f db
unfolding list_records
length-list_records sql f field dir n db h le =
    let e = length-ordered_records sql f field dir db h in
    length-take_all n (ordered_records sql f field dir db) (rw e le) ∙ e
