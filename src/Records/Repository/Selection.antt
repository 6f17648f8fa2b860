-- ===== src/Records/Repository/Selection.antt =====
-- app/repositories/repo_record.py: the rows that a filter lets through.
use stream_sight_backend.Prelude.{
  ℕ, zero, suc, ◌≡◌, Bool, true, Option, none, some, List, [], ◌∷◌, ◌++◌, take, drop, All,
  Bool-cases, inl, inr,
}
use stream_sight_backend.Sql.{select_where}
use stream_sight_backend.Sql.Laws.{select_where-All}
use stream_sight_backend.Accounts.Rows.{Admin, Record, RecordCategory, Db}
use stream_sight_backend.Records.Repository.{
  SortField, SortDirection, Collation, RecordListRow, Filters, predicate, category_of, creator_of,
  joined, rows, stands_before, insert_by, order_by, ordered_records, list_records,
}

module _ {κ} {A : Type 0} (P : A → Type κ) where
  All-append : (xs ys : List A) → All P xs → All P ys → All P (xs ++ ys)
  All-append [] ys h k = k
  All-append (x ∷ xs) ys h k = (h.0, All-append xs ys h.1 k)

  pub All-take : (n : ℕ) (l : List A) → All P l → All P (take n l)
  All-take zero l h = tt
  All-take (suc n) [] h = tt
  All-take (suc n) (x ∷ l) h = (h.0, All-take n l h.1)

  All-drop : (n : ℕ) (l : List A) → All P l → All P (drop n l)
  All-drop zero l h = h
  All-drop (suc n) [] h = tt
  All-drop (suc n) (x ∷ l) h = All-drop n l h.1

  All-insert_by :
      (before : A → A → Bool) (x : A) (l : List A) → P x → All P l → All P (insert_by before x l)
  unfolding insert_by
  All-insert_by before x [] p h = (p, tt)
  All-insert_by before x (y ∷ l) p h = elim (Bool-cases (before x y)) [
    | inl e ↦ rw e (p, h)
    | inr e ↦ rw e (h.0, All-insert_by before x l p h.1)
  ]

  pub All-order_by : (before : A → A → Bool) (l : List A) → All P l → All P (order_by before l)
  unfolding order_by
  All-order_by before [] h = tt
  All-order_by before (x ∷ l) h =
      All-insert_by before x (order_by before l) h.0 (All-order_by before l h.1)

module _ (P : Record → Type 0) where
  joined-All :
      (r : Record) (c : Option RecordCategory) (a : Option Admin)
      → P r
      → All (λ (row : RecordListRow). P row.record_of) (joined r c a)
  joined-All r none a h = tt
  joined-All r (some c) none h = tt
  joined-All r (some c) (some a) h = (h, tt)

  rows-All :
      (db : Db) (l : List Record)
      → All P l
      → All (λ (row : RecordListRow). P row.record_of) (rows db l)
  unfolding rows
  rows-All db [] h = tt
  rows-All db (r ∷ l) h =
      All-append (λ (row : RecordListRow). P row.record_of)
        (joined r (category_of r db) (creator_of r db)) (rows db l)
        (joined-All r (category_of r db) (creator_of r db) h.0) (rows-All db l h.1)

pub list_records-All :
    (sql : Collation) (f : Filters) (field : SortField) (dir : SortDirection) (limit offset : ℕ)
    (db : Db)
    → All
        (λ (row : RecordListRow). predicate sql f row.record_of ≡ true)
        (list_records sql f field dir limit offset db)
unfolding list_records ordered_records
list_records-All sql f field dir limit offset db =
    let P = λ (row : RecordListRow). predicate sql f row.record_of ≡ true in
    let l = rows db (select_where (predicate sql f) db.records) in
    All-take P limit (drop offset (order_by (stands_before sql field dir) l)) (
      All-drop P offset (order_by (stands_before sql field dir) l) (
        All-order_by P (stands_before sql field dir) l (
          rows-All (λ (r : Record). predicate sql f r ≡ true) db
            (select_where (predicate sql f) db.records)
            (select_where-All (predicate sql f) db.records))))
