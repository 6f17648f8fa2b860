-- ===== src/Records/Repository.antt =====
-- app/repositories/repo_record.py and repo_record_category.py, with the constraints of
-- app/models/record.py.
pub mod Listing
pub mod Selection
use Prim.Native.Nat.{compare, Ordering}
use stream_sight_backend.Prelude.{
  ℕ, suc, Bool, true, false, not, ◌&&◌, ◌||◌, Option, none, some, List, [], ◌∷◌, ◌++◌, String,
  is_some, str_eq, ltb, leb, ◌==◌, length, take, drop, if◌then◌else◌,
}
use stream_sight_backend.Sql.{
  find_where, select_where, exists_where, count_where, update_where, insert_row,
}
use stream_sight_backend.Accounts.Rows.{Admin, Record, RecordCategory, Db}
use stream_sight_backend.Accounts.Policy.{codes}

-- RecordSortField and SortDirection
pub data SortField : Type 0 where
  id title value category created_at : SortField

pub data SortDirection : Type 0 where
  asc desc : SortDirection

-- What the database does with texts: `LIKE ... ESCAPE '\'`, `lower`, and the order of a collation.
pub record Collation : Type 0 where
  pub like : List ℕ → List ℕ → Bool
  pub lower : List ℕ → List ℕ
  pub compare_text : String → String → Ordering

pub record RecordListRow : Type 0 where
  pub record_of : Record
  pub category_name : String
  pub created_by_username : String

-- the arguments of `_predicate`
pub record Filters : Type 0 where
  pub category_id : Option ℕ
  pub keyword : Option (List ℕ)
  pub date_from : Option ℕ
  pub date_to : Option ℕ
  pub include_deleted : Bool

abbrev pub in_category : Option ℕ → Record → Bool
in_category none r = true
in_category (some k) r = r.category_id == k

-- an empty keyword is no clause
abbrev pub has_keyword : Collation → Option (List ℕ) → Record → Bool
has_keyword sql none r = true
has_keyword sql (some []) r = true
has_keyword sql (some (c ∷ p)) r = sql.like (c ∷ p) (sql.lower (codes r.title))

abbrev pub is_from : Option ℕ → Record → Bool
is_from none r = true
is_from (some t) r = leb t r.created_at

abbrev pub is_before : Option ℕ → Record → Bool
is_before none r = true
is_before (some t) r = ltb r.created_at t

-- `_predicate`
unfoldable pub predicate : Collation → Filters → Record → Bool
predicate sql f r =
    (f.include_deleted || not (is_some r.deleted_at))
    && in_category f.category_id r
    && has_keyword sql f.keyword r
    && is_from f.date_from r
    && is_before f.date_to r

abbrev pub joined : Record → Option RecordCategory → Option Admin → List RecordListRow
joined r none a = []
joined r (some c) none = []
joined r (some c) (some a) =
    record { record_of = r; category_name = c.name; created_by_username = a.username } ∷ []

abbrev pub category_of : Record → Db → Option RecordCategory
category_of r db = find_where (λ (c : RecordCategory). c.id == r.category_id) db.record_categories

abbrev pub creator_of : Record → Db → Option Admin
creator_of r db = find_where (λ (a : Admin). a.principal_id == r.created_by_principal_id) db.admins

-- `_base_row_select` and `_rows`: the two inner joins, on unique keys
unfoldable pub rows : Db → List Record → List RecordListRow
rows db [] = []
rows db (r ∷ rs) = joined r (category_of r db) (creator_of r db) ++ rows db rs

-- the column of the ORDER BY
unfoldable pub compare_column : Collation → SortField → RecordListRow → RecordListRow → Ordering
compare_column sql id a b = compare a.record_of.id b.record_of.id
compare_column sql title a b = sql.compare_text a.record_of.title b.record_of.title
compare_column sql value a b = compare a.record_of.value b.record_of.value
compare_column sql category a b = sql.compare_text a.category_name b.category_name
compare_column sql created_at a b = compare a.record_of.created_at b.record_of.created_at

abbrev pub first_then : Ordering → Ordering → Ordering
first_then Ordering.lt o = Ordering.lt
first_then Ordering.eq o = o
first_then Ordering.gt o = Ordering.gt

abbrev pub directed : SortDirection → Ordering → Ordering
directed asc o = o
directed desc Ordering.lt = Ordering.gt
directed desc Ordering.eq = Ordering.eq
directed desc Ordering.gt = Ordering.lt

abbrev pub is_not_after : Ordering → Bool
is_not_after Ordering.lt = true
is_not_after Ordering.eq = true
is_not_after Ordering.gt = false

-- `ORDER BY <column> <direction>, id <direction>`: whether the one may stand before the other
unfoldable pub stands_before :
    Collation → SortField → SortDirection → RecordListRow → RecordListRow → Bool
stands_before sql field dir a b = is_not_after (
    first_then (directed dir (compare_column sql field a b))
      (directed dir (compare a.record_of.id b.record_of.id)))

module _ {ℓ} {A : Type ℓ} where
  unfoldable pub insert_by : (A → A → Bool) → A → List A → List A
  insert_by before x [] = x ∷ []
  insert_by before x (y ∷ l) =
      let rest = insert_by before x l in if before x y then x ∷ (y ∷ l) else y ∷ rest

  unfoldable pub order_by : (A → A → Bool) → List A → List A
  order_by before [] = []
  order_by before (x ∷ l) = insert_by before x (order_by before l)

-- the rows of a filter in their order, before the page is cut
unfoldable pub ordered_records :
    Collation → Filters → SortField → SortDirection → Db → List RecordListRow
ordered_records sql f field dir db =
    order_by (stands_before sql field dir) (rows db (select_where (predicate sql f) db.records))

-- `list_records`
unfoldable pub list_records :
    Collation → Filters → SortField → SortDirection → ℕ → ℕ → Db → List RecordListRow
list_records sql f field dir limit offset db =
    take limit (drop offset (ordered_records sql f field dir db))

unfoldable pub count_records : Collation → Filters → Db → ℕ
count_records sql f db = count_where (predicate sql f) db.records

abbrev pub is_active_record : ℕ → Record → Bool
is_active_record k r = r.id == k && not (is_some r.deleted_at)

unfoldable pub get_active : ℕ → Db → Option Record
get_active k db = find_where (is_active_record k) db.records

abbrev pub first_row : List RecordListRow → Option RecordListRow
first_row [] = none
first_row (r ∷ rs) = some r

unfoldable pub get_active_row : ℕ → Db → Option RecordListRow
get_active_row k db = first_row (rows db (select_where (is_active_record k) db.records))

-- the foreign keys, the CHECK of the title, the lengths of the columns, and the range of the FLOAT
-- column, with what it holds of the value
unfoldable pub record_allowed : Option ℕ → Record → Db → Bool
record_allowed held r db =
    is_some held
    && is_some (category_of r db)
    && is_some (creator_of r db)
    && ltb 0 (length (codes r.title))
    && leb (length (codes r.title)) 200
    && leb (length (codes r.note)) 500

-- the row with what the FLOAT column holds of its value
abbrev pub held_row : Option ℕ → Record → Record
held_row none r = r
held_row (some v) r = record r { value = v }

-- `add`, the INSERT of one record
unfoldable pub add_record : Record → Db → Db
add_record r db = record db { records = insert_row r db.records; next_record = suc db.next_record }

-- the flush of a changed record
unfoldable pub save_record : Record → Db → Db
save_record r db = record db {
  records = update_where (λ (x : Record). x.id == r.id) (λ _. r) db.records;
}

unfoldable pub get_by_name : String → Db → Option RecordCategory
get_by_name name db = find_where (λ (c : RecordCategory). str_eq c.name name) db.record_categories

abbrev pub category_before : Collation → RecordCategory → RecordCategory → Bool
category_before sql a b =
    is_not_after (first_then (compare a.sort_order b.sort_order) (sql.compare_text a.name b.name))

-- `list_active`
unfoldable pub list_active : Collation → Db → List RecordCategory
list_active sql db =
    order_by (category_before sql)
      (select_where (λ (c : RecordCategory). c.is_active) db.record_categories)
