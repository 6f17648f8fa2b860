-- ===== src/Records/Service.antt =====
-- app/services/service_record.py: reading, creating, updating and deleting records. A date is held
-- by its ordinal, `date.toordinal()`, and a datetime by its microseconds from ordinal 0.
pub mod Sort
pub mod Writes
pub mod Import
pub mod Pages
use stream_sight_backend.Prelude.{
  ℕ, ◌+◌, ◌-◌, ◌*◌, min, max, Bool, true, false, not, ◌&&◌, ◌||◌, Option, none, some, List, [], ◌∷◌,
  ◌++◌, String, is_some, str_eq, ltb, leb, ◌==◌, length, if◌then◌else◌,
}
use stream_sight_backend.Sql.{find_where}
use stream_sight_backend.Accounts.Rows.{Admin, Record, RecordCategory, Db}
use stream_sight_backend.Accounts.Errors.{not_found, business_rule, overflow_error}
use stream_sight_backend.Accounts.World.{
  Env, Action, pure, raise, query, write_checked, commit, raise_if, rollback_on_error, ◌>>=◌, ◌>>◌,
}
use stream_sight_backend.Accounts.Policy.{codes}
use stream_sight_backend.Records.Keyword.{escape_like}
use stream_sight_backend.Records.Repository.{
  SortField, id, title, value, category, created_at, SortDirection, asc, desc, Collation,
  RecordListRow, Filters, list_records, count_records, get_active, get_active_row, record_allowed,
  add_record, save_record, get_by_name, list_active,
}

-- records_list_max_page_size and records_analytics_max_page_size
pub record PageLimits : Type 0 where
  pub list_max : ℕ
  pub analytics_max : ℕ

-- the arguments of `list_records`
pub record ListQuery : Type 0 where
  pub page : ℕ
  pub size : ℕ
  pub category : Option String
  pub keyword : Option String
  pub date_from : Option ℕ
  pub date_to : Option ℕ
  pub sort : String
  pub include_deleted : Bool

-- its result
pub record Page : Type 0 where
  pub items : List RecordListRow
  pub total : ℕ
  pub page : ℕ
  pub size : ℕ

-- RecordCreate, which RecordUpdate equals
pub record RecordCreate : Type 0 where
  pub title : String
  pub value : ℕ
  pub category : String
  pub note : String

abbrev pub within : ℕ → ℕ → String → Bool
within low high s = leb low (length (codes s)) && leb (length (codes s)) high

-- the constraints of the fields; that the value is finite is in its type
unfoldable pub body_valid : RecordCreate → Bool
body_valid p = within 1 200 p.title && within 1 20 p.category && within 0 500 p.note

-- `s.split(c)`
abbrev pub cons_first : ℕ → List (List ℕ) → List (List ℕ)
cons_first x [] = (x ∷ []) ∷ []
cons_first x (p ∷ ps) = (x ∷ p) ∷ ps

unfoldable pub split : ℕ → List ℕ → List (List ℕ)
split c [] = [] ∷ []
split c (x ∷ s) = let rest = split c s in if x == c then [] ∷ rest else cons_first x rest

abbrev pub codes_eq : List ℕ → List ℕ → Bool
codes_eq [] [] = true
codes_eq [] (d ∷ t) = false
codes_eq (c ∷ s) [] = false
codes_eq (c ∷ s) (d ∷ t) = c == d && codes_eq s t

-- the values of the members of RecordSortField and SortDirection
abbrev pub field_value : SortField → String
field_value id = "id"
field_value title = "title"
field_value value = "value"
field_value category = "category"
field_value created_at = "created_at"

abbrev pub direction_value : SortDirection → String
direction_value asc = "asc"
direction_value desc = "desc"

-- `RecordSortField(s)` and `SortDirection(s)`
abbrev pub sort_field_of : List ℕ → Option SortField
sort_field_of s =
    find_where (λ (f : SortField). codes_eq (codes (field_value f)) s)
      (id ∷ title ∷ value ∷ category ∷ created_at ∷ [])

abbrev pub direction_of : List ℕ → Option SortDirection
direction_of s =
    find_where (λ (d : SortDirection). codes_eq (codes (direction_value d)) s) (asc ∷ desc ∷ [])

abbrev pub both_of : Option SortField → Option SortDirection → Option (SortField × SortDirection)
both_of (some f) (some d) = some (f, d)
both_of (some f) none = none
both_of none d = none

abbrev pub sort_of_parts : List (List ℕ) → Option (SortField × SortDirection)
sort_of_parts (f ∷ d ∷ []) = both_of (sort_field_of f) (direction_of d)
sort_of_parts [] = none
sort_of_parts (f ∷ []) = none
sort_of_parts (f ∷ d ∷ e ∷ s) = none

-- `DEFAULT_SORT`
abbrev pub default_sort : List ℕ
default_sort = codes "id:asc"

abbrev pub or_default : List ℕ → List ℕ
or_default [] = default_sort
or_default (c ∷ s) = c ∷ s

-- what `_parse_sort` reads, if it does not raise
unfoldable pub sort_of : List ℕ → Option (SortField × SortDirection)
sort_of s = sort_of_parts (split b':' (or_default s))

abbrev pub or_invalid_sort : Option (SortField × SortDirection) → Action (SortField × SortDirection)
or_invalid_sort none = raise (business_rule "invalid sort")
or_invalid_sort (some s) = pure s

-- `_parse_sort`
abbrev pub parse_sort : String → Action (SortField × SortDirection)
parse_sort sort = or_invalid_sort (sort_of (codes sort))

abbrev pub day : ℕ
day = 86400000000

-- `_date_to_utc_start`
abbrev pub date_to_utc_start : Option ℕ → Option ℕ
date_to_utc_start none = none
date_to_utc_start (some d) = some (d * day)

-- `date.max.toordinal()`
abbrev pub date_max : ℕ
date_max = 3652059

-- `_date_to_utc_exclusive_end`: `d + timedelta(days=1)` raises after the last date
unfoldable pub date_to_utc_exclusive_end : Option ℕ → Action (Option ℕ)
date_to_utc_exclusive_end none = pure none
date_to_utc_exclusive_end (some d) =
    if ltb d date_max then pure (some ((d + 1) * day)) else raise overflow_error

abbrev pub found_category : Option RecordCategory → Action (Option ℕ)
found_category none = raise (business_rule "category not found")
found_category (some c) = pure (some c.id)

-- `_resolve_filter_category`
unfoldable pub resolve_filter_category : Option String → Action (Option ℕ)
resolve_filter_category none = pure none
resolve_filter_category (some name) =
    if str_eq name "" then pure none else do c ← query (get_by_name name); found_category c

abbrev pub writable_category : Option RecordCategory → Action ℕ
writable_category none = raise (business_rule "category not found or inactive")
writable_category (some c) =
    if c.is_active then pure c.id else raise (business_rule "category not found or inactive")

-- `_resolve_writable_category`
unfoldable pub resolve_writable_category : String → Action ℕ
resolve_writable_category name = do c ← query (get_by_name name); writable_category c

-- `_clean_title`
unfoldable pub clean_title : Env → String → Action String
clean_title env raw = do
  raise_if (str_eq (env.strip raw) "") (business_rule "title must not be empty")
  pure (env.strip raw)

abbrev pub max_size : PageLimits → ListQuery → ℕ
max_size limits q =
    if is_some q.date_from || is_some q.date_to then limits.analytics_max else limits.list_max

abbrev pub page_of :
    PageLimits → Collation → ListQuery → SortField → SortDirection → Filters → Db → Page
page_of limits sql q field dir f db =
    let size = min (max q.size 1) (max_size limits q) in
    let page = max q.page 1 in
    record {
      items = list_records sql f field dir size ((page - 1) * size) db;
      total = count_records sql f db;
      page = page;
      size = size;
    }

abbrev pub filters_of : Env → ListQuery → Option ℕ → Option ℕ → Filters
filters_of env q category_id date_to = record {
  category_id = category_id;
  keyword = escape_like env q.keyword;
  date_from = date_to_utc_start q.date_from;
  date_to = date_to;
  include_deleted = q.include_deleted;
}

-- `list_records` of the service
unfoldable pub list_page : PageLimits → Collation → Env → ListQuery → Action Page
unfolding resolve_filter_category date_to_utc_exclusive_end
list_page limits sql env q = do
  s ← parse_sort q.sort
  category_id ← resolve_filter_category q.category
  date_to ← date_to_utc_exclusive_end q.date_to
  query (page_of limits sql q s.0 s.1 (filters_of env q category_id date_to))

abbrev pub row_or_raise : ℕ → Option RecordListRow → Action RecordListRow
row_or_raise k none = raise (not_found "Record" k)
row_or_raise k (some r) = pure r

-- `get_record`, and `_row_or_raise`
unfoldable pub get_record : ℕ → Action RecordListRow
get_record k = do r ← query (get_active_row k); row_or_raise k r

-- `list_categories`
abbrev pub list_categories : Collation → Action (List RecordCategory)
list_categories sql = query (list_active sql)
