-- ===== src/Records/Service/Pages.antt =====
-- app/services/service_record.py: the page that `list_records` answers, and its range of dates.
use stream_sight_backend.Prelude.{
  ℕ, ◌+◌, ◌*◌, ◌≤◌, ◌<◌, ◌≡◌, refl, min, max, true, ◌&&◌, Option, some, arith, All, leb, ltb,
  Bool-cases, inl, inr, is_some, ◌||◌, length, take, drop, ◌-◌,
}
use stream_sight_backend.Prelude.Slices.{length-take_le}
use stream_sight_backend.Accounts.Rows.{Record, Db}
use stream_sight_backend.Accounts.Errors.{ok}
use stream_sight_backend.Accounts.World.{Env, World}
use stream_sight_backend.Accounts.Policy.{codes}
use stream_sight_backend.Records.Repository.Listing.{IsSorted, IsOpposite, list_records-IsSorted}
use stream_sight_backend.Records.Repository.Selection.{list_records-All}
use stream_sight_backend.Records.Repository.{
  SortField, SortDirection, Collation, RecordListRow, Filters, list_records, ordered_records,
  count_records, is_from, is_before, predicate, stands_before,
}
use stream_sight_backend.Records.Service.{
  PageLimits, ListQuery, Page, day, date_to_utc_start, date_to_utc_exclusive_end, date_max,
  max_size, page_of, filters_of, list_page, resolve_filter_category, sort_of,
}

-- What a page promises.
abbrev pub IsPage : PageLimits → ListQuery → Page → Type 0
IsPage limits q p =
    (1 ≤ p.page) × (1 ≤ p.size) × (p.size ≤ max_size limits q) × (length p.items ≤ p.size)

max_size_positive :
    (limits : PageLimits) (q : ListQuery)
    → 1 ≤ limits.list_max
    → 1 ≤ limits.analytics_max
    → 1 ≤ max_size limits q
max_size_positive limits q hl ha = elim (Bool-cases (is_some q.date_from || is_some q.date_to)) [
  | inl e ↦ rw e ha
  | inr e ↦ rw e hl
]

page_of-IsPage :
    (limits : PageLimits) (sql : Collation) (q : ListQuery) (field : SortField)
    (dir : SortDirection) (f : Filters) (db : Db)
    → 1 ≤ limits.list_max
    → 1 ≤ limits.analytics_max
    → IsPage limits q (page_of limits sql q field dir f db)
unfolding list_records
page_of-IsPage limits sql q field dir f db hl ha =
    let m = max_size_positive limits q hl ha in
    let size = min (max q.size 1) (max_size limits q) in
    let page = max q.page 1 in
    (
      omega arith,
      omega (arith, m),
      omega arith,
      length-take_le size (drop ((page - 1) * size) (ordered_records sql f field dir db)),
    )

from_day : (first n t : ℕ) → t < day → leb (first * day) (n * day + t) ≡ leb first n
from_day first n t h = ground (arith, h)

before_day : (last n t : ℕ) → t < day → ltb (n * day + t) ((last + 1) * day) ≡ leb n last
before_day last n t h = ground (arith, h)

-- A list of the records is answered, and changes nothing, when the sort is one of the accepted
-- texts, the category resolves and the last day has a next one, given page limits of at least one
-- and a collation for which a comparison the other way round has the opposite outcome. The page
-- and its size are at least 1, the size and the number of items keep to the limit of their kind,
-- each item meets the filter, the items stand in the order that was asked for and are the page's
-- slice of all rows of the filter in that order, and the total is that of the same filter.
pub list_page_answers :
    (limits : PageLimits) (sql : Collation) (env : Env) (q : ListQuery) (w : World)
    (field : SortField) (dir : SortDirection) (k upper : Option ℕ)
    → 1 ≤ limits.list_max
    → 1 ≤ limits.analytics_max
    → IsOpposite sql
    → sort_of (codes q.sort) ≡ some (field, dir)
    → resolve_filter_category q.category w ≡ (ok k, w)
    → date_to_utc_exclusive_end q.date_to w ≡ (ok upper, w)
    → (p : Page) × (list_page limits sql env q w ≡ (ok p, w))
      × IsPage limits q p
      × All
          (λ (row : RecordListRow). predicate sql (filters_of env q k upper) row.record_of ≡ true)
          p.items
      × IsSorted (stands_before sql field dir) p.items
      × (p.items
          ≡ take p.size (
              drop
                ((p.page - 1) * p.size)
                (ordered_records sql (filters_of env q k upper) field dir w.session)))
      × (p.total ≡ count_records sql (filters_of env q k upper) w.session)
unfolding list_page list_records
list_page_answers limits sql env q w field dir k upper hl ha o es ec ed =
    let f = filters_of env q k upper in
    let size = min (max q.size 1) (max_size limits q) in
    let offset = (max q.page 1 - 1) * size in
    (
      page_of limits sql q field dir f w.session,
      ground (arith, es, ec, ed),
      page_of-IsPage limits sql q field dir f w.session hl ha,
      list_records-All sql f field dir size offset w.session,
      list_records-IsSorted sql f field dir size offset w.session o,
      refl,
      refl,
    )

-- The range of dates: a record created at some time of day `n` is within the bounds of the days
-- `first` to `last` if and only if `n` is one of these days, the last one included, given that
-- `last` is before the last date that there is.
pub date_range_days :
    (r : Record) (n t first last : ℕ) (w : World)
    → r.created_at ≡ n * day + t
    → t < day
    → last < date_max
    → (upper : Option ℕ) × (date_to_utc_exclusive_end (some last) w ≡ (ok upper, w))
      × ((is_from (date_to_utc_start (some first)) r && is_before upper r)
          ≡ (leb first n && leb n last))
unfolding date_to_utc_exclusive_end
date_range_days r n t first last w e h l = (
  some ((last + 1) * day),
  ground arith,
  rw (e, from_day first n t h, before_day last n t h) refl,
)
