-- ===== src/Tests/Records.antt =====
-- app/services/service_record.py and the routes of the records on concrete rows.
use Prim.Native.Nat.{compare}
use stream_sight_backend.Prelude.{
  ℕ, ◌==◌, ◌*◌, ◌≡◌, ◌≢◌, ◌↔◌, refl, arith, true, false, ◌&&◌, Option, none, some, List, [], ◌∷◌,
  ◌++◌, ◌-◌, leb, length, take, drop, All,
}
use stream_sight_backend.Sql.{find_where}
use stream_sight_backend.Accounts.Rows.{Admin, Record, RecordCategory, Db}
use stream_sight_backend.Accounts.Errors.{ok, err, forbidden, not_found, overflow_error}
use stream_sight_backend.Accounts.World.{World}
use stream_sight_backend.Accounts.Policy.{codes}
use stream_sight_backend.Repositories.Admins.{get_admin_by_principal_id}
use stream_sight_backend.Auth.Access.{
  get_admin_from_token, active_admin, decode_access, decode_payload, subject_of,
}
use stream_sight_backend.Admins.Routes
use stream_sight_backend.Admins.Routes.{below_super_manages_nobody}
use stream_sight_backend.Accounts.Enums.{AdminStatusFilter, editor as editor_role}
use stream_sight_backend.Records.Keyword.{
  escape_like, like_pattern, replace, escape, matches, parts, Contains,
}
use stream_sight_backend.Records.Keyword.Search.{matches_iff, escape_like-finds}
use stream_sight_backend.Records.Repository.{
  title, desc, Collation, RecordListRow, predicate, stands_before, ordered_records, count_records,
  record_allowed, get_active, get_by_name, is_from, is_before, add_record,
}
use stream_sight_backend.Records.Repository.Listing.{IsSorted, IsOpposite, compare-opposite}
use stream_sight_backend.Records.Service.{
  PageLimits, ListQuery, Page, RecordCreate, split, sort_of, or_default, day, date_to_utc_start,
  date_to_utc_exclusive_end, resolve_filter_category, filters_of, list_page, field_value,
  direction_value,
}
use stream_sight_backend.Records.Service.Sort.{sort_of_iff}
use stream_sight_backend.Records.Service.Pages.{IsPage, list_page_answers, date_range_days}
use stream_sight_backend.Records.Service.Writes.{delete_record, insert_new}
use stream_sight_backend.Records.Service.Writes.Effects.{after_deletion, delete_record_hides}
use stream_sight_backend.Records.Service.Import.{
  Json, text, number, Parsed, finite, too_large, not_a_number, Python, Row, ImportResult,
  validate_row, validate_rows, bulk_insert, bulk_create, value_missing,
}
use stream_sight_backend.Records.Service.Import.Refines.{IsImport, bulk_create_refines}
use stream_sight_backend.Records.Service.Import.Outcomes.{bulk_create_fails}
use stream_sight_backend.Records.Routes.{
  bulk_route, create_route, update_route, delete_route, below_editor_writes_nothing,
}
use stream_sight_backend.Tests.Fixtures.{env, editor, db, world}

-- a keyword that asks for a percent sign
escape_like-finds_example :
    (matches ◌==◌ (parts (codes "%5\\%%")) (codes "a 5% rise") ≡ true)
    ↔ Contains ◌==◌ (codes "5%") (codes "a 5% rise")
unfolding escape_like like_pattern escape replace
escape_like-finds_example =
    escape_like-finds ◌==◌ (λ p s. matches ◌==◌ (parts p) s) (λ p s. matches_iff ◌==◌ (parts p) s)
      env "5%" (codes "a 5% rise") (codes "%5\\%%") refl

sort_of_iff_example : (sort_of (codes "title:desc") ≡ some (title, desc)) ↔ (
    or_default (codes "title:desc")
    ≡ codes (field_value title) ++ b':' ∷ codes (direction_value desc))
sort_of_iff_example = sort_of_iff (codes "title:desc") title desc

abbrev boiler : Record
boiler = record {
  id = 1;
  title = "Boiler";
  value = 5;
  category_id = 2;
  created_by_principal_id = 3;
  note = "";
  created_at = 63072000000005;
  deleted_at = none;
}

abbrev sensor : RecordCategory
sensor = record { id = 1; name = "sensor"; label = "Sensor"; sort_order = 0; is_active = true }

abbrev stored : Db
stored = record db { records = boiler ∷ []; next_record = 2 }

abbrev listed : World
listed = record { committed = stored; session = stored; kicks = [] }

abbrev by_length : Collation
by_length = record {
  like = λ p s. matches ◌==◌ (parts p) s;
  lower = λ s. s;
  compare_text = λ s t. compare (length (codes s)) (length (codes t));
}

by_length-IsOpposite : IsOpposite by_length
by_length-IsOpposite s t = compare-opposite (length (codes s)) (length (codes t))

abbrev limits : PageLimits
limits = record { list_max = 100; analytics_max = 5000 }

-- the retired records up to the last day but one
abbrev retired : ListQuery
retired = record {
  page = 1;
  size = 20;
  category = some "retired";
  keyword = none;
  date_from = none;
  date_to = some 3652058;
  sort = "title:desc";
  include_deleted = false;
}

list_page_answers_example :
    (p : Page) × (list_page limits by_length env retired listed ≡ (ok p, listed))
    × IsPage limits retired p
    × All
        (λ (row : RecordListRow).
          predicate by_length (filters_of env retired (some 2) (some (3652059 * day))) row.record_of
          ≡ true)
        p.items
    × IsSorted (stands_before by_length title desc) p.items
    × (p.items
        ≡ take p.size (
            drop ((p.page - 1) * p.size) (
              ordered_records by_length
                (filters_of env retired (some 2) (some (3652059 * day)))
                title
                desc
                listed.session)))
    × (p.total
        ≡ count_records by_length
            (filters_of env retired (some 2) (some (3652059 * day)))
            listed.session)
unfolding sort_of split find_where resolve_filter_category date_to_utc_exclusive_end get_by_name
list_page_answers_example =
    list_page_answers limits by_length env retired listed title desc (some 2) (some (3652059 * day))
      (omega arith) (omega arith) by_length-IsOpposite refl refl refl

date_range_days_example :
    (upper : Option ℕ) × (date_to_utc_exclusive_end (some 731) listed ≡ (ok upper, listed))
    × ((is_from (date_to_utc_start (some 730)) boiler && is_before upper boiler)
        ≡ (leb 730 730 && leb 730 731))
date_range_days_example =
    date_range_days boiler 730 5 730 731 listed refl (omega arith) (omega arith)

abbrev kettle : RecordCreate
kettle = record { title = "Kettle"; value = 7; category = "sensor"; note = "new" }

delete_record_hides_example :
    let w' = record listed {
      session = after_deletion env 1 boiler listed;
      committed = after_deletion env 1 boiler listed;
    } in
    (delete_record env 1 listed ≡ (ok tt, w'))
    × (get_active 1 w'.committed ≡ none)
    × ((j : ℕ) → j ≢ 1 → get_active j w'.committed ≡ get_active j listed.session)
    × (delete_record env 1 w' ≡ (err (not_found "Record" 1), w'))
unfolding get_active find_where record_allowed
delete_record_hides_example = delete_record_hides env 1 boiler listed refl refl

-- `float` of a few values
abbrev float_of : Json → Parsed
float_of (text s) = finite 1
float_of (number s) = too_large
float_of _ = not_a_number

abbrev python : Python
python = record { float = float_of; str = λ j. "" }

abbrev good_row : Row
good_row = record {
  title = some (text "Fan");
  value = some (text "2");
  category = some (text "sensor");
  note = none;
}

abbrev bad_row : Row
bad_row = record good_row { value = none }

abbrev rows : List Row
rows = bad_row ∷ good_row ∷ []

abbrev result : ImportResult
result = record { created = 1; errors = record { row_index = 0; reason = value_missing } ∷ [] }

abbrev imported : World
imported = (bulk_create env python rows editor world).1

bulk_create_ran : bulk_create env python rows editor world ≡ (ok result, imported)
unfolding bulk_create validate_rows validate_row bulk_insert insert_new get_by_name find_where
    record_allowed add_record
bulk_create_ran = refl

bulk_create_refines_example :
    (bulk_create env python rows editor world ≡ (ok result, imported))
    ↔ IsImport env python editor rows world result imported
bulk_create_refines_example = bulk_create_refines env python rows editor world imported result

-- a number that is too large for a double
abbrev huge_row : Row
huge_row = record good_row { value = some (number "1e999") }

bulk_create_fails_example :
    (bulk_create env python (good_row ∷ huge_row ∷ []) editor world).1.committed ≡ world.committed
unfolding bulk_create validate_rows validate_row get_by_name find_where
bulk_create_fails_example =
    bulk_create_fails env python (good_row ∷ huge_row ∷ []) editor world
      (bulk_create env python (good_row ∷ huge_row ∷ []) editor world).1 overflow_error refl

abbrev newcomer : Admin
newcomer = record editor { admin_role = 0 }

abbrev quiet : World
quiet = record world { session = record db { admins = newcomer ∷ [] } }

newcomer_is_known : get_admin_from_token env "token" quiet ≡ (ok newcomer, quiet)
unfolding get_admin_from_token active_admin decode_access decode_payload subject_of
    get_admin_by_principal_id find_where
newcomer_is_known = refl

below_editor_writes_nothing_example :
    (bulk_route env python "token" rows quiet ≡ (err (forbidden "insufficient admin role"), quiet))
    × (create_route env "token" kettle quiet ≡ (err (forbidden "insufficient admin role"), quiet))
    × (update_route env "token" 1 kettle quiet ≡ (err (forbidden "insufficient admin role"), quiet))
    × (delete_route env "token" 1 quiet ≡ (err (forbidden "insufficient admin role"), quiet))
below_editor_writes_nothing_example =
    below_editor_writes_nothing env "token" quiet newcomer newcomer_is_known (omega arith) python
      rows kettle 1

-- the same newcomer at the routes of the admins
below_super_manages_nobody_example :
    (Routes.list_route env "token" AdminStatusFilter.all 50 0 quiet ≡ (err Routes.refused, quiet))
    × (Routes.create_route env "token" "eve" "Eve" "long-enough" editor_role quiet
        ≡ (err Routes.refused, quiet))
    × (Routes.get_route env "token" 1 quiet ≡ (err Routes.refused, quiet))
    × (Routes.update_route env "token" 1 "Eve" quiet ≡ (err Routes.refused, quiet))
    × (Routes.role_route env "token" 1 editor_role quiet ≡ (err Routes.refused, quiet))
    × (Routes.archive_route env "token" 1 quiet ≡ (err Routes.refused, quiet))
    × (Routes.unarchive_route env "token" 1 quiet ≡ (err Routes.refused, quiet))
    × (Routes.delete_route env "token" 1 quiet ≡ (err Routes.refused, quiet))
    × (Routes.restore_route env "token" 1 quiet ≡ (err Routes.refused, quiet))
below_super_manages_nobody_example =
    below_super_manages_nobody env "token" quiet newcomer newcomer_is_known (omega arith)
      AdminStatusFilter.all 50 0 1 "eve" "Eve" "long-enough" editor_role
