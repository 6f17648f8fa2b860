-- ===== src/Repositories/Admins/Listing.antt =====
-- The status filters of the list of admins, and its pages (repo_admin.py).
use mathlib.Core.List.{map, map-append}
use stream_sight_backend.Prelude.{
  ℕ, ◌+◌, ◌≤◌, ◌≡◌, refl, ap, List, [], ◌∷◌, ◌++◌, arith, take, length, ◌∙◌, sym,
}
use stream_sight_backend.Sql.{select_where, count_where}
use stream_sight_backend.Sql.Laws.{count_where-select_where}
use stream_sight_backend.Prelude.Slices.{take-drop, length-take_all, length-map}
use stream_sight_backend.Accounts.Enums.{AdminStatusFilter, active, archived, deleted, all}
use stream_sight_backend.Accounts.Rows.{Admin, Db}
use stream_sight_backend.Repositories.Admins.{status_predicate, list_admins, count_admins, list_row}

rows_partition :
    (l : List Admin)
    → count_where (status_predicate active) l
        + count_where (status_predicate archived) l
        + count_where (status_predicate deleted) l
      ≡ count_where (status_predicate all) l
unfolding count_where
rows_partition [] = refl
rows_partition (a ∷ l) = ground (arith, rows_partition l)

-- The totals of the filters `active`, `archived` and `deleted` add up to the total of `all`.
statuses_partition :
    (db : Db)
    → count_admins active db + count_admins archived db + count_admins deleted db
      ≡ count_admins all db
unfolding count_admins
statuses_partition db = rows_partition db.admins

-- Consecutive pages join to one page: no row is repeated or skipped at the seam.
pages_tile :
    (status : AdminStatusFilter) (m n offset : ℕ) (db : Db)
    → list_admins status m offset db ++ list_admins status n (offset + m) db
      ≡ list_admins status (m + n) offset db
unfolding list_admins
pages_tile status m n offset db = rw (← map-append) (
    ap (map (list_row db))
      (take-drop m n offset (select_where (status_predicate status) db.admins)))

-- The total of a filter is the length of a page from offset 0 whose size is at least the total.
count-list_admins :
    (status : AdminStatusFilter) (db : Db) (n : ℕ)
    → count_admins status db ≤ n
    → length (list_admins status n 0 db) ≡ count_admins status db
unfolding list_admins count_admins
count-list_admins status db n h =
    length-map (list_row db) (take n (select_where (status_predicate status) db.admins))
    ∙ length-take_all n (select_where (status_predicate status) db.admins)
        (rw (← count_where-select_where (status_predicate status) db.admins) h)
    ∙ sym (count_where-select_where (status_predicate status) db.admins)
