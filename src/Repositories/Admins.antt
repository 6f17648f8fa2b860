-- ===== src/Repositories/Admins.antt =====
-- app/repositories/repo_admin.py, and the INSERT and UPDATE of an admin with the constraints of
-- app/models/admin.py.
pub mod Laws
pub mod Listing
use stream_sight_backend.Prelude.{
  ℕ, suc, ltb, Bool, true, not, ◌&&◌, Option, none, some, List, String, is_some, str_eq, ◌==◌, take,
  drop, length,
}
use mathlib.Core.List.{map}
use mathlib.Core.Option
use stream_sight_backend.Sql.{
  find_where, select_where, exists_where, count_where, update_where, insert_row,
}
use stream_sight_backend.Accounts.Enums.{AdminStatusFilter, active, archived, deleted, all}
use stream_sight_backend.Accounts.Rows.{Principal, Admin, admin_checks, Db}

unfoldable pub get_admin : ℕ → Db → Option Admin
get_admin k db = find_where (λ a. a.id == k) db.admins

unfoldable pub get_by_username : String → Db → Option Admin
get_by_username username db = find_where (λ a. str_eq a.username username) db.admins

unfoldable pub get_admin_by_principal_id : ℕ → Db → Option Admin
get_admin_by_principal_id k db = find_where (λ a. a.principal_id == k) db.admins

unfoldable pub protected_root_exists : Db → Bool
protected_root_exists db = ltb 0 (count_where (λ (a : Admin). a.is_protected) db.admins)

-- UNIQUE(username), UNIQUE(principal_id), the composite foreign key and the checks
unfoldable pub admin_allowed : Admin → Db → Bool
admin_allowed a db =
    not (exists_where (λ (x : Admin). str_eq x.username a.username) db.admins)
    && not (exists_where (λ (x : Admin). x.principal_id == a.principal_id) db.admins)
    && exists_where (λ (p : Principal). p.id == a.principal_id && p.role == a.role) db.principals
    && admin_checks a

unfoldable pub add_admin : Admin → Db → Db
add_admin a db = record db { admins = insert_row a db.admins; next_admin = suc db.next_admin }

-- the flush of a changed admin: UPDATE by primary key
unfoldable pub save_admin : Admin → Db → Db
save_admin a db = record db { admins = update_where (λ x. x.id == a.id) (λ _. a) db.admins }

-- `_status_predicate`, where `all` filters nothing
abbrev pub status_predicate : AdminStatusFilter → Admin → Bool
status_predicate active a = not (is_some a.archived_at) && not (is_some a.deleted_at)
status_predicate archived a = is_some a.archived_at && not (is_some a.deleted_at)
status_predicate deleted a = is_some a.deleted_at
status_predicate all a = true

pub record AdminListRow : Type 0 where
  pub admin : Admin
  pub archived_by_username : Option String
  pub deleted_by_username : Option String

-- LEFT JOIN admins ON principal_id = key: the username of the one match, or NULL
unfoldable pub username_of : Db → Option ℕ → Option String
username_of db none = none
username_of db (some k) =
    Option.map (λ (a : Admin). a.username) (find_where (λ a. a.principal_id == k) db.admins)

unfoldable pub list_row : Db → Admin → AdminListRow
list_row db a = record {
  admin = a;
  archived_by_username = username_of db a.archived_by;
  deleted_by_username = username_of db a.deleted_by;
}

-- rows stand in the order of their ids, as `ORDER BY id` wants
unfoldable pub list_admins : AdminStatusFilter → ℕ → ℕ → Db → List AdminListRow
list_admins status limit offset db =
    map (list_row db) (take limit (drop offset (select_where (status_predicate status) db.admins)))

unfoldable pub get_list_row : ℕ → Db → Option AdminListRow
get_list_row k db = Option.map (list_row db) (find_where (λ a. a.id == k) db.admins)

unfoldable pub count_admins : AdminStatusFilter → Db → ℕ
count_admins status db = count_where (status_predicate status) db.admins
