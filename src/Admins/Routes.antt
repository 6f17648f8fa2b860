-- ===== src/Admins/Routes.antt =====
-- app/api/routers/admin/router.py: the routes of the admins, each with its guard, on bodies that meet
-- the constraints of app/api/routers/admin/schemas.py.
use stream_sight_backend.Prelude.{ℕ, ◌≡◌, ◌<◌, arith, List, String, some, true, false}
use stream_sight_backend.Accounts.Enums.{
  AdminRole, super_admin, admin_role_value, AdminStatusFilter,
}
use stream_sight_backend.Accounts.Rows.{Admin}
use stream_sight_backend.Accounts.Errors.{Error, ok, err, forbidden}
use stream_sight_backend.Accounts.World.{Env, Action, World, ◌>>=◌}
use stream_sight_backend.Auth.Access.{require_min_admin_role, get_admin_from_token}
use stream_sight_backend.Repositories.Admins.{AdminListRow}
use stream_sight_backend.Admins.Service

-- `_summary`
abbrev pub summary : ℕ → Action AdminListRow
summary k = Service.get_row k true

-- POST /admin/me/password
unfoldable pub change_own_password : Env → String → String → String → Action (Unit {0})
change_own_password env token current new = do
  a ← get_admin_from_token env token
  Service.change_password env a.id current new

-- GET /admin/admins
unfoldable pub list_route :
    Env → String → AdminStatusFilter → ℕ → ℕ → Action (List AdminListRow × ℕ)
list_route env token status limit offset = do
  a ← require_min_admin_role super_admin env token
  Service.list_page status limit offset

-- POST /admin/admins
unfoldable pub create_route : Env → String → String → String → String → AdminRole → Action Admin
create_route env token username name password role = do
  a ← require_min_admin_role super_admin env token
  Service.create env username name password role false

-- GET /admin/admins/{admin_id}
unfoldable pub get_route : Env → String → ℕ → Action AdminListRow
get_route env token k = do a ← require_min_admin_role super_admin env token; summary k

-- PATCH /admin/admins/{admin_id}
unfoldable pub update_route : Env → String → ℕ → String → Action Admin
update_route env token k name = do
  current ← require_min_admin_role super_admin env token
  Service.update k name current.principal_id

-- PUT /admin/admins/{admin_id}/role
unfoldable pub role_route : Env → String → ℕ → AdminRole → Action Admin
role_route env token k role = do
  current ← require_min_admin_role super_admin env token
  Service.set_admin_role k role current.principal_id

-- POST /admin/admins/{admin_id}/archive
unfoldable pub archive_route : Env → String → ℕ → Action AdminListRow
archive_route env token k = do
  current ← require_min_admin_role super_admin env token
  a ← Service.archive env k (some current.principal_id)
  summary k

-- POST /admin/admins/{admin_id}/unarchive
unfoldable pub unarchive_route : Env → String → ℕ → Action AdminListRow
unarchive_route env token k = do
  current ← require_min_admin_role super_admin env token
  a ← Service.unarchive k
  summary k

-- DELETE /admin/admins/{admin_id}
unfoldable pub delete_route : Env → String → ℕ → Action AdminListRow
delete_route env token k = do
  current ← require_min_admin_role super_admin env token
  a ← Service.delete env k (some current.principal_id)
  summary k

-- POST /admin/admins/{admin_id}/restore
unfoldable pub restore_route : Env → String → ℕ → Action AdminListRow
restore_route env token k = do
  current ← require_min_admin_role super_admin env token
  a ← Service.restore k
  summary k

abbrev pub refused : Error
refused = forbidden "insufficient admin role"

module _ (env : Env) (token : String) (w : World) (a : Admin) where
  -- An active admin below the rank of super admin is refused by 403 at each route that reads or
  -- changes other admins, and nothing changes.
  pub below_super_manages_nobody :
      get_admin_from_token env token w ≡ (ok a, w)
      → a.admin_role < admin_role_value super_admin
      → (status : AdminStatusFilter) (limit offset k : ℕ) (username name password : String)
        (role : AdminRole)
      → (list_route env token status limit offset w ≡ (err refused, w))
        × (create_route env token username name password role w ≡ (err refused, w))
        × (get_route env token k w ≡ (err refused, w))
        × (update_route env token k name w ≡ (err refused, w))
        × (role_route env token k role w ≡ (err refused, w))
        × (archive_route env token k w ≡ (err refused, w))
        × (unarchive_route env token k w ≡ (err refused, w))
        × (delete_route env token k w ≡ (err refused, w))
        × (restore_route env token k w ≡ (err refused, w))
  unfolding list_route create_route get_route update_route role_route archive_route unarchive_route
      delete_route restore_route require_min_admin_role
  below_super_manages_nobody h l status limit offset k username name password role = (
    ground (arith, h, l),
    ground (arith, h, l),
    ground (arith, h, l),
    ground (arith, h, l),
    ground (arith, h, l),
    ground (arith, h, l),
    ground (arith, h, l),
    ground (arith, h, l),
    ground (arith, h, l),
  )
