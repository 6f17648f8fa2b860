-- ===== src/Records/Routes.antt =====
-- app/api/routers/records/router.py: the routes of the records, each with the guard of its rank, on
-- queries and bodies that meet their constraints.
use stream_sight_backend.Prelude.{ℕ, ◌≡◌, ◌<◌, arith, List, String}
use stream_sight_backend.Accounts.Enums.{viewer, editor, admin_role_value}
use stream_sight_backend.Accounts.Rows.{Admin, RecordCategory}
use stream_sight_backend.Accounts.Errors.{ok, err, forbidden}
use stream_sight_backend.Accounts.World.{Env, Action, World, ◌>>=◌}
use stream_sight_backend.Auth.Access.{require_min_admin_role, get_admin_from_token}
use stream_sight_backend.Records.Repository.{Collation, RecordListRow}
use stream_sight_backend.Records.Service.{
  PageLimits, ListQuery, Page, RecordCreate, list_page, get_record, list_categories,
}
use stream_sight_backend.Records.Service.Writes.{create_record, update_record, delete_record}
use stream_sight_backend.Records.Service.Import.{Python, Row, ImportResult, bulk_create}

-- GET /records/categories
unfoldable pub categories_route : Collation → Env → String → Action (List RecordCategory)
categories_route sql env token = do a ← require_min_admin_role viewer env token; list_categories sql

-- GET /records
unfoldable pub list_route : PageLimits → Collation → Env → String → ListQuery → Action Page
list_route limits sql env token q = do
  a ← require_min_admin_role viewer env token
  list_page limits sql env q

-- POST /records/bulk
unfoldable pub bulk_route : Env → Python → String → List Row → Action ImportResult
bulk_route env py token rows = do
  actor ← require_min_admin_role editor env token
  bulk_create env py rows actor

-- POST /records
unfoldable pub create_route : Env → String → RecordCreate → Action RecordListRow
create_route env token p = do
  actor ← require_min_admin_role editor env token
  create_record env p actor

-- GET /records/{record_id}
unfoldable pub get_route : Env → String → ℕ → Action RecordListRow
get_route env token k = do a ← require_min_admin_role viewer env token; get_record k

-- PATCH /records/{record_id}
unfoldable pub update_route : Env → String → ℕ → RecordCreate → Action RecordListRow
update_route env token k p = do a ← require_min_admin_role editor env token; update_record env k p

-- DELETE /records/{record_id}
unfoldable pub delete_route : Env → String → ℕ → Action (Unit {0})
delete_route env token k = do a ← require_min_admin_role editor env token; delete_record env k

module _ (env : Env) (token : String) (w : World) (a : Admin) where
  -- An active admin below the rank of editor is refused by 403 at each of the four routes that
  -- write records, and nothing changes.
  pub below_editor_writes_nothing :
      get_admin_from_token env token w ≡ (ok a, w)
      → a.admin_role < admin_role_value editor
      → (py : Python) (rows : List Row) (p : RecordCreate) (k : ℕ)
      → (bulk_route env py token rows w ≡ (err (forbidden "insufficient admin role"), w))
        × (create_route env token p w ≡ (err (forbidden "insufficient admin role"), w))
        × (update_route env token k p w ≡ (err (forbidden "insufficient admin role"), w))
        × (delete_route env token k w ≡ (err (forbidden "insufficient admin role"), w))
  unfolding bulk_route create_route update_route delete_route require_min_admin_role
  below_editor_writes_nothing h l py rows p k =
      (ground (arith, h, l), ground (arith, h, l), ground (arith, h, l), ground (arith, h, l))
