-- ===== src/Admins/Service.antt =====
-- app/services/service_admin.py: creation, rename, password, rank, archive and soft deletion.
use stream_sight_backend.Prelude.{
  ℕ, Bool, true, false, not, ◌&&◌, Option, none, some, List, String, is_some, str_eq, ltb, ◌==◌,
  if◌then◌else◌,
}
use stream_sight_backend.Accounts.Enums.{
  Role, AdminRole, super_admin, admin_role_value, is_root, AdminStatusFilter,
}
use stream_sight_backend.Accounts.Rows.{Admin, admin_checks, Db}
use stream_sight_backend.Accounts.Errors.{
  bad_request, unauthorized, forbidden, not_found, conflict, business_rule,
}
use stream_sight_backend.Accounts.World.{
  Env, Action, pure, raise, query, write, write_checked, commit, raise_if, rollback_on_error, kick,
  kick_principal, ◌>>=◌, ◌>>◌,
}
use stream_sight_backend.Accounts.Policy.{normalize_username, username_matches}
use stream_sight_backend.Repositories.RefreshTokens.{revoke_all_for_principal, has_principal}
use stream_sight_backend.Repositories.Users.{create_principal}
use stream_sight_backend.Repositories.Admins.{
  get_admin, get_by_username, admin_allowed, add_admin, save_admin, AdminListRow, list_admins,
  count_admins, get_list_row,
}

-- `list_admins` of the service: the rows of a page and the total
unfoldable pub list_page : AdminStatusFilter → ℕ → ℕ → Action (List AdminListRow × ℕ)
list_page status limit offset = do
  rows ← query (list_admins status limit offset)
  total ← query (count_admins status)
  pure (rows, total)

unfoldable pub found_admin : ℕ → Bool → Option Admin → Action Admin
found_admin k include_deleted none = raise (not_found "Admin" k)
found_admin k include_deleted (some a) =
    if not include_deleted && is_some a.deleted_at then raise (not_found "Admin" k) else pure a

-- `get`
unfoldable pub get : ℕ → Bool → Action Admin
unfolding found_admin
get k include_deleted = do a ← query (get_admin k); found_admin k include_deleted a

unfoldable pub found_row : ℕ → Bool → Option AdminListRow → Action AdminListRow
found_row k include_deleted none = raise (not_found "Admin" k)
found_row k include_deleted (some r) =
    if not include_deleted && is_some r.admin.deleted_at
    then raise (not_found "Admin" k)
    else pure r

-- `get_row`
unfoldable pub get_row : ℕ → Bool → Action AdminListRow
unfolding found_row
get_row k include_deleted = do r ← query (get_list_row k); found_row k include_deleted r

-- the foreign keys of `archived_by` and `deleted_by`
abbrev pub actor_exists : Option ℕ → Db → Bool
actor_exists none db = true
actor_exists (some k) db = has_principal k db

abbrev pub actors_exist : Admin → Db → Bool
actors_exist a db = actor_exists a.archived_by db && actor_exists a.deleted_by db

-- the flush of a changed admin, held to the CHECK constraints and to the foreign keys of its actors
abbrev pub save : Admin → Action (Unit {0})
save a = write_checked (λ db. admin_checks a && actors_exist a db) (save_admin a)

abbrev pub new_admin : ℕ → ℕ → String → String → String → AdminRole → Bool → Admin
new_admin id principal_id username name password_hash admin_role is_protected = record {
  id = id;
  principal_id = principal_id;
  role = 1;
  username = username;
  name = name;
  password_hash = password_hash;
  admin_role = admin_role_value admin_role;
  is_protected = is_protected;
  archived_at = none;
  archived_by = none;
  deleted_at = none;
  deleted_by = none;
}

-- `is_initial_admin_username`
abbrev pub is_initial_admin_username : Env → String → Bool
is_initial_admin_username env u =
    not (str_eq env.initial_admin_username "")
    && str_eq u (normalize_username env env.initial_admin_username)

-- the `try` block of `create`, on the normalised username
unfoldable pub insert_admin : Env → String → String → String → AdminRole → Bool → Action Admin
insert_admin env u name password admin_role is_protected = do
  principal_id ← query (λ db. db.next_principal)
  write (create_principal Role.admin)
  admin ← query (λ db.
      new_admin db.next_admin principal_id u name (env.hash_password password) admin_role
        is_protected)
  write_checked (admin_allowed admin) (add_admin admin)
  commit
  pure admin

-- `create`
unfoldable pub create : Env → String → String → String → AdminRole → Bool → Action Admin
create env username name password admin_role is_protected = do
  let u = normalize_username env username
  raise_if (not (username_matches u)) (bad_request "username")
  raise_if (is_initial_admin_username env u) (conflict "username")
  taken ← query (get_by_username u)
  raise_if (is_some taken) (conflict "username")
  rollback_on_error (insert_admin env u name password admin_role is_protected)

abbrev pub is_other : Option ℕ → ℕ → Bool
is_other none k = false
is_other (some actor) k = not (actor == k)

abbrev pub is_self : Option ℕ → ℕ → Bool
is_self none k = false
is_self (some actor) k = actor == k

-- `_guard_protected_target`
abbrev pub guard_protected_target : Admin → Option ℕ → Action (Unit {0})
guard_protected_target target actor =
    raise_if (target.is_protected && is_other actor target.principal_id)
      (forbidden "cannot modify the protected root admin")

-- `update`
unfoldable pub update : ℕ → String → ℕ → Action Admin
unfolding get
update k name actor = do
  admin ← get k false
  guard_protected_target admin (some actor)
  let admin' = record admin { name = name }
  save admin'
  commit
  pure admin'

-- `change_password`
unfoldable pub change_password : Env → ℕ → String → String → Action (Unit {0})
unfolding get
change_password env k current_password new_password = do
  admin ← get k false
  raise_if (not (env.verify_password current_password admin.password_hash))
      (unauthorized "Invalid credentials")
  raise_if (env.verify_password new_password admin.password_hash)
      (bad_request "New password must differ from the current password")
  let admin' = record admin { password_hash = env.hash_password new_password }
  write (revoke_all_for_principal admin.principal_id env.now)
  save admin'
  commit
  kick env (kick_principal admin.principal_id)

-- `set_admin_role` after the idempotent return
unfoldable pub change_role : Admin → AdminRole → ℕ → Action Admin
change_role admin admin_role actor = do
  raise_if (admin.is_protected && not (is_root admin_role))
      (business_rule "cannot demote the protected root admin")
  raise_if (actor == admin.principal_id && ltb admin.admin_role (admin_role_value admin_role))
      (business_rule "cannot elevate your own role")
  let admin' = record admin { admin_role = admin_role_value admin_role }
  save admin'
  commit
  pure admin'

-- `set_admin_role`
unfoldable pub set_admin_role : ℕ → AdminRole → ℕ → Action Admin
unfolding get change_role
set_admin_role k admin_role actor = do
  admin ← get k false
  guard_protected_target admin (some actor)
  if admin.admin_role == admin_role_value admin_role
      then pure admin
      else change_role admin admin_role actor

-- `_guard_transition`, with the gerund and the infinitive of its messages
abbrev pub guard_transition : Admin → Option ℕ → String → String → String → Action (Unit {0})
guard_transition admin actor on_root on_super on_self = do
  guard_protected_target admin actor
  raise_if admin.is_protected (business_rule on_root)
  raise_if (admin.admin_role == admin_role_value super_admin) (business_rule on_super)
  raise_if (is_self actor admin.principal_id) (business_rule on_self)

-- `archive` of an admin that is not archived yet
unfoldable pub archive_active : Env → Admin → Option ℕ → Action Admin
archive_active env admin actor = do
  guard_transition admin actor "cannot archive the protected root admin"
      "demote before archiving a super admin" "cannot archive yourself"
  let admin' = record admin { archived_at = some env.now; archived_by = actor }
  write (revoke_all_for_principal admin.principal_id env.now)
  save admin'
  commit
  kick env (kick_principal admin.principal_id)
  pure admin'

-- `archive`
unfoldable pub archive : Env → ℕ → Option ℕ → Action Admin
unfolding get archive_active
archive env k actor = do
  admin ← get k false
  if is_some admin.archived_at then pure admin else archive_active env admin actor

-- `unarchive`
unfoldable pub unarchive : ℕ → Action Admin
unfolding get
unarchive k = do
  admin ← get k false
  let admin' = record admin { archived_at = none; archived_by = none }
  save admin'
  commit
  pure admin'

-- `delete`
unfoldable pub delete : Env → ℕ → Option ℕ → Action (Unit {0})
unfolding get
delete env k actor = do
  admin ← get k false
  guard_transition admin actor "cannot delete the protected root admin"
      "demote before deleting a super admin" "cannot delete yourself"
  let admin' = record admin { deleted_at = some env.now; deleted_by = actor }
  write (revoke_all_for_principal admin.principal_id env.now)
  save admin'
  commit
  kick env (kick_principal admin.principal_id)

-- `restore` of an admin that is deleted
unfoldable pub restore_deleted : Admin → Action Admin
restore_deleted admin = do
  let admin' = record admin { deleted_at = none; deleted_by = none }
  save admin'
  commit
  pure admin'

-- `restore`
unfoldable pub restore : ℕ → Action Admin
unfolding get restore_deleted
restore k = do
  admin ← get k true
  if is_some admin.deleted_at then restore_deleted admin else pure admin
