-- ===== src/Admins/Bootstrap.antt =====
-- app/services/service_initial_admin.py: the root admin that the application creates at startup.
pub mod SeedOnce
use stream_sight_backend.Prelude.{
  ℕ, Bool, true, false, not, ◌&&◌, ◌||◌, Option, none, some, String, str_eq, if◌then◌else◌,
}
use stream_sight_backend.Accounts.Enums.{Role, root}
use stream_sight_backend.Accounts.Rows.{Admin, Db}
use stream_sight_backend.Accounts.Errors.{Error, Result, ok, err, integrity_error, runtime_error}
use stream_sight_backend.Accounts.World.{
  World, Env, Action, pure, raise, query, write, write_checked, commit, raise_if, ◌>>=◌, ◌>>◌,
}
use stream_sight_backend.Accounts.Policy.{
  normalize_username, username_matches, password_valid, name_valid,
}
use stream_sight_backend.Repositories.Users.{create_principal}
use stream_sight_backend.Repositories.Admins.{protected_root_exists, admin_allowed, add_admin}
use stream_sight_backend.Admins.Service.{new_admin}

-- one of the three settings is empty
abbrev pub settings_missing : Env → Bool
settings_missing env =
    str_eq (normalize_username env env.initial_admin_username) ""
    || str_eq env.initial_admin_password ""
    || str_eq env.initial_admin_name ""

-- `_validate_admin_fields`
abbrev pub settings_invalid : Env → Bool
settings_invalid env = not (
    username_matches (normalize_username env env.initial_admin_username)
    && password_valid env.initial_admin_password
    && name_valid env.initial_admin_name)

-- the body of the `try`
unfoldable pub seed_root : Env → Action (Unit {0})
seed_root env = do
  principal_id ← query (λ db. db.next_principal)
  write (create_principal Role.admin)
  admin ← query (λ db.
      new_admin db.next_admin principal_id (normalize_username env env.initial_admin_username)
        env.initial_admin_name (env.hash_password env.initial_admin_password) root true)
  write_checked (admin_allowed admin) (add_admin admin)
  commit

-- `except IntegrityError: await session.rollback()`
abbrev pub swallow_integrity : Result (Unit {0}) → World → Result (Unit {0}) × World
swallow_integrity (ok a) w = (ok a, w)
swallow_integrity (err integrity_error) w = (ok tt, record w { session = w.committed })
swallow_integrity (err e) w = (err e, w)

-- `ensure_initial_admin`
unfoldable pub ensure_initial_admin : Env → Action (Unit {0})
unfolding seed_root
ensure_initial_admin env = do
  raise_if (settings_missing env) (runtime_error "admin credentials are required")
  raise_if (settings_invalid env) (runtime_error "initial admin config invalid")
  exists ← query protected_root_exists
  if exists then pure tt else (λ w. let (r, w') = seed_root env w in swallow_integrity r w')
