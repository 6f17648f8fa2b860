-- ===== src/Admins/Bootstrap/SeedOnce.antt =====
-- app/services/service_initial_admin.py: `ensure_initial_admin` on its branches.
use stream_sight_backend.Prelude.{
  ◌≡◌, refl, true, false, ◌||◌, [], ◌∷◌, String, arith, Bool-cases, inl, inr,
}
use stream_sight_backend.Sql.{count_where}
use stream_sight_backend.Sql.Laws.{count_where-append}
use stream_sight_backend.Accounts.Enums.{Role, root}
use stream_sight_backend.Accounts.Rows.{Admin, Db}
use stream_sight_backend.Accounts.Errors.{ok, err, runtime_error}
use stream_sight_backend.Accounts.World.{World, Env}
use stream_sight_backend.Accounts.Policy.{normalize_username}
use stream_sight_backend.Repositories.Users.{create_principal}
use stream_sight_backend.Repositories.Admins.{protected_root_exists, admin_allowed, add_admin}
use stream_sight_backend.Admins.Service.{new_admin}
use stream_sight_backend.Admins.Bootstrap.{
  ensure_initial_admin, seed_root, settings_missing, settings_invalid,
}

-- the row of the seed
abbrev pub root_row : Env → Db → Admin
root_row env db =
    new_admin db.next_admin db.next_principal (normalize_username env env.initial_admin_username)
      env.initial_admin_name (env.hash_password env.initial_admin_password) root true

-- A start-up where a protected root exists changes nothing, if the settings are valid.
pub ensure_initial_admin-idle :
    (env : Env) (w : World)
    → settings_missing env ≡ false
    → settings_invalid env ≡ false
    → protected_root_exists w.session ≡ true
    → ensure_initial_admin env w ≡ (ok tt, w)
unfolding ensure_initial_admin
ensure_initial_admin-idle env w given valid exists = ground arith

protected_root_exists-add_admin :
    (a : Admin) (db : Db) → a.is_protected ≡ true → protected_root_exists (add_admin a db) ≡ true
unfolding protected_root_exists add_admin count_where
protected_root_exists-add_admin a db p =
    ground (arith, count_where-append (λ (x : Admin). x.is_protected) db.admins (a ∷ []))

-- A start-up where none exists and the constraints take the seed commits exactly one new admin, a
-- protected one of rank ROOT, and a second start-up with the same or other valid settings leaves
-- the database as it is.
pub seeds_once :
    (env again : Env) (w : World)
    → settings_missing env ≡ false
    → settings_invalid env ≡ false
    → settings_missing again ≡ false
    → settings_invalid again ≡ false
    → protected_root_exists w.session ≡ false
    → admin_allowed (root_row env w.session) (create_principal Role.admin w.session) ≡ true
    → let db = add_admin (root_row env w.session) (create_principal Role.admin w.session) in
      let seeded = record w { committed = db; session = db } in
      (ensure_initial_admin env w ≡ (ok tt, seeded))
      × (protected_root_exists db ≡ true)
      × (ensure_initial_admin again seeded ≡ (ok tt, seeded))
unfolding ensure_initial_admin seed_root create_principal
seeds_once env again w given valid given' valid' none_yet allowed =
    let db = create_principal Role.admin w.session in
    let a = root_row env w.session in
    let exists = protected_root_exists-add_admin a db refl in
    (ground arith, exists, ground (arith, exists))

-- Missing or invalid settings stop the start-up and write nothing.
pub bad_settings_stop :
    (env : Env) (w : World)
    → settings_missing env || settings_invalid env ≡ true
    → (m : String) × (ensure_initial_admin env w ≡ (err (runtime_error m), w))
unfolding ensure_initial_admin
bad_settings_stop env w bad = elim (Bool-cases (settings_missing env)) [
  | inl missing ↦ ("admin credentials are required", ground arith)
  | inr given ↦ ("initial admin config invalid", ground arith)
]
