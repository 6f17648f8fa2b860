-- ===== src/Auth/Sessions.antt =====
-- app/services/service_auth.py: registration and the logins, which open a session: an access token
-- and the first refresh token of a family.
pub mod Logins
pub mod Registration
use stream_sight_backend.Prelude.{
  ℕ, ◌+◌, Bool, true, false, not, ◌&&◌, Option, none, some, String, is_some, str_eq, leb,
  if◌then◌else◌,
}
use stream_sight_backend.Accounts.Enums.{Role, role_of_value}
use stream_sight_backend.Accounts.Rows.{
  Principal, User, Admin, admin_is_active, Identity, RefreshToken, Db,
}
use stream_sight_backend.Accounts.Errors.{Error, unauthorized, forbidden}
use stream_sight_backend.Accounts.Claims.{
  Payload, Subject, decimal, malformed, Decoded, decoded, expired, invalid, create_access_token,
  extract_role,
}
use stream_sight_backend.Accounts.World.{
  World, Env, Action, seconds, pure, raise, query, write, write_checked, commit, rollback, raise_if,
  rollback_on_error, kick, kick_principal, kick_session, ◌>>=◌, ◌>>◌,
}
use stream_sight_backend.Repositories.RefreshTokens.{
  get_by_hash, consume, consume_wins, revoke_family, revoke_all_for_principal, set_revoked_at,
  delete_expired, refresh_token_allowed, new_refresh_token, add_refresh_token,
}
use stream_sight_backend.Repositories.Users.{
  get_principal, get_by_email, get_user_by_principal_id, get_by_user_and_provider, new_identity,
  identity_allowed, add_identity,
}
use stream_sight_backend.Repositories.Admins.{get_by_username, get_admin_by_principal_id}
use stream_sight_backend.Users.{build}

abbrev pub password_provider : String
password_provider = "password"

pub record TokenPayload : Type 0 where
  pub access_token : String
  pub refresh_token : String

-- A child of a principal: the row of a user or of an admin.
pub data Child : Type 0 where
  user_child : User → Child
  admin_child : Admin → Child

-- `_grade_of`
abbrev pub grade_of : Child → ℕ
grade_of (user_child u) = u.user_tier
grade_of (admin_child a) = a.admin_role

abbrev pub child_is_active : Child → Bool
child_is_active (user_child u) = u.is_active
child_is_active (admin_child a) = admin_is_active a

abbrev pub role_of : Child → Role
role_of (user_child u) = Role.user
role_of (admin_child a) = Role.admin

-- the access token of a child under a session id
abbrev pub access_token : Env → ℕ → Role → ℕ → String → String
access_token env principal_id role grade sid = env.jwt_encode (
    create_access_token env.access_now env.jwt_access_token_expire_seconds principal_id role
      (some grade) (some sid))

-- the row that `_issue_refresh_token` adds
abbrev pub issued_row : Env → ℕ → String → Db → RefreshToken
issued_row env principal_id family_id db =
    new_refresh_token db.next_refresh_token principal_id (env.hash_refresh_token env.plaintext)
      family_id (env.issue_now + seconds env.refresh_token_expire_seconds)

abbrev pub issued : Env → ℕ → String → Db → Db
issued env principal_id family_id =
    add_refresh_token principal_id (env.hash_refresh_token env.plaintext) family_id
      (env.issue_now + seconds env.refresh_token_expire_seconds)

-- `_issue_refresh_token`, which leaves the commit to its caller; it returns the row, and the
-- plaintext is `env.plaintext`
unfoldable pub issue_refresh_token : Env → ℕ → String → Action RefreshToken
issue_refresh_token env principal_id family_id = do
  row ← query (issued_row env principal_id family_id)
  write_checked (refresh_token_allowed principal_id (env.hash_refresh_token env.plaintext))
      (issued env principal_id family_id)
  pure row

-- `_purge_expired_best_effort`
unfoldable pub purge_expired_best_effort : Env → Action (Unit {0})
purge_expired_best_effort env =
    if env.purge_succeeds then (do write (delete_expired env.purge_now); commit) else rollback

-- steps 3 to 5 of `register`, for the user that was built
unfoldable pub register_user : Env → User → String → Action TokenPayload
unfolding issue_refresh_token
register_user env user password = do
  identity ←
      query
        (λ db. new_identity db.next_identity user.id password_provider (env.hash_password password))
  write_checked (identity_allowed identity) (add_identity identity)
  row ← issue_refresh_token env user.principal_id env.family
  commit
  pure (record {
    access_token = access_token env user.principal_id Role.user user.user_tier env.family;
    refresh_token = env.plaintext;
  })

-- `register`
unfoldable pub register : Env → String → String → String → Action TokenPayload
register env email name password =
    rollback_on_error (do user ← build email name; register_user env user password)

-- `verify_password_or_dummy`
abbrev pub verify_password_or_dummy : Env → Option String → String → Bool
verify_password_or_dummy env none plain = env.verify_password plain env.dummy_password_hash
verify_password_or_dummy env (some h) plain = env.verify_password plain h

-- the tokens of a session that begins, committed
unfoldable pub open_session : Env → Child → ℕ → Action TokenPayload
unfolding issue_refresh_token
open_session env child principal_id = do
  row ← issue_refresh_token env principal_id env.family
  commit
  pure (record {
    access_token = access_token env principal_id (role_of child) (grade_of child) env.family;
    refresh_token = env.plaintext;
  })

abbrev pub bad_login : Error
bad_login = unauthorized "Invalid email or password"

-- the tests of `login`, and what follows when they pass
unfoldable pub login_checked : Env → Option User → Option Identity → Bool → Action TokenPayload
login_checked env (some u) (some i) true =
    if u.is_active
    then (do
      tokens ← open_session env (user_child u) u.principal_id
      purge_expired_best_effort env
      pure tokens)
    else raise bad_login
login_checked env _ _ _ = raise bad_login

abbrev pub identity_of : Option User → Db → Option Identity
identity_of none db = none
identity_of (some u) db = get_by_user_and_provider u.id password_provider db

abbrev pub credential_of : Option Identity → Option String
credential_of none = none
credential_of (some i) = some i.credential

-- `login`
unfoldable pub login : Env → String → String → Action TokenPayload
login env email password = do
  user ← query (get_by_email email)
  identity ← query (identity_of user)
  login_checked env user identity (verify_password_or_dummy env (credential_of identity) password)

abbrev pub bad_admin_login : Error
bad_admin_login = unauthorized "Invalid username or password"

unfoldable pub admin_login_checked : Env → Option Admin → Bool → Action TokenPayload
admin_login_checked env (some a) true =
    if admin_is_active a
    then open_session env (admin_child a) a.principal_id
    else raise bad_admin_login
admin_login_checked env _ _ = raise bad_admin_login

abbrev pub password_hash_of : Option Admin → Option String
password_hash_of none = none
password_hash_of (some a) = some a.password_hash

-- `admin_login`; the username comes normalised
unfoldable pub admin_login : Env → String → String → Action TokenPayload
admin_login env username password = do
  admin ← query (get_by_username username)
  admin_login_checked env admin (verify_password_or_dummy env (password_hash_of admin) password)
