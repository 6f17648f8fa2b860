-- ===== src/Auth/Refresh.antt =====
-- app/services/service_auth.py: rotation of a refresh token with reuse detection, and the logouts.
pub mod Rotation
pub mod Reuse
use stream_sight_backend.Prelude.{
  ℕ, ◌+◌, Bool, true, false, not, ◌&&◌, Option, none, some, String, is_some, leb, if◌then◌else◌,
}
use stream_sight_backend.Accounts.Enums.{Role, role_of_value}
use stream_sight_backend.Accounts.Rows.{Principal, RefreshToken, Db}
use stream_sight_backend.Accounts.Errors.{Error, unauthorized, value_error}
use stream_sight_backend.Accounts.World.{
  Env, Action, seconds, pure, raise, query, write, commit, rollback, kick, kick_principal,
  kick_session, ◌>>=◌, ◌>>◌,
}
use stream_sight_backend.Repositories.RefreshTokens.{
  get_by_hash, consume, consume_wins, revoke_family, revoke_all_for_principal, set_revoked_at,
}
use stream_sight_backend.Repositories.Users.{get_principal, get_user_by_principal_id}
use stream_sight_backend.Repositories.Admins.{get_admin_by_principal_id}
use mathlib.Core.Option
use stream_sight_backend.Auth.Sessions.{
  TokenPayload, Child, user_child, admin_child, grade_of, child_is_active, access_token,
  issue_refresh_token,
}

abbrev pub invalid_refresh_token : Error
invalid_refresh_token = unauthorized "Invalid refresh token"

abbrev pub refresh_token_expired : Error
refresh_token_expired = unauthorized "Refresh token expired"

abbrev pub inactive_owner : Error
inactive_owner = unauthorized "User not found or inactive"

-- `_load_active_child`
abbrev pub load_active_child : Role → ℕ → Db → Option Child
load_active_child Role.user k db = Option.map user_child (get_user_by_principal_id k db)
load_active_child Role.admin k db = Option.map admin_child (get_admin_by_principal_id k db)

-- step 5 of `refresh`: the new token is issued, then the old one is consumed
unfoldable pub consume_token : Env → RefreshToken → Role → Child → Action TokenPayload
unfolding issue_refresh_token
consume_token env rt role child = do
  new_row ← issue_refresh_token env rt.principal_id rt.family_id
  won ← query (consume_wins rt.id)
  write (consume rt.id env.now (some new_row.id))
  if won
      then (do
        commit
        pure (record {
          access_token = access_token env rt.principal_id role (grade_of child) rt.family_id;
          refresh_token = env.plaintext;
        }))
      else (do rollback; raise invalid_refresh_token)

-- the second test of step 4
unfoldable pub rotate_child : Env → RefreshToken → Role → Option Child → Action TokenPayload
rotate_child env rt role none = raise inactive_owner
rotate_child env rt role (some child) =
    if child_is_active child then consume_token env rt role child else raise inactive_owner

-- `Role(principal.role)`, which raises ValueError out of the domain, and the read of the child
unfoldable pub rotate_role : Env → RefreshToken → Option Role → Action TokenPayload
rotate_role env rt none = raise value_error
rotate_role env rt (some role) = do
  child ← query (load_active_child role rt.principal_id)
  rotate_child env rt role child

-- the first test of step 4
unfoldable pub rotate_owner : Env → RefreshToken → Option Principal → Action TokenPayload
rotate_owner env rt none = raise inactive_owner
rotate_owner env rt (some p) = rotate_role env rt (role_of_value p.role)

-- steps 3 and 4
unfoldable pub rotate : Env → RefreshToken → Action TokenPayload
rotate env rt =
    if leb rt.expires_at env.now
    then raise refresh_token_expired
    else (do principal ← query (get_principal rt.principal_id); rotate_owner env rt principal)

-- step 2, for a token revoked at `at`; `now - at <= grace` on signed time spans
unfoldable pub reused : Env → RefreshToken → ℕ → Action TokenPayload
reused env rt at =
    if leb env.now (at + seconds env.refresh_token_reuse_grace_seconds)
    then raise invalid_refresh_token
    else (do write (revoke_family rt.family_id env.now); commit; raise invalid_refresh_token)

unfoldable pub refresh_revoked : Env → RefreshToken → Option ℕ → Action TokenPayload
refresh_revoked env rt (some at) = reused env rt at
refresh_revoked env rt none = rotate env rt

unfoldable pub refresh_found : Env → Option RefreshToken → Action TokenPayload
refresh_found env none = raise invalid_refresh_token
refresh_found env (some rt) = refresh_revoked env rt rt.revoked_at

-- `refresh`
unfoldable pub refresh : Env → String → Action TokenPayload
refresh env token = do rt ← query (get_by_hash (env.hash_refresh_token token)); refresh_found env rt

unfoldable pub logout_found : Env → Option RefreshToken → Action (Unit {0})
logout_found env none = pure tt
logout_found env (some rt) =
    if is_some rt.revoked_at
    then pure tt
    else (do write (set_revoked_at rt.id env.now); commit; kick env (kick_session rt.family_id))

-- `logout`
unfoldable pub logout : Env → String → Action (Unit {0})
unfolding logout_found
logout env token = do rt ← query (get_by_hash (env.hash_refresh_token token)); logout_found env rt

-- `logout_all`
unfoldable pub logout_all : Env → ℕ → Action (Unit {0})
logout_all env principal_id = do
  write (revoke_all_for_principal principal_id env.now)
  commit
  kick env (kick_principal principal_id)
