-- ===== src/Auth/Access.antt =====
-- app/services/service_auth.py: access tokens resolved to the principal, the user or the admin
-- that they stand for; and the dependencies of app/api/dependencies/auth.py, which guard routes.
pub mod Tokens
use stream_sight_backend.Prelude.{
  ℕ, Bool, true, false, ◌||◌, Option, none, some, List, [], ◌∷◌, String, str_eq, ltb, ◌==◌,
  if◌then◌else◌, not,
}
use stream_sight_backend.Accounts.Enums.{
  Role, role_value, is_user, AdminRole, admin_role_value, UserTier, user_tier_value,
}
use stream_sight_backend.Accounts.Rows.{User, Admin, admin_is_active}
use stream_sight_backend.Accounts.Errors.{Error, unauthorized, forbidden}
use stream_sight_backend.Accounts.Claims.{
  Payload, Subject, decimal, malformed, Decoded, decoded, expired, invalid, extract_role,
  extract_sid,
}
use stream_sight_backend.Accounts.World.{Env, Action, pure, raise, query, raise_if, ◌>>=◌, ◌>>◌}
use stream_sight_backend.Repositories.Users.{get_user_by_principal_id}
use stream_sight_backend.Repositories.Admins.{get_admin_by_principal_id}

-- `CurrentPrincipal`
pub record CurrentPrincipal : Type 0 where
  pub id : ℕ
  pub role : Role

unfoldable pub subject_of : Payload → Option Subject → Action CurrentPrincipal
subject_of p none = raise (unauthorized "Invalid token subject")
subject_of p (some malformed) = raise (unauthorized "Invalid token subject")
subject_of p (some (decimal n)) = pure (record { id = n; role = extract_role p.role })

abbrev pub type_is : String → Option String → Bool
type_is t none = false
type_is t (some s) = str_eq s t

unfoldable pub decode_payload : Decoded → Action CurrentPrincipal
unfolding subject_of
decode_payload expired = raise (unauthorized "Token has expired")
decode_payload invalid = raise (unauthorized "Invalid token")
decode_payload (decoded p) =
    if type_is "access" p.type
    then subject_of p p.sub
    else raise (unauthorized "Invalid token type")

-- `_decode_access`, which is `get_principal_from_token` too: no read of the database
unfoldable pub decode_access : Env → String → Action CurrentPrincipal
unfolding decode_payload
decode_access env token = decode_payload (env.jwt_decode env.now token)

abbrev pub inactive_user : Error
inactive_user = unauthorized "User not found or inactive"

unfoldable pub active_user : Option User → Action User
active_user none = raise inactive_user
active_user (some u) = if u.is_active then pure u else raise inactive_user

-- `get_user_from_token`
unfoldable pub get_user_from_token : Env → String → Action User
unfolding decode_access active_user
get_user_from_token env token = do
  principal ← decode_access env token
  raise_if (not (is_user principal.role)) (forbidden "User role required")
  user ← query (get_user_by_principal_id principal.id)
  active_user user

abbrev pub inactive_admin : Error
inactive_admin = unauthorized "Admin not found or inactive"

unfoldable pub active_admin : Option Admin → Action Admin
active_admin none = raise inactive_admin
active_admin (some a) = if admin_is_active a then pure a else raise inactive_admin

-- `get_admin_from_token`
unfoldable pub get_admin_from_token : Env → String → Action Admin
unfolding decode_access active_admin
get_admin_from_token env token = do
  principal ← decode_access env token
  raise_if (is_user principal.role) (forbidden "Admin role required")
  admin ← query (get_admin_by_principal_id principal.id)
  active_admin admin

-- `require_min_admin_role(minimum)`
unfoldable pub require_min_admin_role : AdminRole → Env → String → Action Admin
require_min_admin_role minimum env token = do
  admin ← get_admin_from_token env token
  raise_if (ltb admin.admin_role (admin_role_value minimum)) (forbidden "insufficient admin role")
  pure admin

-- `require_min_tier(minimum)`
unfoldable pub require_min_tier : UserTier → Env → String → Action User
require_min_tier minimum env token = do
  user ← get_user_from_token env token
  raise_if (ltb user.user_tier (user_tier_value minimum)) (forbidden "tier required")
  pure user

abbrev pub mem_role : Role → List Role → Bool
mem_role r [] = false
mem_role r (s ∷ roles) = role_value r == role_value s || mem_role r roles

-- `require_role(*roles)`
unfoldable pub require_role : List Role → Env → String → Action CurrentPrincipal
require_role roles env token = do
  principal ← decode_access env token
  raise_if (not (mem_role principal.role roles)) (forbidden "Insufficient role")
  pure principal

abbrev pub sid_of : Decoded → Option String
sid_of (decoded p) = extract_sid p
sid_of expired = none
sid_of invalid = none

-- `get_current_token_sid`
unfoldable pub get_current_token_sid : Env → String → Option String
get_current_token_sid env token = sid_of (env.jwt_decode env.now token)
