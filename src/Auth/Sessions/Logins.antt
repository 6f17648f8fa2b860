-- ===== src/Auth/Sessions/Logins.antt =====
-- app/services/service_auth.py: what `login` and `admin_login` refuse.
use stream_sight_backend.Prelude.{ℕ, ◌≡◌, Bool, false, ◌&&◌, Option, none, some, String, arith}
use stream_sight_backend.Accounts.Enums.{Role}
use stream_sight_backend.Accounts.Rows.{User, Admin, admin_is_active, Identity, Db}
use stream_sight_backend.Accounts.Errors.{err}
use stream_sight_backend.Accounts.World.{World, Env, request}
use stream_sight_backend.Repositories.Users.{get_by_email, get_by_user_and_provider}
use stream_sight_backend.Repositories.Admins.{get_by_username}
use stream_sight_backend.Auth.Sessions.{
  login, login_checked, admin_login, admin_login_checked, bad_login, bad_admin_login, access_token,
  password_provider, TokenPayload,
}

-- The account has this email, is active and has a password that verifies.
abbrev pub password_accepts : Env → Option Identity → String → Bool
password_accepts env none password = false
password_accepts env (some i) password = env.verify_password password i.credential

abbrev pub account_accepts : Env → Option User → String → Db → Bool
account_accepts env none password db = false
account_accepts env (some u) password db =
    u.is_active
    && password_accepts env (get_by_user_and_provider u.id password_provider db) password

abbrev pub admin_accepts : Env → Option Admin → String → Bool
admin_accepts env none password = false
admin_accepts env (some a) password =
    admin_is_active a && env.verify_password password a.password_hash

abbrev pub session_tokens : Env → ℕ → Role → ℕ → TokenPayload
session_tokens env principal_id role grade = record {
  access_token = access_token env principal_id role grade env.family;
  refresh_token = env.plaintext;
}

module _ (env : Env) (w : World) where
  -- A login that is not accepted, for whichever reason (no such account, no password identity, a
  -- wrong password, an inactive account), is answered by one and the same 401 and writes nothing.
  pub login_rejects :
      (email password : String)
      → account_accepts env (get_by_email email w.committed) password w.committed ≡ false
      → request (login env email password) w ≡ (err bad_login, record w { session = w.committed })
  unfolding login login_checked
  login_rejects email password h = ground arith

  -- An admin's login that is not accepted (no such admin, a wrong password, an archived or deleted
  -- admin) is answered by one and the same 401 and writes nothing.
  admin_login_rejects :
      (username password : String)
      → admin_accepts env (get_by_username username w.committed) password ≡ false
      → request (admin_login env username password) w
        ≡ (err bad_admin_login, record w { session = w.committed })
  unfolding admin_login admin_login_checked
  admin_login_rejects username password h = ground arith
