-- ===== src/Tests/Fixtures.antt =====
-- A small database of app/models and settings of app/core/config, with stand-ins for the libraries.
use Prim.Native.Nat.{◌/◌}
use stream_sight_backend.Prelude.{
  ℕ, Option, ◌*◌, leb, true, false, none, some, [], ◌∷◌, String, str_eq, ltb, if◌then◌else◌,
}
use stream_sight_backend.Accounts.Enums.{Role}
use stream_sight_backend.Accounts.Rows.{User, Admin, RefreshToken, Db}
use stream_sight_backend.Accounts.Claims.{
  Claims, Decoded, decoded, expired, payload_of, create_access_token,
}
use stream_sight_backend.Accounts.World.{World, Env}

abbrev pub admin_claims_three : Claims
admin_claims_three = create_access_token 5000000 900 3 Role.admin (some 50) (some "family-3")

abbrev pub decode_three : ℕ → String → Decoded
decode_three now token =
    if ltb now admin_claims_three.exp then decoded (payload_of admin_claims_three) else expired

-- a column that holds even values, up to a hundred
abbrev single : ℕ → Option ℕ
single v = if leb v 100 then some (v / 2 * 2) else none

-- five seconds after the start of the clock
abbrev pub env : Env
env = record {
  refresh_token_expire_seconds = 100;
  refresh_token_reuse_grace_seconds = 1;
  jwt_access_token_expire_seconds = 900;
  now = 5000000;
  issue_now = 5000000;
  access_now = 5000000;
  purge_now = 5000000;
  plaintext = "fresh";
  family = "family-9";
  hash_refresh_token = λ s. s;
  hash_password = λ s. s;
  verify_password = str_eq;
  dummy_password_hash = "dummy";
  jwt_encode = λ c. "token";
  jwt_decode = decode_three;
  strip = λ s. s;
  lower = λ s. s;
  store_float = single;
  initial_admin_username = "root";
  initial_admin_password = "long-enough";
  initial_admin_name = "Root";
  publisher = some true;
  purge_succeeds = true;
}

-- the same settings a minute later, with other random texts
abbrev pub later : Env
later = record env {
  now = 65000000;
  issue_now = 65000000;
  access_now = 65000000;
  plaintext = "newer";
}

abbrev pub someone : User
someone = record {
  id = 1;
  principal_id = 1;
  role = 0;
  email = some "ann@example.org";
  name = "Ann";
  is_active = true;
  user_tier = 0;
}

abbrev pub root_admin : Admin
root_admin = record {
  id = 1;
  principal_id = 2;
  role = 1;
  username = "root";
  name = "Root";
  password_hash = "long-enough";
  admin_role = 999;
  is_protected = true;
  archived_at = none;
  archived_by = none;
  deleted_at = none;
  deleted_by = none;
}

abbrev pub editor : Admin
editor = record root_admin {
  id = 2;
  principal_id = 3;
  username = "ed";
  name = "Ed";
  admin_role = 50;
  is_protected = false;
}

abbrev pub active_token : RefreshToken
active_token = record {
  id = 0;
  principal_id = 1;
  token_hash = "active";
  family_id = "family-1";
  expires_at = 90000000;
  revoked_at = none;
  replaced_by_id = none;
}

abbrev pub used_token : RefreshToken
used_token = record active_token { id = 1; token_hash = "used"; revoked_at = some 1000000 }

abbrev pub editor_token : RefreshToken
editor_token = record active_token {
  id = 2;
  principal_id = 3;
  token_hash = "editors";
  family_id = "family-3";
}

abbrev pub db : Db
db = record {
  principals =
      record { id = 1; role = 0 } ∷ record { id = 2; role = 1 } ∷ record { id = 3; role = 1 } ∷ [];
  users = someone ∷ [];
  admins = root_admin ∷ editor ∷ [];
  identities =
      record {
        id = 1;
        user_id = 1;
        provider = "password";
        provider_user_id = none;
        credential = "secret";
      }
      ∷ [];
  refresh_tokens = active_token ∷ used_token ∷ editor_token ∷ [];
  next_principal = 4;
  next_user = 2;
  next_admin = 3;
  next_identity = 2;
  next_refresh_token = 3;
  record_categories =
      record { id = 1; name = "sensor"; label = "Sensor"; sort_order = 0; is_active = true }
      ∷ record { id = 2; name = "retired"; label = "Retired"; sort_order = 1; is_active = false }
      ∷ [];
  records = [];
  next_record = 1;
}

abbrev pub world : World
world = record { committed = db; session = db; kicks = [] }

abbrev pub empty_db : Db
empty_db = record {
  principals = [];
  users = [];
  admins = [];
  identities = [];
  refresh_tokens = [];
  next_principal = 1;
  next_user = 1;
  next_admin = 1;
  next_identity = 1;
  next_refresh_token = 1;
  record_categories = [];
  records = [];
  next_record = 1;
}

abbrev pub empty_world : World
empty_world = record { committed = empty_db; session = empty_db; kicks = [] }
