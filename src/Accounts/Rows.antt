-- ===== src/Accounts/Rows.antt =====
-- app/models: one record for each table of accounts and of records, and the CHECK constraints of the
-- tables.
-- `updated_at`, and `created_at` but for records, which no operation of these services reads, are
-- left out.
-- A timestamp is a number of microseconds; NULL is `none`.
use stream_sight_backend.Prelude.{ℕ, Bool, not, ◌&&◌, ◌||◌, Option, List, String, is_some, ◌==◌}

-- principals: the common parent of users and admins
pub record Principal : Type 0 where
  pub id : ℕ
  pub role : ℕ

abbrev pub principal_checks : Principal → Bool
principal_checks p = p.role == 0 || p.role == 1

pub record User : Type 0 where
  pub id : ℕ
  pub principal_id : ℕ
  pub role : ℕ
  pub email : Option String
  pub name : String
  pub is_active : Bool
  pub user_tier : ℕ

abbrev pub user_checks : User → Bool
user_checks u = u.role == 0 && (u.user_tier == 0 || u.user_tier == 5)

pub record Admin : Type 0 where
  pub id : ℕ
  pub principal_id : ℕ
  pub role : ℕ
  pub username : String
  pub name : String
  pub password_hash : String
  pub admin_role : ℕ
  pub is_protected : Bool
  pub archived_at : Option ℕ
  pub archived_by : Option ℕ
  pub deleted_at : Option ℕ
  pub deleted_by : Option ℕ

-- the property `Admin.is_active`
abbrev pub admin_is_active : Admin → Bool
admin_is_active a = not (is_some a.archived_at) && not (is_some a.deleted_at)

abbrev pub admin_checks : Admin → Bool
admin_checks a =
    a.role == 1
    && (a.admin_role == 0 || a.admin_role == 50 || a.admin_role == 100 || a.admin_role == 999)
    && (not a.is_protected || a.admin_role == 999)
    && (not a.is_protected || admin_is_active a)

pub record Identity : Type 0 where
  pub id : ℕ
  pub user_id : ℕ
  pub provider : String
  pub provider_user_id : Option String
  pub credential : String

pub record RefreshToken : Type 0 where
  pub id : ℕ
  pub principal_id : ℕ
  pub token_hash : String
  pub family_id : String
  pub expires_at : ℕ
  pub revoked_at : Option ℕ
  pub replaced_by_id : Option ℕ

-- record_categories
pub record RecordCategory : Type 0 where
  pub id : ℕ
  pub name : String
  pub label : String
  pub sort_order : ℕ
  pub is_active : Bool

-- records: a finite double is held by its place in the order of the doubles
pub record Record : Type 0 where
  pub id : ℕ
  pub title : String
  pub value : ℕ
  pub category_id : ℕ
  pub created_by_principal_id : ℕ
  pub note : String
  pub created_at : ℕ
  pub deleted_at : Option ℕ

-- The tables, each with the next value of its autoincrement key.
pub record Db : Type 0 where
  pub principals : List Principal
  pub users : List User
  pub admins : List Admin
  pub identities : List Identity
  pub refresh_tokens : List RefreshToken
  pub next_principal : ℕ
  pub next_user : ℕ
  pub next_admin : ℕ
  pub next_identity : ℕ
  pub next_refresh_token : ℕ
  pub record_categories : List RecordCategory
  pub records : List Record
  pub next_record : ℕ
