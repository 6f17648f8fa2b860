-- ===== src/Users.antt =====
-- app/services/service_user.py: the accounts of the app's own users.
pub mod Deletion
use stream_sight_backend.Prelude.{
  ℕ, Bool, true, false, not, ◌&&◌, Option, none, some, String, is_some, str_eq, ◌==◌, if◌then◌else◌,
}
use stream_sight_backend.Sql.{exists_where, update_where, delete_where}
use stream_sight_backend.Accounts.Enums.{Role, UserTier, user_tier_value}
use stream_sight_backend.Accounts.Rows.{User, user_checks, Principal, Admin, Identity, Record, Db}
use stream_sight_backend.Accounts.Errors.{not_found, conflict}
use stream_sight_backend.Accounts.World.{
  Action, pure, raise, query, write, write_checked, commit, raise_if, rollback_on_error, ◌>>=◌,
  ◌>>◌,
}
use stream_sight_backend.Repositories.RefreshTokens.{owned_by, delete_tokens}
use stream_sight_backend.Repositories.Users.{
  email_is, get_principal, get_user, email_exists, create_principal, new_user, user_allowed,
  add_user, save_user,
}

unfoldable pub found_user : ℕ → Option User → Action User
found_user k none = raise (not_found "User" k)
found_user k (some u) = pure u

-- `UserService.get`
unfoldable pub get : ℕ → Action User
unfolding found_user
get k = do u ← query (get_user k); found_user k u

-- `UserService.build`: principal and user, flushed and not committed
unfoldable pub build : String → String → Action User
build email name = do
  taken ← query (email_exists email)
  raise_if taken (conflict "email")
  principal_id ← query (λ db. db.next_principal)
  write (create_principal Role.user)
  user ← query (λ db. new_user db.next_user principal_id email name)
  write_checked (user_allowed user email) (add_user user)
  pure user

-- `UserService.create`
unfoldable pub create : String → String → Action User
create email name = rollback_on_error (do user ← build email name; commit; pure user)

-- A field of UserUpdate under `exclude_unset`: left out, or given, perhaps as null.
pub data Given {ℓ} (A : Type ℓ) : Type ℓ where
  unset : Given A
  given : Option A → Given A

pub record UserUpdate : Type 0 where
  pub email : Given String
  pub name : Given String
  pub is_active : Given Bool

abbrev pub email_same : Option String → Option String → Bool
email_same none none = true
email_same none (some b) = false
email_same (some a) none = false
email_same (some a) (some b) = str_eq a b

-- `email_exists` of a value that may be null: `email IS NULL`
abbrev pub email_taken : Option String → Db → Bool
email_taken none db = exists_where (λ (u : User). not (is_some u.email)) db.users
email_taken (some e) db = email_exists e db

-- the test before an update that changes the email
unfoldable pub email_clash : Given String → User → Db → Bool
email_clash unset u db = false
email_clash (given e) u db = not (email_same e u.email) && email_taken e db

abbrev pub with_email : Given String → User → User
with_email unset u = u
with_email (given e) u = record u { email = e }

-- `setattr` of a NOT NULL column: a null is refused by the flush
abbrev pub with_name : Given String → User → Option User
with_name unset u = some u
with_name (given none) u = none
with_name (given (some n)) u = some (record u { name = n })

abbrev pub with_is_active : Given Bool → Option User → Option User
with_is_active g none = none
with_is_active unset (some u) = some u
with_is_active (given none) (some u) = none
with_is_active (given (some b)) (some u) = some (record u { is_active = b })

unfoldable pub apply_updates : UserUpdate → User → Option User
apply_updates p u = with_is_active p.is_active (with_name p.name (with_email p.email u))

-- UNIQUE(email) against the other users, and the checks
unfoldable pub save_allowed : Option User → Db → Bool
save_allowed none db = false
save_allowed (some u) db = user_checks u && elim u.email [
  | none ↦ true
  | some e ↦ not (exists_where (λ (x : User). not (x.id == u.id) && email_is e x) db.users)
]

unfoldable pub save : Option User → Db → Db
save none db = db
save (some u) db = save_user u db

unfoldable pub saved : User → Option User → User
saved u none = u
saved u (some v) = v

-- `UserService.update`
unfoldable pub update : ℕ → UserUpdate → Action User
unfolding saved
update k p = do
  user ← get k
  clash ← query (email_clash p.email user)
  raise_if clash (conflict "email")
  rollback_on_error (do
    write_checked (save_allowed (apply_updates p user)) (save (apply_updates p user))
    commit
    pure (saved user (apply_updates p user)))

-- `UserService.set_tier`
unfoldable pub set_tier : ℕ → UserTier → Action User
set_tier k tier = do
  user ← get k
  let user' = record user { user_tier = user_tier_value tier }
  rollback_on_error
      (do write_checked (λ _. user_checks user') (save_user user'); commit; pure user')

abbrev pub names : ℕ → Option ℕ → Bool
names k none = false
names k (some j) = j == k

-- ON DELETE SET NULL of `archived_by` and `deleted_by`
abbrev pub without_actor : ℕ → Admin → Admin
without_actor k a = record a {
  archived_by = if names k a.archived_by then none else a.archived_by;
  deleted_by = if names k a.deleted_by then none else a.deleted_by;
}

-- ON DELETE RESTRICT of the records of an admin that the DELETE of its principal would remove
unfoldable pub delete_allowed : ℕ → Db → Bool
delete_allowed k db = not (
    exists_where (λ (a : Admin). a.principal_id == k) db.admins
    && exists_where (λ (r : Record). r.created_by_principal_id == k) db.records)

-- DELETE of a principal, with ON DELETE CASCADE to users, identities, admins and refresh tokens,
-- and with the references to deleted rows set to null
unfoldable pub delete_principal : ℕ → Db → Db
delete_principal k db = record db {
  principals = delete_where (λ (p : Principal). p.id == k) db.principals;
  users = delete_where (λ (u : User). u.principal_id == k) db.users;
  admins =
      update_where (λ _. true) (without_actor k)
        (delete_where (λ (a : Admin). a.principal_id == k) db.admins);
  identities =
      delete_where
        (λ (i : Identity).
          exists_where (λ (u : User). u.id == i.user_id && u.principal_id == k) db.users)
        db.identities;
  refresh_tokens = delete_tokens (owned_by k) db.refresh_tokens;
}

unfoldable pub delete_found : Option Principal → Action (Unit {0})
delete_found none = pure tt
delete_found (some p) = write_checked (delete_allowed p.id) (delete_principal p.id)

-- `UserService.delete`
unfoldable pub delete : ℕ → Action (Unit {0})
delete k = do
  user ← get k
  principal ← query (get_principal user.principal_id)
  rollback_on_error (do delete_found principal; commit; pure tt)
