-- ===== src/Repositories/Users.antt =====
-- repo_user.py, repo_identity.py and repo_principal.py, with the INSERTs, UPDATEs and DELETEs of
-- their tables and the constraints of app/models/{user,identity,principal}.py.
use stream_sight_backend.Prelude.{
  ℕ, suc, Bool, true, false, not, ◌&&◌, Option, none, some, String, str_eq, ◌==◌,
}
use stream_sight_backend.Sql.{find_where, exists_where, update_where, insert_row}
use stream_sight_backend.Accounts.Enums.{Role, role_value, free, user_tier_value}
use stream_sight_backend.Accounts.Rows.{Principal, User, user_checks, Identity, Db}

-- SQL equality with a value that is not NULL
abbrev pub email_is : String → User → Bool
email_is e u = elim u.email [ none ↦ false | some x ↦ str_eq x e ]

unfoldable pub get_principal : ℕ → Db → Option Principal
get_principal k db = find_where (λ p. p.id == k) db.principals

unfoldable pub get_user : ℕ → Db → Option User
get_user k db = find_where (λ u. u.id == k) db.users

unfoldable pub get_by_email : String → Db → Option User
get_by_email e db = find_where (email_is e) db.users

unfoldable pub email_exists : String → Db → Bool
email_exists e db = exists_where (email_is e) db.users

unfoldable pub get_user_by_principal_id : ℕ → Db → Option User
get_user_by_principal_id k db = find_where (λ u. u.principal_id == k) db.users

abbrev pub has_provider : ℕ → String → Identity → Bool
has_provider user_id provider i = i.user_id == user_id && str_eq i.provider provider

unfoldable pub get_by_user_and_provider : ℕ → String → Db → Option Identity
get_by_user_and_provider user_id provider db =
    find_where (has_provider user_id provider) db.identities

-- `PrincipalRepository.create`: the key is `next_principal`
unfoldable pub create_principal : Role → Db → Db
create_principal r db = record db {
  principals = insert_row (record { id = db.next_principal; role = role_value r }) db.principals;
  next_principal = suc db.next_principal;
}

-- the composite foreign key (principal_id, role)
abbrev pub has_principal_role : ℕ → ℕ → Db → Bool
has_principal_role principal_id r db =
    exists_where (λ (p : Principal). p.id == principal_id && p.role == r) db.principals

abbrev pub new_user : ℕ → ℕ → String → String → User
new_user id principal_id email name = record {
  id = id;
  principal_id = principal_id;
  role = 0;
  email = some email;
  name = name;
  is_active = true;
  user_tier = user_tier_value free;
}

-- UNIQUE(principal_id), UNIQUE(email), the foreign key and the checks of a new user
unfoldable pub user_allowed : User → String → Db → Bool
user_allowed u email db =
    not (exists_where (λ (x : User). x.principal_id == u.principal_id) db.users)
    && not (email_exists email db)
    && has_principal_role u.principal_id u.role db
    && user_checks u

unfoldable pub add_user : User → Db → Db
add_user u db = record db { users = insert_row u db.users; next_user = suc db.next_user }

-- the flush of a changed user
unfoldable pub save_user : User → Db → Db
save_user u db = record db { users = update_where (λ x. x.id == u.id) (λ _. u) db.users }

abbrev pub new_identity : ℕ → ℕ → String → String → Identity
new_identity id user_id provider credential = record {
  id = id;
  user_id = user_id;
  provider = provider;
  provider_user_id = none;
  credential = credential;
}

-- UNIQUE(user_id, provider) and the foreign key; UNIQUE(provider, provider_user_id) lets NULL pass
unfoldable pub identity_allowed : Identity → Db → Bool
identity_allowed i db =
    not (exists_where (has_provider i.user_id i.provider) db.identities)
    && exists_where (λ (u : User). u.id == i.user_id) db.users

unfoldable pub add_identity : Identity → Db → Db
add_identity i db = record db {
  identities = insert_row i db.identities;
  next_identity = suc db.next_identity;
}
