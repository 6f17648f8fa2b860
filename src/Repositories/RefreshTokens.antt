-- ===== src/Repositories/RefreshTokens.antt =====
-- app/repositories/repo_refresh_token.py, and the INSERT of a refresh token with the constraints
-- of app/models/refresh_token.py.
pub mod Laws
use stream_sight_backend.Prelude.{
  ℕ, suc, Bool, false, not, ◌&&◌, Option, none, some, List, String, is_some, str_eq, ltb, leb, ◌==◌,
}
use stream_sight_backend.Sql.{
  find_where, exists_where, count_where, update_where, delete_where, insert_row,
}
use stream_sight_backend.Accounts.Rows.{Principal, RefreshToken, Db}

abbrev pub is_unrevoked : RefreshToken → Bool
is_unrevoked t = not (is_some t.revoked_at)

-- unrevoked and not yet expired
abbrev pub is_live : ℕ → RefreshToken → Bool
is_live now t = is_unrevoked t && ltb now t.expires_at

abbrev pub in_family : String → RefreshToken → Bool
in_family family_id t = str_eq t.family_id family_id

abbrev pub has_hash : String → RefreshToken → Bool
has_hash h t = str_eq t.token_hash h

abbrev pub owned_by : ℕ → RefreshToken → Bool
owned_by principal_id t = t.principal_id == principal_id

unfoldable pub has_live_tokens_in_family : String → ℕ → Db → Bool
has_live_tokens_in_family family_id now db =
    exists_where (λ t. in_family family_id t && is_live now t) db.refresh_tokens

unfoldable pub get_by_hash : String → Db → Option RefreshToken
get_by_hash h db = find_where (has_hash h) db.refresh_tokens

abbrev pub set_revoked : ℕ → RefreshToken → RefreshToken
set_revoked at t = record t { revoked_at = some at }

abbrev pub set_consumed : ℕ → Option ℕ → RefreshToken → RefreshToken
set_consumed at new t = record t { revoked_at = some at; replaced_by_id = new }

abbrev pub is_active_id : ℕ → RefreshToken → Bool
is_active_id k t = t.id == k && is_unrevoked t

-- the row count of `consume` is 1
unfoldable pub consume_wins : ℕ → Db → Bool
consume_wins token_id db = count_where (is_active_id token_id) db.refresh_tokens == 1

unfoldable pub consume : ℕ → ℕ → Option ℕ → Db → Db
consume token_id at new db = record db {
  refresh_tokens = update_where (is_active_id token_id) (set_consumed at new) db.refresh_tokens;
}

abbrev pub is_active_in : String → RefreshToken → Bool
is_active_in family_id t = in_family family_id t && is_unrevoked t

unfoldable pub revoke_family : String → ℕ → Db → Db
revoke_family family_id at db = record db {
  refresh_tokens = update_where (is_active_in family_id) (set_revoked at) db.refresh_tokens;
}

abbrev pub is_active_of : ℕ → RefreshToken → Bool
is_active_of principal_id t = owned_by principal_id t && is_unrevoked t

unfoldable pub revoke_all_for_principal : ℕ → ℕ → Db → Db
revoke_all_for_principal principal_id at db = record db {
  refresh_tokens = update_where (is_active_of principal_id) (set_revoked at) db.refresh_tokens;
}

-- the flush of `rt.revoked_at = now`
unfoldable pub set_revoked_at : ℕ → ℕ → Db → Db
set_revoked_at token_id at db = record db {
  refresh_tokens = update_where (λ t. t.id == token_id) (set_revoked at) db.refresh_tokens;
}

-- the token that `replaced_by_id` names is among the deleted ones
abbrev pub link_deleted : (RefreshToken → Bool) → List RefreshToken → RefreshToken → Bool
link_deleted p l t = elim t.replaced_by_id [
  | none ↦ false
  | some j ↦ exists_where (λ (x : RefreshToken). x.id == j && p x) l
]

abbrev pub unlink : RefreshToken → RefreshToken
unlink t = record t { replaced_by_id = none }

-- DELETE of tokens, with ON DELETE SET NULL of `replaced_by_id`
abbrev pub delete_tokens : (RefreshToken → Bool) → List RefreshToken → List RefreshToken
delete_tokens p l = update_where (link_deleted p l) unlink (delete_where p l)

unfoldable pub delete_expired : ℕ → Db → Db
delete_expired before db = record db {
  refresh_tokens = delete_tokens (λ t. leb t.expires_at before) db.refresh_tokens;
}

abbrev pub has_principal : ℕ → Db → Bool
has_principal principal_id db = exists_where (λ (p : Principal). p.id == principal_id) db.principals

-- UNIQUE(token_hash), and the foreign key to principals
unfoldable pub refresh_token_allowed : ℕ → String → Db → Bool
refresh_token_allowed principal_id h db =
    not (exists_where (has_hash h) db.refresh_tokens) && has_principal principal_id db

abbrev pub new_refresh_token : ℕ → ℕ → String → String → ℕ → RefreshToken
new_refresh_token id principal_id h family_id expires_at = record {
  id = id;
  principal_id = principal_id;
  token_hash = h;
  family_id = family_id;
  expires_at = expires_at;
  revoked_at = none;
  replaced_by_id = none;
}

-- `add` of the base repository, for a refresh token
unfoldable pub add_refresh_token : ℕ → String → String → ℕ → Db → Db
add_refresh_token principal_id h family_id expires_at db = record db {
  refresh_tokens =
      insert_row (new_refresh_token db.next_refresh_token principal_id h family_id expires_at)
        db.refresh_tokens;
  next_refresh_token = suc db.next_refresh_token;
}
