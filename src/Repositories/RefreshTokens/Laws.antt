-- ===== src/Repositories/RefreshTokens/Laws.antt =====
-- What the statements on refresh tokens do to later reads.
use mathlib.Core.Option
use stream_sight_backend.Prelude.{
  ℕ, ◌≡◌, ◌≢◌, ◌<◌, true, false, ◌&&◌, Option, none, some, [], ◌∷◌, String, arith, eq_refl,
}
use stream_sight_backend.Sql.{updated, exists_where, find_where, count_where}
use stream_sight_backend.Sql.Ids.{IsKeyed, count_where-found}
use stream_sight_backend.Sql.Laws.{
  find_where-update_where, find_where-append, find_where-append_none, exists_where-update_where,
  exists_where-update_where_same, exists_where-find_where, count_where-update_where,
  count_where-append,
}
use stream_sight_backend.Accounts.Rows.{RefreshToken, Db}
use stream_sight_backend.Repositories.RefreshTokens.{
  has_live_tokens_in_family, get_by_hash, consume, consume_wins, revoke_family, add_refresh_token,
  new_refresh_token, revoke_all_for_principal, is_live, is_active_id, is_active_in, is_active_of,
  is_unrevoked, in_family, owned_by, has_hash, set_revoked, set_consumed,
}

-- The refresh tokens have distinct ids below the autoincrement counter.
abbrev pub HasKeyedTokens : Db → Type 0
HasKeyedTokens db = IsKeyed (λ (t : RefreshToken). t.id) 0 db.next_refresh_token db.refresh_tokens

-- After a family is revoked it has no live token, at any time.
pub has_live_tokens_in_family-revoke_family :
    (family_id : String) (at now : ℕ) (db : Db)
    → has_live_tokens_in_family family_id now (revoke_family family_id at db) ≡ false
unfolding has_live_tokens_in_family revoke_family
has_live_tokens_in_family-revoke_family family_id at now db =
    exists_where-update_where (λ t. in_family family_id t && is_live now t) (is_active_in family_id)
      (set_revoked at) (λ t. ground arith) db.refresh_tokens

-- The row that a hash names keeps its name, and is consumed if it is the active row of the id.
pub get_by_hash-consume :
    (h : String) (k at : ℕ) (new : Option ℕ) (db : Db)
    → get_by_hash h (consume k at new db)
      ≡ Option.map (updated (is_active_id k) (set_consumed at new)) (get_by_hash h db)
unfolding get_by_hash consume
get_by_hash-consume h k at new db =
    find_where-update_where (has_hash h) (is_active_id k) (set_consumed at new) (λ t. ground arith)
      db.refresh_tokens

pub get_by_hash-add :
    (h h' family_id : String) (principal_id expires_at : ℕ) (db : Db) (rt : RefreshToken)
    → get_by_hash h db ≡ some rt
    → get_by_hash h (add_refresh_token principal_id h' family_id expires_at db) ≡ some rt
unfolding get_by_hash add_refresh_token
get_by_hash-add h h' family_id principal_id expires_at db rt e =
    find_where-append (has_hash h) db.refresh_tokens
      (new_refresh_token db.next_refresh_token principal_id h' family_id expires_at ∷ []) rt e

-- A token that was added under a hash that was free is read back by it.
pub get_by_hash-add_self :
    (h family_id : String) (principal_id expires_at : ℕ) (db : Db)
    → exists_where (has_hash h) db.refresh_tokens ≡ false
    → get_by_hash h (add_refresh_token principal_id h family_id expires_at db)
      ≡ some (new_refresh_token db.next_refresh_token principal_id h family_id expires_at)
unfolding get_by_hash add_refresh_token find_where
get_by_hash-add_self h family_id principal_id expires_at db free =
    let row = new_refresh_token db.next_refresh_token principal_id h family_id expires_at in
    rw (
      find_where-append_none (has_hash h) db.refresh_tokens (row ∷ [])
          (exists_where-find_where (has_hash h) db.refresh_tokens free),
      eq_refl h,
    )

-- The active row that a hash names is the one row that `consume` reaches, in a keyed table.
pub consume_wins-found :
    (h : String) (db : Db) (rt : RefreshToken)
    → HasKeyedTokens db
    → get_by_hash h db ≡ some rt
    → rt.revoked_at ≡ none
    → consume_wins rt.id db ≡ true
unfolding consume_wins get_by_hash
consume_wins-found h db rt keyed found active = ground (
  arith,
  count_where-found (λ (t : RefreshToken). t.id) 0 db.next_refresh_token (has_hash h)
      (λ t. is_unrevoked t) db.refresh_tokens rt keyed found,
)

-- A token that was consumed cannot be consumed again, whatever token was added since.
pub consume_wins-consume :
    (k at : ℕ) (new : Option ℕ) (db : Db) → consume_wins k (consume k at new db) ≡ false
unfolding consume_wins consume
consume_wins-consume k at new db = ground (
  arith,
  count_where-update_where (is_active_id k) (set_consumed at new) (λ t. ground arith)
      db.refresh_tokens,
)

pub consume_wins-add :
    (k : ℕ) (h family_id : String) (principal_id expires_at : ℕ) (db : Db)
    → k < db.next_refresh_token
    → consume_wins k (add_refresh_token principal_id h family_id expires_at db) ≡ consume_wins k db
unfolding consume_wins add_refresh_token count_where
consume_wins-add k h family_id principal_id expires_at db lt = ground (
  arith,
  count_where-append (is_active_id k) db.refresh_tokens
      (new_refresh_token db.next_refresh_token principal_id h family_id expires_at ∷ []),
)

-- After a logout of all devices no token of the principal is live.
pub revoke_all-no_live :
    (p at now : ℕ) (db : Db)
    → exists_where
        (λ t. owned_by p t && is_live now t)
        (revoke_all_for_principal p at db).refresh_tokens
      ≡ false
unfolding revoke_all_for_principal
revoke_all-no_live p at now db =
    exists_where-update_where (λ t. owned_by p t && is_live now t) (is_active_of p) (set_revoked at)
      (λ t. ground arith) db.refresh_tokens

-- The live tokens of every other principal stay live.
pub revoke_all-others :
    (p q at now : ℕ) (db : Db)
    → p ≢ q
    → exists_where
        (λ t. owned_by q t && is_live now t)
        (revoke_all_for_principal p at db).refresh_tokens
      ≡ exists_where (λ t. owned_by q t && is_live now t) db.refresh_tokens
unfolding revoke_all_for_principal
revoke_all-others p q at now db ne =
    exists_where-update_where_same (λ t. owned_by q t && is_live now t) (is_active_of p)
      (set_revoked at) (λ t. ground arith) db.refresh_tokens
