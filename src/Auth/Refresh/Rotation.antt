-- ===== src/Auth/Refresh/Rotation.antt =====
-- app/services/service_auth.py: `refresh` on an active refresh token.
use stream_sight_backend.Prelude.{
  ◌+◌, ◌<◌, ◌≡◌, refl, true, false, none, some, String, arith, ◌==◌, ◌∙◌,
}
use stream_sight_backend.Sql.{exists_where}
use stream_sight_backend.Sql.Ids.{IsKeyed-find_lt}
use stream_sight_backend.Sql.Laws.{exists_where-of_find}
use stream_sight_backend.Accounts.Enums.{Role, role_of_value}
use stream_sight_backend.Accounts.Rows.{Principal, RefreshToken, Db}
use stream_sight_backend.Accounts.Errors.{ok, err}
use stream_sight_backend.Accounts.World.{World, Env, request, seconds}
use stream_sight_backend.Repositories.RefreshTokens.{
  get_by_hash, consume, consume_wins, has_hash, set_consumed, refresh_token_allowed,
  add_refresh_token,
}
use stream_sight_backend.Repositories.RefreshTokens.Laws.{
  HasKeyedTokens, get_by_hash-consume, get_by_hash-add, get_by_hash-add_self, consume_wins-found,
  consume_wins-consume, consume_wins-add,
}
use stream_sight_backend.Repositories.Users.{get_principal}
use stream_sight_backend.Auth.Sessions.{
  TokenPayload, Child, child_is_active, grade_of, access_token, issued, issued_row,
}
use stream_sight_backend.Auth.Refresh.{
  refresh, refresh_found, refresh_revoked, rotate, rotate_owner, rotate_role, rotate_child,
  consume_token, reused, load_active_child, invalid_refresh_token,
}

-- What the rotation of `rt` needs of the database that it reads.
pub record IsRotatable (env : Env) (token : String) (db : Db) (rt : RefreshToken) (p : Principal)
    (role : Role) (child : Child) : Type 0 where
  pub found : get_by_hash (env.hash_refresh_token token) db ≡ some rt
  pub unrevoked : rt.revoked_at ≡ none
  pub unexpired : env.now < rt.expires_at
  pub owner : get_principal rt.principal_id db ≡ some p
  pub owner_role : role_of_value p.role ≡ some role
  pub loaded : load_active_child role rt.principal_id db ≡ some child
  pub active : child_is_active child ≡ true
  pub keyed : HasKeyedTokens db
  pub unused :
      exists_where (has_hash (env.hash_refresh_token env.plaintext)) db.refresh_tokens ≡ false

-- the database after the new token is issued
abbrev after_issue : Env → RefreshToken → Db → Db
after_issue env rt db = issued env rt.principal_id rt.family_id db

-- the database after the rotation
abbrev pub rotated : Env → RefreshToken → Db → Db
rotated env rt db = consume rt.id env.now (some db.next_refresh_token) (after_issue env rt db)

abbrev pub rotated_tokens : Env → RefreshToken → Role → Child → TokenPayload
rotated_tokens env rt role child = record {
  access_token = access_token env rt.principal_id role (grade_of child) rt.family_id;
  refresh_token = env.plaintext;
}

module _ (env : Env) (db : Db) (rt : RefreshToken) where
  issue_allowed :
      (p : Principal)
      → get_principal rt.principal_id db ≡ some p
      → exists_where (has_hash (env.hash_refresh_token env.plaintext)) db.refresh_tokens ≡ false
      → refresh_token_allowed rt.principal_id (env.hash_refresh_token env.plaintext) db ≡ true
  unfolding refresh_token_allowed get_principal
  issue_allowed p owner unused = ground (
    arith,
    exists_where-of_find (λ (x : Principal). x.id == rt.principal_id) db.principals p owner,
  )

  id_lt_next :
      (h : String) → HasKeyedTokens db → get_by_hash h db ≡ some rt → rt.id < db.next_refresh_token
  unfolding get_by_hash
  id_lt_next h keyed found =
      IsKeyed-find_lt (λ (t : RefreshToken). t.id) 0 db.next_refresh_token (has_hash h)
        db.refresh_tokens rt keyed found

  wins_after_issue :
      (h : String)
      → HasKeyedTokens db
      → get_by_hash h db ≡ some rt
      → rt.revoked_at ≡ none
      → consume_wins rt.id (after_issue env rt db) ≡ true
  wins_after_issue h keyed found unrevoked =
      consume_wins-add rt.id (env.hash_refresh_token env.plaintext) rt.family_id rt.principal_id
        (env.issue_now + seconds env.refresh_token_expire_seconds) db (id_lt_next h keyed found)
      ∙ consume_wins-found h db rt keyed found unrevoked

  old_token_rotated :
      (h : String)
      → get_by_hash h db ≡ some rt
      → rt.revoked_at ≡ none
      → get_by_hash h (rotated env rt db)
        ≡ some (set_consumed env.now (some db.next_refresh_token) rt)
  old_token_rotated h found unrevoked =
      let expires_at = env.issue_now + seconds env.refresh_token_expire_seconds in
      let new = some db.next_refresh_token in
      rw
        (
          get_by_hash-consume h rt.id env.now new (after_issue env rt db),
          get_by_hash-add h (env.hash_refresh_token env.plaintext) rt.family_id rt.principal_id
              expires_at db rt found,
        )
        (ground (arith, unrevoked))

  new_token_rotated :
      (h : String)
      → HasKeyedTokens db
      → get_by_hash h db ≡ some rt
      → exists_where (has_hash (env.hash_refresh_token env.plaintext)) db.refresh_tokens ≡ false
      → get_by_hash (env.hash_refresh_token env.plaintext) (rotated env rt db)
        ≡ some (issued_row env rt.principal_id rt.family_id db)
  new_token_rotated h keyed found unused =
      let expires_at = env.issue_now + seconds env.refresh_token_expire_seconds in
      let new_hash = env.hash_refresh_token env.plaintext in
      rw
        (
          get_by_hash-consume new_hash rt.id env.now (some db.next_refresh_token)
              (after_issue env rt db),
          get_by_hash-add_self new_hash rt.family_id rt.principal_id expires_at db unused,
        )
        (ground (arith, id_lt_next h keyed found))

  rotated_next : rt.id < db.next_refresh_token → rt.id < (rotated env rt db).next_refresh_token
  unfolding consume add_refresh_token
  rotated_next lt = omega arith

  lost_after_rotation :
      (h : String)
      → HasKeyedTokens db
      → get_by_hash h db ≡ some rt
      → (other : Env)
      → consume_wins rt.id (issued other rt.principal_id rt.family_id (rotated env rt db)) ≡ false
  lost_after_rotation h keyed found other =
      consume_wins-add rt.id (other.hash_refresh_token other.plaintext) rt.family_id rt.principal_id
        (other.issue_now + seconds other.refresh_token_expire_seconds) (rotated env rt db)
        (rotated_next (id_lt_next h keyed found))
      ∙ consume_wins-consume rt.id env.now (some db.next_refresh_token) (after_issue env rt db)

module _ (env : Env) (token : String) (w : World) {rt : RefreshToken} {p : Principal} {role : Role}
    {child : Child} where
  -- the whole effect of a rotation
  refresh_rotates_world :
      IsRotatable env token w.committed rt p role child
      → request (refresh env token) w ≡ (
        ok (rotated_tokens env rt role child),
        record w { committed = rotated env rt w.committed; session = rotated env rt w.committed },
      )
  unfolding refresh refresh_found refresh_revoked rotate rotate_owner rotate_role rotate_child
      consume_token
  refresh_rotates_world ready = ground (
    arith,
    ready.found,
    ready.unrevoked,
    ready.unexpired,
    ready.owner,
    ready.owner_role,
    ready.loaded,
    ready.active,
    issue_allowed env w.committed rt p ready.owner ready.unused,
    wins_after_issue env w.committed rt (env.hash_refresh_token token) ready.keyed ready.found
        ready.unrevoked,
  )

  -- A refresh token that is unrevoked, unexpired and of an active account, in a table whose keys rise
  -- and which has no row under the hash of the new text, is exchanged: the request succeeds
  -- with an access token of the account's role, rank and session, and commits a database in which
  -- the old token is revoked and points to the new one, and the new one is unrevoked, of the same
  -- principal and family, under the hash of the text that is returned.
  pub refresh_rotates :
      IsRotatable env token w.committed rt p role child
      → let (r, w') = request (refresh env token) w in
        (r ≡ ok (rotated_tokens env rt role child))
        × (get_by_hash (env.hash_refresh_token token) w'.committed
            ≡ some (set_consumed env.now (some w.committed.next_refresh_token) rt))
        × (get_by_hash (env.hash_refresh_token env.plaintext) w'.committed
            ≡ some (issued_row env rt.principal_id rt.family_id w.committed))
  refresh_rotates ready = rw (refresh_rotates_world ready) (
    refl,
    old_token_rotated env w.committed rt (env.hash_refresh_token token) ready.found ready.unrevoked,
    new_token_rotated env w.committed rt (env.hash_refresh_token token) ready.keyed ready.found
        ready.unused,
  )

  -- After an unrevoked, unexpired refresh token of an active account was exchanged, in a table whose
  -- keys rise and which had no row under the hash of the new text, the next request that presents
  -- it, under the same hash function and at any time, is answered by 401.
  pub refresh_once :
      IsRotatable env token w.committed rt p role child
      → (later : Env) → later.hash_refresh_token ≡ env.hash_refresh_token
      → (request (refresh later token) (request (refresh env token) w).1).0
        ≡ err invalid_refresh_token
  unfolding refresh refresh_found refresh_revoked reused
  refresh_once ready later same = rw (refresh_rotates_world ready) (
      rw same (
        ground (
          arith,
          old_token_rotated env w.committed rt (env.hash_refresh_token token) ready.found
              ready.unrevoked,
        )))

  loses_after :
      IsRotatable env token w.committed rt p role child
      → (other : Env) (role' : Role) (child' : Child)
      → let w' = (request (refresh env token) w).1 in
        refresh_token_allowed rt.principal_id
            (other.hash_refresh_token other.plaintext)
            w'.committed
          ≡ true
        → request (consume_token other rt role' child') w'
          ≡ (err invalid_refresh_token, record w' { session = w'.committed })
  unfolding consume_token
  loses_after ready other role' child' = rw (refresh_rotates_world ready) (λ a. ground (
    arith,
    lost_after_rotation env w.committed rt (env.hash_refresh_token token) ready.keyed ready.found
        other,
  ))

  -- Of two concurrent requests that read the same token while it was active and rotatable, the second to issue
  -- and consume, whatever it read of the owner before, is answered by 401 and commits nothing, if
  -- the table takes the token that it issues.
  pub concurrent_refresh_loses :
      IsRotatable env token w.committed rt p role child
      → (other : Env) (role' : Role) (child' : Child)
      → refresh_token_allowed rt.principal_id
          (other.hash_refresh_token other.plaintext)
          (request (refresh env token) w).1.committed
        ≡ true
      → let w' = (request (refresh env token) w).1 in
        request (consume_token other rt role' child') w'
        ≡ (err invalid_refresh_token, record w' { session = w'.committed })
  concurrent_refresh_loses ready other role' child' allowed =
      loses_after ready other role' child' allowed
