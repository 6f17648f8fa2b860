-- ===== src/Auth/Refresh/Reuse.antt =====
-- app/services/service_auth.py: `refresh` on a revoked refresh token, and `logout_all`.
use stream_sight_backend.Prelude.{
  ℕ, ◌+◌, ◌≤◌, ◌<◌, ◌≡◌, ◌≢◌, refl, false, ◌&&◌, some, String, arith,
}
use stream_sight_backend.Sql.{exists_where}
use stream_sight_backend.Accounts.Rows.{RefreshToken}
use stream_sight_backend.Accounts.Errors.{err}
use stream_sight_backend.Accounts.World.{World, Env, request, seconds, kick_principal, published}
use stream_sight_backend.Repositories.RefreshTokens.{
  has_live_tokens_in_family, get_by_hash, owned_by, is_live,
}
use stream_sight_backend.Repositories.RefreshTokens.Laws.{
  has_live_tokens_in_family-revoke_family, revoke_all-no_live, revoke_all-others,
}
use stream_sight_backend.Auth.Refresh.{
  refresh, refresh_found, refresh_revoked, reused, logout_all, invalid_refresh_token,
}

module _ (env : Env) (token : String) (w : World) {rt : RefreshToken} {at : ℕ} where
  -- A revoked token presented later than the grace period is answered by 401, and the family that
  -- it belongs to has no live token in the committed database, at any time, although the request
  -- is rolled back after the error.
  pub reuse_revokes_family :
      get_by_hash (env.hash_refresh_token token) w.committed ≡ some rt
      → rt.revoked_at ≡ some at
      → at + seconds env.refresh_token_reuse_grace_seconds < env.now
      → ((request (refresh env token) w).0 ≡ err invalid_refresh_token)
        × ((time : ℕ)
            → has_live_tokens_in_family rt.family_id time
                (request (refresh env token) w).1.committed
              ≡ false)
  unfolding refresh refresh_found refresh_revoked reused
  reuse_revokes_family found revoked late = (
    ground arith,
    λ time.
        ground
          (arith, has_live_tokens_in_family-revoke_family rt.family_id env.now time w.committed),
  )

  -- A revoked token presented within the grace period, or at a time before its revocation, is
  -- answered by 401 and the committed database and the kicks stay as they were.
  reuse_within_grace :
      get_by_hash (env.hash_refresh_token token) w.committed ≡ some rt
      → rt.revoked_at ≡ some at
      → env.now ≤ at + seconds env.refresh_token_reuse_grace_seconds
      → request (refresh env token) w
        ≡ (err invalid_refresh_token, record w { session = w.committed })
  unfolding refresh refresh_found refresh_revoked reused
  reuse_within_grace found revoked soon = ground arith

-- After a logout of all devices, at any time, the principal has no live token in the committed
-- database, another principal has one exactly if it had one before, and a working publisher has
-- been told to disconnect the principal and nobody else.
pub logout_all-revokes :
    (env : Env) (p q time : ℕ) (w : World)
    → p ≢ q
    → let w' = (request (logout_all env p) w).1 in
      (exists_where (λ t. owned_by p t && is_live time t) w'.committed.refresh_tokens ≡ false)
      × (exists_where (λ t. owned_by q t && is_live time t) w'.committed.refresh_tokens
          ≡ exists_where (λ t. owned_by q t && is_live time t) w.committed.refresh_tokens)
      × (w'.kicks ≡ published env.publisher (kick_principal p) w.kicks)
unfolding logout_all
logout_all-revokes env p q time w ne = (
  revoke_all-no_live p env.now time w.committed,
  revoke_all-others p q env.now time w.committed ne,
  refl,
)
