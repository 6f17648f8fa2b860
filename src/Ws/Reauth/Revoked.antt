-- ===== src/Ws/Reauth/Revoked.antt =====
-- app/services/ws/reauth.py after app/services/service_auth.py: connections of a revoked account.
use stream_sight_backend.Prelude.{
  ℕ, ◌+◌, ◌<◌, ◌≡◌, true, false, some, String, arith, if_true, if_false, Bool-cases, inl, inr,
}
use stream_sight_backend.Accounts.Rows.{RefreshToken, Db}
use stream_sight_backend.Accounts.World.{World, Env, request, seconds}
use stream_sight_backend.Repositories.RefreshTokens.{get_by_hash, has_live_tokens_in_family}
use stream_sight_backend.Auth.Refresh.{refresh}
use stream_sight_backend.Auth.Refresh.Reuse.{reuse_revokes_family}
use stream_sight_backend.Ws.Protocol.{unauthenticated}
use stream_sight_backend.Ws.Manager.{Manager, close, close_and_teardown}
use stream_sight_backend.Ws.Manager.Invariant.{teardown-shuts}
use stream_sight_backend.Ws.Reauth.{is_connection_valid, reauth}

dead_session-invalid :
    (p now : ℕ) (family : String) (db : Db)
    → has_live_tokens_in_family family now db ≡ false
    → is_connection_valid p (some family) now db ≡ false
unfolding is_connection_valid
dead_session-invalid p now family db dead = ground (arith, dead)

reauth-shuts :
    (c now : ℕ) (db : Db) (m : Manager)
    → is_connection_valid (m.heap c).principal_id (m.heap c).sid now db ≡ false
    → ((reauth c now db m).heap c).closed ≡ true
unfolding reauth close_and_teardown
reauth-shuts c now db m bad = elim (Bool-cases (m.heap c).closed) [
  | inl shut ↦ rw (if_true _ _ shut) shut
  | inr live ↦
      rw (if_false _ _ live, if_false _ _ bad) (teardown-shuts c (close c unauthenticated m))
]

-- After the reuse of a revoked refresh token later than the grace period, the next turn of the
-- reauthentication, at any time, leaves a connection of that session closed.
pub reuse_ends_connection :
    (env : Env) (token : String) (w : World) (c time : ℕ) (m : Manager) {rt : RefreshToken} {at : ℕ}
    → get_by_hash (env.hash_refresh_token token) w.committed ≡ some rt
    → rt.revoked_at ≡ some at
    → at + seconds env.refresh_token_reuse_grace_seconds < env.now
    → (m.heap c).sid ≡ some rt.family_id
    → ((reauth c time (request (refresh env token) w).1.committed m).heap c).closed ≡ true
reuse_ends_connection env token w c time m {rt} {at} found revoked late of_session =
    reauth-shuts c time (request (refresh env token) w).1.committed m (
      rw of_session (
        dead_session-invalid (m.heap c).principal_id time rt.family_id
          (request (refresh env token) w).1.committed
          ((reuse_revokes_family env token w found revoked late).1 time)))
