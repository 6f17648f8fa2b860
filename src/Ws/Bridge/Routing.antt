-- ===== src/Ws/Bridge/Routing.antt =====
-- app/services/ws/bridge.py and publisher.py: each publication reaches its method of the manager.
use Prim.Native.Char.{code}
use stream_sight_backend.Prelude.{
  ℕ, ◌≡◌, refl, sym, subst, ap, ◌∙◌, true, none, some, [], String, ==_refl, if_true,
}
use stream_sight_backend.Accounts.World.{Env, World, request}
use stream_sight_backend.Auth.Refresh.{logout_all}
use stream_sight_backend.Ws.Protocol.{CloseCode, unauthenticated, Message}
use stream_sight_backend.Ws.Manager.{Manager, connections_for_principal}
use stream_sight_backend.Ws.Manager.Invariant.{IsIndexed}
use stream_sight_backend.Ws.Delivery.{kick_local, kick_local_sid, send_local, broadcast_local}
use stream_sight_backend.Ws.Delivery.Kicks.{kick_local_clears}
use stream_sight_backend.Ws.Bridge.{
  join, after_prefix, Decimal, to_principal, to_topic, broadcast, disconnect_principal,
  disconnect_session, dispatch, dispatch_kicks, publication, with_id,
}

after_prefix-join : (p s : String) → after_prefix p (join p s) ≡ some s
unfolding after_prefix join
after_prefix-join String.[] s = refl
after_prefix-join (String.◌∷◌ c p) s =
    if_true (after_prefix p (join p s)) none (==_refl (code c)) ∙ after_prefix-join p s

-- `int` reads what `str` writes.
abbrev pub IsDecimal : Decimal → Type 0
IsDecimal d = (n : ℕ) → d.int (d.show n) ≡ some n

module _ (d : Decimal) (m : Manager) (r : IsDecimal d) where
  dispatch_kick :
      (p : ℕ) (c : CloseCode) → dispatch d (disconnect_principal d p c) m ≡ kick_local p c m
  unfolding dispatch disconnect_principal after_prefix join
  dispatch_kick p c = ap (λ o. with_id o (λ k. kick_local k c m) m) (r p)

  -- What is published for a principal, a topic, everyone, or as a kick of a principal or of a
  -- session is handled by that method of the manager, with the id, the text, the message and the
  -- code that were published, given that `int` reads what `str` writes.
  pub dispatch_routes :
      (p : ℕ) (t : String) (c : CloseCode) (message : Message)
      → (dispatch d (to_principal d p message) m ≡ (send_local (some p) none message m).1)
        × (dispatch d (to_topic t message) m ≡ (send_local none (some t) message m).1)
        × (dispatch d (broadcast message) m ≡ (broadcast_local message m).1)
        × (dispatch d (disconnect_principal d p c) m ≡ kick_local p c m)
        × (dispatch d (disconnect_session t c) m ≡ kick_local_sid t c m)
  unfolding dispatch to_principal to_topic broadcast disconnect_principal disconnect_session
      after_prefix join
  dispatch_routes p t c message = (
    ap (λ o. with_id o (λ k. (send_local (some k) none message m).1) m) (r p),
    refl,
    refl,
    dispatch_kick p c,
    refl,
  )

  -- A logout of all devices, under a working publisher and with nothing published before in the
  -- request's world, closes what the principal has on each instance that takes the publication:
  -- no connection is registered for the principal on it, and its indices stay right.
  pub logout_all_disconnects :
      (env : Env) (p : ℕ) (w : World)
      → env.publisher ≡ some true
      → w.kicks ≡ []
      → IsIndexed m
      → let after = dispatch_kicks d (request (logout_all env p) w).1.kicks m in
        IsIndexed after × (connections_for_principal p after ≡ [])
  unfolding dispatch_kicks publication logout_all
  logout_all_disconnects env p w e k v =
      let (kept, gone, shut) = kick_local_clears p unauthenticated m v in
      rw (e, k)
        (subst (λ n. IsIndexed n × (connections_for_principal p n ≡ []))
          (sym (dispatch_kick p unauthenticated)) (kept, gone))
