-- ===== src/Auth/Access/Tokens.antt =====
-- app/services/service_auth.py and app/api/dependencies/auth.py: what an access token opens.
use Prim.Native.Nat.{◌/◌}
use stream_sight_backend.Prelude.{
  ℕ, ◌+◌, ◌*◌, ◌≤◌, ◌↔◌, ◌<◌, ◌≡◌, refl, true, Option, none, some, String, arith, ◌⊎◌, Bool-cases,
  Option-cases, inl, inr,
}
use stream_sight_backend.Accounts.Enums.{Role, AdminRole, admin_role_value}
use stream_sight_backend.Accounts.Rows.{Admin, admin_is_active}
use stream_sight_backend.Accounts.Errors.{ok, err, Error, forbidden, unauthorized}
use stream_sight_backend.Accounts.Claims.{
  Claims, Subject, decimal, malformed, Payload, Decoded, decoded, expired, invalid, extract_role,
  payload_of, create_access_token,
}
use stream_sight_backend.Accounts.World.{World, Env}
use stream_sight_backend.Repositories.Admins.{get_admin_by_principal_id}
use stream_sight_backend.Auth.Sessions.{access_token}
use stream_sight_backend.Auth.Access.{
  decode_access, decode_payload, subject_of, get_user_from_token, get_admin_from_token,
  active_admin, require_min_admin_role, CurrentPrincipal, get_current_token_sid, type_is,
}

-- the start of the second of a time: PyJWT signs `iat` and `exp` as whole seconds
abbrev pub whole : ℕ → ℕ
whole t = t / 1000000 * 1000000

-- What the program relies on of PyJWT for claims that were signed: a decoding not before the second
-- of issue reads them back until the second in which they expire begins, and then says that they
-- have expired.
pub record ReadsBack (decode : ℕ → String → Decoded) (encode : Claims → String) (c : Claims)
    : Type 0 where
  pub live :
      (now : ℕ)
      → whole c.iat ≤ now
      → now < whole c.exp
      → decode now (encode c) ≡ decoded (payload_of c)
  pub late : (now : ℕ) → whole c.iat ≤ now → whole c.exp ≤ now → decode now (encode c) ≡ expired

-- the claims of an admin's access token
abbrev pub admin_claims : Env → ℕ → ℕ → String → Claims
admin_claims issuer principal_id grade sid =
    create_access_token issuer.access_now issuer.jwt_access_token_expire_seconds principal_id
      Role.admin (some grade) (some sid)

found_active :
    (o : Option Admin) (w : World) {a : Admin}
    → o ≡ some a
    → (active_admin o w ≡ (ok a, w)) ↔ ((a.archived_at ≡ none) × (a.deleted_at ≡ none))
unfolding active_admin
found_active o w {a} e = elim (Option-cases a.archived_at) [
  | inr (t, h) ↦ (λ k. absurd (ground (arith, e, h, k)), λ k. absurd (ground (arith, h, k.0)))
  | inl h ↦ elim (Option-cases a.deleted_at) [
    | inr (t, g) ↦ (λ k. absurd (ground (arith, e, h, g, k)), λ k. absurd (ground (arith, g, k.1)))
    | inl g ↦ (λ k. (h, g), λ k. ground (arith, e, h, g))
  ]
]

found_or_refused :
    (o : Option Admin) (w : World) {a : Admin}
    → o ≡ some a
    → (active_admin o w ≡ (ok a, w))
      ⊎ (active_admin o w ≡ (err (unauthorized "Admin not found or inactive"), w))
unfolding active_admin
found_or_refused o w {a} e = elim (Bool-cases (admin_is_active a)) [
  | inl h ↦ inl (ground (arith, e, h))
  | inr h ↦ inr (ground (arith, e, h))
]

-- An access token that `issuer` signed for an admin's principal, read by `env` not before the second
-- of its issue and before the second of its end, with PyJWT reading the claims back, where the
-- principal has an admin row: the admin routes resolve it to the row as it is now exactly if the row
-- is neither archived nor deleted, and answer it by 401 otherwise; the user routes refuse it by 403;
-- and the session id that it carries is the family it was signed with.
pub admin_token_resolves :
    (issuer env : Env) (principal_id grade : ℕ) (sid : String) (w : World) {a : Admin}
    → ReadsBack env.jwt_decode issuer.jwt_encode (admin_claims issuer principal_id grade sid)
    → whole issuer.access_now ≤ env.now
    → env.now < whole (issuer.access_now + issuer.jwt_access_token_expire_seconds * 1000000)
    → get_admin_by_principal_id principal_id w.session ≡ some a
    → let token = access_token issuer principal_id Role.admin grade sid in
      ((get_admin_from_token env token w ≡ (ok a, w))
        ↔ ((a.archived_at ≡ none) × (a.deleted_at ≡ none)))
      × ((get_admin_from_token env token w ≡ (ok a, w))
          ⊎ (get_admin_from_token env token w
              ≡ (err (unauthorized "Admin not found or inactive"), w)))
      × (get_user_from_token env token w ≡ (err (forbidden "User role required"), w))
      × (get_current_token_sid env token ≡ some sid)
unfolding get_admin_from_token get_user_from_token get_current_token_sid
admin_token_resolves issuer env principal_id grade sid w jwt started live found =
    let o = get_admin_by_principal_id principal_id w.session in
    rw (jwt.live env.now started live)
      (found_active o w found, found_or_refused o w found, refl, refl)

-- An access token of an admin that has expired opens nothing, with PyJWT as documented: the admin
-- routes and the user routes answer it by 401, and it names no session.
expired_token_refused :
    (issuer env : Env) (principal_id grade : ℕ) (sid : String) (w : World)
    → ReadsBack env.jwt_decode issuer.jwt_encode (admin_claims issuer principal_id grade sid)
    → whole issuer.access_now ≤ env.now
    → whole (issuer.access_now + issuer.jwt_access_token_expire_seconds * 1000000) ≤ env.now
    → let token = access_token issuer principal_id Role.admin grade sid in
      (get_admin_from_token env token w ≡ (err (unauthorized "Token has expired"), w))
      × (get_user_from_token env token w ≡ (err (unauthorized "Token has expired"), w))
      × (get_current_token_sid env token ≡ none)
unfolding get_admin_from_token get_user_from_token get_current_token_sid
expired_token_refused issuer env principal_id grade sid w jwt started over =
    rw (jwt.late env.now started over) (refl, refl, refl)

subject-cases :
    (p : Payload) (s : Option Subject) (w : World)
    → ((e : Error) × (subject_of p s w ≡ (err e, w)))
      ⊎ ((q : CurrentPrincipal) × (subject_of p s w ≡ (ok q, w)))
unfolding subject_of
subject-cases p none w = inl (unauthorized "Invalid token subject", refl)
subject-cases p (some malformed) w = inl (unauthorized "Invalid token subject", refl)
subject-cases p (some (decimal n)) w = inr (record { id = n; role = extract_role p.role }, refl)

payload-cases :
    (d : Decoded) (w : World)
    → ((e : Error) × (decode_payload d w ≡ (err e, w)))
      ⊎ ((q : CurrentPrincipal) × (decode_payload d w ≡ (ok q, w)))
unfolding decode_payload
payload-cases expired w = inl (unauthorized "Token has expired", refl)
payload-cases invalid w = inl (unauthorized "Invalid token", refl)
payload-cases (decoded p) w = elim (Bool-cases (type_is "access" p.type)) [
  | inl is_access ↦ rw is_access (subject-cases p p.sub w)
  | inr is_other ↦ inl (unauthorized "Invalid token type", ground arith)
]

-- Decoding reads and changes nothing of the world.
decode_access-cases :
    (env : Env) (token : String) (w : World)
    → ((e : Error) × (decode_access env token w ≡ (err e, w)))
      ⊎ ((q : CurrentPrincipal) × (decode_access env token w ≡ (ok q, w)))
unfolding decode_access
decode_access-cases env token w = payload-cases (env.jwt_decode env.now token) w

-- The ladder of ranks reads the row, not the claim: whatever the token says, an admin passes
-- `require_min_admin_role` only if the row of its principal is active and of that rank or higher.
pub require_min_admin_role_sound :
    (minimum : AdminRole) (env : Env) (token : String) (w : World) {a : Admin} {w' : World}
    → require_min_admin_role minimum env token w ≡ (ok a, w')
    → (w' ≡ w)
      × (admin_role_value minimum ≤ a.admin_role)
      × (admin_is_active a ≡ true)
      × ((p : CurrentPrincipal) × (decode_access env token w ≡ (ok p, w))
          × (get_admin_by_principal_id p.id w.session ≡ some a))
unfolding require_min_admin_role get_admin_from_token active_admin
require_min_admin_role_sound minimum env token w h = elim (decode_access-cases env token w) [
  | inl (e, failed) ↦ absurd (ground arith)
  | inr (p, read) ↦ (ground arith, ground arith, ground arith, (p, read, ground arith))
]
