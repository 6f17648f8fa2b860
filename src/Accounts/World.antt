-- ===== src/Accounts/World.antt =====
-- What a request acts on: the committed database, the view of the request's own transaction
-- (an AsyncSession), and the kicks that were published; and the monad of its methods, which may
-- raise. `get_session` of app/api/dependencies/db.py opens the session of a request.
use stream_sight_backend.Prelude.{
  ℕ, ◌*◌, ◌≡◌, refl, Bool, true, false, Option, none, some, List, [], ◌∷◌, ◌++◌, String,
  if◌then◌else◌, arith, ◌⊎◌, inl, inr,
}
use stream_sight_backend.Accounts.Rows.{Db}
use stream_sight_backend.Accounts.Errors.{Error, Result, ok, err}
use stream_sight_backend.Accounts.Claims.{Claims, Decoded}

-- A message on `ws:disconnect:principal:<id>` or `ws:disconnect:sid:<family>`.
pub data Kick : Type 0 where
  kick_principal : ℕ → Kick
  kick_session : String → Kick

pub record World : Type 0 where
  pub committed : Db
  pub session : Db
  pub kicks : List Kick

-- What is written before a raise stays written in the session: the world comes back either way.
abbrev pub Action {ℓ} : Type ℓ → Type ℓ
Action A = World → Result A × World

module _ {ℓ} {A : Type ℓ} where
  abbrev pub pure : A → Action A
  pure a w = (ok a, w)

  abbrev pub raise : Error → Action A
  raise e w = (err e, w)

  -- a SELECT
  abbrev pub query : (Db → A) → Action A
  query f w = (ok (f w.session), w)

-- an INSERT, UPDATE or DELETE
abbrev pub write : (Db → Db) → Action (Unit {0})
write f w = (ok tt, record w { session = f w.session })

abbrev pub commit : Action (Unit {0})
commit w = (ok tt, record w { committed = w.session })

abbrev pub rollback : Action (Unit {0})
rollback w = (ok tt, record w { session = w.committed })

infixl 5 ◌>>=◌ ◌>>◌
abbrev pub ◌>>=◌ {ℓ κ} : {A : Type ℓ} {B : Type κ} → Action A → (A → Action B) → Action B
◌>>=◌ m f w = let (r, w') = m w in elim r [ ok a ↦ f a w' | err e ↦ (err e, w') ]

abbrev pub ◌>>◌ {ℓ} : {B : Type ℓ} → Action (Unit {0}) → Action B → Action B
m >> k = m >>= λ _. k

abbrev pub raise_if : Bool → Error → Action (Unit {0})
raise_if c e w = (if c then err e else ok tt, w)

-- a write that the constraints of the table refuse unless it is allowed
abbrev pub write_if : Bool → (Db → Db) → Action (Unit {0})
write_if true f w = (ok tt, record w { session = f w.session })
write_if false f w = (err Error.integrity_error, w)

abbrev pub write_checked : (Db → Bool) → (Db → Db) → Action (Unit {0})
write_checked allowed f w = write_if (allowed w.session) f w

abbrev pub rollback_after {ℓ} : {A : Type ℓ} → Result A → World → Result A × World
rollback_after (ok a) w = (ok a, w)
rollback_after (err e) w = (err e, record w { session = w.committed })

-- `try: ... except Exception: await session.rollback(); raise`, in the services and in `get_session`
abbrev pub rollback_on_error {ℓ} : {A : Type ℓ} → Action A → Action A
rollback_on_error m w = let (r, w') = m w in rollback_after r w'

-- A request: a session that begins at the committed state, and the rollback of `get_session`.
abbrev pub request {ℓ} : {A : Type ℓ} → Action A → Action A
request m w = rollback_on_error m (record w { session = w.committed })

-- The settings, the readings of the clock and of the random source that one request makes, and
-- the libraries that it calls: HMAC-SHA256, argon2 and the Redis client of the publisher.
pub record Env : Type 0 where
  pub refresh_token_expire_seconds : ℕ
  pub refresh_token_reuse_grace_seconds : ℕ
  pub jwt_access_token_expire_seconds : ℕ
  -- `datetime.now(UTC)` at the head of the method, in `_issue_refresh_token`, in
  -- `create_access_token` and in `_purge_expired_best_effort`
  pub now : ℕ
  pub issue_now : ℕ
  pub access_now : ℕ
  pub purge_now : ℕ
  -- `generate_refresh_token()`, `str(uuid4())`
  pub plaintext : String
  pub family : String
  pub hash_refresh_token : String → String
  pub hash_password : String → String
  -- `verify_password(plain, hashed)`, and the hash that stands in for an absent one
  pub verify_password : String → String → Bool
  pub dummy_password_hash : String
  pub jwt_encode : Claims → String
  -- at a time
  pub jwt_decode : ℕ → String → Decoded
  -- Python's `str.strip` and `str.lower`
  pub strip : String → String
  pub lower : String → String
  -- what the FLOAT column of the records holds of a finite double, or `none` if the database refuses
  -- it: a column of single precision rounds, and one of double precision holds each as it is
  pub store_float : ℕ → Option ℕ
  -- INITIAL_ADMIN_USERNAME, INITIAL_ADMIN_PASSWORD and INITIAL_ADMIN_NAME
  pub initial_admin_username : String
  pub initial_admin_password : String
  pub initial_admin_name : String
  -- no publisher, or whether a publication goes through
  pub publisher : Option Bool
  -- whether the best-effort cleanup goes through
  pub purge_succeeds : Bool

abbrev pub seconds : ℕ → ℕ
seconds n = n * 1000000

-- `_kick_principal` and `_kick_session`: a failed publication is swallowed.
abbrev pub published : Option Bool → Kick → List Kick → List Kick
published none k ks = ks
published (some true) k ks = ks ++ k ∷ []
published (some false) k ks = ks

abbrev pub kick : Env → Kick → Action (Unit {0})
kick env k w = (ok tt, record w { kicks = published env.publisher k w.kicks })

pub committed-rollback_after {ℓ} :
    {A : Type ℓ} (r : Result A) (w : World) → (rollback_after r w).1.committed ≡ w.committed
committed-rollback_after (ok a) w = refl
committed-rollback_after (err e) w = refl

pub result-rollback_after {ℓ} : {A : Type ℓ} (r : Result A) (w : World) → (rollback_after r w).0 ≡ r
result-rollback_after (ok a) w = refl
result-rollback_after (err e) w = refl

-- A failure before any commit or kick leaves the world as it was at the last commit.
pub rollback_after-fails {ℓ} :
    {A : Type ℓ} (r : Result A) (w w' : World) (e : Error)
    → r ≡ err e
    → w'.committed ≡ w.committed
    → w'.kicks ≡ w.kicks
    → rollback_after r w' ≡ (err e, record w { session = w.committed })
rollback_after-fails (ok a) w w' e h c k = cc
rollback_after-fails (err x) w w' e h c k = ground arith

-- a step whose first part is known
pub bind-ok {ℓ κ} :
    {A : Type ℓ} {B : Type κ} (m : Action A) (f : A → Action B) (w : World) {a : A} {w' : World}
    → m w ≡ (ok a, w')
    → (m >>= f) w ≡ f a w'
bind-ok m f w e = rw (e, ◌>>=◌) (rw e)

pub bind-err {ℓ κ} :
    {A : Type ℓ} {B : Type κ} (m : Action A) (f : A → Action B) (w : World) {e : Error} {w' : World}
    → m w ≡ (err e, w')
    → (m >>= f) w ≡ (err e, w')
bind-err m f w e = rw (e, ◌>>=◌) (rw e)

ok_inverse {ℓ κ} :
    {A : Type ℓ} {B : Type κ} (f : A → Action B) (x : Result A × World) (b : B) (w' : World)
    → (elim x.0 [ ok a ↦ f a x.1 | err e ↦ (err e, x.1) ]) ≡ (ok b, w')
    → (a : A) × (v : World) × (x ≡ (ok a, v)) × (f a v ≡ (ok b, w'))
ok_inverse f (ok a, v) b w' h = (a, v, refl, h)
ok_inverse f (err e, v) b w' h = absurd (cc)

-- a chain of two steps that ends has two steps that end
pub bind-ok_inverse {ℓ κ} :
    {A : Type ℓ} {B : Type κ} (m : Action A) (f : A → Action B) (w : World) {b : B} {w' : World}
    → (m >>= f) w ≡ (ok b, w')
    → (a : A) × (v : World) × (m w ≡ (ok a, v)) × (f a v ≡ (ok b, w'))
bind-ok_inverse m f w {b} {w'} h = ok_inverse f (m w) b w' h

err_inverse {ℓ κ} :
    {A : Type ℓ} {B : Type κ} (f : A → Action B) (x : Result A × World) (e : Error) (w' : World)
    → (elim x.0 [ ok a ↦ f a x.1 | err e ↦ (err e, x.1) ]) ≡ (err e, w')
    → (x ≡ (err e, w')) ⊎ ((a : A) × (v : World) × (x ≡ (ok a, v)) × (f a v ≡ (err e, w')))
err_inverse f (ok a, v) e w' h = inr (a, v, refl, h)
err_inverse f (err d, v) e w' h = inl (ground arith)

-- a chain of two steps fails at the one or at the other
pub bind-err_inverse {ℓ κ} :
    {A : Type ℓ} {B : Type κ} (m : Action A) (f : A → Action B) (w : World) {e : Error} {w' : World}
    → (m >>= f) w ≡ (err e, w')
    → (m w ≡ (err e, w')) ⊎ ((a : A) × (v : World) × (m w ≡ (ok a, v)) × (f a v ≡ (err e, w')))
bind-err_inverse m f w {e} {w'} h = err_inverse f (m w) e w' h
