-- ===== src/Auth/Sessions/Registration.antt =====
-- app/services/service_auth.py: `register`, on its branches.
use stream_sight_backend.Prelude.{
  ◌≡◌, refl, Bool, true, false, none, some, String, arith, [], ◌∷◌, eq_refl, Bool-cases, inl, inr,
  ap, sym, ◌∙◌,
}
use stream_sight_backend.Sql.{find_where}
use stream_sight_backend.Sql.Laws.{find_where-append_none, exists_where-find_where}
use stream_sight_backend.Accounts.Rows.{User, Db}
use stream_sight_backend.Accounts.Errors.{ok, err, Error, conflict, integrity_error, Result}
use stream_sight_backend.Accounts.World.{
  World, Env, Action, request, rollback_after, committed-rollback_after, result-rollback_after,
  rollback_after-fails, bind-ok, bind-err, ◌>>=◌,
}
use stream_sight_backend.Repositories.Users.{
  email_exists, get_by_email, add_user, email_is, create_principal, add_identity, user_allowed,
  new_user, new_identity,
}
use stream_sight_backend.Repositories.RefreshTokens.{add_refresh_token}
use stream_sight_backend.Users.{build}
use stream_sight_backend.Accounts.Enums.{Role}
use stream_sight_backend.Auth.Sessions.{
  register, register_user, TokenPayload, issued, password_provider,
}

-- A registration under an email that is taken is answered by 409 and writes nothing.
pub register_conflict :
    (env : Env) (email name password : String) (w : World)
    → email_exists email w.committed ≡ true
    → request (register env email name password) w
      ≡ (err (conflict "email"), record w { session = w.committed })
unfolding register build
register_conflict env email name password w taken = ground arith

-- the user of a registration, and the database that it commits
abbrev pub registered_user : String → String → Db → User
registered_user email name db = new_user db.next_user db.next_principal email name

abbrev pub registered : Env → String → String → String → Db → Db
registered env email name password db =
    let u = registered_user email name db in
    let i = new_identity db.next_identity u.id password_provider (env.hash_password password) in
    issued env u.principal_id env.family
      (add_identity i (add_user u (create_principal Role.user db)))

-- a new user is flushed, or refused by a constraint
built : Bool → String → String → World → Result User × World
built true email name w =
    let u = registered_user email name w.session in
    (ok u, record w { session = add_user u (create_principal Role.user w.session) })
built false email name w =
    (err integrity_error, record w { session = create_principal Role.user w.session })

build_free :
    (email name : String) (w : World)
    → email_exists email w.session ≡ false
    → build email name w
      ≡ built
          (user_allowed
            (registered_user email name w.session)
            email
            (create_principal Role.user w.session))
          email
          name
          w
unfolding build create_principal built
build_free email name w free = ground arith

-- the rest commits an identity and a refresh token, or raises
register_user_succeeds :
    (env : Env) (u : User) (password : String) (w : World) {t : TokenPayload}
    → (register_user env u password w).0 ≡ ok t
    → (register_user env u password w).1.committed
      ≡ issued env u.principal_id env.family (
          add_identity
            (new_identity w.session.next_identity u.id password_provider
              (env.hash_password password))
            w.session)
unfolding register_user
register_user_succeeds env u password w h = ground arith

-- `register` is the build and the rest, and a rollback if either fails
steps : Env → String → String → String → Action TokenPayload
steps env email name password = build email name >>= λ user. register_user env user password

register-steps :
    (env : Env) (email name password : String) (w : World)
    → let (r, w') = steps env email name password (record w { session = w.committed }) in
      ((request (register env email name password) w).0 ≡ r)
      × ((request (register env email name password) w).1.committed ≡ w'.committed)
unfolding register steps
register-steps env email name password w =
    let (r, w') = steps env email name password (record w { session = w.committed }) in
    let (s, w'') = rollback_after r w' in
    (
      result-rollback_after s w'' ∙ result-rollback_after r w',
      committed-rollback_after s w'' ∙ committed-rollback_after r w',
    )

register_after_build :
    (env : Env) (email name password : String) (w : World) (b : Bool) {t : TokenPayload}
    → build email name w ≡ built b email name w
    → (steps env email name password w).0 ≡ ok t
    → (steps env email name password w).1.committed ≡ registered env email name password w.session
unfolding steps built add_user create_principal
register_after_build env email name password w false e h = absurd (
    cc (
      ap (λ (x : Result TokenPayload × World). x.0)
        (bind-err (build email name) (λ user. register_user env user password) w e)))
register_after_build env email name password w true e h =
    let (r, w1) = built true email name w in
    let u = registered_user email name w.session in
    let done = bind-ok (build email name) (λ user. register_user env user password) w e in
    rw done (register_user_succeeds env u password w1 (rw done at h))

-- A registration that succeeds commits a principal of role USER, a user of the lowest tier with
-- this email, its password identity and one refresh token of that principal, and no other row.
pub register_succeeds :
    (env : Env) (email name password : String) (w : World) {t : TokenPayload}
    → (request (register env email name password) w).0 ≡ ok t
    → (request (register env email name password) w).1.committed
      ≡ registered env email name password w.committed
register_succeeds env email name password w h = elim (Bool-cases (email_exists email w.committed)) [
  | inl taken ↦ absurd (ground (arith, register_conflict env email name password w taken))
  | inr free ↦
      let w0 = record w { session = w.committed } in
      let (same_result, same_db) = register-steps env email name password w in
      same_db
      ∙ register_after_build env email name password w0 _ (build_free email name w0 free)
          (sym same_result ∙ h)
]

register_user_fails :
    (env : Env) (u : User) (password : String) (w : World) (e : Error)
    → (register_user env u password w).0 ≡ err e
    → ((register_user env u password w).1.committed ≡ w.committed)
      × ((register_user env u password w).1.kicks ≡ w.kicks)
unfolding register_user
register_user_fails env u password w e h = (ground arith, ground arith)

steps_fail :
    (env : Env) (email name password : String) (w : World) (b : Bool) (e : Error)
    → build email name w ≡ built b email name w
    → (steps env email name password w).0 ≡ err e
    → ((steps env email name password w).1.committed ≡ w.committed)
      × ((steps env email name password w).1.kicks ≡ w.kicks)
unfolding steps built
steps_fail env email name password w false e eq h =
    rw (bind-err (build email name) (λ user. register_user env user password) w eq) (refl, refl)
steps_fail env email name password w true e eq h =
    let (r, w1) = built true email name w in
    let u = registered_user email name w.session in
    let done = bind-ok (build email name) (λ user. register_user env user password) w eq in
    rw done (register_user_fails env u password w1 e (rw done at h))

-- A registration that fails, for whichever reason, leaves no row behind: not even the principal.
pub register_fails :
    (env : Env) (email name password : String) (w : World) (e : Error)
    → (request (register env email name password) w).0 ≡ err e
    → (request (register env email name password) w).1 ≡ record w { session = w.committed }
unfolding register steps
register_fails env email name password w e h = elim (Bool-cases (email_exists email w.committed)) [
  | inl taken ↦ rw (register_conflict env email name password w taken)
  | inr free ↦
      let w0 = record w { session = w.committed } in
      let (r, w') = steps env email name password w0 in
      let failed : r ≡ err e = sym (register-steps env email name password w).0 ∙ h in
      let (db, kicks) =
        steps_fail env email name password w0 _ e (build_free email name w0 free) failed in
      let inner = rollback_after-fails r w0 w' e failed db kicks in
      ap (λ (x : Result TokenPayload × World). (rollback_after x.0 x.1).1) inner
]

-- After a registration that succeeds the email is found, as the user that was registered.
register_then_find :
    (env : Env) (email name password : String) (w : World) {t : TokenPayload}
    → (request (register env email name password) w).0 ≡ ok t
    → get_by_email email (request (register env email name password) w).1.committed
      ≡ some (registered_user email name w.committed)
unfolding get_by_email add_refresh_token add_identity add_user create_principal find_where
register_then_find env email name password w h =
    elim (Bool-cases (email_exists email w.committed)) [
      | inl taken ↦ absurd (ground (arith, register_conflict env email name password w taken))
      | inr free ↦ rw (register_succeeds env email name password w h) (
          rw (
            find_where-append_none (email_is email) w.committed.users
                (registered_user email name w.committed ∷ []) (no_email free),
            eq_refl email,
          ))
    ]
  where
    no_email :
        email_exists email w.committed ≡ false
        → find_where (email_is email) w.committed.users ≡ none
    no_email free =
        exists_where-find_where (email_is email) w.committed.users (unfold email_exists in free)
