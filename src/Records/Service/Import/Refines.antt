-- ===== src/Records/Service/Import/Refines.antt =====
-- app/services/service_record.py: `bulk_create` against a specification of an import.
use stream_sight_backend.Prelude.{
  ℕ, ◌≤◌, ◌≡◌, ◌↔◌, refl, sym, ap, subst, ◌∙◌, Bool, true, false, List, [], ◌∷◌, arith, length, ltb,
  inl, inr, Bool-cases,
}
use stream_sight_backend.Accounts.Rows.{Admin}
use stream_sight_backend.Accounts.Errors.{Error, Result, ok, err, business_rule}
use stream_sight_backend.Accounts.World.{
  Env, World, Action, pure, raise_if, commit, rollback_on_error, rollback_after, ◌>>=◌, ◌>>◌,
  bind-ok_inverse,
}
use stream_sight_backend.Records.Repository.{add_record}
use stream_sight_backend.Records.Service.Writes.{NewRecord, insert_new}
use stream_sight_backend.Records.Service.Import.{
  Python, Row, RowError, ImportResult, validate_rows, bulk_insert, bulk_create, bulk_max_rows,
}
use stream_sight_backend.Records.Service.Import.Accounting.{
  Sorted, Sorted-validate_rows, validate_rows-Sorted, validate_rows_ok,
}
use stream_sight_backend.Records.Service.Import.Storable.{
  after_insert, inserted, AllStorable, is_storable, allowed-IsStorable, IsStorable-allowed,
}

-- An import of at most a thousand rows: each row is either refused under its index or created, what
-- is created can be stored, and all of it is committed.
abbrev pub IsImport : Env → Python → Admin → List Row → World → ImportResult → World → Type 0
IsImport env py actor rows w r w' =
    (length rows ≤ bulk_max_rows)
    × (ns : List NewRecord) × Sorted env py actor w 0 rows ns r.errors
    × (r.created ≡ length ns)
    × AllStorable env ns w.session
    × (w' ≡ record w { session = inserted env ns w.session; committed = inserted env ns w.session })

rollback_ok {ℓ} :
    {A : Type ℓ} (r : Result A) (v w' : World) (a : A)
    → rollback_after r v ≡ (ok a, w')
    → (r ≡ ok a) × (v ≡ w')
rollback_ok (ok b) v w' a h = ground (arith, h)
rollback_ok (err e) v w' a h = absurd (cc)

ok_not_err {ℓ} :
    {A : Type ℓ} {a : A} {e : Error} {v w : World}
    → ◌≡◌ {A = Result A × World} (ok a, v) (err e, w)
    → ⊥
ok_not_err h = absurd (cc)

module _ (env : Env) where
  abbrev pub after_first : NewRecord → World → World
  after_first n w = record w { session = after_insert env n w.session }

  pub bulk_insert_allowed :
      (n : NewRecord) (ns : List NewRecord) (w : World)
      → is_storable env n w.session ≡ true
      → bulk_insert env (n ∷ ns) w ≡ bulk_insert env ns (after_first n w)
  unfolding bulk_insert insert_new add_record
  bulk_insert_allowed n ns w e = ground arith

  pub bulk_insert_refused :
      (n : NewRecord) (ns : List NewRecord) (w : World)
      → is_storable env n w.session ≡ false
      → bulk_insert env (n ∷ ns) w ≡ (err Error.integrity_error, w)
  unfolding bulk_insert insert_new add_record
  bulk_insert_refused n ns w e = ground arith

  bulk_insert_inverse :
      (ns : List NewRecord) (w w' : World)
      → bulk_insert env ns w ≡ (ok tt, w')
      → AllStorable env ns w.session × (w' ≡ record w { session = inserted env ns w.session })
  unfolding bulk_insert
  bulk_insert_inverse [] w w' h = (tt, ground (arith, h))
  bulk_insert_inverse (n ∷ ns) w w' h = elim (Bool-cases (is_storable env n w.session)) [
    | inl e ↦
        let (a, k) =
          bulk_insert_inverse ns (after_first n w) w' (sym (bulk_insert_allowed n ns w e) ∙ h) in
        ((allowed-IsStorable env n w.session e, a), k)
    | inr e ↦ absurd (ok_not_err (sym h ∙ bulk_insert_refused n ns w e))
  ]

  bulk_insert_all :
      (ns : List NewRecord) (w : World)
      → AllStorable env ns w.session
      → bulk_insert env ns w ≡ (ok tt, record w { session = inserted env ns w.session })
  unfolding bulk_insert
  bulk_insert_all [] w h = refl
  bulk_insert_all (n ∷ ns) w h =
      bulk_insert_allowed n ns w (IsStorable-allowed env n w.session h.0)
      ∙ bulk_insert_all ns (after_first n w) h.1

pub raise_if_ok :
    (c : Bool) (e : Error) (w v : World) (u : Unit {0})
    → raise_if c e w ≡ (ok u, v)
    → (c ≡ false) × (v ≡ w)
raise_if_ok true e w v u h = elim (ok_not_err (sym h)) [ ]
raise_if_ok false e w v u h = (refl, ground (arith, h))

pair_eq {ℓ} :
    {A : Type ℓ} (x : Result A × World) {a : Result A} {v : World}
    → x.0 ≡ a
    → x.1 ≡ v
    → ◌≡◌ {A = Result A × World} x (a, v)
pair_eq (a, v) h k = cc

-- the store of `bulk_create`: the inserts and the commit, or the rollback
abbrev pub store : Env → List NewRecord → Action (Unit {0})
store env ns = rollback_on_error (bulk_insert env ns >> commit)

store_inverse :
    (env : Env) (ns : List NewRecord) (w w' : World) (u : Unit {0})
    → store env ns w ≡ (ok u, w')
    → AllStorable env ns w.session
      × (w'
          ≡ record w { session = inserted env ns w.session; committed = inserted env ns w.session })
store_inverse env ns w w' u h =
    let m = bulk_insert env ns >> commit in
    let (e0, e1) = rollback_ok (m w).0 (m w).1 w' u h in
    let (_, v, hi, hc) =
      bind-ok_inverse (bulk_insert env ns) (λ _. commit) w (pair_eq (m w) e0 e1) in
    let (a, k) = bulk_insert_inverse env ns w v hi in
    (
      a,
      sym (ap (λ (x : Result (Unit {0}) × World). x.1) hc)
          ∙ ap (λ (x : World). record x { committed = x.session }) k,
    )

store_all :
    (env : Env) (ns : List NewRecord) (w : World)
    → AllStorable env ns w.session
    → store env ns w ≡ (
      ok tt,
      record w { session = inserted env ns w.session; committed = inserted env ns w.session },
    )
store_all env ns w h = ground (arith, bulk_insert_all env ns w h)

world_errors :
    {v w : World} {n : ℕ} {es : List RowError} {r : ImportResult}
    → v ≡ w
    → ok (record { created = n; errors = es }) ≡ ok r
    → ◌≡◌ {A = World × List RowError} (v, es) (w, r.errors)
world_errors e h = ground (arith, e, h)

module _ (env : Env) (py : Python) (rows : List Row) (actor : Admin) (w w' : World)
    (r : ImportResult) where
  pub bulk_create-IsImport :
      bulk_create env py rows actor w ≡ (ok r, w') → IsImport env py actor rows w r w'
  unfolding bulk_create
  bulk_create-IsImport h =
      let (u, w1, h1, k1) =
        bind-ok_inverse (raise_if (ltb bulk_max_rows (length rows)) (business_rule "too many rows"))
          (λ _. validate_rows env py actor 0 rows >>= λ v.
            store env v.0 >> pure (record { created = length v.0; errors = v.1 }))
          w h in
      let (v, w2, h2, k2) =
        bind-ok_inverse (validate_rows env py actor 0 rows)
          (λ v. store env v.0 >> pure (record { created = length v.0; errors = v.1 })) w1 k1 in
      let (t, w3, h3, k3) =
        bind-ok_inverse (store env v.0) (λ _. pure (record { created = length v.0; errors = v.1 }))
          w2 k2 in
      let (c, e1) =
        raise_if_ok (ltb bulk_max_rows (length rows)) (business_rule "too many rows") w w1 u h1 in
      let e2 = validate_rows_ok env py actor 0 rows w1 w2 v h2 in
      let (a, e3) = store_inverse env v.0 w2 w3 t h3 in
      let e = e2 ∙ e1 in
      let er = ap (λ (x : Result ImportResult × World). x.0) k3 in
      let ew = ap (λ (x : Result ImportResult × World). x.1) k3 in
      (
        ground (arith, c),
        v.0,
        subst (λ (x : World × List RowError). Sorted env py actor x.0 0 rows v.0 x.1)
            (world_errors e1 er) (validate_rows-Sorted env py actor 0 rows w1 w2 v h2),
        ground (arith, er),
        subst (λ (x : World). AllStorable env v.0 x.session) e a,
        sym ew
            ∙ e3
            ∙ ap
                (λ (x : World). record x {
                  session = inserted env v.0 x.session;
                  committed = inserted env v.0 x.session;
                })
                e,
      )

  IsImport-bulk_create :
      IsImport env py actor rows w r w' → bulk_create env py rows actor w ≡ (ok r, w')
  unfolding bulk_create
  IsImport-bulk_create h = ground (
    arith,
    h.0,
    h.3,
    h.5,
    Sorted-validate_rows env py actor w 0 rows h.1 r.errors h.2,
    store_all env h.1 w h.4,
  )

  -- An import of rows is answered exactly if it meets the specification of an import, and then with
  -- the result and the state that the specification gives: at most a thousand rows; in their order,
  -- each one is either created, with its stripped title, its finite number and its active category,
  -- or refused under its index for the first thing that it lacks; the created records can be
  -- stored, stand at the end of the table under consecutive ids with the values that the FLOAT
  -- column holds, and are committed together.
  pub bulk_create_refines :
      (bulk_create env py rows actor w ≡ (ok r, w')) ↔ IsImport env py actor rows w r w'
  bulk_create_refines = (bulk_create-IsImport, IsImport-bulk_create)
