-- ===== src/Records/Service/Import/Outcomes.antt =====
-- app/services/service_record.py: what `bulk_create` adds up to, and what a failed import leaves.
use mathlib.Core.List.{append-nil}
use stream_sight_backend.Prelude.{
  ℕ, suc, ◌+◌, ◌≤◌, ◌≡◌, refl, sym, ap, ◌∙◌, List, [], ◌∷◌, ◌++◌, arith, length, ltb, inl, inr,
  Bool-cases,
}
use stream_sight_backend.Accounts.Rows.{Admin, Record, Db}
use stream_sight_backend.Accounts.Errors.{Error, Result, ok, err, business_rule}
use stream_sight_backend.Accounts.World.{
  Env, World, Action, pure, raise_if, commit, rollback_after, bind-err_inverse, ◌>>=◌, ◌>>◌,
}
use stream_sight_backend.Records.Repository.{held_row}
use stream_sight_backend.Records.Service.Writes.{NewRecord, record_row}
use stream_sight_backend.Records.Service.Import.{
  Python, Row, RowError, ImportResult, bulk_create, bulk_insert, validate_rows, bulk_max_rows,
}
use stream_sight_backend.Records.Service.Import.Accounting.{
  Sorted-length, validate_rows_ok, validate_rows-keeps,
}
use stream_sight_backend.Records.Service.Import.Refines.{
  store, raise_if_ok, after_first, bulk_insert_allowed, bulk_insert_refused, bulk_create-IsImport,
}
use stream_sight_backend.Records.Service.Import.Storable.{
  after_insert, inserted, stored_row, is_storable,
}

-- the new rows of an import, from an id on
abbrev numbered : Env → ℕ → List NewRecord → List Record
numbered env k [] = []
numbered env k (n ∷ ns) =
    held_row (env.store_float n.value) (record_row k env.now n) ∷ numbered env (suc k) ns

length-numbered : (env : Env) (k : ℕ) (ns : List NewRecord) → length (numbered env k ns) ≡ length ns
length-numbered env k [] = refl
length-numbered env k (n ∷ ns) = ap suc (length-numbered env (suc k) ns)

append_one : {A : Type 0} (xs : List A) (x : A) (ys : List A) → (xs ++ x ∷ []) ++ ys ≡ xs ++ x ∷ ys
append_one [] x ys = refl
append_one (y ∷ xs) x ys = ap (λ l. y ∷ l) (append_one xs x ys)

length-append : {A : Type 0} (xs ys : List A) → length (xs ++ ys) ≡ length xs + length ys
length-append [] ys = omega arith
length-append (x ∷ xs) ys = omega (arith, length-append xs ys)

records-inserted :
    (env : Env) (ns : List NewRecord) (db : Db)
    → (inserted env ns db).records ≡ db.records ++ numbered env db.next_record ns
records-inserted env [] db = sym (append-nil db.records)
records-inserted env (n ∷ ns) db =
    let row = stored_row env n db in
    records-inserted env ns (after_insert env n db)
    ∙ append_one db.records row (numbered env (suc db.next_record) ns)

commit_fails :
    (x : Result (Unit {0}) × World) (e : Error) (w' : World)
    → (let y = elim x.0 as (λ _. Result (Unit {0}) × World) [
      | ok a ↦ commit x.1
      | err d ↦ (err d, x.1)
    ] in
        rollback_after y.0 y.1)
      ≡ (err e, w')
    → w'.committed ≡ x.1.committed
commit_fails (ok u, v) e w' h = absurd (ground (arith, h))
commit_fails (err d, v) e w' h = ground (arith, h)

module _ (env : Env) (py : Python) (rows : List Row) (actor : Admin) (w w' : World) where
  -- When an import is answered, the number of created records and the number of errors add up to
  -- the number of rows, of which there are at most a thousand, and the committed table of records
  -- is the one of the request's session with that number of rows added after it.
  bulk_create_accounts :
      (r : ImportResult)
      → bulk_create env py rows actor w ≡ (ok r, w')
      → (r.created + length r.errors ≡ length rows)
        × (length rows ≤ bulk_max_rows)
        × (new : List Record) × (length new ≡ r.created)
        × (w'.committed.records ≡ w.session.records ++ new)
  bulk_create_accounts r h =
      let (le, ns, s, c, a, e) = bulk_create-IsImport env py rows actor w w' r h in
      (
        omega (arith, c, Sorted-length env py actor w 0 rows ns r.errors s),
        le,
        numbered env w.session.next_record ns,
        length-numbered env w.session.next_record ns ∙ sym c,
        ap (λ (x : World). x.committed.records) e ∙ records-inserted env ns w.session,
      )

  bulk_insert-keeps :
      (ns : List NewRecord) (v : World)
      → ((bulk_insert env ns v).1.committed ≡ v.committed)
        × ((bulk_insert env ns v).1.kicks ≡ v.kicks)
  unfolding bulk_insert
  bulk_insert-keeps [] v = (refl, refl)
  bulk_insert-keeps (n ∷ ns) v = elim (Bool-cases (is_storable env n v.session)) [
    | inl e ↦ rw (bulk_insert_allowed env n ns v e) (bulk_insert-keeps ns (after_first env n v))
    | inr e ↦ rw (bulk_insert_refused env n ns v e) (refl, refl)
  ]

  store_fails :
      (ns : List NewRecord) (e : Error) (v : World)
      → store env ns v ≡ (err e, w')
      → w'.committed ≡ v.committed
  store_fails ns e v h = commit_fails (bulk_insert env ns v) e w' h ∙ (bulk_insert-keeps ns v).0

  rows_fail :
      (e : Error) (v : World)
      → (let go : Action ImportResult = validate_rows env py actor 0 rows >>= λ v.
            store env v.0 >> pure (record { created = length v.0; errors = v.1 }) in
          go v)
        ≡ (err e, w')
      → w'.committed ≡ v.committed
  rows_fail e v h =
      elim (bind-err_inverse (validate_rows env py actor 0 rows)
        (λ v. store env v.0 >> pure (record { created = length v.0; errors = v.1 })) v h) [
          | inl h1 ↦
              sym (ap (λ (y : Result (List NewRecord × List RowError) × World). y.1.committed) h1)
              ∙ ap (λ (x : World). x.committed) (validate_rows-keeps env py actor 0 rows v)
          | inr (s, v1, h1, k1) ↦
              let e1 = validate_rows_ok env py actor 0 rows v v1 s h1 in
              elim (bind-err_inverse (store env s.0)
                (λ _. pure (record { created = length s.0; errors = s.1 })) v1 k1) [
                  | inl h2 ↦ store_fails s.0 e v1 h2 ∙ ap (λ (x : World). x.committed) e1
                  | inr (t, v2, h2, k2) ↦ absurd (ground (arith, k2))
                ]
        ]

  -- An import that raises an error, for a row as for the whole, leaves the committed database as
  -- it was: no row of it is created.
  pub bulk_create_fails :
      (e : Error) → bulk_create env py rows actor w ≡ (err e, w') → w'.committed ≡ w.committed
  unfolding bulk_create
  bulk_create_fails e h =
      elim (bind-err_inverse
        (raise_if (ltb bulk_max_rows (length rows)) (business_rule "too many rows"))
        (λ _. validate_rows env py actor 0 rows >>= λ v.
          store env v.0 >> pure (record { created = length v.0; errors = v.1 }))
        w h) [
          | inl h1 ↦ ground (arith, h1)
          | inr (u, w1, h1, k1) ↦
              let (c, e1) =
                raise_if_ok (ltb bulk_max_rows (length rows)) (business_rule "too many rows") w w1 u
                  h1 in
              rows_fail e w1 k1 ∙ ap (λ (x : World). x.committed) e1
        ]
