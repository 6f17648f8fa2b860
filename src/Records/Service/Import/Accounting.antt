-- ===== src/Records/Service/Import/Accounting.antt =====
-- app/services/service_record.py: what an import creates, refuses and leaves alone.
use stream_sight_backend.Prelude.{
  ℕ, suc, ◌+◌, ◌≡◌, refl, sym, ap, subst, ◌∙◌, List, [], ◌∷◌, arith, length, inl, inr,
}
use stream_sight_backend.Accounts.Rows.{Admin}
use stream_sight_backend.Accounts.Errors.{Result, ok}
use stream_sight_backend.Accounts.World.{pure, bind-ok_inverse, Env, World, ◌>>=◌}
use stream_sight_backend.Records.Service.Writes.{NewRecord}
use stream_sight_backend.Records.Service.Import.{
  Python, Row, Reason, RowError, Validated, validate_row, sorted_in, validate_rows,
}
use stream_sight_backend.Records.Service.Import.Judgement.{Judged, validate_row-Judged}
use stream_sight_backend.Records.Service.Import.Converse.{Judged-validate_row}

-- What the rows from index `i` on come to: each row gives a record or an error with its index.
pub data Sorted (env : Env) (py : Python) (actor : Admin) (w : World)
    : ℕ → List Row → List NewRecord → List RowError → Type 0 where
  done : (i : ℕ) → Sorted env py actor w i [] [] []
  created :
      (i : ℕ) (row : Row) (rows : List Row) (n : NewRecord) (ns : List NewRecord)
      (es : List RowError)
      → Judged env py actor row w.session (inr n)
      → Sorted env py actor w (suc i) rows ns es
      → Sorted env py actor w i (row ∷ rows) (n ∷ ns) es
  refused :
      (i : ℕ) (row : Row) (rows : List Row) (reason : Reason) (ns : List NewRecord)
      (es : List RowError)
      → Judged env py actor row w.session (inl reason)
      → Sorted env py actor w (suc i) rows ns es
      → Sorted env py actor w i (row ∷ rows) ns (record { row_index = i; reason = reason } ∷ es)

module _ (env : Env) (py : Python) (actor : Admin) where
  validate_row-keeps : (row : Row) (w : World) → (validate_row env py actor row w).1 ≡ w
  unfolding validate_row
  validate_row-keeps row w = ground arith

  validate_row_ok :
      (row : Row) (w w' : World) (v : Validated)
      → validate_row env py actor row w ≡ (ok v, w')
      → w' ≡ w
  validate_row_ok row w w' v h =
      sym (ap (λ (x : Result Validated × World). x.1) h) ∙ validate_row-keeps row w

  pub validate_rows-keeps :
      (i : ℕ) (rows : List Row) (w : World) → (validate_rows env py actor i rows w).1 ≡ w
  unfolding validate_rows
  validate_rows-keeps i [] w = refl
  validate_rows-keeps i (row ∷ rows) w =
      ground (arith, validate_row-keeps row w, validate_rows-keeps (suc i) rows w)

  pub validate_rows_ok :
      (i : ℕ) (rows : List Row) (w w' : World) (r : List NewRecord × List RowError)
      → validate_rows env py actor i rows w ≡ (ok r, w')
      → w' ≡ w
  validate_rows_ok i rows w w' r h =
      sym (ap (λ (x : Result (List NewRecord × List RowError) × World). x.1) h)
      ∙ validate_rows-keeps i rows w

  Sorted-sorted_in :
      (i : ℕ) (row : Row) (rows : List Row) (w : World) (v : Validated) (ns : List NewRecord)
      (es : List RowError)
      → validate_row env py actor row w ≡ (ok v, w)
      → Sorted env py actor w (suc i) rows ns es
      → Sorted env py actor w i (row ∷ rows) (sorted_in i v (ns, es)).0 (sorted_in i v (ns, es)).1
  Sorted-sorted_in i row rows w (inl reason) ns es h s =
      refused i row rows reason ns es (validate_row-Judged env py actor row w (inl reason) h) s
  Sorted-sorted_in i row rows w (inr n) ns es h s =
      created i row rows n ns es (validate_row-Judged env py actor row w (inr n) h) s

  -- a loop that ends has validated the first row and the others
  validate_rows_cons :
      (i : ℕ) (row : Row) (rows : List Row) (w w' : World) (r : List NewRecord × List RowError)
      → validate_rows env py actor i (row ∷ rows) w ≡ (ok r, w')
      → (v : Validated) × (s : List NewRecord × List RowError) × (validate_row env py actor row w
          ≡ (ok v, w))
        × (validate_rows env py actor (suc i) rows w ≡ (ok s, w))
        × (r ≡ sorted_in i v s)
  unfolding validate_rows
  validate_rows_cons i row rows w w' r h =
      let (v, w1, h1, k1) =
        bind-ok_inverse (validate_row env py actor row)
          (λ v. validate_rows env py actor (suc i) rows >>= λ rest. pure (sorted_in i v rest)) w
          h in
      let (s, w2, h2, k2) =
        bind-ok_inverse (validate_rows env py actor (suc i) rows)
          (λ rest. pure (sorted_in i v rest)) w1 k1 in
      let e1 = validate_row_ok row w w1 v h1 in
      let e2 = validate_rows_ok (suc i) rows w1 w2 s h2 in
      (
        v,
        s,
        h1 ∙ ap (λ x. (ok v, x)) e1,
        subst (λ x. validate_rows env py actor (suc i) rows x ≡ (ok s, x)) e1
            (h2 ∙ ap (λ x. (ok s, x)) e2),
        ground (arith, k2),
      )

  pub validate_rows-Sorted :
      (i : ℕ) (rows : List Row) (w w' : World) (r : List NewRecord × List RowError)
      → validate_rows env py actor i rows w ≡ (ok r, w')
      → Sorted env py actor w i rows r.0 r.1
  unfolding validate_rows
  validate_rows-Sorted i [] w w' r h =
      subst (λ (x : List NewRecord × List RowError). Sorted env py actor w i [] x.0 x.1)
        (ground (arith, h)) (done i)
  validate_rows-Sorted i (row ∷ rows) w w' r h =
      let (v, s, hv, hs, e) = validate_rows_cons i row rows w w' r h in
      rw e (Sorted-sorted_in i row rows w v s.0 s.1 hv (validate_rows-Sorted (suc i) rows w w s hs))

  -- the converse: the rows determine the loop
  pub Sorted-validate_rows :
      (w : World) (i : ℕ) (rows : List Row) (ns : List NewRecord) (es : List RowError)
      → Sorted env py actor w i rows ns es
      → validate_rows env py actor i rows w ≡ (ok (ns, es), w)
  unfolding validate_rows
  Sorted-validate_rows w i rows ns es (done _) = refl
  Sorted-validate_rows w i rows ns es (created _ row rest n ms _ h s) = ground (
    arith,
    Judged-validate_row env py actor row w (inr n) h,
    Sorted-validate_rows w (suc i) rest ms es s,
  )
  Sorted-validate_rows w i rows ns es (refused _ row rest reason _ fs h s) = ground (
    arith,
    Judged-validate_row env py actor row w (inl reason) h,
    Sorted-validate_rows w (suc i) rest ns fs s,
  )

  pub Sorted-length :
      (w : World) (i : ℕ) (rows : List Row) (ns : List NewRecord) (es : List RowError)
      → Sorted env py actor w i rows ns es
      → length ns + length es ≡ length rows
  Sorted-length w i rows ns es (done _) = refl
  Sorted-length w i rows ns es (created _ row rest n ms _ h s) =
      omega (arith, Sorted-length w (suc i) rest ms es s)
  Sorted-length w i rows ns es (refused _ row rest reason _ fs h s) =
      omega (arith, Sorted-length w (suc i) rest ns fs s)
