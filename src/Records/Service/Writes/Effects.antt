-- ===== src/Records/Service/Writes/Effects.antt =====
-- app/services/service_record.py: what creation and soft deletion of a record do to the table.
use stream_sight_backend.Prelude.{
  ℕ, suc, ◌≡◌, ◌≢◌, refl, Bool, true, false, none, some, List, [], ◌∷◌, ◌++◌, arith, ◌==◌, ==_refl,
}
use stream_sight_backend.Sql.{find_where, select_where, exists_where, update_where}
use stream_sight_backend.Sql.Laws.{
  exists_where-update_where, exists_where-find_where, find_where-match,
}
use stream_sight_backend.Accounts.Rows.{Admin, Record, RecordCategory, Db}
use stream_sight_backend.Accounts.Errors.{ok, err, not_found}
use stream_sight_backend.Accounts.World.{Env, World}
use stream_sight_backend.Records.Repository.{
  is_active_record, get_active, record_allowed, save_record,
}
use stream_sight_backend.Records.Service.{RecordCreate}
use stream_sight_backend.Records.Service.Writes.{found_record, save_and_commit, delete_record}

module _ {A : Type 0} where
  select_where-none : (p : A → Bool) (l : List A) → exists_where p l ≡ false → select_where p l ≡ []
  unfolding select_where exists_where
  select_where-none p [] h = refl
  select_where-none p (x ∷ l) h = ground (arith, select_where-none p l)

  find_where-untouched :
      (q p : A → Bool) (f : A → A)
      → ((x : A) → q x ≡ true → p x ≡ false)
      → ((x : A) → p x ≡ true → q (f x) ≡ false)
      → (l : List A) → find_where q (update_where p f l) ≡ find_where q l
  unfolding find_where update_where
  find_where-untouched q p f h k [] = refl
  find_where-untouched q p f h k (x ∷ l) =
      ground (arith, h x, k x, find_where-untouched q p f h k l)

module _ (env : Env) (p : RecordCreate) (held : ℕ) (actor a : Admin) (c : RecordCategory)
    (w : World) where
  -- the record as it is given
  abbrev pub given_row : Record
  given_row = record {
    id = w.session.next_record;
    title = env.strip p.title;
    value = p.value;
    category_id = c.id;
    created_by_principal_id = actor.principal_id;
    note = p.note;
    created_at = env.now;
    deleted_at = none;
  }

  -- the row that creation inserts, with what the column holds of the value
  abbrev pub created_row : Record
  created_row = record given_row { value = held }

  abbrev pub after_creation : Db
  after_creation = record w.session {
    records = w.session.records ++ created_row ∷ [];
    next_record = suc w.session.next_record;
  }

-- the row that deletion writes
abbrev deleted_row : Env → Record → Record
deleted_row env r = record r { deleted_at = some env.now }

module _ (env : Env) (k : ℕ) (r : Record) (w : World) where
  abbrev pub after_deletion : Db
  after_deletion = save_record (deleted_row env r) w.session

  active_id : get_active k w.session ≡ some r → r.id ≡ k
  unfolding get_active
  active_id found = ground (arith, find_where-match (is_active_record k) w.session.records r found)

  deleted_gone : r.id ≡ k → get_active k after_deletion ≡ none
  unfolding get_active save_record
  deleted_gone e = exists_where-find_where (is_active_record k) after_deletion.records (
      exists_where-update_where (is_active_record k) (λ (x : Record). x.id == r.id)
        (λ _. deleted_row env r) (λ x. ground (arith, e)) w.session.records)

  deleted_only : r.id ≡ k → (j : ℕ) → j ≢ k → get_active j after_deletion ≡ get_active j w.session
  unfolding get_active save_record
  deleted_only e j n =
      find_where-untouched (is_active_record j) (λ (x : Record). x.id == r.id)
        (λ _. deleted_row env r) (λ x h. ground (arith, e, n)) (λ x h. ground (arith, e, n))
        w.session.records

  delete_commits :
      get_active k w.session ≡ some r
      → record_allowed (some r.value) r w.session ≡ true
      → delete_record env k w
        ≡ (ok tt, record w { session = after_deletion; committed = after_deletion })
  unfolding delete_record found_record save_and_commit record_allowed
  delete_commits found allowed = ground (arith, found, allowed, ==_refl r.value)

  delete_absent :
      get_active k after_deletion ≡ none
      → let w' = record w { session = after_deletion; committed = after_deletion } in
        delete_record env k w' ≡ (err (not_found "Record" k), w')
  unfolding delete_record found_record
  delete_absent gone = ground (arith, gone)

  -- Deleting a record that is not deleted, and whose row meets the constraints, commits: the record
  -- is not found any more, every other one is found as before, and a second deletion is answered by
  -- 404 and changes nothing.
  pub delete_record_hides :
      get_active k w.session ≡ some r
      → record_allowed (some r.value) r w.session ≡ true
      → let w' = record w { session = after_deletion; committed = after_deletion } in
        (delete_record env k w ≡ (ok tt, w'))
        × (get_active k w'.committed ≡ none)
        × ((j : ℕ) → j ≢ k → get_active j w'.committed ≡ get_active j w.session)
        × (delete_record env k w' ≡ (err (not_found "Record" k), w'))
  delete_record_hides found allowed =
      let e = active_id found in
      let gone = deleted_gone e in
      (delete_commits found allowed, gone, deleted_only e, delete_absent gone)
