-- ===== src/Records/Service/Import/Storable.antt =====
-- app/models/record.py: what the table asks of the new records of an import.
use stream_sight_backend.Prelude.{
  suc, ◌++◌, ℕ, ◌≤◌, ◌≡◌, refl, Bool, true, List, [], ◌∷◌, arith, length, Option, none, some,
  is_some, ◌==◌,
}
use stream_sight_backend.Sql.{find_where}
use stream_sight_backend.Accounts.Policy.{codes}
use stream_sight_backend.Accounts.Rows.{Admin, Record, RecordCategory, Db}
use stream_sight_backend.Accounts.World.{Env}
use stream_sight_backend.Records.Repository.{held_row, record_allowed}
use stream_sight_backend.Records.Service.Writes.{NewRecord, record_row}

-- the row that is stored of a new record: what was given, under the next id, at the time of the
-- request, with what the FLOAT column holds of the value
abbrev pub stored_row : Env → NewRecord → Db → Record
stored_row env n db = held_row (env.store_float n.value) (record {
  id = db.next_record;
  title = n.title;
  value = n.value;
  category_id = n.category_id;
  created_by_principal_id = n.created_by_principal_id;
  note = n.note;
  created_at = env.now;
  deleted_at = none;
})

-- the database with one new record at the end of the table
abbrev pub after_insert : Env → NewRecord → Db → Db
after_insert env n db = record db {
  records = db.records ++ stored_row env n db ∷ [];
  next_record = suc db.next_record;
}

-- the database with new records at the end of the table, under consecutive ids
abbrev pub inserted : Env → List NewRecord → Db → Db
inserted env [] db = db
inserted env (n ∷ ns) db = inserted env ns (after_insert env n db)

-- What the table asks of a new record: a category and an author that exist, a title of 1 to 200
-- characters, a note of at most 500, and a value that the FLOAT column holds.
pub record IsStorable (env : Env) (n : NewRecord) (db : Db) : Type 0 where
  pub categorised :
      (c : RecordCategory) × (find_where
          (λ (x : RecordCategory). x.id == n.category_id)
          db.record_categories
        ≡ some c)
  pub authored :
      (a : Admin) × (find_where
          (λ (x : Admin). x.principal_id == n.created_by_principal_id)
          db.admins
        ≡ some a)
  pub titled : 1 ≤ length (codes n.title)
  pub title_fits : length (codes n.title) ≤ 200
  pub note_fits : length (codes n.note) ≤ 500
  pub held : (v : ℕ) × (env.store_float n.value ≡ some v)

-- Each of the new records can be stored when its turn comes.
abbrev pub AllStorable : Env → List NewRecord → Db → Type 0
AllStorable env [] db = Unit
AllStorable env (n ∷ ns) db = IsStorable env n db × AllStorable env ns (after_insert env n db)

is_some_inverse : {A : Type 0} (o : Option A) → is_some o ≡ true → (a : A) × (o ≡ some a)
is_some_inverse none h = absurd (cc)
is_some_inverse (some a) h = (a, refl)

-- the constraints as the database tests them
module _ (env : Env) (n : NewRecord) (db : Db) where
  abbrev pub is_storable : Bool
  is_storable = record_allowed (env.store_float n.value) (record_row db.next_record env.now n) db

  pub allowed-IsStorable : is_storable ≡ true → IsStorable env n db
  unfolding record_allowed
  allowed-IsStorable h = record {
    categorised = is_some_inverse _ (ground (arith, h));
    authored = is_some_inverse _ (ground (arith, h));
    titled = ground (arith, h);
    title_fits = ground (arith, h);
    note_fits = ground (arith, h);
    held = is_some_inverse _ (ground (arith, h));
  }

  pub IsStorable-allowed : IsStorable env n db → is_storable ≡ true
  unfolding record_allowed
  IsStorable-allowed h =
      ground (arith, h.categorised.1, h.authored.1, h.titled, h.title_fits, h.note_fits, h.held.1)
