-- ===== src/Records/Service/Writes.antt =====
-- app/services/service_record.py: creation, update and soft deletion of a record.
pub mod Effects
use stream_sight_backend.Prelude.{ℕ, Option, none, some, String, ◌==◌, if◌then◌else◌}
use stream_sight_backend.Accounts.Rows.{Admin, Record}
use stream_sight_backend.Accounts.Errors.{not_found}
use stream_sight_backend.Accounts.World.{
  Env, Action, pure, raise, query, write_checked, commit, rollback_on_error, ◌>>=◌, ◌>>◌,
}
use stream_sight_backend.Records.Repository.{
  RecordListRow, get_active, held_row, record_allowed, add_record, save_record,
}
use stream_sight_backend.Records.Service.{
  RecordCreate, resolve_writable_category, clean_title, get_record,
}

-- the values of a new record that the service sets; the id and the time are the database's
pub record NewRecord : Type 0 where
  pub title : String
  pub value : ℕ
  pub category_id : ℕ
  pub created_by_principal_id : ℕ
  pub note : String

abbrev pub record_row : ℕ → ℕ → NewRecord → Record
record_row id now n = record {
  id = id;
  title = n.title;
  value = n.value;
  category_id = n.category_id;
  created_by_principal_id = n.created_by_principal_id;
  note = n.note;
  created_at = now;
  deleted_at = none;
}

-- the INSERT of a new record, which the constraints may refuse
-- The object that the session keeps has the value as it was given.
unfoldable pub insert_new : Env → NewRecord → Action Record
insert_new env n = do
  r ← query (λ db. record_row db.next_record env.now n)
  write_checked (record_allowed (env.store_float n.value) r)
      (add_record (held_row (env.store_float n.value) r))
  pure r

abbrev pub insert_and_commit : Env → NewRecord → Action Record
insert_and_commit env n = do r ← insert_new env n; commit; pure r

abbrev pub new_record : RecordCreate → ℕ → String → Admin → NewRecord
new_record p category_id title actor = record {
  title = title;
  value = p.value;
  category_id = category_id;
  created_by_principal_id = actor.principal_id;
  note = p.note;
}

-- The session keeps its object of a record after a commit (`expire_on_commit=False`): a SELECT of
-- the record in the same request gives its value as it was given, not as the column holds it.
abbrev pub kept_value : ℕ → RecordListRow → RecordListRow
kept_value v row = record row { record_of = record row.record_of { value = v } }

-- `create_record`
unfoldable pub create_record : Env → RecordCreate → Admin → Action RecordListRow
unfolding resolve_writable_category clean_title insert_new get_record
create_record env p actor = do
  category_id ← resolve_writable_category p.category
  title ← clean_title env p.title
  r ← rollback_on_error (insert_and_commit env (new_record p category_id title actor))
  row ← get_record r.id
  pure (kept_value p.value row)

unfoldable pub found_record : ℕ → Option Record → Action Record
found_record k none = raise (not_found "Record" k)
found_record k (some r) = pure r

-- what the FLOAT column holds after an UPDATE, which sends the value only if it changed
abbrev pub sent : Env → Record → Record → Option ℕ
sent env old r = if r.value == old.value then some old.value else env.store_float r.value

-- the flush of a changed record, held to the constraints, and the commit
unfoldable pub save_and_commit : Env → Record → Record → Action (Unit {0})
save_and_commit env old r = do
  write_checked (record_allowed (sent env old r) r) (save_record (held_row (sent env old r) r))
  commit

abbrev pub edited : Record → RecordCreate → ℕ → String → Record
edited r p category_id title = record r {
  title = title;
  value = p.value;
  category_id = category_id;
  note = p.note;
}

-- `update_record`
unfoldable pub update_record : Env → ℕ → RecordCreate → Action RecordListRow
unfolding found_record resolve_writable_category clean_title save_and_commit get_record
update_record env k p = do
  found ← query (get_active k)
  r ← found_record k found
  category_id ← resolve_writable_category p.category
  title ← clean_title env p.title
  rollback_on_error (save_and_commit env r (edited r p category_id title))
  row ← get_record k
  pure (kept_value p.value row)

-- `delete_record`
unfoldable pub delete_record : Env → ℕ → Action (Unit {0})
unfolding found_record save_and_commit
delete_record env k = do
  found ← query (get_active k)
  r ← found_record k found
  rollback_on_error (save_and_commit env r (record r { deleted_at = some env.now }))
