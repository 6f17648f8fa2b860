-- ===== src/Records/Service/Import.antt =====
-- app/services/service_record.py: `bulk_create` and `_validate_row`. A row is the four keys that
-- are read, `none` where the key is absent.
pub mod Judgement
pub mod Converse
pub mod Storable
pub mod Accounting
pub mod Refines
pub mod Outcomes
use stream_sight_backend.Prelude.{
  ℕ, suc, Option, none, some, List, [], ◌∷◌, String, str_eq, ltb, length, ◌⊎◌, inl, inr,
  if◌then◌else◌,
}
use stream_sight_backend.Accounts.Rows.{Admin, RecordCategory}
use stream_sight_backend.Accounts.Errors.{business_rule, overflow_error}
use stream_sight_backend.Accounts.World.{
  Env, Action, pure, raise, query, commit, raise_if, rollback_on_error, ◌>>=◌, ◌>>◌,
}
use stream_sight_backend.Records.Repository.{get_by_name}
use stream_sight_backend.Records.Service.Writes.{NewRecord, insert_new}

-- A value of a JSON body; numbers and booleans, and compounds, by their text.
pub data Json : Type 0 where
  null : Json
  text number compound : String → Json

-- what `float(x)` does: TypeError or ValueError, OverflowError, or a double
pub data Parsed : Type 0 where
  not_a_number too_large nan infinite : Parsed
  finite : ℕ → Parsed

-- `float` and `str` of Python
pub record Python : Type 0 where
  pub float : Json → Parsed
  pub str : Json → String

pub record Row : Type 0 where
  pub title : Option Json
  pub value : Option Json
  pub category : Option Json
  pub note : Option Json

-- the reasons of a RowError
pub data Reason : Type 0 where
  title_empty value_missing value_malformed value_not_finite category_not_text : Reason
  category_unknown : String → Reason

pub record RowError : Type 0 where
  pub row_index : ℕ
  pub reason : Reason

-- ImportResult
pub record ImportResult : Type 0 where
  pub created : ℕ
  pub errors : List RowError

-- a row is refused, or gives a record
abbrev pub Validated : Type 0
Validated = Reason ⊎ NewRecord

abbrev pub note_text : Python → Option Json → String
note_text py none = ""
note_text py (some j) = py.str j

abbrev pub known_category :
    Python → Admin → Row → String → ℕ → String → Option RecordCategory → Validated
known_category py actor row title value name none = inl (category_unknown name)
known_category py actor row title value name (some c) =
    if c.is_active
    then inr (record {
      title = title;
      value = value;
      category_id = c.id;
      created_by_principal_id = actor.principal_id;
      note = note_text py row.note;
    })
    else inl (category_unknown name)

abbrev pub with_category : Python → Admin → Row → String → ℕ → Option Json → Action Validated
with_category py actor row title value (some (text name)) = do
  c ← query (get_by_name name)
  pure (known_category py actor row title value name c)
with_category py actor row title value none = pure (inl category_not_text)
with_category py actor row title value (some null) = pure (inl category_not_text)
with_category py actor row title value (some (number n)) = pure (inl category_not_text)
with_category py actor row title value (some (compound n)) = pure (inl category_not_text)

abbrev pub with_float : Python → Admin → Row → String → Parsed → Action Validated
with_float py actor row title not_a_number = pure (inl value_malformed)
with_float py actor row title too_large = raise overflow_error
with_float py actor row title nan = pure (inl value_not_finite)
with_float py actor row title infinite = pure (inl value_not_finite)
with_float py actor row title (finite v) = with_category py actor row title v row.category

abbrev pub with_value : Python → Admin → Row → String → Option Json → Action Validated
with_value py actor row title none = pure (inl value_missing)
with_value py actor row title (some null) = pure (inl value_missing)
with_value py actor row title (some (text s)) = with_float py actor row title (py.float (text s))
with_value py actor row title (some (number s)) =
    with_float py actor row title (py.float (number s))
with_value py actor row title (some (compound s)) =
    with_float py actor row title (py.float (compound s))

abbrev pub with_title : Env → Python → Admin → Row → Option Json → Action Validated
with_title env py actor row (some (text s)) =
    if str_eq (env.strip s) ""
    then pure (inl title_empty)
    else with_value py actor row (env.strip s) row.value
with_title env py actor row none = pure (inl title_empty)
with_title env py actor row (some null) = pure (inl title_empty)
with_title env py actor row (some (number s)) = pure (inl title_empty)
with_title env py actor row (some (compound s)) = pure (inl title_empty)

-- `_validate_row`
unfoldable pub validate_row : Env → Python → Admin → Row → Action Validated
validate_row env py actor row = with_title env py actor row row.title

abbrev pub sorted_in :
    ℕ → Validated → List NewRecord × List RowError → List NewRecord × List RowError
sorted_in i (inl reason) (valid, errors) =
    (valid, record { row_index = i; reason = reason } ∷ errors)
sorted_in i (inr n) (valid, errors) = (n ∷ valid, errors)

-- the loop over the rows, from the index of the first
unfoldable pub validate_rows :
    Env → Python → Admin → ℕ → List Row → Action (List NewRecord × List RowError)
validate_rows env py actor i [] = pure ([], [])
validate_rows env py actor i (row ∷ rows) = do
  v ← validate_row env py actor row
  rest ← validate_rows env py actor (suc i) rows
  pure (sorted_in i v rest)

-- `bulk_insert` of the repository
unfoldable pub bulk_insert : Env → List NewRecord → Action (Unit {0})
bulk_insert env [] = pure tt
bulk_insert env (n ∷ ns) = do r ← insert_new env n; bulk_insert env ns

-- `_BULK_MAX_ROWS`
abbrev pub bulk_max_rows : ℕ
bulk_max_rows = 1000

-- `bulk_create`
unfoldable pub bulk_create : Env → Python → List Row → Admin → Action ImportResult
bulk_create env py rows actor = do
  raise_if (ltb bulk_max_rows (length rows)) (business_rule "too many rows")
  v ← validate_rows env py actor 0 rows
  rollback_on_error (bulk_insert env v.0 >> commit)
  pure (record { created = length v.0; errors = v.1 })
