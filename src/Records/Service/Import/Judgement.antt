-- ===== src/Records/Service/Import/Judgement.antt =====
-- app/services/service_record.py: what `_validate_row` makes of a row, said of the fields of the
-- row and of the table of categories.
use stream_sight_backend.Prelude.{
  ℕ, ◌≡◌, ◌≢◌, refl, subst, true, false, Option, none, some, String, arith, str_eq, ◌⊎◌, inl, inr,
  Bool-cases, Option-cases,
}
use stream_sight_backend.Accounts.Rows.{Admin, RecordCategory, Db}
use stream_sight_backend.Accounts.Errors.{Result, ok, err, overflow_error}
use stream_sight_backend.Accounts.World.{Env, World}
use stream_sight_backend.Records.Repository.{get_by_name}
use stream_sight_backend.Records.Service.Import.{
  Json, null, text, number, compound, Parsed, not_a_number, too_large, nan, infinite, finite,
  Python, Row, title_empty, value_missing, value_malformed, value_not_finite, category_not_text,
  category_unknown, Validated, note_text, with_category, with_float, with_value, with_title,
  validate_row,
}

-- The title of the row is a text that is `title` after stripping, and not empty.
abbrev pub HasTitle : Env → Row → String → Type 0
HasTitle env row title =
    (s : String) × (row.title ≡ some (text s)) × (env.strip s ≡ title) × (str_eq title "" ≡ false)

-- The value of the row is there, and is not null.
abbrev pub HasValue : Row → Json → Type 0
HasValue row j = (row.value ≡ some j) × (j ≢ null)

-- `float` reads a finite double from it.
abbrev pub HasNumber : Python → Row → ℕ → Type 0
HasNumber py row v = (j : Json) × HasValue row j × (py.float j ≡ finite v)

abbrev pub IsActiveCategory : String → RecordCategory → Db → Type 0
IsActiveCategory name c db = (get_by_name name db ≡ some c) × (c.is_active ≡ true)

-- What a row comes to: a record, or the first reason against it, in the order of title, value and
-- category.
pub data Judged (env : Env) (py : Python) (actor : Admin) (row : Row) (db : Db)
    : Validated → Type 0 where
  accepted :
      (title : String) (value : ℕ) (name : String) (c : RecordCategory)
      → HasTitle env row title
      → HasNumber py row value
      → row.category ≡ some (text name)
      → IsActiveCategory name c db
      → Judged env py actor row db (
          inr (record {
            title = title;
            value = value;
            category_id = c.id;
            created_by_principal_id = actor.principal_id;
            note = note_text py row.note;
          }))
  untitled :
      ((title : String) → ¬ HasTitle env row title) → Judged env py actor row db (inl title_empty)
  valueless :
      (title : String)
      → HasTitle env row title
      → ((j : Json) → ¬ HasValue row j)
      → Judged env py actor row db (inl value_missing)
  unreadable :
      (title : String) (j : Json)
      → HasTitle env row title
      → HasValue row j
      → py.float j ≡ not_a_number
      → Judged env py actor row db (inl value_malformed)
  unbounded :
      (title : String) (j : Json)
      → HasTitle env row title
      → HasValue row j
      → (py.float j ≡ nan) ⊎ (py.float j ≡ infinite)
      → Judged env py actor row db (inl value_not_finite)
  uncategorised :
      (title : String) (value : ℕ)
      → HasTitle env row title
      → HasNumber py row value
      → ((name : String) → row.category ≢ some (text name))
      → Judged env py actor row db (inl category_not_text)
  unknown :
      (title : String) (value : ℕ) (name : String)
      → HasTitle env row title
      → HasNumber py row value
      → row.category ≡ some (text name)
      → ((c : RecordCategory) → ¬ IsActiveCategory name c db)
      → Judged env py actor row db (inl (category_unknown name))

module _ (env : Env) (py : Python) (actor : Admin) (row : Row) (w : World) where
  -- an answer that is judged right, or the OverflowError
  abbrev pub IsJudged : Result Validated × World → Type 0
  IsJudged x =
      ((v : Validated) × (x ≡ (ok v, w)) × Judged env py actor row w.session v)
      ⊎ (x ≡ (err overflow_error, w))

  category-IsJudged :
      (title : String) (value : ℕ)
      → HasTitle env row title
      → HasNumber py row value
      → (x : Option Json) → row.category ≡ x
      → IsJudged (with_category py actor row title value x w)
  category-IsJudged title value ht hv none e =
      inl (inl category_not_text, refl, uncategorised title value ht hv (λ name k. absurd (cc)))
  category-IsJudged title value ht hv (some null) e =
      inl (inl category_not_text, refl, uncategorised title value ht hv (λ name k. absurd (cc)))
  category-IsJudged title value ht hv (some (number n)) e =
      inl (inl category_not_text, refl, uncategorised title value ht hv (λ name k. absurd (cc)))
  category-IsJudged title value ht hv (some (compound n)) e =
      inl (inl category_not_text, refl, uncategorised title value ht hv (λ name k. absurd (cc)))
  category-IsJudged title value ht hv (some (text name)) e =
      elim (Option-cases (get_by_name name w.session)) [
        | inl k ↦ inl (
          inl (category_unknown name),
          rw k refl,
          unknown title value name ht hv e (λ c h. absurd (ground (arith, k, h.0))),
        )
        | inr (c, k) ↦ elim (Bool-cases c.is_active) [
          | inl active ↦
              inl (_, rw (k, active) refl, accepted title value name c ht hv e (k, active))
          | inr retired ↦ inl (
            inl (category_unknown name),
            rw (k, retired) refl,
            unknown title value name ht hv e (λ d h. absurd (ground (arith, k, h.0, h.1, retired))),
          )
        ]
      ]

  float-IsJudged :
      (title : String) (j : Json)
      → HasTitle env row title
      → HasValue row j
      → (x : Parsed) → py.float j ≡ x
      → IsJudged (with_float py actor row title x w)
  float-IsJudged title j ht hj not_a_number e =
      inl (inl value_malformed, refl, unreadable title j ht hj e)
  float-IsJudged title j ht hj too_large e = inr refl
  float-IsJudged title j ht hj nan e =
      inl (inl value_not_finite, refl, unbounded title j ht hj (inl e))
  float-IsJudged title j ht hj infinite e =
      inl (inl value_not_finite, refl, unbounded title j ht hj (inr e))
  float-IsJudged title j ht hj (finite v) e =
      category-IsJudged title v ht (j, hj, e) row.category refl

  value-IsJudged :
      (title : String)
      → HasTitle env row title
      → (x : Option Json) → row.value ≡ x
      → IsJudged (with_value py actor row title x w)
  value-IsJudged title ht none e =
      inl (inl value_missing, refl, valueless title ht (λ j h. absurd (cc)))
  value-IsJudged title ht (some null) e =
      inl (inl value_missing, refl, valueless title ht (λ j h. h.1 (ground (arith, e, h.0))))
  value-IsJudged title ht (some (text s)) e =
      float-IsJudged title (text s) ht (e, λ k. absurd (cc)) (py.float (text s)) refl
  value-IsJudged title ht (some (number s)) e =
      float-IsJudged title (number s) ht (e, λ k. absurd (cc)) (py.float (number s)) refl
  value-IsJudged title ht (some (compound s)) e =
      float-IsJudged title (compound s) ht (e, λ k. absurd (cc)) (py.float (compound s)) refl

  title-IsJudged : (x : Option Json) → row.title ≡ x → IsJudged (with_title env py actor row x w)
  title-IsJudged none e = inl (inl title_empty, refl, untitled (λ t (s, h, _, _). absurd (cc)))
  title-IsJudged (some null) e =
      inl (inl title_empty, refl, untitled (λ t (s, h, _, _). absurd (cc)))
  title-IsJudged (some (number n)) e =
      inl (inl title_empty, refl, untitled (λ t (s, h, _, _). absurd (cc)))
  title-IsJudged (some (compound n)) e =
      inl (inl title_empty, refl, untitled (λ t (s, h, _, _). absurd (cc)))
  title-IsJudged (some (text s)) e = elim (Bool-cases (str_eq (env.strip s) "")) [
    | inl blank ↦ inl (
      inl title_empty,
      rw blank refl,
      untitled (λ t (u, h, k, n). absurd (ground (arith, e, h, k, n, blank))),
    )
    | inr n ↦ rw n (value-IsJudged (env.strip s) (s, e, refl, n) row.value refl)
  ]

  row-IsJudged : IsJudged (validate_row env py actor row w)
  unfolding validate_row
  row-IsJudged = title-IsJudged row.title refl

  -- what a validation answers is judged right
  pub validate_row-Judged :
      (v : Validated)
      → validate_row env py actor row w ≡ (ok v, w)
      → Judged env py actor row w.session v
  validate_row-Judged v h = elim row-IsJudged [
    | inl (u, e, j) ↦ subst (Judged env py actor row w.session) (cc) j
    | inr e ↦ absurd (cc)
  ]
