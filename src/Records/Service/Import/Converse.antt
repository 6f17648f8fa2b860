-- ===== src/Records/Service/Import/Converse.antt =====
-- app/services/service_record.py: `_validate_row` answers what a row comes to, reason by reason.
use stream_sight_backend.Prelude.{
  ℕ, ◌≡◌, ◌≢◌, refl, ap, ◌∙◌, true, Option, none, some, String, arith, str_eq, inl, inr, Bool-cases,
  Option-cases,
}
use stream_sight_backend.Accounts.Rows.{Admin, RecordCategory}
use stream_sight_backend.Accounts.Errors.{ok}
use stream_sight_backend.Accounts.World.{Env, World}
use stream_sight_backend.Records.Repository.{get_by_name}
use stream_sight_backend.Records.Service.Import.{
  Json, null, text, number, compound, Parsed, Python, Row, title_empty, value_missing,
  category_not_text, category_unknown, Validated, with_category, with_float, with_value, with_title,
  validate_row,
}
use stream_sight_backend.Records.Service.Import.Judgement.{
  HasTitle, HasValue, HasNumber, IsActiveCategory, Judged, accepted, untitled, valueless,
  unreadable, unbounded, uncategorised, unknown,
}

module _ (env : Env) (py : Python) (actor : Admin) (row : Row) (w : World) where
  title_read :
      (title : String)
      → HasTitle env row title
      → validate_row env py actor row w ≡ with_value py actor row title row.value w
  unfolding validate_row
  title_read title (s, e, k, n) = ground (arith, e, k, n)

  title_refused :
      (x : Option Json)
      → ((s : String) → x ≡ some (text s) → str_eq (env.strip s) "" ≡ true)
      → with_title env py actor row x w ≡ (ok (inl title_empty), w)
  title_refused none h = refl
  title_refused (some null) h = refl
  title_refused (some (number n)) h = refl
  title_refused (some (compound n)) h = refl
  title_refused (some (text s)) h = rw (h s refl) refl

  blank_title :
      ((title : String) → ¬ HasTitle env row title)
      → (s : String) → row.title ≡ some (text s)
      → str_eq (env.strip s) "" ≡ true
  blank_title h s e = elim (Bool-cases (str_eq (env.strip s) "")) [
    | inl blank ↦ blank
    | inr n ↦ absurd (h (env.strip s) (s, e, refl, n))
  ]

  value_read :
      (title : String) (j : Json)
      → j ≢ null
      → with_value py actor row title (some j) w ≡ with_float py actor row title (py.float j) w
  value_read title null n = absurd (n refl)
  value_read title (text s) n = refl
  value_read title (number s) n = refl
  value_read title (compound s) n = refl

  value_refused :
      (title : String) (x : Option Json)
      → ((j : Json) → ¬ ((x ≡ some j) × (j ≢ null)))
      → with_value py actor row title x w ≡ (ok (inl value_missing), w)
  value_refused title none h = refl
  value_refused title (some null) h = refl
  value_refused title (some (text s)) h = absurd (h (text s) (refl, λ k. absurd (cc)))
  value_refused title (some (number s)) h = absurd (h (number s) (refl, λ k. absurd (cc)))
  value_refused title (some (compound s)) h = absurd (h (compound s) (refl, λ k. absurd (cc)))

  category_refused :
      (title : String) (value : ℕ) (x : Option Json)
      → ((name : String) → x ≢ some (text name))
      → with_category py actor row title value x w ≡ (ok (inl category_not_text), w)
  category_refused title value none h = refl
  category_refused title value (some null) h = refl
  category_refused title value (some (number n)) h = refl
  category_refused title value (some (compound n)) h = refl
  category_refused title value (some (text name)) h = absurd (h name refl)

  category_absent :
      (title : String) (value : ℕ) (name : String)
      → ((c : RecordCategory) → ¬ IsActiveCategory name c w.session)
      → with_category py actor row title value (some (text name)) w
        ≡ (ok (inl (category_unknown name)), w)
  category_absent title value name h = elim (Option-cases (get_by_name name w.session)) [
    | inl e ↦ rw e refl
    | inr (c, e) ↦ elim (Bool-cases c.is_active) [
      | inl active ↦ absurd (h c (e, active))
      | inr retired ↦ rw (e, retired) refl
    ]
  ]

  -- the row up to the answer of `float`
  float_read :
      (title : String) (j : Json)
      → HasTitle env row title
      → HasValue row j
      → validate_row env py actor row w ≡ with_float py actor row title (py.float j) w
  float_read title j ht hj =
      title_read title ht
      ∙ ap (λ (x : Option Json). with_value py actor row title x w) hj.0
      ∙ value_read title j hj.1

  number_read :
      (title : String) (value : ℕ)
      → HasTitle env row title
      → HasNumber py row value
      → validate_row env py actor row w ≡ with_category py actor row title value row.category w
  number_read title value ht (j, hj, e) =
      float_read title j ht hj ∙ ap (λ (x : Parsed). with_float py actor row title x w) e

  pub Judged-validate_row :
      (v : Validated)
      → Judged env py actor row w.session v
      → validate_row env py actor row w ≡ (ok v, w)
  Judged-validate_row v (accepted title value name c ht hn e h) =
      number_read title value ht hn ∙ rw (e, h.0, h.1) refl
  Judged-validate_row v (untitled h) =
      unfold validate_row in title_refused row.title (blank_title h)
  Judged-validate_row v (valueless title ht h) =
      title_read title ht ∙ value_refused title row.value h
  Judged-validate_row v (unreadable title j ht hj e) = float_read title j ht hj ∙ rw e refl
  Judged-validate_row v (unbounded title j ht hj (inl e)) = float_read title j ht hj ∙ rw e refl
  Judged-validate_row v (unbounded title j ht hj (inr e)) = float_read title j ht hj ∙ rw e refl
  Judged-validate_row v (uncategorised title value ht hn h) =
      number_read title value ht hn ∙ category_refused title value row.category h
  Judged-validate_row v (unknown title value name ht hn e h) =
      number_read title value ht hn
      ∙ ap (λ (x : Option Json). with_category py actor row title value x w) e
      ∙ category_absent title value name h
