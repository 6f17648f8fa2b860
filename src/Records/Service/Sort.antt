-- ===== src/Records/Service/Sort.antt =====
-- app/services/service_record.py: which texts `_parse_sort` accepts.
use stream_sight_backend.Prelude.{
  ℕ, ◌≡◌, ◌↔◌, inl, inr, refl, sym, ap, ◌∙◌, true, Option, none, some, List, [], ◌∷◌, ◌++◌, arith,
  ◌==◌, Bool-cases,
}
use stream_sight_backend.Sql.{find_where}
use stream_sight_backend.Sql.Laws.{find_where-match}
use stream_sight_backend.Accounts.Policy.{codes}
use stream_sight_backend.Records.Repository.{
  SortField, id, title, value, category, created_at, SortDirection, asc, desc,
}
use stream_sight_backend.Records.Service.{
  cons_first, split, codes_eq, field_value, direction_value, sort_field_of, direction_of, both_of,
  sort_of_parts, or_default, sort_of,
}

-- `c.join(parts)`
abbrev join : ℕ → List (List ℕ) → List ℕ
join c [] = []
join c (p ∷ []) = p
join c (p ∷ q ∷ ps) = p ++ c ∷ join c (q ∷ ps)

codes_eq_sound : (s t : List ℕ) → codes_eq s t ≡ true → s ≡ t
codes_eq_sound [] [] h = refl
codes_eq_sound [] (d ∷ t) h = absurd (cc)
codes_eq_sound (c ∷ s) [] h = absurd (cc)
codes_eq_sound (c ∷ s) (d ∷ t) h = ground (arith, codes_eq_sound s t)

-- a split is never empty
data IsParts : List (List ℕ) → Type 0 where
  parts : (p : List ℕ) (ps : List (List ℕ)) → IsParts (p ∷ ps)

cons_first-IsParts : (x : ℕ) (ps : List (List ℕ)) → IsParts (cons_first x ps)
cons_first-IsParts x [] = parts (x ∷ []) []
cons_first-IsParts x (p ∷ ps) = parts (x ∷ p) ps

split-IsParts : (c : ℕ) (s : List ℕ) → IsParts (split c s)
unfolding split
split-IsParts c [] = parts [] []
split-IsParts c (x ∷ s) = elim (Bool-cases (x == c)) [
  | inl e ↦ rw e (parts [] (split c s))
  | inr e ↦ rw e (cons_first-IsParts x (split c s))
]

join_cut : (c : ℕ) (ps : List (List ℕ)) → IsParts ps → join c ([] ∷ ps) ≡ c ∷ join c ps
join_cut c [] h = elim h [ ]
join_cut c (p ∷ ps) h = refl

join_first : (c x : ℕ) (ps : List (List ℕ)) → IsParts ps → join c (cons_first x ps) ≡ x ∷ join c ps
join_first c x [] h = elim h [ ]
join_first c x (p ∷ []) h = refl
join_first c x (p ∷ q ∷ ps) h = refl

join-split : (c : ℕ) (s : List ℕ) → join c (split c s) ≡ s
unfolding split
join-split c [] = refl
join-split c (x ∷ s) = elim (Bool-cases (x == c)) [
  | inl e ↦ rw e (
      join_cut c (split c s) (split-IsParts c s)
      ∙ ap (λ t. c ∷ t) (join-split c s)
      ∙ ap (λ d. d ∷ s) (ground (arith, e)))
  | inr e ↦ rw e (join_first c x (split c s) (split-IsParts c s) ∙ ap (λ t. x ∷ t) (join-split c s))
]

-- the texts of a sort
abbrev sort_text : SortField → SortDirection → List ℕ
sort_text f d = codes (field_value f) ++ b':' ∷ codes (direction_value d)

both_of_sound :
    (a : Option SortField) (b : Option SortDirection) (f : SortField) (d : SortDirection)
    → both_of a b ≡ some (f, d)
    → (a ≡ some f) × (b ≡ some d)
both_of_sound none b f d h = absurd (cc)
both_of_sound (some g) none f d h = absurd (cc)
both_of_sound (some g) (some e) f d h = ground arith

sort_of_parts_sound :
    (ps : List (List ℕ)) (f : SortField) (d : SortDirection)
    → sort_of_parts ps ≡ some (f, d)
    → join b':' ps ≡ sort_text f d
sort_of_parts_sound [] f d h = absurd (cc)
sort_of_parts_sound (a ∷ []) f d h = absurd (cc)
sort_of_parts_sound (a ∷ b ∷ c ∷ ps) f d h = absurd (cc)
sort_of_parts_sound (a ∷ b ∷ []) f d h =
    let (hf, hd) = both_of_sound (sort_field_of a) (direction_of b) f d h in
    let ef = codes_eq_sound (codes (field_value f)) a (
      find_where-match (λ (g : SortField). codes_eq (codes (field_value g)) a)
        (id ∷ title ∷ value ∷ category ∷ created_at ∷ []) f hf) in
    let ed = codes_eq_sound (codes (direction_value d)) b (
      find_where-match (λ (e : SortDirection). codes_eq (codes (direction_value e)) b)
        (asc ∷ desc ∷ []) d hd) in
    rw (ef, ed) refl

sort_of_parts-text :
    (f : SortField) (d : SortDirection) → sort_of_parts (split b':' (sort_text f d)) ≡ some (f, d)
unfolding split find_where
sort_of_parts-text id asc = refl
sort_of_parts-text id desc = refl
sort_of_parts-text title asc = refl
sort_of_parts-text title desc = refl
sort_of_parts-text value asc = refl
sort_of_parts-text value desc = refl
sort_of_parts-text category asc = refl
sort_of_parts-text category desc = refl
sort_of_parts-text created_at asc = refl
sort_of_parts-text created_at desc = refl

-- `_parse_sort` accepts a text if and only if it is a field, a colon and a direction, or empty for
-- the ascending order of ids; it gives that field and that direction.
pub sort_of_iff :
    (s : List ℕ) (f : SortField) (d : SortDirection)
    → (sort_of s ≡ some (f, d))
      ↔ (or_default s ≡ codes (field_value f) ++ b':' ∷ codes (direction_value d))
unfolding sort_of
sort_of_iff s f d = (
  λ h. sym (join-split b':' (or_default s)) ∙ sort_of_parts_sound (split b':' (or_default s)) f d h,
  λ h. rw h (sort_of_parts-text f d),
)
