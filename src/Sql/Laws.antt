-- ===== src/Sql/Laws.antt =====
-- How the SQL statements of Sql.antt act on what a later statement reads.
use mathlib.Core.Option
use stream_sight_backend.Prelude.{
  ◌+◌, ◌≡◌, refl, Bool, true, false, ◌||◌, none, some, List, [], ◌∷◌, ◌++◌, arith, Bool-cases, All,
  length, inl, inr,
}
use stream_sight_backend.Sql.{
  find_where, select_where, exists_where, count_where, updated, update_where, delete_where,
}

module _ {ℓ} {A : Type ℓ} where
  -- a read by a column that the UPDATE leaves alone returns the same row, updated
  pub find_where-update_where :
      (q p : A → Bool) (f : A → A)
      → ((x : A) → q (updated p f x) ≡ q x)
      → (l : List A) → find_where q (update_where p f l) ≡ Option.map (updated p f) (find_where q l)
  unfolding find_where update_where
  find_where-update_where q p f h [] = refl
  find_where-update_where q p f h (x ∷ l) = ground (arith, h x, find_where-update_where q p f h l)

  -- no row matches after an UPDATE that spoils every row that matched
  pub exists_where-update_where :
      (q p : A → Bool) (f : A → A)
      → ((x : A) → q (updated p f x) ≡ false)
      → (l : List A) → exists_where q (update_where p f l) ≡ false
  unfolding exists_where update_where
  exists_where-update_where q p f h [] = refl
  exists_where-update_where q p f h (x ∷ l) =
      ground (arith, h x, exists_where-update_where q p f h l)

  -- rows that the UPDATE does not make match or fail are found as before
  pub exists_where-update_where_same :
      (q p : A → Bool) (f : A → A)
      → ((x : A) → q (updated p f x) ≡ q x)
      → (l : List A) → exists_where q (update_where p f l) ≡ exists_where q l
  unfolding exists_where update_where
  exists_where-update_where_same q p f h [] = refl
  exists_where-update_where_same q p f h (x ∷ l) =
      ground (arith, h x, exists_where-update_where_same q p f h l)

  pub update_where-none :
      (p : A → Bool) (f : A → A) (l : List A) → exists_where p l ≡ false → update_where p f l ≡ l
  unfolding exists_where update_where
  update_where-none p f [] h = refl
  update_where-none p f (x ∷ l) h = ground (arith, update_where-none p f l)

  pub find_where-append :
      (q : A → Bool) (xs ys : List A) (x : A)
      → find_where q xs ≡ some x
      → find_where q (xs ++ ys) ≡ some x
  unfolding find_where
  find_where-append q [] ys x h = absurd (ground arith)
  find_where-append q (y ∷ xs) ys x h = ground (arith, find_where-append q xs ys x)

  pub find_where-append_none :
      (q : A → Bool) (xs ys : List A)
      → find_where q xs ≡ none
      → find_where q (xs ++ ys) ≡ find_where q ys
  unfolding find_where
  find_where-append_none q [] ys h = refl
  find_where-append_none q (y ∷ xs) ys h = ground (arith, find_where-append_none q xs ys)

  pub exists_where-append :
      (q : A → Bool) (xs ys : List A)
      → exists_where q (xs ++ ys) ≡ (exists_where q xs || exists_where q ys)
  unfolding exists_where
  exists_where-append q [] ys = refl
  exists_where-append q (y ∷ xs) ys = ground (arith, exists_where-append q xs ys)

  pub exists_where-find_where :
      (q : A → Bool) (l : List A) → exists_where q l ≡ false → find_where q l ≡ none
  unfolding exists_where find_where
  exists_where-find_where q [] h = refl
  exists_where-find_where q (x ∷ l) h = ground (arith, exists_where-find_where q l)

  -- a row that is found matches
  pub find_where-match : (q : A → Bool) (l : List A) (x : A) → find_where q l ≡ some x → q x ≡ true
  unfolding find_where
  find_where-match q [] x h = ground arith
  find_where-match q (y ∷ l) x h = ground (arith, find_where-match q l x)

  pub exists_where-of_find :
      (q : A → Bool) (l : List A) (x : A) → find_where q l ≡ some x → exists_where q l ≡ true
  unfolding exists_where find_where
  exists_where-of_find q [] x h = absurd (ground arith)
  exists_where-of_find q (y ∷ l) x h = ground (arith, exists_where-of_find q l x)

  -- an UPDATE after which its own condition fails leaves no row to count
  pub count_where-update_where :
      (p : A → Bool) (f : A → A)
      → ((x : A) → p (f x) ≡ false)
      → (l : List A) → count_where p (update_where p f l) ≡ 0
  unfolding count_where update_where
  count_where-update_where p f h [] = refl
  count_where-update_where p f h (x ∷ l) = ground (arith, h x, count_where-update_where p f h l)

  pub count_where-append :
      (q : A → Bool) (xs ys : List A)
      → count_where q (xs ++ ys) ≡ count_where q xs + count_where q ys
  unfolding count_where
  count_where-append q [] ys = omega arith
  count_where-append q (y ∷ xs) ys = omega (arith, count_where-append q xs ys)

  pub count_where-select_where :
      (q : A → Bool) (l : List A) → count_where q l ≡ length (select_where q l)
  unfolding count_where select_where
  count_where-select_where q [] = refl
  count_where-select_where q (x ∷ l) = ground (arith, count_where-select_where q l)

module _ {ℓ κ} {A : Type ℓ} (P : A → Type κ) where
  pub All-append_one : (l : List A) (x : A) → All P l → P x → All P (l ++ x ∷ [])
  All-append_one [] x h p = (p, tt)
  All-append_one (y ∷ l) x h p = (h.0, All-append_one l x h.1 p)

  pub All-find_where : (q : A → Bool) (l : List A) (x : A) → All P l → find_where q l ≡ some x → P x
  unfolding find_where
  All-find_where q [] x h e = absurd (ground arith)
  All-find_where q (y ∷ l) x h e = ground (arith, h, All-find_where q l x h.1)

  -- an UPDATE keeps a predicate that every row it writes has
  pub All-update_where :
      (p : A → Bool) (f : A → A) (l : List A)
      → All P l
      → ((x : A) → P x → p x ≡ true → P (f x))
      → All P (update_where p f l)
  unfolding update_where
  All-update_where p f [] h k = tt
  All-update_where p f (x ∷ l) h k = elim (Bool-cases (p x)) [
    | inl e ↦ (rw e (k x h.0 e), All-update_where p f l h.1 k)
    | inr e ↦ (rw e h.0, All-update_where p f l h.1 k)
  ]

  -- a predicate of the rows that a DELETE keeps
  pub All-delete_where {μ} :
      (Q : A → Type μ) (p : A → Bool) (l : List A)
      → All P l
      → ((x : A) → P x → p x ≡ false → Q x)
      → All Q (delete_where p l)
  unfolding delete_where
  All-delete_where Q p [] h k = tt
  All-delete_where Q p (x ∷ l) h k = elim (Bool-cases (p x)) [
    | inl e ↦ rw e (All-delete_where Q p l h.1 k)
    | inr e ↦ rw e (k x h.0 e, All-delete_where Q p l h.1 k)
  ]

  pub All-map {μ} : (Q : A → Type μ) (l : List A) → All P l → ((x : A) → P x → Q x) → All Q l
  All-map Q [] h k = tt
  All-map Q (x ∷ l) h k = (k x h.0, All-map Q l h.1 k)

  pub All-exists_where :
      (q : A → Bool) (l : List A)
      → All P l
      → ((x : A) → P x → q x ≡ false)
      → exists_where q l ≡ false
  unfolding exists_where
  All-exists_where q [] h k = refl
  All-exists_where q (x ∷ l) h k = ground (arith, k x h.0, All-exists_where q l h.1 k)

pub select_where-All :
    {A : Type 0} (p : A → Bool) (l : List A) → All (λ x. p x ≡ true) (select_where p l)
unfolding select_where
select_where-All p [] = tt
select_where-All p (x ∷ l) = elim (Bool-cases (p x)) [
  | inl e ↦ rw e (e, select_where-All p l)
  | inr e ↦ rw e (select_where-All p l)
]
