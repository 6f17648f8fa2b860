-- ===== src/Sql/Ids.antt =====
-- Tables with an autoincrement primary key, for the repositories of app/repositories.
use stream_sight_backend.Prelude.{
  ℕ, suc, ◌≤◌, ◌<◌, ◌≡◌, refl, Bool, true, ◌&&◌, some, List, [], ◌∷◌, ◌++◌, arith, ◌==◌, Bool-cases,
  inl, inr,
}
use stream_sight_backend.Sql.{find_where, count_where, update_where, delete_where}

module _ {ℓ} {A : Type ℓ} (id : A → ℕ) where
  -- The ids rise from `lo` and stay below `next`.
  abbrev pub IsKeyed : ℕ → ℕ → List A → Type 0
  IsKeyed lo next [] = lo ≤ next
  IsKeyed lo next (x ∷ l) = (lo ≤ id x) × IsKeyed (suc (id x)) next l

  IsKeyed-le : (lo next : ℕ) (l : List A) → IsKeyed lo next l → lo ≤ next
  IsKeyed-le lo next [] h = h
  IsKeyed-le lo next (x ∷ l) h = omega (arith, IsKeyed-le (suc (id x)) next l h.1, h.0)

  pub IsKeyed-insert :
      (lo next : ℕ) (l : List A) (x : A)
      → id x ≡ next
      → IsKeyed lo next l
      → IsKeyed lo (suc next) (l ++ x ∷ [])
  IsKeyed-insert lo next [] x e h = omega arith
  IsKeyed-insert lo next (y ∷ l) x e h = (h.0, IsKeyed-insert (suc (id y)) next l x e h.1)

  pub IsKeyed-update :
      (lo next : ℕ) (p : A → Bool) (f : A → A) (l : List A)
      → ((x : A) → id (f x) ≡ id x)
      → IsKeyed lo next l
      → IsKeyed lo next (update_where p f l)
  unfolding update_where
  IsKeyed-update lo next p f [] k h = h
  IsKeyed-update lo next p f (x ∷ l) k h = elim (Bool-cases (p x)) [
    | inl e ↦ rw (e, k x) (h.0, IsKeyed-update (suc (id x)) next p f l k h.1)
    | inr e ↦ rw e (h.0, IsKeyed-update (suc (id x)) next p f l k h.1)
  ]

  pub IsKeyed-lower :
      (lo lo' next : ℕ) (l : List A) → lo' ≤ lo → IsKeyed lo next l → IsKeyed lo' next l
  IsKeyed-lower lo lo' next [] le h = omega arith
  IsKeyed-lower lo lo' next (x ∷ l) le h = (omega arith, h.1)

  pub IsKeyed-delete :
      (lo next : ℕ) (p : A → Bool) (l : List A)
      → IsKeyed lo next l
      → IsKeyed lo next (delete_where p l)
  unfolding delete_where
  IsKeyed-delete lo next p [] h = h
  IsKeyed-delete lo next p (x ∷ l) h = elim (Bool-cases (p x)) [
    | inl e ↦
        rw e (IsKeyed-delete lo next p l (IsKeyed-lower (suc (id x)) lo next l (omega arith) h.1))
    | inr e ↦ rw e (h.0, IsKeyed-delete (suc (id x)) next p l h.1)
  ]

  count_where-below :
      (lo next k : ℕ) (q : A → Bool) (l : List A)
      → IsKeyed lo next l
      → k < lo
      → count_where (λ x. id x == k && q x) l ≡ 0
  unfolding count_where
  count_where-below lo next k q [] h lt = refl
  count_where-below lo next k q (x ∷ l) h lt =
      ground (arith, h, count_where-below (suc (id x)) next k q l h.1)

  -- a found id is below the counter
  pub IsKeyed-find_lt :
      (lo next : ℕ) (r : A → Bool) (l : List A) (x : A)
      → IsKeyed lo next l
      → find_where r l ≡ some x
      → id x < next
  unfolding find_where
  IsKeyed-find_lt lo next r [] x h e = absurd (ground arith)
  IsKeyed-find_lt lo next r (y ∷ l) x h e = elim (Bool-cases (r y)) [
    | inl hit ↦ ground (arith, IsKeyed-le (suc (id y)) next l h.1)
    | inr miss ↦ ground (arith, IsKeyed-find_lt (suc (id y)) next r l x h.1)
  ]

  pub IsKeyed-find_where :
      (lo next : ℕ) (r : A → Bool) (l : List A) (x : A)
      → IsKeyed lo next l
      → find_where r l ≡ some x
      → lo ≤ id x
  unfolding find_where
  IsKeyed-find_where lo next r [] x h e = absurd (ground arith)
  IsKeyed-find_where lo next r (y ∷ l) x h e =
      ground (arith, h, IsKeyed-find_where (suc (id y)) next r l x h.1)

  -- The row of an id that a SELECT found is the only one that an UPDATE by id and `q` reaches.
  pub count_where-found :
      (lo next : ℕ) (r q : A → Bool) (l : List A) (x : A)
      → IsKeyed lo next l
      → find_where r l ≡ some x
      → q x ≡ true
      → count_where (λ y. id y == id x && q y) l ≡ 1
  unfolding count_where find_where
  count_where-found lo next r q [] x h e m = absurd (ground arith)
  count_where-found lo next r q (y ∷ l) x h e m = elim (Bool-cases (r y)) [
    | inl hit ↦ ground (arith, h, count_where-below (suc (id y)) next (id x) q l h.1)
    | inr miss ↦ ground (
      arith,
      h,
      IsKeyed-find_where (suc (id y)) next r l x h.1,
      count_where-found (suc (id y)) next r q l x h.1,
    )
  ]
