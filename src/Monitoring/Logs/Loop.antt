-- ===== src/Monitoring/Logs/Loop.antt =====
-- app/services/monitoring/logs.py: what the loop of `LogQueryService.query` takes from a page of the store.
use stream_sight_backend.Prelude.{
  ℕ, ◌-◌, ◌≡◌, ◌⊎◌, inl, inr, refl, sym, ap, ◌∙◌, Bool, true, false, Option, none, some, List, [],
  ◌∷◌, ◌++◌, String, leb, All, Bool-cases,
}
use mathlib.Core.List.{map}
use stream_sight_backend.Sql.{select_where}
use stream_sight_backend.Monitoring.Stream.{StreamId, Item}
use stream_sight_backend.Monitoring.Logs.{
  LogEntry, LogFilter, accepts, log_entry, Collected, collect,
}

-- What the loop and a page are held to: either it takes all of a list, or it stops at an item, whose
-- id it gives.
abbrev pub Outcome :
    (List Item → List LogEntry) → List Item → List LogEntry → Option StreamId → Type 0
Outcome wanted l entries cursor =
    ((entries ≡ wanted l) × (cursor ≡ none))
    ⊎ ((pre : List Item) × (i : Item) × (post : List Item) × (l ≡ pre ++ i ∷ post)
        × (entries ≡ wanted (pre ++ i ∷ []))
        × (cursor ≡ some i._id))

module _ {A B : Type 0} (g : A → B) (p : A → Bool) where
  -- the images of the accepted ones
  abbrev pub images : List A → List B
  images l = map g (select_where p l)

  images_skip : (x : A) (l : List A) → p x ≡ false → images (x ∷ l) ≡ images l
  unfolding select_where
  images_skip x l e = rw e refl

  images_cons : (x : A) (l : List A) → p x ≡ true → images (x ∷ l) ≡ g x ∷ images l
  unfolding select_where
  images_cons x l e = rw e refl

  pub images-append : (xs ys : List A) → images (xs ++ ys) ≡ images xs ++ images ys
  unfolding select_where
  images-append [] ys = refl
  images-append (x ∷ xs) ys = elim (Bool-cases (p x)) [
    | inl e ↦
        rw (images_cons x (xs ++ ys) e, images_cons x xs e)
          (ap (λ l. g x ∷ l) (images-append xs ys))
    | inr e ↦ rw (images_skip x (xs ++ ys) e, images_skip x xs e) (images-append xs ys)
  ]

module _ (int : String → Option ℕ) (f : LogFilter) (readable : Item → LogEntry) where
  -- the entries that a filter takes from a list
  abbrev pub wanted : List Item → List LogEntry
  wanted l = images readable (accepts f) l

  -- `int` reads the numbers of an item
  abbrev pub IsReadable : Item → Type 0
  IsReadable i = log_entry int i ≡ some (readable i)

  abbrev pub LoopOutcome : ℕ → List Item → Type 0
  LoopOutcome n l =
      (c : Collected) × (collect int f n l ≡ some c) × Outcome wanted l c.entries c.cut_at

  skip :
      (n : ℕ) (i : Item) (l : List Item)
      → accepts f i ≡ false
      → LoopOutcome n l
      → LoopOutcome n (i ∷ l)
  unfolding collect
  skip n i l e (c, h, inl (a, b)) =
      (c, rw e h, inl (a ∙ sym (images_skip readable (accepts f) i l e), b))
  skip n i l e (c, h, inr (pre, j, post, s, a, b)) = (
    c,
    rw e h,
    inr (
      i ∷ pre,
      j,
      post,
      ap (λ t. i ∷ t) s,
      a ∙ sym (images_skip readable (accepts f) i (pre ++ j ∷ []) e),
      b,
    ),
  )

  take_one :
      (n : ℕ) (i : Item) (l : List Item)
      → accepts f i ≡ true
      → leb n 1 ≡ false
      → IsReadable i
      → LoopOutcome (n - 1) l
      → LoopOutcome n (i ∷ l)
  unfolding collect
  take_one n i l e k r (c, h, inl (a, b)) = (
    record c { entries = readable i ∷ c.entries },
    rw (e, k, r, h) refl,
    inl (ap (λ t. readable i ∷ t) a ∙ sym (images_cons readable (accepts f) i l e), b),
  )
  take_one n i l e k r (c, h, inr (pre, j, post, s, a, b)) = (
    record c { entries = readable i ∷ c.entries },
    rw (e, k, r, h) refl,
    inr (
      i ∷ pre,
      j,
      post,
      ap (λ t. i ∷ t) s,
      ap (λ t. readable i ∷ t) a ∙ sym (images_cons readable (accepts f) i (pre ++ j ∷ []) e),
      b,
    ),
  )

  stop_at :
      (n : ℕ) (i : Item) (l : List Item)
      → accepts f i ≡ true
      → leb n 1 ≡ true
      → IsReadable i
      → LoopOutcome n (i ∷ l)
  unfolding collect select_where
  stop_at n i l e k r = (
    record { entries = readable i ∷ []; cut_at = some i._id },
    rw (e, k, r) refl,
    inr ([], i, l, refl, sym (images_cons readable (accepts f) i [] e), refl),
  )

  pub collect_outcome : (n : ℕ) (l : List Item) → All IsReadable l → LoopOutcome n l
  unfolding collect select_where
  collect_outcome n [] h = (record { entries = []; cut_at = none }, refl, inl (refl, refl))
  collect_outcome n (i ∷ l) h = elim (Bool-cases (accepts f i)) [
    | inr e ↦ skip n i l e (collect_outcome n l h.1)
    | inl e ↦ elim (Bool-cases (leb n 1)) [
      | inl k ↦ stop_at n i l e k h.0
      | inr k ↦ take_one n i l e k h.0 (collect_outcome (n - 1) l h.1)
    ]
  ]
