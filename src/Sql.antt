-- ===== src/Sql.antt =====
-- The SQL that the repositories of app/repositories build, on a table held as the list of its rows
-- in the order of insertion: SELECT with a WHERE, EXISTS, COUNT, UPDATE, DELETE and INSERT.
pub mod Laws
pub mod Ids
use stream_sight_backend.Prelude.{
  ℕ, suc, ◌+◌, Bool, true, false, ◌||◌, Option, none, some, List, [], ◌∷◌, ◌++◌, if◌then◌else◌,
}

module _ {ℓ} {A : Type ℓ} where
  -- `select(...).where(p)` read by `scalar_one_or_none()` or `first()`
  unfoldable pub find_where : (A → Bool) → List A → Option A
  find_where p [] = none
  find_where p (x ∷ xs) = if p x then some x else find_where p xs

  -- `select(...).where(p)`
  unfoldable pub select_where : (A → Bool) → List A → List A
  select_where p [] = []
  select_where p (x ∷ xs) = let rest = select_where p xs in if p x then x ∷ rest else rest

  -- `exists().where(p)`
  unfoldable pub exists_where : (A → Bool) → List A → Bool
  exists_where p [] = false
  exists_where p (x ∷ xs) = p x || exists_where p xs

  -- `select(func.count()).where(p)`, and the row count of an UPDATE or a DELETE
  unfoldable pub count_where : (A → Bool) → List A → ℕ
  count_where p [] = 0
  count_where p (x ∷ xs) = (if p x then 1 else 0) + count_where p xs

  -- one row under `UPDATE ... SET f WHERE p`
  abbrev pub updated : (A → Bool) → (A → A) → A → A
  updated p f x = if p x then f x else x

  -- `update(...).where(p).values(f)`
  unfoldable pub update_where : (A → Bool) → (A → A) → List A → List A
  update_where p f [] = []
  update_where p f (x ∷ xs) = updated p f x ∷ update_where p f xs

  -- `delete(...).where(p)`
  unfoldable pub delete_where : (A → Bool) → List A → List A
  delete_where p [] = []
  delete_where p (x ∷ xs) = let rest = delete_where p xs in if p x then rest else x ∷ rest

  -- `session.add(row)` and the flush
  abbrev pub insert_row : A → List A → List A
  insert_row x xs = xs ++ x ∷ []
