-- ===== src/Repositories/Admins/Laws.antt =====
-- Reads of an admin by its key after the writes of the service.
use mathlib.Core.Option
use stream_sight_backend.Prelude.{ℕ, ◌≡◌, ◌≢◌, some, [], ◌∷◌, arith, ◌==◌, Option-cases, inl, inr}
use stream_sight_backend.Sql.{updated}
use stream_sight_backend.Sql.Laws.{find_where-update_where, find_where-append, find_where-match}
use stream_sight_backend.Accounts.Rows.{Admin, Db}
use stream_sight_backend.Repositories.Admins.{get_admin, save_admin, add_admin}

pub get_admin-id : (k : ℕ) (db : Db) (a : Admin) → get_admin k db ≡ some a → a.id ≡ k
unfolding get_admin
get_admin-id k db a h = ground (arith, find_where-match (λ (x : Admin). x.id == k) db.admins a h)

pub get_admin-save_admin :
    (k : ℕ) (a : Admin) (db : Db)
    → get_admin k (save_admin a db)
      ≡ Option.map (updated (λ (x : Admin). x.id == a.id) (λ _. a)) (get_admin k db)
unfolding get_admin save_admin
get_admin-save_admin k a db =
    find_where-update_where (λ x. x.id == k) (λ x. x.id == a.id) (λ _. a) (λ x. ground arith)
      db.admins

-- A saved admin is the row that is read under its key.
pub get_admin-save_self :
    (a b : Admin) (k : ℕ) (db : Db)
    → get_admin k db ≡ some b
    → a.id ≡ b.id
    → get_admin k (save_admin a db) ≡ some a
get_admin-save_self a b k db h e = rw (get_admin-save_admin, h) (ground arith)

-- Every other row stays.
pub get_admin-save_ne :
    (a : Admin) (k : ℕ) (db : Db) → a.id ≢ k → get_admin k (save_admin a db) ≡ get_admin k db
get_admin-save_ne a k db ne = elim (Option-cases (get_admin k db)) [
  | inl e ↦ rw (get_admin-save_admin, e)
  | inr (x, e) ↦ rw (get_admin-save_admin, e) (ground (arith, get_admin-id k db x e))
]

pub get_admin-add_admin :
    (a : Admin) (k : ℕ) (db : Db) (x : Admin)
    → get_admin k db ≡ some x
    → get_admin k (add_admin a db) ≡ some x
unfolding get_admin add_admin
get_admin-add_admin a k db x h = find_where-append (λ y. y.id == k) db.admins (a ∷ []) x h
