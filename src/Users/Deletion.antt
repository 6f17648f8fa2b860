-- ===== src/Users/Deletion.antt =====
-- app/services/service_user.py: `delete`, with the cascade of the foreign keys.
use stream_sight_backend.Prelude.{
  ℕ, ◌≡◌, ◌≢◌, refl, Bool, true, false, some, List, [], ◌∷◌, arith, ◌==◌, ◌∙◌, ap,
}
use stream_sight_backend.Sql.{exists_where, select_where, update_where, delete_where}
use stream_sight_backend.Sql.Laws.{find_where-match, exists_where-update_where_same}
use stream_sight_backend.Accounts.Rows.{Principal, User, RefreshToken, Record, Db}
use stream_sight_backend.Accounts.Errors.{ok}
use stream_sight_backend.Accounts.World.{World, request}
use stream_sight_backend.Repositories.Users.{get_user, get_principal}
use stream_sight_backend.Repositories.RefreshTokens.{owned_by, link_deleted, unlink}
use stream_sight_backend.Users.{
  delete, delete_found, delete_principal, delete_allowed, get, found_user,
}

module _ {A : Type 0} (q : A → Bool) where
  exists_where-delete_where : (l : List A) → exists_where q (delete_where q l) ≡ false
  unfolding exists_where delete_where
  exists_where-delete_where [] = refl
  exists_where-delete_where (x ∷ l) = ground (arith, exists_where-delete_where l)

  -- a DELETE keeps the rows that no condition of it selects
  select_where-delete_where :
      (p : A → Bool)
      → ((x : A) → p x ≡ true → q x ≡ false)
      → (l : List A) → select_where p (delete_where q l) ≡ select_where p l
  unfolding select_where delete_where
  select_where-delete_where p apart [] = refl
  select_where-delete_where p apart (x ∷ l) =
      ground (arith, apart x, select_where-delete_where p apart l)

-- an UPDATE of other columns commutes with a SELECT
select_where-update_where :
    {A : Type 0} (q p : A → Bool) (f : A → A)
    → ((x : A) → q (f x) ≡ q x)
    → (l : List A) → select_where q (update_where p f l) ≡ update_where p f (select_where q l)
unfolding select_where update_where
select_where-update_where q p f same [] = refl
select_where-update_where q p f same (x ∷ l) =
    ground (arith, same x, select_where-update_where q p f same l)

abbrev pub users_of : ℕ → Db → List User
users_of k db = select_where (λ u. u.principal_id == k) db.users

abbrev pub tokens_of : ℕ → Db → List RefreshToken
tokens_of k db = select_where (owned_by k) db.refresh_tokens

same_id : (k : ℕ) (db : Db) (p : Principal) → get_principal k db ≡ some p → p.id ≡ k
unfolding get_principal
same_id k db p e = ground (arith, find_where-match (λ (x : Principal). x.id == k) db.principals p e)

-- the whole effect
deleted :
    (k : ℕ) (w : World) {u : User} {p : Principal}
    → get_user k w.committed ≡ some u
    → get_principal u.principal_id w.committed ≡ some p
    → delete_allowed u.principal_id w.committed ≡ true
    → request (delete k) w ≡ (
      ok tt,
      record w {
        committed = delete_principal u.principal_id w.committed;
        session = delete_principal u.principal_id w.committed;
      },
    )
unfolding delete get found_user delete_found
deleted k w {u} {p} found owner allowed =
    ground (arith, found, owner, allowed, same_id u.principal_id w.committed p owner)

-- the tokens of a list, those without their link that name a deleted one
abbrev pub unlinked : ℕ → Db → List RefreshToken → List RefreshToken
unlinked k db = update_where (link_deleted (owned_by k) db.refresh_tokens) unlink

-- Deleting a user that has its principal, to which no record refers, succeeds and commits a database
-- in which no principal of that id, no user and no refresh token of it is left, the users of another principal are as before, and so are its refresh tokens
-- but for the links to deleted tokens, which are set to null.
pub delete_erases :
    (k other : ℕ) (w : World) {u : User} {p : Principal}
    → get_user k w.committed ≡ some u
    → get_principal u.principal_id w.committed ≡ some p
    → u.principal_id ≢ other
    → exists_where (λ (r : Record). r.created_by_principal_id == u.principal_id) w.committed.records
      ≡ false
    → let (r, w') = request (delete k) w in
      (r ≡ ok tt)
      × (exists_where (λ (x : Principal). x.id == u.principal_id) w'.committed.principals ≡ false)
      × (exists_where (λ (x : User). x.principal_id == u.principal_id) w'.committed.users ≡ false)
      × (exists_where (owned_by u.principal_id) w'.committed.refresh_tokens ≡ false)
      × (users_of other w'.committed ≡ users_of other w.committed)
      × (tokens_of other w'.committed
          ≡ unlinked u.principal_id w.committed (tokens_of other w.committed))
delete_erases k other w {u} {p} found owner ne no_records =
    let q = owned_by u.principal_id in
    let linked = link_deleted q w.committed.refresh_tokens in
    rw (deleted k w found owner (unfold delete_allowed in ground (arith, no_records))) (
      refl,
      unfold delete_principal in exists_where-delete_where _ w.committed.principals,
      unfold delete_principal in exists_where-delete_where _ w.committed.users,
      unfold delete_principal in
          exists_where-update_where_same q linked unlink (λ x. ground arith)
            (delete_where q w.committed.refresh_tokens)
          ∙ exists_where-delete_where q w.committed.refresh_tokens,
      unfold delete_principal in
          select_where-delete_where _ (λ x. x.principal_id == other) (λ x h. ground arith)
            w.committed.users,
      unfold delete_principal in
          select_where-update_where (owned_by other) linked unlink (λ x. refl)
            (delete_where q w.committed.refresh_tokens)
          ∙ ap (update_where linked unlink) (
              select_where-delete_where q (owned_by other) (λ x h. ground arith)
                w.committed.refresh_tokens),
    )
