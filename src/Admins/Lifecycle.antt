-- ===== src/Admins/Lifecycle.antt =====
-- app/services/service_admin.py: `archive` of a row that may be archived.
use stream_sight_backend.Prelude.{
  ℕ, ◌≡◌, ◌≢◌, refl, true, false, ◌&&◌, Option, none, some, arith, ◌∙◌,
}
use stream_sight_backend.Sql.{exists_where}
use stream_sight_backend.Accounts.Rows.{Admin, admin_checks, Db}
use stream_sight_backend.Accounts.Errors.{ok}
use stream_sight_backend.Accounts.World.{World, Env, request, published, kick_principal}
use stream_sight_backend.Repositories.RefreshTokens.{revoke_all_for_principal, owned_by, is_live}
use stream_sight_backend.Repositories.RefreshTokens.Laws.{revoke_all-no_live}
use stream_sight_backend.Repositories.Admins.{get_admin, save_admin}
use stream_sight_backend.Repositories.Admins.Laws.{get_admin-save_self}
use stream_sight_backend.Admins.Service.{
  archive, get, archive_active, found_admin, is_self, actor_exists,
}

-- A row that may leave the active state by the hand of `actor`.
pub record IsRemovable (a : Admin) (actor : Option ℕ) : Type 0 where
  pub present : a.deleted_at ≡ none
  pub unprotected : a.is_protected ≡ false
  pub demoted : a.admin_role ≢ 100
  pub not_self : is_self actor a.principal_id ≡ false
  pub checked : admin_checks a ≡ true

get_admin-revoke_all :
    (k p at : ℕ) (db : Db) → get_admin k (revoke_all_for_principal p at db) ≡ get_admin k db
unfolding get_admin revoke_all_for_principal
get_admin-revoke_all k p at db = refl

pub actor_exists-revoke_all :
    (actor : Option ℕ) (p at : ℕ) (db : Db)
    → actor_exists actor (revoke_all_for_principal p at db) ≡ actor_exists actor db
unfolding revoke_all_for_principal
actor_exists-revoke_all none p at db = refl
actor_exists-revoke_all (some k) p at db = refl

tokens-save_admin : (a : Admin) (db : Db) → (save_admin a db).refresh_tokens ≡ db.refresh_tokens
unfolding save_admin
tokens-save_admin a db = refl

abbrev pub HasNoLive : ℕ → Db → Type 0
HasNoLive p db =
    (time : ℕ) → exists_where (λ t. owned_by p t && is_live time t) db.refresh_tokens ≡ false

abbrev removed : Env → Admin → Admin → Db → Db
removed env a a' db = save_admin a' (revoke_all_for_principal a.principal_id env.now db)

module _ (env : Env) (w : World) (k : ℕ) {a : Admin} where
  -- the state after a removal: the row, the dead tokens
  removed_lem :
      (a' : Admin)
      → get_admin k w.committed ≡ some a
      → a'.id ≡ a.id
      → (get_admin k (removed env a a' w.committed) ≡ some a')
        × HasNoLive a.principal_id (removed env a a' w.committed)
  removed_lem a' found same = (
    get_admin-save_self a' a k (revoke_all_for_principal a.principal_id env.now w.committed)
        (rw get_admin-revoke_all found) same,
    λ time. rw tokens-save_admin (revoke_all-no_live a.principal_id env.now time w.committed),
  )

  -- Archiving an admin that is neither archived, deleted, protected nor of rank SUPER_ADMIN, is not
  -- the actor and meets the CHECK constraints, by an actor that exists, commits the row with the time and the actor of the archive,
  -- leaves its principal no live refresh token, and has a working publisher disconnect it.
  pub archive_revokes :
      (actor : Option ℕ)
      → get_admin k w.committed ≡ some a
      → IsRemovable a actor
      → a.archived_at ≡ none
      → actor_exists actor w.committed ≡ true
      → actor_exists a.deleted_by w.committed ≡ true
      → let a' = record a { archived_at = some env.now; archived_by = actor } in
        let (r, w') = request (archive env k actor) w in
        (r ≡ ok a')
        × (get_admin k w'.committed ≡ some a')
        × HasNoLive a.principal_id w'.committed
        × (w'.kicks ≡ published env.publisher (kick_principal a.principal_id) w.kicks)
  unfolding archive get found_admin archive_active
  archive_revokes actor found h fresh known intact =
      let a' = record a { archived_at = some env.now; archived_by = actor } in
      let (row, dead) = removed_lem a' found refl in
      let known' = actor_exists-revoke_all actor a.principal_id env.now w.committed ∙ known in
      let intact' =
        actor_exists-revoke_all a.deleted_by a.principal_id env.now w.committed ∙ intact in
      (
        ground (arith, known', intact'),
        ground (arith, known', intact', row),
        λ time. ground (arith, known', intact', dead time),
        ground (arith, known', intact'),
      )
