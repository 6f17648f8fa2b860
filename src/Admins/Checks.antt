-- ===== src/Admins/Checks.antt =====
-- app/services/service_admin.py: its guards, and the CHECK constraints of app/models/admin.py.
use stream_sight_backend.Prelude.{ℕ, ◌≡◌, ◌≤◌, true, Option, some, String, arith}
use stream_sight_backend.Accounts.Enums.{AdminRole}
use stream_sight_backend.Accounts.Rows.{Admin, admin_checks}
use stream_sight_backend.Accounts.Errors.{Result, ok, err, integrity_error}
use stream_sight_backend.Accounts.World.{World, Env}
use stream_sight_backend.Repositories.Admins.{get_admin}
use stream_sight_backend.Admins.Service.{
  update, change_password, set_admin_role, archive, unarchive, delete, restore, get, change_role,
  archive_active, found_admin, restore_deleted, actor_exists,
}
use stream_sight_backend.Admins.Lifecycle.{actor_exists-revoke_all}

abbrev pub Refused {ℓ} : {A : Type ℓ} → Result A → Type ℓ
Refused r = r ≡ err integrity_error

module _ (env : Env) (w : World) (k : ℕ) {a : Admin} where
  -- On a row that meets the CHECK constraints and names principals that exist, archiving and
  -- deletion by one that exists, unarchiving and restoring are not refused by the constraints: the
  -- guards of the service come first.
  guards_keep_checks :
      get_admin k w.session ≡ some a
      → admin_checks a ≡ true
      → actor_exists a.archived_by w.session ≡ true
      → actor_exists a.deleted_by w.session ≡ true
      → (actor : Option ℕ) → actor_exists actor w.session ≡ true
      → (¬ Refused (archive env k actor w).0)
        × (¬ Refused (delete env k actor w).0)
        × (¬ Refused (unarchive k w).0)
        × (¬ Refused (restore k w).0)
  unfolding archive delete unarchive restore get found_admin archive_active restore_deleted
  guards_keep_checks found checked archiver deleter actor known =
      let kept = λ (x : Option ℕ). actor_exists-revoke_all x a.principal_id env.now w.session in
      (
        λ h. ground (arith, kept actor, kept a.deleted_by),
        λ h. ground (arith, kept actor, kept a.archived_by),
        λ h. ground arith,
        λ h. ground arith,
      )

  -- On a row that meets the CHECK constraints and names principals that exist, a rename, a change of password and a change of rank
  -- are not refused by them.
  edits_keep_checks :
      get_admin k w.session ≡ some a
      → admin_checks a ≡ true
      → actor_exists a.archived_by w.session ≡ true
      → actor_exists a.deleted_by w.session ≡ true
      → (name old new : String) (role : AdminRole) (actor : ℕ)
      → (¬ Refused (update k name actor w).0)
        × (¬ Refused (change_password env k old new w).0)
        × (¬ Refused (set_admin_role k role actor w).0)
  unfolding update change_password set_admin_role get found_admin change_role
  edits_keep_checks found checked archiver deleter name old new role actor =
      let kept = λ (x : Option ℕ). actor_exists-revoke_all x a.principal_id env.now w.session in
      (
        λ h. ground arith,
        λ h. ground (arith, kept a.archived_by, kept a.deleted_by),
        λ h. ground arith,
      )

  -- An admin who changes its own rank does not raise it: if the call succeeds, the rank of the row
  -- that it returns is at most the old one.
  pub no_self_elevation :
      get_admin k w.session ≡ some a
      → (role : AdminRole) {a' : Admin} {w' : World}
      → set_admin_role k role a.principal_id w ≡ (ok a', w')
      → a'.admin_role ≤ a.admin_role
  unfolding set_admin_role get found_admin change_role
  no_self_elevation found role h = ground arith
