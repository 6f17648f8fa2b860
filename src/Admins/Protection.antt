-- ===== src/Admins/Protection.antt =====
-- app/services/service_admin.py: `_guard_protected_target`.
use stream_sight_backend.Prelude.{ℕ, ◌≡◌, ◌≢◌, true, some, String, arith}
use stream_sight_backend.Accounts.Enums.{AdminRole}
use stream_sight_backend.Accounts.Rows.{Admin, admin_checks}
use stream_sight_backend.Accounts.Errors.{Error, err, forbidden}
use stream_sight_backend.Accounts.World.{World, Env}
use stream_sight_backend.Repositories.Admins.{get_admin}
use stream_sight_backend.Admins.Service.{update, set_admin_role, archive, delete, get, found_admin}

abbrev pub refused_root : Error
refused_root = forbidden "cannot modify the protected root admin"

module _ (env : Env) (w : World) (k : ℕ) {a : Admin} where
  -- Rename, change of rank, archive and deletion of a protected admin by another principal are
  -- answered by 403 and change nothing, given that the row meets the CHECK constraints.
  pub protected_from_others :
      get_admin k w.session ≡ some a
      → a.is_protected ≡ true
      → admin_checks a ≡ true
      → (actor : ℕ) → actor ≢ a.principal_id
      → (name : String) (role : AdminRole)
      → (update k name actor w ≡ (err refused_root, w))
        × (set_admin_role k role actor w ≡ (err refused_root, w))
        × (archive env k (some actor) w ≡ (err refused_root, w))
        × (delete env k (some actor) w ≡ (err refused_root, w))
  unfolding update set_admin_role archive delete get found_admin
  protected_from_others found p c actor ne name role =
      (ground arith, ground arith, ground arith, ground arith)
