-- ===== src/Tests/Operators.antt =====
-- The services of the admins of app/services on the fixtures.
use stream_sight_backend.Prelude.{◌≤◌, ◌≡◌, refl, arith, true, none, some, List, [], ◌∷◌}
use stream_sight_backend.Sql.{find_where, exists_where, count_where}
use stream_sight_backend.Accounts.Enums.{Role, viewer, super_admin}
use stream_sight_backend.Accounts.Rows.{Admin}
use stream_sight_backend.Accounts.Errors.{ok, err}
use stream_sight_backend.Accounts.World.{World, Env, request, kick_principal}
use stream_sight_backend.Accounts.Policy.{username_matches, password_valid, name_valid}
use stream_sight_backend.Repositories.Users.{create_principal}
use stream_sight_backend.Repositories.Admins.{
  get_admin, protected_root_exists, admin_allowed, add_admin,
}
use stream_sight_backend.Admins.Service
use stream_sight_backend.Admins.Operations.{AdminOp, run_ops}
use stream_sight_backend.Admins.Protection.{protected_from_others, refused_root}
use stream_sight_backend.Admins.Survival.{has_root, root_survives}
use stream_sight_backend.Admins.Lifecycle.{IsRemovable, HasNoLive, archive_revokes}
use stream_sight_backend.Admins.Checks.{no_self_elevation}
use stream_sight_backend.Admins.Bootstrap.{ensure_initial_admin}
use stream_sight_backend.Admins.Bootstrap.SeedOnce.{root_row, seeds_once}
use stream_sight_backend.Tests.Fixtures.{
  env, later, root_admin, editor, world, empty_db, empty_world,
}

abbrev hostile_requests : List (Env × AdminOp)
hostile_requests =
    (env, AdminOp.delete 1 (some 3))
    ∷ (env, AdminOp.set_admin_role 1 viewer 3)
    ∷ (later, AdminOp.archive 1 none)
    ∷ (later, AdminOp.create "new" "New" "long-enough" super_admin true)
    ∷ []

root_survives_example : has_root 1 (run_ops hostile_requests world).committed ≡ true
unfolding has_root get_admin find_where
root_survives_example = root_survives 1 hostile_requests world refl

protected_from_others_example :
    (Service.update 1 "Mallory" 3 world ≡ (err refused_root, world))
    × (Service.set_admin_role 1 viewer 3 world ≡ (err refused_root, world))
    × (Service.archive env 1 (some 3) world ≡ (err refused_root, world))
    × (Service.delete env 1 (some 3) world ≡ (err refused_root, world))
unfolding get_admin find_where
protected_from_others_example =
    protected_from_others env world 1 {a = root_admin} refl refl refl 3 (λ e. ground arith)
      "Mallory" viewer

editor-IsRemovable : IsRemovable editor (some 2)
editor-IsRemovable = record {
  present = refl;
  unprotected = refl;
  demoted = λ e. ground arith;
  not_self = refl;
  checked = refl;
}

abbrev archived_editor : Admin
archived_editor = record editor { archived_at = some 5000000; archived_by = some 2 }

abbrev after_archive : World
after_archive = (request (Service.archive env 2 (some 2)) world).1

archive_revokes_example :
    ((request (Service.archive env 2 (some 2)) world).0 ≡ ok archived_editor)
    × (get_admin 2 after_archive.committed ≡ some archived_editor)
    × HasNoLive 3 after_archive.committed
    × (after_archive.kicks ≡ kick_principal 3 ∷ [])
unfolding get_admin find_where exists_where
archive_revokes_example =
    archive_revokes env world 2 {a = editor} (some 2) refl editor-IsRemovable refl refl refl

abbrev demoted_editor : Admin
demoted_editor = record editor { admin_role = 0 }

abbrev after_demotion : World
after_demotion = (Service.set_admin_role 2 viewer 3 world).1

demotes_itself : Service.set_admin_role 2 viewer 3 world ≡ (ok demoted_editor, after_demotion)
unfolding Service.set_admin_role Service.get Service.found_admin Service.change_role get_admin
    find_where
demotes_itself = refl

no_self_elevation_example : 0 ≤ 50
unfolding get_admin find_where
no_self_elevation_example =
    no_self_elevation env world 2 {a = editor} refl viewer {a' = demoted_editor}
      {w' = after_demotion} demotes_itself

abbrev seeded_world : World
seeded_world =
    let seeded = add_admin (root_row env empty_db) (create_principal Role.admin empty_db) in
    record empty_world { committed = seeded; session = seeded }

seeds_once_example :
    (ensure_initial_admin env empty_world ≡ (ok tt, seeded_world))
    × (protected_root_exists seeded_world.committed ≡ true)
    × (ensure_initial_admin later seeded_world ≡ (ok tt, seeded_world))
unfolding username_matches password_valid name_valid protected_root_exists admin_allowed
    create_principal exists_where count_where
seeds_once_example = seeds_once env later empty_world refl refl refl refl refl refl
