-- ===== src/Tests/Accounts.antt =====
-- The sessions of app/services/service_auth.py on the fixtures.
use stream_sight_backend.Prelude.{
  ℕ, ◌≤◌, ◌≡◌, ◌↔◌, ◌⊎◌, none, ◌==◌, refl, arith, true, false, ◌&&◌, some, [], ◌∷◌,
}
use stream_sight_backend.Sql.{find_where, exists_where, count_where, update_where}
use stream_sight_backend.Accounts.Enums.{Role, editor as editor_role}
use stream_sight_backend.Accounts.Rows.{Principal, User, admin_is_active}
use stream_sight_backend.Accounts.Errors.{ok, err, forbidden, unauthorized, conflict}
use stream_sight_backend.Accounts.World.{World, request, kick_principal}
use stream_sight_backend.Repositories.RefreshTokens.{
  get_by_hash, set_consumed, has_live_tokens_in_family, owned_by, is_live, refresh_token_allowed,
  add_refresh_token, consume, consume_wins,
}
use stream_sight_backend.Repositories.Users.{
  get_user, get_principal, get_user_by_principal_id, get_by_email, get_by_user_and_provider,
  email_exists, user_allowed, identity_allowed, create_principal, add_user, add_identity,
}
use stream_sight_backend.Repositories.Admins.{get_admin_by_principal_id}
use stream_sight_backend.Auth.Sessions.{TokenPayload, user_child, issued_row}
use stream_sight_backend.Auth.Refresh.{
  refresh, refresh_found, refresh_revoked, rotate, rotate_owner, rotate_role, rotate_child,
  logout_all, consume_token, invalid_refresh_token,
}
use stream_sight_backend.Auth.Refresh.Rotation.{
  IsRotatable, rotated_tokens, refresh_rotates, refresh_once, concurrent_refresh_loses,
}
use stream_sight_backend.Auth.Refresh.Reuse.{reuse_revokes_family, logout_all-revokes}
use stream_sight_backend.Auth.Sessions.{
  register, register_user, issue_refresh_token, login, bad_login,
}
use stream_sight_backend.Users
use stream_sight_backend.Users.{build}
use stream_sight_backend.Users.Deletion.{delete_erases, users_of, tokens_of, unlinked}
use stream_sight_backend.Auth.Sessions.Logins.{login_rejects, session_tokens}
use stream_sight_backend.Auth.Sessions.Registration.{register_succeeds, register_fails, registered}
use stream_sight_backend.Auth.Access.{
  get_user_from_token, get_admin_from_token, get_current_token_sid, require_min_admin_role,
  active_admin, decode_access, CurrentPrincipal,
}
use stream_sight_backend.Auth.Access.Tokens.{
  ReadsBack, admin_claims, admin_token_resolves, require_min_admin_role_sound,
}
use stream_sight_backend.Tests.Fixtures.{
  env, later, someone, editor, active_token, used_token, db, world,
}

active-IsRotatable :
    IsRotatable env "active" db active_token
      (record { id = 1; role = 0 })
      Role.user
      (user_child someone)
unfolding get_by_hash find_where get_principal get_user_by_principal_id exists_where
active-IsRotatable = record {
  found = refl;
  unrevoked = refl;
  unexpired = omega arith;
  owner = refl;
  owner_role = refl;
  loaded = refl;
  active = refl;
  keyed = (omega arith, (omega arith, (omega arith, omega arith)));
  unused = refl;
}

abbrev after_refresh : World
after_refresh = (request (refresh env "active") world).1

refresh_rotates_example :
    ((request (refresh env "active") world).0
      ≡ ok (rotated_tokens env active_token Role.user (user_child someone)))
    × (get_by_hash "active" after_refresh.committed
        ≡ some (set_consumed 5000000 (some 3) active_token))
    × (get_by_hash "fresh" after_refresh.committed ≡ some (issued_row env 1 "family-1" db))
refresh_rotates_example = refresh_rotates env "active" world active-IsRotatable

refresh_once_example :
    (request (refresh later "active") after_refresh).0 ≡ err invalid_refresh_token
refresh_once_example = refresh_once env "active" world active-IsRotatable later refl

second_is_allowed : refresh_token_allowed 1 "newer" after_refresh.committed ≡ true
unfolding refresh_token_allowed refresh refresh_found refresh_revoked rotate rotate_owner
    rotate_role rotate_child consume_token issue_refresh_token get_by_hash get_principal
    get_user_by_principal_id consume consume_wins add_refresh_token find_where exists_where
    count_where update_where
second_is_allowed = refl

concurrent_refresh_loses_example :
    request (consume_token later active_token Role.user (user_child someone)) after_refresh
    ≡ (err invalid_refresh_token, record after_refresh { session = after_refresh.committed })
concurrent_refresh_loses_example =
    concurrent_refresh_loses env "active" world active-IsRotatable later Role.user
      (user_child someone) second_is_allowed

reuse_revokes_family_example :
    ((request (refresh env "used") world).0 ≡ err invalid_refresh_token)
    × ((time : ℕ)
        → has_live_tokens_in_family "family-1" time (request (refresh env "used") world).1.committed
          ≡ false)
unfolding get_by_hash find_where
reuse_revokes_family_example =
    reuse_revokes_family env "used" world {rt = used_token} {at = 1000000} refl refl (omega arith)

abbrev after_logout_all : World
after_logout_all = (request (logout_all env 1) world).1

logout_all-revokes_example :
    (exists_where (λ t. owned_by 1 t && is_live 2000000 t) after_logout_all.committed.refresh_tokens
      ≡ false)
    × (exists_where
          (λ t. owned_by 3 t && is_live 2000000 t)
          after_logout_all.committed.refresh_tokens
        ≡ exists_where (λ t. owned_by 3 t && is_live 2000000 t) db.refresh_tokens)
    × (after_logout_all.kicks ≡ kick_principal 1 ∷ [])
logout_all-revokes_example = logout_all-revokes env 1 3 2000000 world (λ e. ground arith)

login_rejects_example :
    request (login env "ann@example.org" "wrong") world
    ≡ (err bad_login, record world { session = world.committed })
unfolding get_by_email get_by_user_and_provider find_where
login_rejects_example = login_rejects env world "ann@example.org" "wrong" refl

abbrev bob_tokens : TokenPayload
bob_tokens = session_tokens env 4 Role.user 0

bob_registers : (request (register env "bob@example.org" "Bob" "hunter22") world).0 ≡ ok bob_tokens
unfolding register register_user issue_refresh_token build email_exists exists_where user_allowed
    identity_allowed refresh_token_allowed create_principal add_user add_identity add_refresh_token
bob_registers = refl

register_succeeds_example :
    (request (register env "bob@example.org" "Bob" "hunter22") world).1.committed
    ≡ registered env "bob@example.org" "Bob" "hunter22" db
register_succeeds_example =
    register_succeeds env "bob@example.org" "Bob" "hunter22" world {t = bob_tokens} bob_registers

ann_fails :
    (request (register env "ann@example.org" "Ann" "hunter22") world).0 ≡ err (conflict "email")
unfolding register build email_exists exists_where
ann_fails = refl

register_fails_example :
    (request (register env "ann@example.org" "Ann" "hunter22") world).1
    ≡ record world { session = db }
register_fails_example =
    register_fails env "ann@example.org" "Ann" "hunter22" world (conflict "email") ann_fails

editor-ReadsBack : ReadsBack env.jwt_decode env.jwt_encode (admin_claims env 3 50 "family-3")
editor-ReadsBack = record {
  live = λ now a b. ground (arith, b);
  late = λ now a b. ground (arith, b);
}

admin_token_resolves_example :
    ((get_admin_from_token env "token" world ≡ (ok editor, world))
      ↔ ((editor.archived_at ≡ none) × (editor.deleted_at ≡ none)))
    × ((get_admin_from_token env "token" world ≡ (ok editor, world))
        ⊎ (get_admin_from_token env "token" world
            ≡ (err (unauthorized "Admin not found or inactive"), world)))
    × (get_user_from_token env "token" world ≡ (err (forbidden "User role required"), world))
    × (get_current_token_sid env "token" ≡ some "family-3")
unfolding get_admin_by_principal_id find_where
admin_token_resolves_example =
    admin_token_resolves env env 3 50 "family-3" world {a = editor} editor-ReadsBack (omega arith)
      (omega arith) refl

editor_may_edit : require_min_admin_role editor_role env "token" world ≡ (ok editor, world)
unfolding require_min_admin_role get_admin_from_token decode_access active_admin
    get_admin_by_principal_id find_where
editor_may_edit = refl

require_min_admin_role_sound_example :
    (world ≡ world)
    × (50 ≤ 50)
    × (admin_is_active editor ≡ true)
    × ((p : CurrentPrincipal) × (decode_access env "token" world ≡ (ok p, world))
        × (get_admin_by_principal_id p.id db ≡ some editor))
require_min_admin_role_sound_example =
    require_min_admin_role_sound editor_role env "token" world {a = editor} {w' = world}
      editor_may_edit

abbrev after_delete : World
after_delete = (request (Users.delete 1) world).1

delete_erases_example :
    ((request (Users.delete 1) world).0 ≡ ok tt)
    × (exists_where (λ (x : Principal). x.id == 1) after_delete.committed.principals ≡ false)
    × (exists_where (λ (x : User). x.principal_id == 1) after_delete.committed.users ≡ false)
    × (exists_where (owned_by 1) after_delete.committed.refresh_tokens ≡ false)
    × (users_of 3 after_delete.committed ≡ users_of 3 db)
    × (tokens_of 3 after_delete.committed ≡ unlinked 1 db (tokens_of 3 db))
unfolding get_user get_principal find_where exists_where
delete_erases_example =
    delete_erases 1 3 world {u = someone} {p = record { id = 1; role = 0 }} refl refl
      (λ e. ground arith) refl
