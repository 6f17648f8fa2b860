-- ===== src/Admins/Survival.antt =====
-- app/services/service_admin.py: sequences of requests, and the protected root.
use stream_sight_backend.Prelude.{
  ℕ, ◌≡◌, refl, Bool, true, false, ◌&&◌, Option, none, some, List, [], ◌∷◌, String, arith, ◌==◌,
  Option-cases, inl, inr, sym, ◌∙◌, ap,
}
use stream_sight_backend.Accounts.Enums.{Role, AdminRole, admin_role_value}
use stream_sight_backend.Accounts.Rows.{Admin, admin_is_active, Db}
use stream_sight_backend.Accounts.World.{World, Env, Action, request, committed-rollback_after}
use stream_sight_backend.Repositories.RefreshTokens.{revoke_all_for_principal}
use stream_sight_backend.Repositories.Users.{create_principal}
use stream_sight_backend.Repositories.Admins.{get_admin, save_admin, add_admin}
use stream_sight_backend.Repositories.Admins.Laws.{
  get_admin-id, get_admin-save_admin, get_admin-add_admin,
}
use stream_sight_backend.Accounts.Policy.{normalize_username}
use stream_sight_backend.Admins.Service
use stream_sight_backend.Admins.Service.{
  get, found_admin, change_role, archive_active, restore_deleted, new_admin,
}
use stream_sight_backend.Admins.Operations.{
  AdminOp, create, update, change_password, set_admin_role, archive, unarchive, delete, restore,
  run_op, run_ops,
}

abbrev pub is_root_row : Admin → Bool
is_root_row a = a.is_protected && a.admin_role == 999 && admin_is_active a

abbrev is_root_found : Option Admin → Bool
is_root_found none = false
is_root_found (some a) = is_root_row a

-- The row of id `k` is a protected admin of rank ROOT that is neither archived nor deleted.
unfoldable pub has_root : ℕ → Db → Bool
has_root k db = is_root_found (get_admin k db)

module _ (k : ℕ) where
  has_root-save_admin :
      (a : Admin) (db : Db)
      → has_root k db ≡ true
      → (a.id ≡ k → is_root_row a ≡ true)
      → has_root k (save_admin a db) ≡ true
  unfolding has_root
  has_root-save_admin a db h s = elim (Option-cases (get_admin k db)) [
    | inl e ↦ absurd (ground arith)
    | inr (x, e) ↦ rw (get_admin-save_admin, e) (ground (arith, get_admin-id k db x e))
  ]

  has_root-add_admin :
      (a : Admin) (db : Db) → has_root k db ≡ true → has_root k (add_admin a db) ≡ true
  unfolding has_root
  has_root-add_admin a db h = elim (Option-cases (get_admin k db)) [
    | inl e ↦ absurd (ground arith)
    | inr (x, e) ↦ rw (get_admin-add_admin a k db x e) (ground arith)
  ]

  has_root-revoke_all :
      (p at : ℕ) (db : Db) → has_root k (revoke_all_for_principal p at db) ≡ has_root k db
  unfolding has_root get_admin revoke_all_for_principal
  has_root-revoke_all p at db = refl

  has_root-create_principal :
      (r : Role) (db : Db) → has_root k (create_principal r db) ≡ has_root k db
  unfolding has_root get_admin create_principal
  has_root-create_principal r db = refl

  has_root-found :
      (j : ℕ) (a : Admin) (db : Db)
      → has_root k db ≡ true
      → get_admin j db ≡ some a
      → a.id ≡ k
      → is_root_row a ≡ true
  unfolding has_root
  has_root-found j a db h e i =
      let same : j ≡ k = sym (get_admin-id j db a e) ∙ i in
      ground (arith, ap (λ (m : ℕ). is_root_found (get_admin m db)) same)

  abbrev Kept : (World → World) → Type 0
  Kept f =
      (w : World)
      → has_root k w.committed ≡ true
      → has_root k w.session ≡ true
      → has_root k (f w).committed ≡ true

  update-root : (j : ℕ) (name : String) (actor : ℕ) → Kept (λ w. (Service.update j name actor w).1)
  unfolding Service.update get found_admin
  update-root j name actor w hc hs = elim (Option-cases (get_admin j w.session)) [
    | inl e ↦ ground arith
    | inr (a, e) ↦ ground (
      arith,
      has_root-found j a w.session hs e,
      has_root-save_admin (record a { name = name }) w.session hs,
    )
  ]

  change_password-root :
      (env : Env) (j : ℕ) (old new : String)
      → Kept (λ w. (Service.change_password env j old new w).1)
  unfolding Service.change_password get found_admin
  change_password-root env j old new w hc hs = elim (Option-cases (get_admin j w.session)) [
    | inl e ↦ ground arith
    | inr (a, e) ↦ ground (
      arith,
      has_root-found j a w.session hs e,
      has_root-revoke_all a.principal_id env.now w.session,
      has_root-save_admin (record a { password_hash = env.hash_password new })
          (revoke_all_for_principal a.principal_id env.now w.session),
    )
  ]

  set_admin_role-root :
      (j : ℕ) (r : AdminRole) (actor : ℕ) → Kept (λ w. (Service.set_admin_role j r actor w).1)
  unfolding Service.set_admin_role get found_admin change_role
  set_admin_role-root j r actor w hc hs = elim (Option-cases (get_admin j w.session)) [
    | inl e ↦ ground arith
    | inr (a, e) ↦ ground (
      arith,
      has_root-found j a w.session hs e,
      has_root-save_admin (record a { admin_role = admin_role_value r }) w.session hs,
    )
  ]

  archive-root :
      (env : Env) (j : ℕ) (actor : Option ℕ) → Kept (λ w. (Service.archive env j actor w).1)
  unfolding Service.archive get found_admin archive_active
  archive-root env j actor w hc hs = elim (Option-cases (get_admin j w.session)) [
    | inl e ↦ ground arith
    | inr (a, e) ↦ ground (
      arith,
      has_root-found j a w.session hs e,
      has_root-revoke_all a.principal_id env.now w.session,
      has_root-save_admin (record a { archived_at = some env.now; archived_by = actor })
          (revoke_all_for_principal a.principal_id env.now w.session),
    )
  ]

  unarchive-root : (j : ℕ) → Kept (λ w. (Service.unarchive j w).1)
  unfolding Service.unarchive get found_admin
  unarchive-root j w hc hs = elim (Option-cases (get_admin j w.session)) [
    | inl e ↦ ground arith
    | inr (a, e) ↦ ground (
      arith,
      has_root-found j a w.session hs e,
      has_root-save_admin (record a { archived_at = none; archived_by = none }) w.session hs,
    )
  ]

  delete-root :
      (env : Env) (j : ℕ) (actor : Option ℕ) → Kept (λ w. (Service.delete env j actor w).1)
  unfolding Service.delete get found_admin
  delete-root env j actor w hc hs = elim (Option-cases (get_admin j w.session)) [
    | inl e ↦ ground arith
    | inr (a, e) ↦ ground (
      arith,
      has_root-found j a w.session hs e,
      has_root-revoke_all a.principal_id env.now w.session,
      has_root-save_admin (record a { deleted_at = some env.now; deleted_by = actor })
          (revoke_all_for_principal a.principal_id env.now w.session),
    )
  ]

  restore-root : (j : ℕ) → Kept (λ w. (Service.restore j w).1)
  unfolding Service.restore get found_admin restore_deleted
  restore-root j w hc hs = elim (Option-cases (get_admin j w.session)) [
    | inl e ↦ ground arith
    | inr (a, e) ↦ ground (
      arith,
      has_root-found j a w.session hs e,
      has_root-save_admin (record a { deleted_at = none; deleted_by = none }) w.session hs,
    )
  ]

  insert_admin-root :
      (env : Env) (u n p : String) (r : AdminRole) (x : Bool)
      → Kept (λ w. (Service.insert_admin env u n p r x w).1)
  unfolding Service.insert_admin
  insert_admin-root env u n p r x w hc hs =
      let db = create_principal Role.admin w.session in
      let a = new_admin db.next_admin w.session.next_principal u n (env.hash_password p) r x in
      ground (arith, has_root-create_principal Role.admin w.session, has_root-add_admin a db)

  create-root :
      (env : Env) (u n p : String) (r : AdminRole) (x : Bool)
      → Kept (λ w. (Service.create env u n p r x w).1)
  unfolding Service.create
  create-root env u n p r x w hc hs = ground (
    arith,
    committed-rollback_after (Service.insert_admin env (normalize_username env u) n p r x w).0
        (Service.insert_admin env (normalize_username env u) n p r x w).1,
    insert_admin-root env (normalize_username env u) n p r x w hc hs,
  )

  request-root {ℓ} :
      {A : Type ℓ} (m : Action A)
      → Kept (λ w. (m w).1)
      → (w : World) → has_root k w.committed ≡ true
      → has_root k (request m w).1.committed ≡ true
  request-root m kept w h =
      let w' = record w { session = w.committed } in
      rw (committed-rollback_after (m w').0 (m w').1) (kept w' h h)

  run_op-root :
      (env : Env) (op : AdminOp) (w : World)
      → has_root k w.committed ≡ true
      → has_root k (run_op env op w).committed ≡ true
  unfolding run_op
  run_op-root env (create u n p r x) w h =
      request-root (Service.create env u n p r x) (create-root env u n p r x) w h
  run_op-root env (update j name actor) w h =
      request-root (Service.update j name actor) (update-root j name actor) w h
  run_op-root env (change_password j c n) w h =
      request-root (Service.change_password env j c n) (change_password-root env j c n) w h
  run_op-root env (set_admin_role j r actor) w h =
      request-root (Service.set_admin_role j r actor) (set_admin_role-root j r actor) w h
  run_op-root env (archive j actor) w h =
      request-root (Service.archive env j actor) (archive-root env j actor) w h
  run_op-root env (unarchive j) w h = request-root (Service.unarchive j) (unarchive-root j) w h
  run_op-root env (delete j actor) w h =
      request-root (Service.delete env j actor) (delete-root env j actor) w h
  run_op-root env (restore j) w h = request-root (Service.restore j) (restore-root j) w h

  -- A protected admin of rank ROOT that is neither archived nor deleted is still all of that after
  -- any sequence of requests to the service, by any actors and with any outcomes.
  pub root_survives :
      (ops : List (Env × AdminOp)) (w : World)
      → has_root k w.committed ≡ true
      → has_root k (run_ops ops w).committed ≡ true
  unfolding run_ops
  root_survives [] w h = h
  root_survives ((env, op) ∷ ops) w h = root_survives ops (run_op env op w) (run_op-root env op w h)
