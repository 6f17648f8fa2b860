-- ===== src/Admins/Operations.antt =====
-- The operations of AdminService as requests, for statements over any sequence of them
-- (app/services/service_admin.py, and the session of app/api/dependencies/db.py).
use stream_sight_backend.Prelude.{ℕ, Bool, List, [], ◌∷◌, Option, String}
use stream_sight_backend.Accounts.Enums.{AdminRole}
use stream_sight_backend.Accounts.World.{World, Env, request}
use stream_sight_backend.Admins.Service

pub data AdminOp : Type 0 where
  -- username, name, password, rank, is_protected
  create : String → String → String → AdminRole → Bool → AdminOp
  -- the target, the new name, the actor
  update : ℕ → String → ℕ → AdminOp
  -- the target, the current and the new password
  change_password : ℕ → String → String → AdminOp
  set_admin_role : ℕ → AdminRole → ℕ → AdminOp
  archive : ℕ → Option ℕ → AdminOp
  unarchive : ℕ → AdminOp
  delete : ℕ → Option ℕ → AdminOp
  restore : ℕ → AdminOp

-- The world after one request, whether it succeeds or raises.
unfoldable pub run_op : Env → AdminOp → World → World
run_op env (create u n p r x) w = (request (Service.create env u n p r x) w).1
run_op env (update k name actor) w = (request (Service.update k name actor) w).1
run_op env (change_password k c n) w = (request (Service.change_password env k c n) w).1
run_op env (set_admin_role k r actor) w = (request (Service.set_admin_role k r actor) w).1
run_op env (archive k actor) w = (request (Service.archive env k actor) w).1
run_op env (unarchive k) w = (request (Service.unarchive k) w).1
run_op env (delete k actor) w = (request (Service.delete env k actor) w).1
run_op env (restore k) w = (request (Service.restore k) w).1

-- Requests one after another, each with its own readings of the clock and the random source.
unfoldable pub run_ops : List (Env × AdminOp) → World → World
run_ops [] w = w
run_ops ((env, op) ∷ ops) w = run_ops ops (run_op env op w)
