-- ===== src/Ws/Reauth.antt =====
-- app/services/ws/reauth.py and ticket.py, and the parts of app/api/routers/ws/router.py that use
-- them: who may open a connection, and who may keep it.
pub mod Once
pub mod Revoked
use stream_sight_backend.Prelude.{
  ℕ, ◌+◌, ◌≡◌, Bool, true, false, not, ◌&&◌, Option, none, some, List, [], ◌∷◌, String, str_eq, ltb,
  arith, if◌then◌else◌, if_true, if_false, Bool-cases, inl, inr,
}
use stream_sight_backend.Sql.{find_where, delete_where}
use stream_sight_backend.Accounts.Rows.{Admin, Db, admin_is_active}
use stream_sight_backend.Accounts.World.{World, Env, request}
use stream_sight_backend.Repositories.Admins.{get_admin_by_principal_id}
use stream_sight_backend.Repositories.RefreshTokens.{has_live_tokens_in_family}
use stream_sight_backend.Ws.Protocol.{unauthenticated}
use stream_sight_backend.Ws.Manager.{Connection, Manager, close_and_teardown}

-- the test of the session
abbrev pub session_valid : Option String → ℕ → Db → Bool
session_valid none now db = true
session_valid (some sid) now db = has_live_tokens_in_family sid now db

abbrev pub admin_valid : Option Admin → Bool
admin_valid none = false
admin_valid (some a) = admin_is_active a

-- `is_connection_valid`, on the database that its own short session reads
unfoldable pub is_connection_valid : ℕ → Option String → ℕ → Db → Bool
is_connection_valid principal_id sid now db =
    admin_valid (get_admin_by_principal_id principal_id db) && session_valid sid now db

-- one turn of the loop of `_run_reauth`, after its sleep
unfoldable pub reauth : ℕ → ℕ → Db → Manager → Manager
reauth c now db m =
    if (m.heap c).closed
    then m
    else if is_connection_valid (m.heap c).principal_id (m.heap c).sid now db
    then m
    else close_and_teardown unauthenticated c m

-- A key `ws:ticket:<ticket>` of the store, with the time at which it expires.
pub record Ticket : Type 0 where
  pub ticket : String
  pub principal_id : ℕ
  pub sid : Option String
  pub expires_at : ℕ

abbrev pub is_ticket : String → ℕ → Ticket → Bool
is_ticket t now k = str_eq k.ticket t && ltb now k.expires_at

abbrev pub same_ticket : String → Ticket → Bool
same_ticket t k = str_eq k.ticket t

-- `issue`: SET with EX, which replaces a key that is there
unfoldable pub issue : String → ℕ → ℕ → ℕ → Option String → List Ticket → List Ticket
issue t ttl now principal_id sid keys =
    record { ticket = t; principal_id = principal_id; sid = sid; expires_at = now + ttl }
    ∷ delete_where (same_ticket t) keys

abbrev pub bearer : Option Ticket → Option (ℕ × Option String)
bearer none = none
bearer (some k) = some (k.principal_id, k.sid)

-- `consume`: GETDEL, one atomic step
unfoldable pub consume_ticket : String → ℕ → List Ticket → Option (ℕ × Option String) × List Ticket
consume_ticket t now keys =
    (bearer (find_where (is_ticket t now) keys), delete_where (same_ticket t) keys)
