-- ===== src/Ws/Handshake.antt =====
-- app/api/routers/ws/router.py: the handshake of `admin_ws`, up to the registration.
pub mod Admission
use stream_sight_backend.Prelude.{
  ℕ, Bool, true, false, not, ◌&&◌, ◌||◌, Option, none, some, List, [], ◌∷◌, String, str_eq, leb,
  ltb, ◌==◌, length, if◌then◌else◌,
}
use stream_sight_backend.Accounts.Rows.{Admin, Db, admin_is_active}
use stream_sight_backend.Accounts.Policy.{codes, all_chars}
use stream_sight_backend.Repositories.Admins.{get_admin_by_principal_id}
use stream_sight_backend.Ws.Protocol.{CloseCode, unauthenticated, backpressure, welcome}
use stream_sight_backend.Ws.Manager.{
  Manager, connections_for_principal, has_sid_cid, total_connections, register,
}
use stream_sight_backend.Ws.Reauth.{Ticket, consume_ticket}
use stream_sight_backend.Ws.Reach.{new_connection, allocate}

-- the settings that the handshake reads
pub record WsSettings : Type 0 where
  pub ws_allowed_origins : List String
  pub ws_cid_max_length : ℕ
  pub ws_max_connections_total : ℕ
  pub ws_max_connections_per_principal : ℕ
  pub ws_max_send_queue : ℕ

-- the Origin header, the query parameters and the time
pub record Upgrade : Type 0 where
  pub origin : Option String
  pub ticket : Option String
  pub cid : Option String
  pub now : ℕ

-- closed before `accept`, closed after it, or opened as a connection
pub data Answer : Type 0 where
  refused : Answer
  closed_with : CloseCode → Answer
  opened : ℕ → Answer

abbrev pub is_member : Option String → List String → Bool
is_member none l = false
is_member (some o) [] = false
is_member (some o) (a ∷ l) = str_eq a o || is_member (some o) l

abbrev pub is_empty : List String → Bool
is_empty [] = true
is_empty (a ∷ l) = false

-- `_origin_allowed`
unfoldable pub origin_allowed : WsSettings → Option String → Bool
origin_allowed s origin = is_empty s.ws_allowed_origins || is_member origin s.ws_allowed_origins

-- `[A-Za-z0-9_-]`
abbrev pub cid_char : ℕ → Bool
cid_char c =
    (leb b'A' c && leb c b'Z')
    || (leb b'a' c && leb c b'z')
    || (leb b'0' c && leb c b'9')
    || c == b'_'
    || c == b'-'

-- `_clean_cid`
unfoldable pub clean_cid : WsSettings → Option String → Option String
clean_cid s none = none
clean_cid s (some raw) =
    if str_eq raw ""
      || ltb s.ws_cid_max_length (length (codes raw))
      || not (all_chars cid_char (codes raw))
    then none
    else some raw

-- `await tickets.consume(ticket) if ticket else None`
abbrev pub consume_given :
    Option String → ℕ → List Ticket → Option (ℕ × Option String) × List Ticket
consume_given none now keys = (none, keys)
consume_given (some t) now keys = if str_eq t "" then (none, keys) else consume_ticket t now keys

-- whether the limits of connections refuse
unfoldable pub is_over_limit : WsSettings → ℕ → Option String → Option String → Manager → Bool
is_over_limit s p sid cid m =
    not (has_sid_cid sid cid m)
    && (leb s.ws_max_connections_total (total_connections m)
        || leb s.ws_max_connections_per_principal (length (connections_for_principal p m)))

-- from `accept` to `register`, for a connection of a new identity
unfoldable pub admit :
    WsSettings → ℕ → Upgrade → ℕ → Option String → Admin → Manager → Answer × Manager
unfolding is_over_limit clean_cid
admit s c u p sid a m =
    let cid = clean_cid s u.cid in
    if is_over_limit s p sid cid m then (closed_with backpressure, m) else (
      opened c,
      register c (
          allocate c
            (new_connection p a.admin_role sid cid u.now s.ws_max_send_queue
              (welcome c a.admin_role))
            m),
    )

-- `_load_active_admin`, and what follows it
abbrev pub admit_active :
    WsSettings → ℕ → Upgrade → ℕ → Option String → Option Admin → Manager → Answer × Manager
admit_active s c u p sid none m = (closed_with unauthenticated, m)
admit_active s c u p sid (some a) m =
    if admin_is_active a then admit s c u p sid a m else (closed_with unauthenticated, m)

abbrev pub admit_bearer :
    WsSettings → ℕ → Upgrade → Db → Option (ℕ × Option String) → Manager → Answer × Manager
admit_bearer s c u db none m = (closed_with unauthenticated, m)
admit_bearer s c u db (some (p, sid)) m =
    admit_active s c u p sid (get_admin_by_principal_id p db) m

-- what a handshake leaves
pub record Outcome : Type 0 where
  pub answer : Answer
  pub keys : List Ticket
  pub manager : Manager

-- `admin_ws`, up to the loop of control messages
unfoldable pub handshake : WsSettings → ℕ → Upgrade → Db → List Ticket → Manager → Outcome
handshake s c u db keys m =
    let k = consume_given u.ticket u.now keys in
    let r = admit_bearer s c u db k.0 m in
    if origin_allowed s u.origin
    then record { answer = r.0; keys = k.1; manager = r.1 }
    else record { answer = refused; keys = keys; manager = m }
