-- ===== src/Ws/Reauth/Once.antt =====
-- app/services/ws/ticket.py: a ticket over two uses.
use stream_sight_backend.Prelude.{
  ℕ, ◌+◌, ◌<◌, ◌≡◌, refl, Option, none, some, List, [], ◌∷◌, String, eq_refl, arith,
}
use stream_sight_backend.Sql.{find_where, delete_where}
use stream_sight_backend.Ws.Reauth.{Ticket, is_ticket, same_ticket, issue, bearer, consume_ticket}

pub find_where-deleted :
    (t : String) (now : ℕ) (keys : List Ticket)
    → find_where (is_ticket t now) (delete_where (same_ticket t) keys) ≡ none
unfolding find_where delete_where
find_where-deleted t now [] = refl
find_where-deleted t now (k ∷ keys) = ground (arith, find_where-deleted t now keys)

found-issued :
    (t : String) (ttl issued_at now principal_id : ℕ) (sid : Option String) (keys : List Ticket)
    → now < issued_at + ttl
    → bearer (find_where (is_ticket t now) (issue t ttl issued_at principal_id sid keys))
      ≡ some (principal_id, sid)
unfolding issue find_where
found-issued t ttl issued_at now principal_id sid keys soon = ground (arith, soon, eq_refl t)

-- A ticket that was issued is consumed, before it expires, to the principal and the session that
-- it was issued for, and a second use of it, at any time, is refused.
ticket_once :
    (t : String) (ttl issued_at now later principal_id : ℕ) (sid : Option String)
    (keys : List Ticket)
    → now < issued_at + ttl
    → let first = consume_ticket t now (issue t ttl issued_at principal_id sid keys) in
      (first.0 ≡ some (principal_id, sid)) × ((consume_ticket t later first.1).0 ≡ none)
unfolding consume_ticket
ticket_once t ttl issued_at now later principal_id sid keys soon = (
  found-issued t ttl issued_at now principal_id sid keys soon,
  rw (find_where-deleted t later (issue t ttl issued_at principal_id sid keys)) refl,
)
