-- ===== src/Ws/Handshake/Admission.antt =====
-- app/api/routers/ws/router.py: who gets a connection.
use stream_sight_backend.Prelude.{
  ℕ, ◌≡◌, ◌≢◌, refl, ap, true, false, Option, none, some, List, String, str_eq, arith, Bool-cases,
  inl, inr,
}
use stream_sight_backend.Accounts.Rows.{Admin, Db, admin_is_active}
use stream_sight_backend.Repositories.Admins.{get_admin_by_principal_id}
use stream_sight_backend.Ws.Protocol.{welcome}
use stream_sight_backend.Ws.Manager.{Manager}
use stream_sight_backend.Ws.Reauth.{Ticket, consume_ticket, bearer}
use stream_sight_backend.Ws.Reauth.Once.{find_where-deleted}
use stream_sight_backend.Ws.Manager.Invariant.{IsForgotten}
use stream_sight_backend.Ws.Reach.{Reached, further, accepts}
use stream_sight_backend.Ws.Handshake.{
  WsSettings, Upgrade, opened, origin_allowed, clean_cid, is_over_limit, consume_given, admit,
  admit_active, admit_bearer, handshake,
}

-- What an admission rests on: a bearer of a ticket that is an active admin, within the limits.
abbrev pub IsAdmitted : WsSettings → Upgrade → Db → Option (ℕ × Option String) → Manager → Type 0
IsAdmitted s u db bearer m =
    (p : ℕ) × (sid : Option String) × (a : Admin) × (bearer ≡ some (p, sid))
    × (get_admin_by_principal_id p db ≡ some a)
    × (admin_is_active a ≡ true)
    × (is_over_limit s p sid (clean_cid s u.cid) m ≡ false)

module _ (s : WsSettings) (c : ℕ) (u : Upgrade) (db : Db) where
  admit_within :
      (p : ℕ) (sid : Option String) (a : Admin) (m : Manager)
      → (admit s c u p sid a m).0 ≡ opened c
      → is_over_limit s p sid (clean_cid s u.cid) m ≡ false
  unfolding admit
  admit_within p sid a m h = elim (Bool-cases (is_over_limit s p sid (clean_cid s u.cid) m)) [
    | inl e ↦ absurd (ground (arith, h, e))
    | inr e ↦ e
  ]

  admit_active-opened :
      (p : ℕ) (sid : Option String) (o : Option Admin) (m : Manager)
      → (admit_active s c u p sid o m).0 ≡ opened c
      → (a : Admin) × (o ≡ some a)
        × (admin_is_active a ≡ true)
        × (is_over_limit s p sid (clean_cid s u.cid) m ≡ false)
  admit_active-opened p sid none m h = absurd (cc)
  admit_active-opened p sid (some a) m h = elim (Bool-cases (admin_is_active a)) [
    | inl e ↦ (a, refl, e, admit_within p sid a m (ground (arith, h, e)))
    | inr e ↦ absurd (ground (arith, h, e))
  ]

  admit_bearer-opened :
      (b : Option (ℕ × Option String)) (m : Manager)
      → (admit_bearer s c u db b m).0 ≡ opened c
      → IsAdmitted s u db b m
  admit_bearer-opened none m h = absurd (cc)
  admit_bearer-opened (some (p, sid)) m h =
      let (a, e, act, lim) = admit_active-opened p sid (get_admin_by_principal_id p db) m h in
      (p, sid, a, refl, e, act, lim)

used_up :
    (t : Option String) (now later : ℕ) (keys : List Ticket)
    → (consume_given t later (consume_given t now keys).1).0 ≡ none
unfolding consume_ticket
used_up none now later keys = refl
used_up (some t) now later keys = elim (Bool-cases (str_eq t "")) [
  | inl e ↦ rw e refl
  | inr e ↦ rw e (ap bearer (find_where-deleted t later keys))
]

not_opened :
    (s : WsSettings) (c : ℕ) (u : Upgrade) (db : Db) (keys : List Ticket) (m : Manager)
    → (consume_given u.ticket u.now keys).0 ≡ none
    → (handshake s c u db keys m).answer ≢ opened c
unfolding handshake
not_opened s c u db keys m e h = elim (Bool-cases (origin_allowed s u.origin)) [
  | inl o ↦ absurd (ground (arith, o, e, h))
  | inr o ↦ absurd (ground (arith, o, h))
]

-- A handshake that opens a connection had an allowed origin and a live ticket of an active admin,
-- within the limits of connections or in place of one of the same tab; and no handshake after it,
-- at whatever time and with whatever database and manager, opens a connection with that ticket.
pub handshake_opens :
    (s : WsSettings) (c : ℕ) (u : Upgrade) (db : Db) (keys : List Ticket) (m : Manager)
    → (handshake s c u db keys m).answer ≡ opened c
    → (origin_allowed s u.origin ≡ true)
      × IsAdmitted s u db (consume_given u.ticket u.now keys).0 m
      × ((d : ℕ) (v : Upgrade) (db' : Db) (m' : Manager)
          → v.ticket ≡ u.ticket
          → (handshake s d v db' (handshake s c u db keys m).keys m').answer ≢ opened d)
unfolding handshake
handshake_opens s c u db keys m h = elim (Bool-cases (origin_allowed s u.origin)) [
  | inl e ↦ (
    e,
    admit_bearer-opened s c u db (consume_given u.ticket u.now keys).0 m (ground (arith, h, e)),
    λ d v db' m' t.
        not_opened s d v db' (handshake s c u db keys m).keys m'
          (rw (t, e) (used_up u.ticket u.now v.now keys)),
  )
  | inr e ↦ absurd (ground (arith, h, e))
]

module _ (s : WsSettings) (c : ℕ) (u : Upgrade) (db : Db) (m : Manager) (r : Reached m)
    (f : IsForgotten c m) where
  admit-Reached : (p : ℕ) (sid : Option String) (a : Admin) → Reached (admit s c u p sid a m).1
  unfolding admit
  admit-Reached p sid a = elim (Bool-cases (is_over_limit s p sid (clean_cid s u.cid) m)) [
    | inl e ↦ rw e r
    | inr e ↦ rw e (
        further r (
          accepts c p a.admin_role sid (clean_cid s u.cid) u.now s.ws_max_send_queue
            (welcome c a.admin_role) f))
  ]

  admit_active-Reached :
      (p : ℕ) (sid : Option String) (o : Option Admin) → Reached (admit_active s c u p sid o m).1
  admit_active-Reached p sid none = r
  admit_active-Reached p sid (some a) = elim (Bool-cases (admin_is_active a)) [
    | inl e ↦ rw e (admit-Reached p sid a)
    | inr e ↦ rw e r
  ]

  admit_bearer-Reached : (b : Option (ℕ × Option String)) → Reached (admit_bearer s c u db b m).1
  admit_bearer-Reached none = r
  admit_bearer-Reached (some (p, sid)) = admit_active-Reached p sid (get_admin_by_principal_id p db)

  -- A handshake, from a state that a run of the manager's calls reaches and for a connection that is
  -- in no index, leaves a state that such a run reaches.
  handshake-Reached : (keys : List Ticket) → Reached (handshake s c u db keys m).manager
  unfolding handshake
  handshake-Reached keys = elim (Bool-cases (origin_allowed s u.origin)) [
    | inl e ↦ rw e (admit_bearer-Reached (consume_given u.ticket u.now keys).0)
    | inr e ↦ rw e r
  ]
