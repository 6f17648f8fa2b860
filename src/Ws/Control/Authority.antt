-- ===== src/Ws/Control/Authority.antt =====
-- app/services/ws/topics.py and the router of app/api/routers/ws: who may subscribe to what.
use stream_sight_backend.Prelude.{
  ℕ, ◌≡◌, refl, ◌∙◌, true, false, Option, none, some, List, [], ◌∷◌, String, arith, str_eq, eq_iff,
  ◌==◌, if◌then◌else◌, if_true, if_false, Bool-cases, inl, inr,
}
use stream_sight_backend.Sql.{find_where}
use stream_sight_backend.Ws.Protocol.{
  CloseCode, backpressure, replaced, Message, subscribed, unsubscribed, error, Control,
  subscribe_message, unsubscribe_message, pong_message, malformed, topic_min_role,
}
use stream_sight_backend.Ws.Manager.{
  Manager, mem_text, without_text, close, unregister, teardown, close_and_teardown, replace,
  claim_tab, register, subscribe, unsubscribe, is_tab, connections_for_principal,
  connections_for_topic,
}
use stream_sight_backend.Ws.Manager.Invariant.{teardown-live, teardown-closed}
use stream_sight_backend.Ws.Delivery.{close_each, put_nowait, send_each, deliver, send_local}
use stream_sight_backend.Ws.Control.{send, below, set_missed, handle_control}
use stream_sight_backend.Ws.Control.Heartbeat.{send-cases}

-- Each topic of the connection that asks for a rank asks for one that the connection has.
abbrev pub IsWithinRank : List String → ℕ → Type 0
IsWithinRank topics rank =
    (t : String) → mem_text t topics ≡ true → below (topic_min_role t) rank ≡ false

abbrev pub IsAuthorized : Manager → Type 0
IsAuthorized m = (d : ℕ) → IsWithinRank (m.heap d).subscriptions (m.heap d).admin_role

-- A change that keeps the subscriptions and the ranks of all connections.
abbrev pub KeepsRights : Manager → Manager → Type 0
KeepsRights m n =
    (d : ℕ)
    → ((n.heap d).subscriptions ≡ (m.heap d).subscriptions)
      × ((n.heap d).admin_role ≡ (m.heap d).admin_role)

pub keeps-IsAuthorized : (m n : Manager) → KeepsRights m n → IsAuthorized m → IsAuthorized n
keeps-IsAuthorized m n k a d t h = rw ((k d).1) (a d t (rw (← (k d).0) h))

keeps_trans : (m n o : Manager) → KeepsRights m n → KeepsRights n o → KeepsRights m o
keeps_trans m n o k l d = ((l d).0 ∙ (k d).0, (l d).1 ∙ (k d).1)

pub teardown-keeps : (c : ℕ) (m : Manager) → KeepsRights m (teardown c m)
teardown-keeps c m d = elim (Bool-cases (m.heap c).closed) [
  | inl e ↦ rw (teardown-closed c m e) (refl, refl)
  | inr e ↦ rw (teardown-live c m e) (unfold unregister in (ground arith, ground arith))
]

pub close_and_teardown-keeps :
    (code : CloseCode) (c : ℕ) (m : Manager) → KeepsRights m (close_and_teardown code c m)
unfolding close_and_teardown close
close_and_teardown-keeps code c m = teardown-keeps c (close c code m)

pub close_each-keeps :
    (code : CloseCode) (cs : List ℕ) (m : Manager) → KeepsRights m (close_each code cs m)
unfolding close_each
close_each-keeps code [] m d = (refl, refl)
close_each-keeps code (c ∷ cs) m d =
    let next = close_and_teardown code c m in
    keeps_trans m next (close_each code cs next) (close_and_teardown-keeps code c m)
      (close_each-keeps code cs next) d

pub put_nowait-keeps :
    (c : ℕ) (message : Message) (m : Manager) → KeepsRights m (put_nowait c message m)
unfolding put_nowait
put_nowait-keeps c message m d = (ground arith, ground arith)

pub send_each-keeps :
    (message : Message) (cs : List ℕ) (m : Manager) → KeepsRights m (send_each message cs m).manager
unfolding send_each
send_each-keeps message [] m d = (refl, refl)
send_each-keeps message (c ∷ cs) m d =
    let with_it =
      keeps_trans m (put_nowait c message m) (send_each message cs (put_nowait c message m)).manager
        (put_nowait-keeps c message m) (send_each-keeps message cs (put_nowait c message m)) d in
    let without = send_each-keeps message cs m d in
    (ground (arith, with_it, without), ground (arith, with_it, without))

pub deliver-keeps :
    (message : Message) (cs : List ℕ) (m : Manager) → KeepsRights m (deliver message cs m).1
unfolding deliver
deliver-keeps message cs m =
    let sent = send_each message cs m in
    keeps_trans m sent.manager (close_each backpressure sent.overflow sent.manager)
      (send_each-keeps message cs m) (close_each-keeps backpressure sent.overflow sent.manager)

pub send_local-keeps :
    (p : Option ℕ) (t : Option String) (message : Message) (m : Manager)
    → KeepsRights m (send_local p t message m).1
unfolding send_local
send_local-keeps (some p) t message m d = deliver-keeps message (connections_for_principal p m) m d
send_local-keeps none (some t) message m d = deliver-keeps message (connections_for_topic t m) m d
send_local-keeps none none message m d = (refl, refl)

pub send-keeps : (c : ℕ) (message : Message) (m : Manager) → KeepsRights m (send c message m)
send-keeps c message m = elim (send-cases c message m) [
  | inl e ↦ rw e (λ d. (refl, refl))
  | inr (inl e) ↦ rw e (put_nowait-keeps c message m)
  | inr (inr e) ↦ rw e (close_and_teardown-keeps backpressure c m)
]

replace-keeps :
    (e : Option (String × String × ℕ)) (c : ℕ) (m : Manager) → KeepsRights m (replace e c m)
unfolding replace
replace-keeps none c m d = (refl, refl)
replace-keeps (some e) c m d = elim (Bool-cases (e.2 == c)) [
  | inl same ↦ rw same (refl, refl)
  | inr other ↦ rw other (close_and_teardown-keeps replaced e.2 m d)
]

claim_tab-keeps : (s d : Option String) (c : ℕ) (m : Manager) → KeepsRights m (claim_tab s d c m)
unfolding claim_tab
claim_tab-keeps none d c m e = (refl, refl)
claim_tab-keeps (some s) none c m e = (refl, refl)
claim_tab-keeps (some s) (some d) c m e = replace-keeps (find_where (is_tab s d) m.by_sid_cid) c m e

pub register-keeps : (c : ℕ) (m : Manager) → KeepsRights m (register c m)
unfolding register
register-keeps c m = claim_tab-keeps (m.heap c).sid (m.heap c).cid c m

mem_text-of_without :
    (t u : String) (l : List String) → mem_text u (without_text t l) ≡ true → mem_text u l ≡ true
mem_text-of_without t u [] h = h
mem_text-of_without t u (s ∷ l) h = ground (arith, h, mem_text-of_without t u l)

within-added :
    (t : String) (topics : List String) (rank : ℕ)
    → below (topic_min_role t) rank ≡ false
    → IsWithinRank topics rank
    → IsWithinRank (if mem_text t topics then topics else t ∷ topics) rank
within-added t topics rank ok w u h = elim (Bool-cases (str_eq t u)) [
  | inl same ↦ rw (← (eq_iff t u).0 same) ok
  | inr other ↦ w u (ground (arith, h, other))
]

within-without :
    (t : String) (topics : List String) (rank : ℕ)
    → IsWithinRank topics rank
    → IsWithinRank (without_text t topics) rank
within-without t topics rank w u h = w u (mem_text-of_without t u topics h)

pub subscribe-IsAuthorized :
    (c : ℕ) (t : String) (m : Manager)
    → below (topic_min_role t) (m.heap c).admin_role ≡ false
    → IsAuthorized m
    → IsAuthorized (subscribe c t m)
unfolding subscribe
subscribe-IsAuthorized c t m ok a d = elim (Bool-cases (c == d)) [
  | inl same ↦ rw same (within-added t (m.heap c).subscriptions (m.heap c).admin_role ok (a c))
  | inr other ↦ rw other (a d)
]

pub unsubscribe-IsAuthorized :
    (c : ℕ) (t : String) (m : Manager) → IsAuthorized m → IsAuthorized (unsubscribe c t m)
unfolding unsubscribe
unsubscribe-IsAuthorized c t m a d = elim (Bool-cases (c == d)) [
  | inl same ↦ rw same (within-without t (m.heap c).subscriptions (m.heap c).admin_role (a c))
  | inr other ↦ rw other (a d)
]

pub set_missed-keeps : (c n : ℕ) (m : Manager) → KeepsRights m (set_missed c n m)
set_missed-keeps c n m d = (ground arith, ground arith)

send-IsAuthorized :
    (c : ℕ) (message : Message) (m : Manager) → IsAuthorized m → IsAuthorized (send c message m)
send-IsAuthorized c message m = keeps-IsAuthorized m (send c message m) (send-keeps c message m)

pub handle_control-IsAuthorized :
    (c : ℕ) (control : Control) (m : Manager)
    → IsAuthorized m
    → IsAuthorized (handle_control c control m)
unfolding handle_control
handle_control-IsAuthorized c malformed m a = send-IsAuthorized c (error "invalid_message") m a
handle_control-IsAuthorized c (pong_message t) m a =
    keeps-IsAuthorized m (set_missed c 0 m) (set_missed-keeps c 0 m) a
handle_control-IsAuthorized c (subscribe_message none) m a =
    send-IsAuthorized c (error "missing_topic") m a
handle_control-IsAuthorized c (subscribe_message (some t)) m a =
    elim (Bool-cases (below (topic_min_role t) (m.heap c).admin_role)) [
      | inl low ↦ rw (if_true _ _ low) (send-IsAuthorized c (error "forbidden_topic") m a)
      | inr ok ↦
          rw (if_false _ _ ok) (
            send-IsAuthorized c (subscribed t) (subscribe c t m)
              (subscribe-IsAuthorized c t m ok a))
    ]
handle_control-IsAuthorized c (unsubscribe_message none) m a =
    send-IsAuthorized c (error "missing_topic") m a
handle_control-IsAuthorized c (unsubscribe_message (some t)) m a =
    send-IsAuthorized c (unsubscribed t) (unsubscribe c t m) (unsubscribe-IsAuthorized c t m a)
