-- ===== src/Ws/Reach/Steps.antt =====
-- app/services/ws/manager.py and the router: each call of a run, and the invariants.
use stream_sight_backend.Prelude.{
  ℕ, ◌≡◌, refl, Bool, true, false, Option, none, some, List, [], ◌∷◌, String, arith, ◌==◌, ==_refl,
  All, Bool-cases, inl, inr,
}
use stream_sight_backend.Sql.{find_where, exists_where}
use stream_sight_backend.Sql.Laws.{All-map}
use stream_sight_backend.Ws.Protocol.{CloseCode, replaced, backpressure, Message, topic_min_role}
use stream_sight_backend.Ws.Manager.{
  Connection, Manager, close, replace, claim_tab, is_tab, close_and_teardown, register, subscribe,
  unsubscribe, connections_for_principal, connections_for_topic,
}
use stream_sight_backend.Ws.Manager.Invariant.{
  IsIndexed, IsForgotten, OfPrincipal, OfTopic, OfSid, OfTab, teardown-IsIndexed,
}
use stream_sight_backend.Ws.Manager.Keeps.{
  register-IsIndexed, subscribe-IsIndexed, unsubscribe-IsIndexed,
}
use stream_sight_backend.Ws.Delivery.{close_each, deliver, send_local, has_room, put_nowait}
use stream_sight_backend.Ws.Delivery.Kicks.{close-IsIndexed, close_each-IsIndexed}
use stream_sight_backend.Ws.Delivery.Queues.{
  IsBounded, teardown-IsBounded, close_each-IsBounded, deliver_keeps, put_nowait-IsBounded,
  put_nowait-IsIndexed,
}
use stream_sight_backend.Ws.Control.{send, below, set_missed}
use stream_sight_backend.Ws.Control.Heartbeat.{send-closed, send-room, send-full}
use stream_sight_backend.Ws.Control.Authority.{
  put_nowait-keeps, subscribe-IsAuthorized, unsubscribe-IsAuthorized, IsAuthorized,
  keeps-IsAuthorized, close_and_teardown-keeps, close_each-keeps, deliver-keeps, register-keeps,
  set_missed-keeps,
}
use stream_sight_backend.Ws.Reach.{new_connection, allocate}

module _ {A : Type 0} (P Q : A → Type 0) (q : A → Bool) where
  -- A predicate changed at the rows that a test finds, where it finds none.
  unnamed-All :
      (l : List A)
      → exists_where q l ≡ false
      → All P l
      → ((x : A) → P x → q x ≡ false → Q x)
      → All Q l
  unfolding exists_where
  unnamed-All [] f h k = tt
  unnamed-All (x ∷ l) f h k = (k x h.0 (ground (arith, f)), unnamed-All l (ground (arith, f)) h.1 k)

allocate-IsIndexed :
    (c : ℕ) (conn : Connection) (m : Manager)
    → IsForgotten c m
    → IsIndexed m
    → IsIndexed (allocate c conn m)
allocate-IsIndexed c conn m new v =
    let h' = (allocate c conn m).heap in
    record {
      principals =
          unnamed-All _ (OfPrincipal h') _ m.by_principal new.no_principal v.principals
            (λ e o other. ground arith);
      topics =
          unnamed-All _ (OfTopic h') _ m.by_topic new.no_topic v.topics (λ e o other. ground arith);
      sids = unnamed-All _ (OfSid h') _ m.by_sid new.no_sid v.sids (λ e o other. ground arith);
      tabs = unnamed-All _ (OfTab h') _ m.by_sid_cid new.no_tab v.tabs (λ e o other. ground arith);
    }

-- What each step keeps.
pub record IsSound (m : Manager) : Type 0 where
  pub indexed : IsIndexed m
  pub bounded : IsBounded m
  pub authorized : IsAuthorized m

replace-IsBounded :
    (e : Option (String × String × ℕ)) (c : ℕ) (m : Manager)
    → IsBounded m
    → IsBounded (replace e c m)
unfolding replace
replace-IsBounded none c m b d = b d
replace-IsBounded (some e) c m b d = elim (Bool-cases (e.2 == c)) [
  | inl same ↦ rw same (b d)
  | inr other ↦
      rw other
        (unfold close_and_teardown close in teardown-IsBounded e.2 (close e.2 replaced m) b d)
]

claim_tab-IsBounded :
    (s d : Option String) (c : ℕ) (m : Manager) → IsBounded m → IsBounded (claim_tab s d c m)
unfolding claim_tab
claim_tab-IsBounded none d c m b = b
claim_tab-IsBounded (some s) none c m b = b
claim_tab-IsBounded (some s) (some d) c m b =
    replace-IsBounded (find_where (is_tab s d) m.by_sid_cid) c m b

allocate-IsAuthorized :
    (c p role : ℕ) (s d : Option String) (now size : ℕ) (message : Message) (m : Manager)
    → IsAuthorized m
    → IsAuthorized (allocate c (new_connection p role s d now size message) m)
allocate-IsAuthorized c p role s d now size message m a e = elim (Bool-cases (c == e)) [
  | inl same ↦ rw same (λ t h. absurd (ground (arith, h)))
  | inr other ↦ rw other (a e)
]

pub accepts-IsSound :
    (c p role : ℕ) (s d : Option String) (now size : ℕ) (message : Message) (m : Manager)
    → IsForgotten c m
    → IsSound m
    → IsSound (register c (allocate c (new_connection p role s d now size message) m))
accepts-IsSound c p role s d now size message m new v =
    let conn = new_connection p role s d now size message in
    let made = allocate c conn m in
    record {
      indexed =
          register-IsIndexed c made (rw (==_refl c) refl)
            (allocate-IsIndexed c conn m new v.indexed);
      bounded =
          unfold register in
          claim_tab-IsBounded (made.heap c).sid (made.heap c).cid c made
            (λ e. ground (arith, v.bounded e));
      authorized =
          keeps-IsAuthorized made (register c made) (register-keeps c made)
            (allocate-IsAuthorized c p role s d now size message m v.authorized);
    }

subscribe-IsBounded : (c : ℕ) (t : String) (m : Manager) → IsBounded m → IsBounded (subscribe c t m)
unfolding subscribe
subscribe-IsBounded c t m b d = ground (arith, b c, b d)

unsubscribe-IsBounded :
    (c : ℕ) (t : String) (m : Manager) → IsBounded m → IsBounded (unsubscribe c t m)
unfolding unsubscribe
unsubscribe-IsBounded c t m b d = ground (arith, b c, b d)

pub close_and_teardown-IsSound :
    (code : CloseCode) (c : ℕ) (m : Manager) → IsSound m → IsSound (close_and_teardown code c m)
unfolding close_and_teardown
close_and_teardown-IsSound code c m v = record {
  indexed = teardown-IsIndexed c (close c code m) (close-IsIndexed c code m v.indexed);
  bounded = teardown-IsBounded c (close c code m) (unfold close in v.bounded);
  authorized =
      keeps-IsAuthorized m (close_and_teardown code c m) (close_and_teardown-keeps code c m)
        v.authorized;
}

pub close_each-IsSound :
    (code : CloseCode) (cs : List ℕ) (m : Manager) → IsSound m → IsSound (close_each code cs m)
close_each-IsSound code cs m v = record {
  indexed = close_each-IsIndexed code cs m v.indexed;
  bounded = close_each-IsBounded code cs m v.bounded;
  authorized =
      keeps-IsAuthorized m (close_each code cs m) (close_each-keeps code cs m) v.authorized;
}

pub deliver-IsSound :
    (message : Message) (cs : List ℕ) (m : Manager) → IsSound m → IsSound (deliver message cs m).1
deliver-IsSound message cs m v =
    let kept = deliver_keeps message cs m v.indexed v.bounded in
    record {
      indexed = kept.0;
      bounded = kept.1;
      authorized =
          keeps-IsAuthorized m (deliver message cs m).1 (deliver-keeps message cs m) v.authorized;
    }

pub send_local-IsSound :
    (p : Option ℕ) (t : Option String) (message : Message) (m : Manager)
    → IsSound m
    → IsSound (send_local p t message m).1
unfolding send_local
send_local-IsSound (some p) t message m v =
    deliver-IsSound message (connections_for_principal p m) m v
send_local-IsSound none (some t) message m v =
    deliver-IsSound message (connections_for_topic t m) m v
send_local-IsSound none none message m v = v

pub put_nowait-IsSound :
    (c : ℕ) (message : Message) (m : Manager)
    → has_room c m ≡ true
    → IsSound m
    → IsSound (put_nowait c message m)
put_nowait-IsSound c message m room v = record {
  indexed = put_nowait-IsIndexed c message m v.indexed;
  bounded = put_nowait-IsBounded c message m room v.bounded;
  authorized =
      keeps-IsAuthorized m (put_nowait c message m) (put_nowait-keeps c message m) v.authorized;
}

pub send-IsSound :
    (c : ℕ) (message : Message) (m : Manager) → IsSound m → IsSound (send c message m)
send-IsSound c message m v = elim (Bool-cases (m.heap c).closed) [
  | inl shut ↦ rw (send-closed c message m shut) v
  | inr live ↦ elim (Bool-cases (has_room c m)) [
    | inl room ↦ rw (send-room c message m live room) (put_nowait-IsSound c message m room v)
    | inr full ↦
        rw (send-full c message m live full) (close_and_teardown-IsSound backpressure c m v)
  ]
]

pub set_missed-IsSound : (c n : ℕ) (m : Manager) → IsSound m → IsSound (set_missed c n m)
set_missed-IsSound c n m v =
    let h' = (set_missed c n m).heap in
    record {
      indexed = record {
        principals =
            All-map _ (OfPrincipal h') m.by_principal v.indexed.principals (λ e o. ground arith);
        topics = All-map _ (OfTopic h') m.by_topic v.indexed.topics (λ e o. ground arith);
        sids = All-map _ (OfSid h') m.by_sid v.indexed.sids (λ e o. ground arith);
        tabs = All-map _ (OfTab h') m.by_sid_cid v.indexed.tabs (λ e o. ground arith);
      };
      bounded = λ d. ground (arith, v.bounded c, v.bounded d);
      authorized = keeps-IsAuthorized m (set_missed c n m) (set_missed-keeps c n m) v.authorized;
    }

pub subscribe-IsSound :
    (c : ℕ) (t : String) (m : Manager)
    → (m.heap c).closed ≡ false
    → below (topic_min_role t) (m.heap c).admin_role ≡ false
    → IsSound m
    → IsSound (subscribe c t m)
subscribe-IsSound c t m live ok v = record {
  indexed = subscribe-IsIndexed c t m live v.indexed;
  bounded = subscribe-IsBounded c t m v.bounded;
  authorized = subscribe-IsAuthorized c t m ok v.authorized;
}

pub unsubscribe-IsSound :
    (c : ℕ) (t : String) (m : Manager) → IsSound m → IsSound (unsubscribe c t m)
unsubscribe-IsSound c t m v = record {
  indexed = unsubscribe-IsIndexed c t m v.indexed;
  bounded = unsubscribe-IsBounded c t m v.bounded;
  authorized = unsubscribe-IsAuthorized c t m v.authorized;
}
