-- ===== src/Ws/Delivery/Queues.antt =====
-- app/services/ws/manager.py: the bounded queues under the sends.
use stream_sight_backend.Prelude.{
  ℕ, suc, ◌+◌, ◌≤◌, ◌<◌, ◌≡◌, refl, true, false, not, Option, none, some, List, [], ◌∷◌, ◌++◌,
  String, ap, arith, ◌==◌, length, All, Bool-cases, inl, inr,
}
use stream_sight_backend.Sql.{count_where}
use stream_sight_backend.Sql.Laws.{All-map}
use stream_sight_backend.Ws.Protocol.{CloseCode, backpressure, Message}
use stream_sight_backend.Ws.Manager.{
  Manager, close, unregister, teardown, close_and_teardown, connections_for_principal,
  connections_for_topic,
}
use stream_sight_backend.Ws.Manager.Invariant.{
  IsIndexed, OfPrincipal, OfTopic, OfSid, OfTab, teardown-live, teardown-closed,
}
use stream_sight_backend.Ws.Delivery.{
  close_each, has_room, put_nowait, Sent, took, overflowed, send_each, deliver, send_local,
  broadcast_local, all_connections,
}
use stream_sight_backend.Ws.Delivery.Kicks.{close_each-IsIndexed, close_each-closes}

-- no queue holds more than its `maxsize`, unless that is 0
abbrev pub IsBounded : Manager → Type 0
IsBounded m = (d : ℕ) → 0 < (m.heap d).max_queue → length (m.heap d).queue ≤ (m.heap d).max_queue

length-append_one : {A : Type 0} (l : List A) (x : A) → length (l ++ x ∷ []) ≡ suc (length l)
length-append_one [] x = refl
length-append_one (y ∷ l) x = ap suc (length-append_one l x)

pub put_nowait-IsBounded :
    (c : ℕ) (message : Message) (m : Manager)
    → has_room c m ≡ true
    → IsBounded m
    → IsBounded (put_nowait c message m)
unfolding has_room put_nowait
put_nowait-IsBounded c message m room b d sized = elim (Bool-cases (c == d)) [
  | inl same ↦ ground (arith, room, sized, length-append_one (m.heap c).queue message)
  | inr other ↦ ground (arith, other, sized, b d)
]

pub put_nowait-IsIndexed :
    (c : ℕ) (message : Message) (m : Manager) → IsIndexed m → IsIndexed (put_nowait c message m)
unfolding put_nowait
put_nowait-IsIndexed c message m v =
    let h' = (put_nowait c message m).heap in
    record {
      principals = All-map _ (OfPrincipal h') m.by_principal v.principals (λ e o. ground arith);
      topics = All-map _ (OfTopic h') m.by_topic v.topics (λ e o. ground arith);
      sids = All-map _ (OfSid h') m.by_sid v.sids (λ e o. ground arith);
      tabs = All-map _ (OfTab h') m.by_sid_cid v.tabs (λ e o. ground arith);
    }

pub teardown-IsBounded : (c : ℕ) (m : Manager) → IsBounded m → IsBounded (teardown c m)
teardown-IsBounded c m b d = elim (Bool-cases (m.heap c).closed) [
  | inl e ↦ rw (teardown-closed c m e) (b d)
  | inr e ↦ rw (teardown-live c m e) (unfold unregister in ground (arith, b c, b d))
]

pub close_each-IsBounded :
    (code : CloseCode) (cs : List ℕ) (m : Manager) → IsBounded m → IsBounded (close_each code cs m)
unfolding close_each close_and_teardown close
close_each-IsBounded code [] m b = b
close_each-IsBounded code (c ∷ cs) m b =
    close_each-IsBounded code cs (close_and_teardown code c m)
      (teardown-IsBounded c (close c code m) b)

-- the targets that are open
abbrev pub open_count : List ℕ → Manager → ℕ
open_count cs m = count_where (λ c. not (m.heap c).closed) cs

put_nowait-open_count :
    (c : ℕ) (message : Message) (cs : List ℕ) (m : Manager)
    → open_count cs (put_nowait c message m) ≡ open_count cs m
unfolding put_nowait count_where
put_nowait-open_count c message [] m = refl
put_nowait-open_count c message (d ∷ cs) m = ground (arith, put_nowait-open_count c message cs m)

open_count-closed :
    (c : ℕ) (cs : List ℕ) (m : Manager)
    → (m.heap c).closed ≡ true
    → open_count (c ∷ cs) m ≡ open_count cs m
unfolding count_where
open_count-closed c cs m shut = rw shut (omega arith)

open_count-live :
    (c : ℕ) (cs : List ℕ) (m : Manager)
    → (m.heap c).closed ≡ false
    → open_count (c ∷ cs) m ≡ suc (open_count cs m)
unfolding count_where
open_count-live c cs m live = rw live (omega arith)

-- What the loop over the targets keeps and counts.
pub record IsSent (cs : List ℕ) (m : Manager) (sent : Sent) : Type 0 where
  pub indexed : IsIndexed sent.manager
  pub bounded : IsBounded sent.manager
  pub counted : sent.delivered + length sent.overflow ≡ open_count cs m

send_each-closed :
    (message : Message) (c : ℕ) (cs : List ℕ) (m : Manager)
    → (m.heap c).closed ≡ true
    → send_each message (c ∷ cs) m ≡ send_each message cs m
unfolding send_each
send_each-closed message c cs m shut = rw shut

send_each-room :
    (message : Message) (c : ℕ) (cs : List ℕ) (m : Manager)
    → (m.heap c).closed ≡ false
    → has_room c m ≡ true
    → send_each message (c ∷ cs) m ≡ took (send_each message cs (put_nowait c message m))
unfolding send_each
send_each-room message c cs m live room = rw (live, room)

send_each-full :
    (message : Message) (c : ℕ) (cs : List ℕ) (m : Manager)
    → (m.heap c).closed ≡ false
    → has_room c m ≡ false
    → send_each message (c ∷ cs) m ≡ overflowed c (send_each message cs m)
unfolding send_each
send_each-full message c cs m live full = rw (live, full)

pub send_each-IsSent :
    (message : Message) (cs : List ℕ) (m : Manager)
    → IsIndexed m
    → IsBounded m
    → IsSent cs m (send_each message cs m)
send_each-IsSent message [] m v b =
    unfold send_each count_where in record { indexed = v; bounded = b; counted = refl }
send_each-IsSent message (c ∷ cs) m v b = elim (Bool-cases (m.heap c).closed) [
  | inl shut ↦
      let ih = send_each-IsSent message cs m v b in
      rw (send_each-closed message c cs m shut) record {
        indexed = ih.indexed;
        bounded = ih.bounded;
        counted = omega (arith, ih.counted, open_count-closed c cs m shut);
      }
  | inr live ↦ elim (Bool-cases (has_room c m)) [
    | inl room ↦
        let ih =
          send_each-IsSent message cs (put_nowait c message m) (put_nowait-IsIndexed c message m v)
            (put_nowait-IsBounded c message m room b) in
        let same = put_nowait-open_count c message cs m in
        rw (send_each-room message c cs m live room) record {
          indexed = ih.indexed;
          bounded = ih.bounded;
          counted = omega (arith, ih.counted, same, open_count-live c cs m live);
        }
    | inr full ↦
        let ih = send_each-IsSent message cs m v b in
        rw (send_each-full message c cs m live full) record {
          indexed = ih.indexed;
          bounded = ih.bounded;
          counted = omega (arith, ih.counted, open_count-live c cs m live);
        }
  ]
]

-- the connections that a delivery shuts out
abbrev pub shut_out : Message → List ℕ → Manager → List ℕ
shut_out message cs m = (send_each message cs m).overflow

pub deliver_keeps :
    (message : Message) (cs : List ℕ) (m : Manager)
    → IsIndexed m
    → IsBounded m
    → IsIndexed (deliver message cs m).1
      × IsBounded (deliver message cs m).1
      × ((deliver message cs m).0 + length (shut_out message cs m) ≡ open_count cs m)
      × All (λ c. ((deliver message cs m).1.heap c).closed ≡ true) (shut_out message cs m)
unfolding deliver
deliver_keeps message cs m v b =
    let sent = send_each message cs m in
    let ok = send_each-IsSent message cs m v b in
    (
      close_each-IsIndexed backpressure sent.overflow sent.manager ok.indexed,
      close_each-IsBounded backpressure sent.overflow sent.manager ok.bounded,
      ok.counted,
      close_each-closes backpressure sent.overflow sent.manager,
    )

-- A publication to a principal, from a manager whose indices are right and whose queues keep their
-- bounds, keeps both. The number that it returns, with the connections that it shuts out because
-- their queues were full, is the number of the open connections of the principal, and those that
-- it shuts out are closed.
pub send_local-IsBounded :
    (p : ℕ) (topic : Option String) (message : Message) (m : Manager)
    → IsIndexed m
    → IsBounded m
    → let targets = connections_for_principal p m in
      let after = send_local (some p) topic message m in
      IsIndexed after.1
      × IsBounded after.1
      × (after.0 + length (shut_out message targets m) ≡ open_count targets m)
      × All (λ c. (after.1.heap c).closed ≡ true) (shut_out message targets m)
unfolding send_local
send_local-IsBounded p topic message m v b =
    deliver_keeps message (connections_for_principal p m) m v b

-- the same for a topic
pub send_topic-IsBounded :
    (topic : String) (message : Message) (m : Manager)
    → IsIndexed m
    → IsBounded m
    → let targets = connections_for_topic topic m in
      let after = send_local none (some topic) message m in
      IsIndexed after.1
      × IsBounded after.1
      × (after.0 + length (shut_out message targets m) ≡ open_count targets m)
      × All (λ c. (after.1.heap c).closed ≡ true) (shut_out message targets m)
unfolding send_local
send_topic-IsBounded topic message m v b =
    deliver_keeps message (connections_for_topic topic m) m v b

-- A publication to all, from a manager whose indices are right and whose queues keep their bounds,
-- keeps both. The number that it returns, with the connections that it shuts out because their
-- queues were full, is the number of the open connections, and those that it shuts out are closed.
broadcast_local-IsBounded :
    (message : Message) (m : Manager)
    → IsIndexed m
    → IsBounded m
    → let targets = all_connections m in
      let after = broadcast_local message m in
      IsIndexed after.1
      × IsBounded after.1
      × (after.0 + length (shut_out message targets m) ≡ open_count targets m)
      × All (λ c. (after.1.heap c).closed ≡ true) (shut_out message targets m)
unfolding broadcast_local
broadcast_local-IsBounded message m v b = deliver_keeps message (all_connections m) m v b
