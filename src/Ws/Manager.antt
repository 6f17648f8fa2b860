-- ===== src/Ws/Manager.antt =====
-- app/services/ws/manager.py: the connections of one instance. A connection is an object with an
-- identity, so the manager holds a heap of connections and indices into it: each dictionary of
-- sets is the list of its (key, connection) pairs, and a key whose set is empty has no pair.
-- A method runs from its start to its end; other tasks do not run at its `await`s here.
pub mod Invariant
pub mod Keeps
pub mod Tabs
use stream_sight_backend.Prelude.{
  ℕ, suc, ◌+◌, Bool, true, false, not, ◌&&◌, ◌||◌, Option, none, some, List, [], ◌∷◌, ◌++◌, String,
  str_eq, ltb, ◌==◌, length, if◌then◌else◌,
}
use mathlib.Core.List.{map}
use stream_sight_backend.Sql.{find_where, select_where, exists_where, delete_where}
use stream_sight_backend.Ws.Protocol.{
  CloseCode, replaced, backpressure, unauthenticated, service_restart, normal, Message,
}

-- Connection, without the socket and the tasks
pub record Connection : Type 0 where
  pub principal_id : ℕ
  pub admin_role : ℕ
  pub sid : Option String
  pub cid : Option String
  pub subscriptions : List String
  pub closed : Bool
  pub missed_pongs : ℕ
  pub last_seen : ℕ
  -- what waits in the queue, and its `maxsize`
  pub queue : List Message
  pub max_queue : ℕ

pub record Manager : Type 0 where
  pub heap : ℕ → Connection
  pub by_principal : List (ℕ × ℕ)
  pub by_topic : List (String × ℕ)
  pub by_sid : List (String × ℕ)
  -- the session id, the tab's id and the connection
  pub by_sid_cid : List (String × String × ℕ)
  -- the calls of `ws.close(code)` that were made, in order
  pub closes : List (ℕ × CloseCode)

abbrev pub put : (ℕ → Connection) → ℕ → Connection → ℕ → Connection
put heap c x d = if c == d then x else heap d

abbrev pub mem_text : String → List String → Bool
mem_text t [] = false
mem_text t (s ∷ l) = str_eq s t || mem_text t l

abbrev pub without_text : String → List String → List String
without_text t [] = []
without_text t (s ∷ l) = if str_eq s t then without_text t l else s ∷ without_text t l

-- `connections_for_principal` and `connections_for_sid`
unfoldable pub connections_for_principal : ℕ → Manager → List ℕ
connections_for_principal p m = map (λ e. e.1) (select_where (λ e. e.0 == p) m.by_principal)

unfoldable pub connections_for_sid : String → Manager → List ℕ
connections_for_sid s m = map (λ e. e.1) (select_where (λ e. str_eq e.0 s) m.by_sid)

unfoldable pub connections_for_topic : String → Manager → List ℕ
connections_for_topic t m = map (λ e. e.1) (select_where (λ e. str_eq e.0 t) m.by_topic)

abbrev pub is_tab : String → String → String × String × ℕ → Bool
is_tab s d e = str_eq e.0 s && str_eq e.1 d

unfoldable pub has_sid_cid : Option String → Option String → Manager → Bool
has_sid_cid (some s) (some d) m = exists_where (is_tab s d) m.by_sid_cid
has_sid_cid _ _ m = false

unfoldable pub total_connections : Manager → ℕ
total_connections m = length m.by_principal

-- `Connection.close`
unfoldable pub close : ℕ → CloseCode → Manager → Manager
close c code m = record m { closes = m.closes ++ (c, code) ∷ [] }

abbrev pub drop_sid : Option String → ℕ → List (String × ℕ) → List (String × ℕ)
drop_sid none c l = l
drop_sid (some s) c l = delete_where (λ e. str_eq e.0 s && e.1 == c) l

abbrev pub drop_tab :
    Option String → Option String → ℕ → List (String × String × ℕ) → List (String × String × ℕ)
drop_tab none d c l = l
drop_tab (some s) none c l = l
drop_tab (some s) (some d) c l = delete_where (λ e. is_tab s d e && e.2 == c) l

-- `unregister`
unfoldable pub unregister : ℕ → Manager → Manager
unregister c m = record m {
  by_principal = delete_where (λ e. e.0 == (m.heap c).principal_id && e.1 == c) m.by_principal;
  by_topic = delete_where (λ e. mem_text e.0 (m.heap c).subscriptions && e.1 == c) m.by_topic;
  by_sid = drop_sid (m.heap c).sid c m.by_sid;
  by_sid_cid = drop_tab (m.heap c).sid (m.heap c).cid c m.by_sid_cid;
}

abbrev pub mark_closed : ℕ → Manager → Manager
mark_closed c m = record m { heap = put m.heap c (record (m.heap c) { closed = true }) }

-- `_teardown`
unfoldable pub teardown : ℕ → Manager → Manager
unfolding close unregister
teardown c m = if (m.heap c).closed then m else close c normal (unregister c (mark_closed c m))

-- `await conn.close(code); await self._teardown(conn)`
unfoldable pub close_and_teardown : CloseCode → ℕ → Manager → Manager
close_and_teardown code c m = teardown c (close c code m)

abbrev pub add_pair : {K : Type 0} → (K → K → Bool) → K → ℕ → List (K × ℕ) → List (K × ℕ)
add_pair eq k c l = if exists_where (λ e. eq e.0 k && e.1 == c) l then l else l ++ (k, c) ∷ []

-- the connection that another one of the same tab replaces
unfoldable pub replace : Option (String × String × ℕ) → ℕ → Manager → Manager
replace none c m = m
replace (some e) c m = if e.2 == c then m else close_and_teardown replaced e.2 m

-- `self._by_sid_cid[(sid, cid)] = conn`
abbrev pub set_tab : String → String → ℕ → Manager → Manager
set_tab s d c m = record m { by_sid_cid = delete_where (is_tab s d) m.by_sid_cid ++ (s, d, c) ∷ [] }

unfoldable pub claim_tab : Option String → Option String → ℕ → Manager → Manager
claim_tab (some s) (some d) c m = set_tab s d c (replace (find_where (is_tab s d) m.by_sid_cid) c m)
claim_tab _ _ c m = m

abbrev pub add_sid : Option String → ℕ → List (String × ℕ) → List (String × ℕ)
add_sid none c l = l
add_sid (some s) c l = add_pair str_eq s c l

abbrev pub add_indices : ℕ → Manager → Manager
add_indices c m = record m {
  by_principal = add_pair ◌==◌ (m.heap c).principal_id c m.by_principal;
  by_sid = add_sid (m.heap c).sid c m.by_sid;
}

-- `register`
unfoldable pub register : ℕ → Manager → Manager
register c m = add_indices c (claim_tab (m.heap c).sid (m.heap c).cid c m)

-- `subscribe`
unfoldable pub subscribe : ℕ → String → Manager → Manager
subscribe c t m = record m {
  heap = put m.heap c (record (m.heap c) {
    subscriptions =
        if mem_text t (m.heap c).subscriptions
        then (m.heap c).subscriptions
        else t ∷ (m.heap c).subscriptions;
  });
  by_topic = add_pair str_eq t c m.by_topic;
}

-- `unsubscribe`
unfoldable pub unsubscribe : ℕ → String → Manager → Manager
unsubscribe c t m = record m {
  heap =
      put m.heap c (record (m.heap c) { subscriptions = without_text t (m.heap c).subscriptions });
  by_topic = delete_where (λ e. str_eq e.0 t && e.1 == c) m.by_topic;
}
