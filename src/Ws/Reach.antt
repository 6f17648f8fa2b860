-- ===== src/Ws/Reach.antt =====
-- app/services/ws/manager.py over a run: the calls of the manager, in any order, as a relation.
pub mod Steps
pub mod Frames
pub mod Safety
use stream_sight_backend.Prelude.{
  ℕ, ◌≤◌, ◌≡◌, refl, Bool, true, false, ◌&&◌, Option, none, some, List, [], ◌∷◌, ◌++◌, String,
  arith, ◌==◌, ==_refl, length, if◌then◌else◌, All, Bool-cases, inl, inr,
}
use stream_sight_backend.Sql.{find_where, exists_where}
use stream_sight_backend.Ws.Protocol.{CloseCode, replaced, backpressure, Message, Control}
use stream_sight_backend.Ws.Manager.{
  Connection, Manager, put, close, replace, claim_tab, add_indices, is_tab, close_and_teardown,
  register, subscribe, unsubscribe, teardown, connections_for_principal, connections_for_sid,
}
use stream_sight_backend.Ws.Manager.Invariant.{
  IsIndexed, IsForgotten, OfPrincipal, OfTopic, OfSid, OfTab, teardown-IsIndexed,
  closed-IsForgotten,
}
use stream_sight_backend.Ws.Manager.Keeps.{
  register-IsIndexed, subscribe-IsIndexed, unsubscribe-IsIndexed,
}
use stream_sight_backend.Ws.Delivery.{
  close_each, kick_local, kick_local_sid, close_all, send_each, deliver, send_local,
  broadcast_local, send_to_connection, has_room, put_nowait, all_connections,
}
use stream_sight_backend.Ws.Control.{Settings, handle_control, heartbeat}
use stream_sight_backend.Ws.Delivery.Kicks.{close-IsIndexed, close_each-IsIndexed}
use stream_sight_backend.Ws.Delivery.Queues.{
  IsBounded, teardown-IsBounded, close_each-IsBounded, deliver_keeps, put_nowait-IsBounded,
  put_nowait-IsIndexed,
}

-- the heap before any connection is made
abbrev pub blank : Connection
blank = record {
  principal_id = 0;
  admin_role = 0;
  sid = none;
  cid = none;
  subscriptions = [];
  closed = true;
  missed_pongs = 0;
  last_seen = 0;
  queue = [];
  max_queue = 0;
}

-- `ConnectionManager.__init__`
abbrev pub empty_manager : Manager
empty_manager = record {
  heap = λ _. blank;
  by_principal = [];
  by_topic = [];
  by_sid = [];
  by_sid_cid = [];
  closes = [];
}

-- `Connection(...)` of `admin_ws`: an object of a new identity, with the welcome in its queue
abbrev pub new_connection : ℕ → ℕ → Option String → Option String → ℕ → ℕ → Message → Connection
new_connection p role s d now size message = record {
  principal_id = p;
  admin_role = role;
  sid = s;
  cid = d;
  subscriptions = [];
  closed = false;
  missed_pongs = 0;
  last_seen = now;
  queue = message ∷ [];
  max_queue = size;
}

abbrev pub allocate : ℕ → Connection → Manager → Manager
allocate c conn m = record m { heap = put m.heap c conn }

-- One call of the manager. A control message is handled for a connection that is open.
pub data Step : Manager → Manager → Type 0 where
  accepts :
      {m : Manager} (c p role : ℕ) (s d : Option String) (now size : ℕ) (message : Message)
      → IsForgotten c m
      → Step m (register c (allocate c (new_connection p role s d now size message) m))
  controls :
      {m : Manager} (c : ℕ) (control : Control)
      → (m.heap c).closed ≡ false
      → Step m (handle_control c control m)
  beats : {m : Manager} (settings : Settings) (c now : ℕ) → Step m (heartbeat settings c now m)
  tears_down : {m : Manager} (c : ℕ) → Step m (teardown c m)
  shuts : {m : Manager} (code : CloseCode) (c : ℕ) → Step m (close_and_teardown code c m)
  kicks : {m : Manager} (p : ℕ) (code : CloseCode) → Step m (kick_local p code m)
  kicks_sid : {m : Manager} (s : String) (code : CloseCode) → Step m (kick_local_sid s code m)
  shuts_down : {m : Manager} (code : CloseCode) → Step m (close_all code m)
  sends :
      {m : Manager} (p : Option ℕ) (t : Option String) (message : Message)
      → Step m (send_local p t message m).1
  broadcasts : {m : Manager} (message : Message) → Step m (broadcast_local message m).1
  answers : {m : Manager} (c : ℕ) (message : Message) → Step m (send_to_connection c message m).1

-- What a run of steps reaches from the manager of a new instance.
pub data Reached : Manager → Type 0 where
  at_start : Reached empty_manager
  further : {m n : Manager} → Reached m → Step m n → Reached n
