-- ===== src/Ws/Delivery.antt =====
-- app/services/ws/manager.py: what the manager sends and whom it shuts out, on the heap and the
-- indices of Ws.Manager. A set of connections is walked in the order of the index's pairs.
pub mod Kicks
pub mod Queues
use stream_sight_backend.Prelude.{
  ℕ, suc, ◌+◌, Bool, true, false, Option, none, some, List, [], ◌∷◌, ◌++◌, String, ltb, ◌==◌, ◌||◌,
  length, if◌then◌else◌,
}
use mathlib.Core.List.{map}
use stream_sight_backend.Ws.Protocol.{
  CloseCode, backpressure, unauthenticated, service_restart, Message,
}
use stream_sight_backend.Ws.Manager.{
  Connection, Manager, put, close_and_teardown, connections_for_principal, connections_for_sid,
  connections_for_topic,
}

-- the loop `for conn in ...: await conn.close(code); await self._teardown(conn)`
unfoldable pub close_each : CloseCode → List ℕ → Manager → Manager
close_each code [] m = m
close_each code (c ∷ cs) m = close_each code cs (close_and_teardown code c m)

unfoldable pub kick_local : ℕ → CloseCode → Manager → Manager
kick_local p code m = close_each code (connections_for_principal p m) m

unfoldable pub kick_local_sid : String → CloseCode → Manager → Manager
kick_local_sid s code m = close_each code (connections_for_sid s m) m

abbrev pub all_connections : Manager → List ℕ
all_connections m = map (λ e. e.1) m.by_principal

unfoldable pub close_all : CloseCode → Manager → Manager
close_all code m = close_each code (all_connections m) m

-- whether `conn.queue.put_nowait(message)` takes the message: an `asyncio.Queue` with the `maxsize`
-- 0 is never full
unfoldable pub has_room : ℕ → Manager → Bool
has_room c m = (m.heap c).max_queue == 0 || ltb (length (m.heap c).queue) (m.heap c).max_queue

unfoldable pub put_nowait : ℕ → Message → Manager → Manager
put_nowait c message m = record m {
  heap = put m.heap c (record (m.heap c) { queue = (m.heap c).queue ++ message ∷ [] });
}

-- The loop over the targets: how many took the message, those whose queue was full, the manager.
pub record Sent : Type 0 where
  pub delivered : ℕ
  pub overflow : List ℕ
  pub manager : Manager

abbrev pub skipped : ℕ → Sent → Sent
skipped c r = r

abbrev pub took : Sent → Sent
took r = record r { delivered = suc r.delivered }

abbrev pub overflowed : ℕ → Sent → Sent
overflowed c r = record r { overflow = c ∷ r.overflow }

unfoldable pub send_each : Message → List ℕ → Manager → Sent
unfolding has_room put_nowait
send_each message [] m = record { delivered = 0; overflow = []; manager = m }
send_each message (c ∷ cs) m =
    let without = send_each message cs m in
    let with_it = send_each message cs (put_nowait c message m) in
    if (m.heap c).closed
    then without
    else if has_room c m
    then took with_it
    else overflowed c without

-- the number delivered, after the slow consumers are closed
unfoldable pub deliver : Message → List ℕ → Manager → ℕ × Manager
deliver message targets m =
    let sent = send_each message targets m in
    (sent.delivered, close_each backpressure sent.overflow sent.manager)

-- `send_local`
unfoldable pub send_local : Option ℕ → Option String → Message → Manager → ℕ × Manager
send_local (some p) topic message m = deliver message (connections_for_principal p m) m
send_local none (some t) message m = deliver message (connections_for_topic t m) m
send_local none none message m = (0, m)

unfoldable pub broadcast_local : Message → Manager → ℕ × Manager
broadcast_local message m = deliver message (all_connections m) m

unfoldable pub send_to_connection : ℕ → Message → Manager → Bool × Manager
send_to_connection c message m =
    if (m.heap c).closed
    then (false, m)
    else if has_room c m
    then (true, put_nowait c message m)
    else (false, close_and_teardown backpressure c m)
