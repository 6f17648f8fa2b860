-- ===== src/Ws/Control.antt =====
-- app/api/routers/ws/router.py: what the reader of a connection does with a frame, and the
-- heartbeat. Times are in milliseconds.
pub mod Authority
pub mod Heartbeat
pub mod Rate
use stream_sight_backend.Prelude.{
  ℕ, suc, ◌+◌, Bool, true, false, Option, none, some, List, [], ◌∷◌, ◌++◌, String, ltb, leb, length,
  if◌then◌else◌,
}
use stream_sight_backend.Accounts.Enums.{AdminRole, admin_role_value}
use stream_sight_backend.Ws.Protocol.{
  CloseCode, protocol_error, heartbeat_timeout, Message, subscribed, unsubscribed, ping, error,
  Control, subscribe_message, unsubscribe_message, pong_message, malformed, topic_min_role,
}
use stream_sight_backend.Ws.Manager.{
  Connection, Manager, put, close_and_teardown, subscribe, unsubscribe,
}
use stream_sight_backend.Ws.Delivery.{send_to_connection}

abbrev pub send : ℕ → Message → Manager → Manager
send c message m = (send_to_connection c message m).1

-- `min_role is not None and conn.admin_role < min_role`
abbrev pub below : Option AdminRole → ℕ → Bool
below none rank = false
below (some r) rank = ltb rank (admin_role_value r)

abbrev pub set_missed : ℕ → ℕ → Manager → Manager
set_missed c n m = record m { heap = put m.heap c (record (m.heap c) { missed_pongs = n }) }

-- `_handle_control`
unfoldable pub handle_control : ℕ → Control → Manager → Manager
handle_control c malformed m = send c (error "invalid_message") m
handle_control c (pong_message t) m = set_missed c 0 m
handle_control c (subscribe_message none) m = send c (error "missing_topic") m
handle_control c (subscribe_message (some t)) m =
    if below (topic_min_role t) (m.heap c).admin_role
    then send c (error "forbidden_topic") m
    else send c (subscribed t) (subscribe c t m)
handle_control c (unsubscribe_message none) m = send c (error "missing_topic") m
handle_control c (unsubscribe_message (some t)) m = send c (unsubscribed t) (unsubscribe c t m)

-- `get_app_settings()`, the part that a connection reads
pub record Settings : Type 0 where
  pub max_message_bytes : ℕ
  pub control_msg_rate_limit : ℕ
  pub missed_pong_limit : ℕ
  pub idle_timeout : ℕ

-- `_RATE_WINDOW_SECONDS`
abbrev pub rate_window : ℕ
rate_window = 10000

-- the loop of `recent.popleft()`
unfoldable pub expire : ℕ → List ℕ → List ℕ
expire now [] = []
expire now (t ∷ ts) = let rest = expire now ts in if ltb (t + rate_window) now then rest else t ∷ ts

-- A frame: its size in bytes and what `json.loads` and the validation make of its text.
pub record Frame : Type 0 where
  pub size : ℕ
  pub parsed : Option Control

-- The reader: whether it reads on, the times of the control messages, the manager.
pub record Reader : Type 0 where
  pub reads_on : Bool
  pub recent : List ℕ
  pub manager : Manager

abbrev pub touch : ℕ → ℕ → Manager → Manager
touch c now m = record m { heap = put m.heap c (record (m.heap c) { last_seen = now }) }

unfoldable pub parse_and_handle : ℕ → Option Control → List ℕ → Manager → Reader
parse_and_handle c none recent m = record {
  reads_on = false;
  recent = recent;
  manager = close_and_teardown protocol_error c m;
}
parse_and_handle c (some control) recent m = record {
  reads_on = true;
  recent = recent;
  manager = handle_control c control m;
}

unfoldable pub rate_limited : Settings → ℕ → Option Control → ℕ → List ℕ → Manager → Reader
rate_limited settings c parsed now recent m =
    if leb settings.control_msg_rate_limit (length recent)
    then record { reads_on = true; recent = recent; manager = send c (error "rate_limited") m }
    else parse_and_handle c parsed (recent ++ now ∷ []) m

-- one turn of the loop of `admin_ws`, with the teardown of its `finally` where it breaks; `seen`
-- and `now` are its two readings of the clock
unfoldable pub receive : Settings → ℕ → ℕ → ℕ → Frame → List ℕ → Manager → Reader
receive settings c seen now frame recent m =
    if ltb settings.max_message_bytes frame.size
    then record {
      reads_on = false;
      recent = recent;
      manager = close_and_teardown protocol_error c (touch c seen m);
    }
    else rate_limited settings c frame.parsed now (expire now recent) (touch c seen m)

-- one turn of the loop of `_run_heartbeat`, after its sleep
unfoldable pub heartbeat : Settings → ℕ → ℕ → Manager → Manager
heartbeat settings c now m =
    if (m.heap c).closed
    then m
    else if ltb ((m.heap c).last_seen + settings.idle_timeout) now
    then close_and_teardown heartbeat_timeout c m
    else if leb settings.missed_pong_limit (m.heap c).missed_pongs
    then close_and_teardown heartbeat_timeout c m
    else send c ping (set_missed c (suc (m.heap c).missed_pongs) m)

-- the turns at the given times
unfoldable pub heartbeats : Settings → ℕ → List ℕ → Manager → Manager
heartbeats settings c [] m = m
heartbeats settings c (now ∷ times) m = heartbeats settings c times (heartbeat settings c now m)
