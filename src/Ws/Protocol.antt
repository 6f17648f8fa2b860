-- ===== src/Ws/Protocol.antt =====
-- app/services/ws/protocol.py, topics.py and app/dtos/dto_ws.py: close codes, messages and the
-- topics that ask for a rank.
use stream_sight_backend.Prelude.{ℕ, Option, none, some, String, str_eq, if◌then◌else◌}
use stream_sight_backend.Accounts.Enums.{AdminRole, super_admin, viewer}

-- WSCloseCode
pub data CloseCode : Type 0 where
  heartbeat_timeout protocol_error unauthenticated forbidden replaced backpressure : CloseCode
  service_restart : CloseCode
  -- the code 1000 of `ws.close()` with no argument
  normal : CloseCode

abbrev pub close_code_value : CloseCode → ℕ
close_code_value heartbeat_timeout = 4000
close_code_value protocol_error = 4400
close_code_value unauthenticated = 4401
close_code_value forbidden = 4403
close_code_value replaced = 4409
close_code_value backpressure = 1013
close_code_value service_restart = 1012
close_code_value normal = 1000

-- What the server sends.
pub data Message : Type 0 where
  welcome : ℕ → ℕ → Message
  subscribed unsubscribed : String → Message
  -- a published event, by a number that stands for its content
  event : ℕ → Message
  ping : Message
  -- the `code` of an ErrorMessage
  error : String → Message

-- A ControlMessage by its type, with its topic, or one that pydantic refuses.
pub data Control : Type 0 where
  subscribe_message unsubscribe_message pong_message : Option String → Control
  malformed : Control

-- `topic_min_role`
unfoldable pub topic_min_role : String → Option AdminRole
topic_min_role topic =
    if str_eq topic "monitor.logs"
    then some super_admin
    else if str_eq topic "monitor.db"
    then some viewer
    else if str_eq topic "realtime.stream"
    then some viewer
    else none
