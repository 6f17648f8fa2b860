-- ===== src/Ws/Bridge.antt =====
-- app/services/ws/bridge.py and publisher.py, with the channels of protocol.py. Python's `str` and
-- `int` on the id of a principal are parameters.
pub mod Routing
use Prim.Native.Char.{Char, code}
use stream_sight_backend.Prelude.{
  ℕ, Bool, true, false, Option, none, some, List, [], ◌∷◌, String, str_eq, ◌==◌, if◌then◌else◌,
}
use stream_sight_backend.Accounts.World.{Kick, kick_principal, kick_session}
use stream_sight_backend.Ws.Protocol.{CloseCode, unauthenticated, Message, event}
use stream_sight_backend.Ws.Manager.{Manager}
use stream_sight_backend.Ws.Delivery.{kick_local, kick_local_sid, send_local, broadcast_local}

-- `s + t`
unfoldable pub join : String → String → String
join String.[] t = t
join (String.◌∷◌ c s) t = String.◌∷◌ c (join s t)

-- `s[len(prefix):]` where `s.startswith(prefix)`
unfoldable pub after_prefix : String → String → Option String
after_prefix String.[] s = some s
after_prefix (String.◌∷◌ c p) String.[] = none
after_prefix (String.◌∷◌ c p) (String.◌∷◌ d s) =
    let rest = after_prefix p s in if code c == code d then rest else none

-- `str` of a number, and `int` of a text, `none` where it raises
pub record Decimal : Type 0 where
  pub show : ℕ → String
  pub int : String → Option ℕ

-- a decoded payload, by its `code` and by its whole content
pub record Payload : Type 0 where
  pub code : Option CloseCode
  pub content : Message

-- what a `publish` sends
pub record Published : Type 0 where
  pub channel : String
  pub payload : Payload

-- the channels of protocol.py
abbrev pub channel_principal : Decimal → ℕ → String
channel_principal d p = join "ws:principal:" (d.show p)

abbrev pub channel_topic : String → String
channel_topic t = join "ws:topic:" t

abbrev pub channel_broadcast : String
channel_broadcast = "ws:broadcast"

abbrev pub channel_disconnect_principal : Decimal → ℕ → String
channel_disconnect_principal d p = join "ws:disconnect:principal:" (d.show p)

abbrev pub channel_disconnect_sid : String → String
channel_disconnect_sid family = join "ws:disconnect:sid:" family

abbrev pub message_payload : Message → Payload
message_payload message = record { code = none; content = message }

-- `json.dumps({"code": code})`, whose content is no message of this protocol
abbrev pub code_payload : CloseCode → Payload
code_payload c = record { code = some c; content = event 0 }

-- Publisher
unfoldable pub to_principal : Decimal → ℕ → Message → Published
to_principal d p message = record {
  channel = channel_principal d p;
  payload = message_payload message;
}

unfoldable pub to_topic : String → Message → Published
to_topic t message = record { channel = channel_topic t; payload = message_payload message }

unfoldable pub broadcast : Message → Published
broadcast message = record { channel = channel_broadcast; payload = message_payload message }

unfoldable pub disconnect_principal : Decimal → ℕ → CloseCode → Published
disconnect_principal d p c = record {
  channel = channel_disconnect_principal d p;
  payload = code_payload c;
}

unfoldable pub disconnect_session : String → CloseCode → Published
disconnect_session family c = record {
  channel = channel_disconnect_sid family;
  payload = code_payload c;
}

-- `payload.get("code", UNAUTHENTICATED)`
abbrev pub code_of : Payload → CloseCode
code_of p = elim p.code [ none ↦ unauthenticated | some c ↦ c ]

-- an `int` that raises is logged by `_run`
abbrev pub with_id : Option ℕ → (ℕ → Manager) → Manager → Manager
with_id none f m = m
with_id (some k) f m = f k

abbrev pub or_else : Option String → (String → Manager) → Manager → Manager
or_else none f m = m
or_else (some rest) f m = f rest

-- `_dispatch` under `_run`
unfoldable pub dispatch : Decimal → Published → Manager → Manager
unfolding after_prefix
dispatch d e m =
    or_else (after_prefix "ws:disconnect:principal:" e.channel)
      (λ rest. with_id (d.int rest) (λ k. kick_local k (code_of e.payload) m) m)
      (or_else (after_prefix "ws:disconnect:sid:" e.channel)
        (λ rest. kick_local_sid rest (code_of e.payload) m)
        (or_else (after_prefix "ws:principal:" e.channel)
          (λ rest. with_id (d.int rest) (λ k. (send_local (some k) none e.payload.content m).1) m)
          (or_else (after_prefix "ws:topic:" e.channel)
            (λ rest. (send_local none (some rest) e.payload.content m).1)
            (if str_eq e.channel channel_broadcast
              then (broadcast_local e.payload.content m).1
              else m))))

-- what the services publish for a kick, with the default code
unfoldable pub publication : Decimal → Kick → Published
publication d (kick_principal p) = disconnect_principal d p unauthenticated
publication d (kick_session family) = disconnect_session family unauthenticated

-- an instance that takes the publications in their order
unfoldable pub dispatch_kicks : Decimal → List Kick → Manager → Manager
dispatch_kicks d [] m = m
dispatch_kicks d (k ∷ ks) m = dispatch_kicks d ks (dispatch d (publication d k) m)
