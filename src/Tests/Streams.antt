-- ===== src/Tests/Streams.antt =====
-- app/services/monitoring, app/services/realtime and app/services/ws/bridge.py on concrete streams.
use mathlib.Core.List.{map}
use stream_sight_backend.Prelude.{
  ℕ, zero, suc, ap, ◌≡◌, ◌≢◌, refl, arith, true, Option, none, some, List, [], ◌∷◌, String, str_eq,
  length, take, if◌then◌else◌, ◌+◌,
}
use stream_sight_backend.Sql.{select_where, find_where, exists_where}
use mathlib.Core.Option
use stream_sight_backend.Accounts.Policy.{codes}
use stream_sight_backend.Accounts.Rows.{Db}
use stream_sight_backend.Accounts.World.{request}
use stream_sight_backend.Auth.Refresh.{logout_all}
use stream_sight_backend.Monitoring.Stream.{Fields, Entry, Start, End, Item, start_of, end_of}
use stream_sight_backend.Monitoring.Logs.{LogEntry, LogFilter, or_empty, log_entry}
use stream_sight_backend.Monitoring.Logs.Loop.{wanted}
use stream_sight_backend.Monitoring.Logs.Walk.{range, entry_of}
use stream_sight_backend.Monitoring.Logs.Complete.{read_all, read_all_complete}
use stream_sight_backend.Monitoring.Sampler.{
  Cluster, Event, next, stop, Outcome, answered, idle, reading, sampling, holder, run, step,
}
use stream_sight_backend.Monitoring.Sampler.Leader.{OthersQuiet, IsLed, one_leader, leader_renews}
use stream_sight_backend.Realtime.Streamer.{committed, failed, Round, Streamer, shut_down}
use stream_sight_backend.Realtime.Streamer.Batches.{readings, start, shut_down_keeps_each}
use stream_sight_backend.Ws.Protocol.{unauthenticated, event}
use stream_sight_backend.Ws.Manager.{
  Manager, connections_for_principal, has_sid_cid, total_connections,
}
use stream_sight_backend.Ws.Manager.Invariant.{IsIndexed}
use stream_sight_backend.Ws.Delivery.{kick_local, kick_local_sid, send_local, broadcast_local}
use stream_sight_backend.Ws.Handshake.{
  WsSettings, Upgrade, opened, origin_allowed, clean_cid, is_over_limit, consume_given, admit,
  handshake,
}
use stream_sight_backend.Ws.Handshake.Admission.{IsAdmitted, handshake_opens}
use stream_sight_backend.Ws.Reauth.{Ticket, consume_ticket}
use stream_sight_backend.Ws.Reach.{empty_manager}
use stream_sight_backend.Repositories.Admins.{get_admin_by_principal_id}
use stream_sight_backend.Ws.Bridge.{
  Decimal, to_principal, to_topic, broadcast, disconnect_principal, disconnect_session, dispatch,
  dispatch_kicks,
}
use stream_sight_backend.Ws.Bridge.Routing.{IsDecimal, dispatch_routes, logout_all_disconnects}
use stream_sight_backend.Tests.Fixtures.{env, db, world}
use stream_sight_backend.Tests.Sockets.{made_two, made_two-IsIndexed}

-- an item of a level
abbrev fields_of : String → Fields
fields_of level = λ k. if str_eq k "level" then some level else none

abbrev item : ℕ → String → Item
item ms level = record { _id = record { ms = ms; seq = 0 }; get = fields_of level }

abbrev stream : List Item
stream = item 1 "INFO" ∷ item 2 "ERROR" ∷ item 3 "ERROR" ∷ item 4 "ERROR" ∷ []

abbrev xrange : Start → End → ℕ → List Entry
xrange s e count = map entry_of (take count (range s e stream))

abbrev int : String → Option ℕ
int s = none

abbrev errors : LogFilter
errors = record { level = some "ERROR"; request_id = none; logger = none }

abbrev read : Item → LogEntry
read i = record {
  ts = 0;
  level = or_empty (i.get "level");
  logger = "";
  message = "";
  request_id = none;
  module_name = none;
  func = none;
  line = none;
}

-- pages of one entry
read_all_complete_example :
    read_all int xrange errors none none 1 5 none
    ≡ some (wanted int errors read (range Start.oldest End.newest stream))
unfolding log_entry select_where start_of end_of
read_all_complete_example =
    read_all_complete int errors read stream xrange none none 1 (λ s e count. refl)
      ((refl, (refl, (refl, tt))), ((refl, (refl, tt)), ((refl, tt), (tt, tt)))) (omega arith)
      (refl, (refl, (refl, (refl, tt))))

abbrev round : Round
round = record { incr = some 8; now = 3; publishes = true; stored = failed }

abbrev skipped : Round
skipped = record round { incr = none }

abbrev ended : Streamer
ended = shut_down (λ n. n) true (round ∷ skipped ∷ round ∷ []) committed start

shut_down_keeps_each_example :
    (ended.table ≡ readings (λ n. n) (round ∷ skipped ∷ round ∷ [])) × (ended.batch ≡ [])
shut_down_keeps_each_example =
    shut_down_keeps_each (λ n. n) (round ∷ skipped ∷ round ∷ [])
      ((λ e. absurd (cc)), ((λ e. absurd (cc)), ((λ e. absurd (cc)), tt)))

-- numbers in base one
abbrev show : ℕ → String
show zero = ""
show (suc n) = String.◌∷◌ "1" (show n)

abbrev unary : Decimal
unary = record { show = show; int = λ s. some (length (codes s)) }

unary-IsDecimal : IsDecimal unary
unary-IsDecimal zero = refl
unary-IsDecimal (suc n) = ap (λ o. Option.map suc o) (unary-IsDecimal n)

dispatch_routes_example :
    (dispatch unary (to_principal unary 3 (event 7)) made_two
      ≡ (send_local (some 3) none (event 7) made_two).1)
    × (dispatch unary (to_topic "monitor.db" (event 7)) made_two
        ≡ (send_local none (some "monitor.db") (event 7) made_two).1)
    × (dispatch unary (broadcast (event 7)) made_two ≡ (broadcast_local (event 7) made_two).1)
    × (dispatch unary (disconnect_principal unary 3 unauthenticated) made_two
        ≡ kick_local 3 unauthenticated made_two)
    × (dispatch unary (disconnect_session "monitor.db" unauthenticated) made_two
        ≡ kick_local_sid "monitor.db" unauthenticated made_two)
dispatch_routes_example =
    dispatch_routes unary made_two unary-IsDecimal 3 "monitor.db" unauthenticated (event 7)

logout_all_disconnects_example :
    let after = dispatch_kicks unary (request (logout_all env 3) world).1.kicks made_two in
    IsIndexed after × (connections_for_principal 3 after ≡ [])
logout_all_disconnects_example =
    logout_all_disconnects unary made_two unary-IsDecimal env 3 world refl refl made_two-IsIndexed

-- two samplers, of which the second has found a lease that has run out since
abbrev cluster : Cluster
cluster = record {
  lease = some ("b", 9);
  sinks = record { stream = []; pushed = []; members = [] };
  place = λ j. if str_eq j "b" then reading else idle;
}

abbrev replied : Outcome
replied = record { reply = answered; sample = none }

abbrev others : List Event
others = next "b" 12 replied ∷ stop "b" ∷ next "b" 13 replied ∷ next "c" 39 replied ∷ []

cluster_quiet : OthersQuiet "a" cluster.place
cluster_quiet = λ j h. ground arith

one_leader_example :
    IsLed "a" (10 + 30) sampling cluster.sinks (run 30 none (next "a" 10 replied ∷ others) cluster)
unfolding holder
one_leader_example =
    one_leader 30 none "a" 10 replied cluster others refl refl refl cluster_quiet
      ((refl, omega arith), (refl, ((refl, omega arith), ((refl, omega arith), tt))))

-- a leader between two of its rounds
abbrev led : Cluster
led = record cluster { lease = some ("a", 40); place = λ j. idle }

led-IsLed : IsLed "a" 40 idle led.sinks led
led-IsLed = record { leased = refl; stored = refl; stands = refl; quiet = λ j h. refl }

abbrev rivals : List Event
rivals = next "b" 20 replied ∷ next "b" 21 replied ∷ []

leader_renews_example :
    let c1 = run 30 none (next "a" 20 replied ∷ rivals) led in
    let c2 = run 30 none (next "a" 22 replied ∷ []) c1 in
    IsLed "a" (23 + 30) sampling led.sinks (step 30 none (next "a" 23 replied) c2)
leader_renews_example =
    leader_renews 30 none "a" 40 led.sinks 20 22 23 replied led rivals [] refl refl led-IsLed
      (omega arith) (omega arith) (omega arith) ((refl, omega arith), ((refl, omega arith), tt)) tt

abbrev ws_settings : WsSettings
ws_settings = record {
  ws_allowed_origins = "https://cms.example" ∷ [];
  ws_cid_max_length = 64;
  ws_max_connections_total = 10;
  ws_max_connections_per_principal = 2;
  ws_max_send_queue = 5;
}

abbrev upgrade : Upgrade
upgrade = record {
  origin = some "https://cms.example";
  ticket = some "ticket";
  cid = some "tab";
  now = 7;
}

abbrev keys : List Ticket
keys = record { ticket = "ticket"; principal_id = 3; sid = some "family-3"; expires_at = 180 } ∷ []

handshake_opens_example :
    (origin_allowed ws_settings upgrade.origin ≡ true)
    × IsAdmitted ws_settings upgrade db (consume_given upgrade.ticket 7 keys).0 empty_manager
    × ((d : ℕ) (v : Upgrade) (db' : Db) (m' : Manager)
        → v.ticket ≡ upgrade.ticket
        → (handshake ws_settings d v db'
            (handshake ws_settings 1 upgrade db keys empty_manager).keys
            m').answer
          ≢ opened d)
unfolding handshake origin_allowed consume_ticket find_where get_admin_by_principal_id admit
    is_over_limit clean_cid has_sid_cid total_connections connections_for_principal select_where
    exists_where
handshake_opens_example = handshake_opens ws_settings 1 upgrade db keys empty_manager refl
