-- ===== src/Tests/Sockets.antt =====
-- The WebSocket connections of app/services/ws on a short run: one tab connects twice, subscribes,
-- and its principal is kicked.
use stream_sight_backend.Prelude.{
  ℕ, ◌+◌, ◌≤◌, ◌<◌, ◌⊎◌, ◌++◌, ◌≡◌, refl, arith, true, false, none, some, [], ◌∷◌, length, All,
}
use stream_sight_backend.Sql.{find_where, exists_where, count_where, delete_where}
use stream_sight_backend.Accounts.World.{request}
use stream_sight_backend.Repositories.RefreshTokens.{get_by_hash}
use stream_sight_backend.Auth.Refresh.{refresh}
use stream_sight_backend.Ws.Reauth.{reauth}
use stream_sight_backend.Ws.Reauth.Revoked.{reuse_ends_connection}
use stream_sight_backend.Tests.Fixtures.{env, used_token, world}
use stream_sight_backend.Ws.Protocol.{unauthenticated, welcome, event, error, subscribe_message}
use stream_sight_backend.Ws.Manager.{
  Connection, Manager, register, claim_tab, replace, close_and_teardown, close, teardown,
  unregister, is_tab, connections_for_principal,
}
use stream_sight_backend.Ws.Manager.Invariant.{IsIndexed, IsForgotten}
use stream_sight_backend.Ws.Manager.Tabs.{register_replaces}
use stream_sight_backend.Ws.Delivery.{kick_local, send_local}
use stream_sight_backend.Ws.Delivery.Kicks.{kick_local_clears}
use stream_sight_backend.Ws.Delivery.Queues.{IsBounded, open_count, shut_out, send_local-IsBounded}
use stream_sight_backend.Ws.Control.{
  Settings, Frame, send, touch, parse_and_handle, handle_control, heartbeats, receive,
}
use stream_sight_backend.Ws.Control.Heartbeat.{heartbeats_shut}
use stream_sight_backend.Ws.Control.Rate.{IsWindow, within, receive_limits}
use stream_sight_backend.Ws.Reach.{
  empty_manager, new_connection, allocate, accepts, controls, kicks, Reached, at_start, further,
}
use stream_sight_backend.Ws.Reach.Steps.{IsSound}
use stream_sight_backend.Ws.Reach.Safety.{Reached-IsSound}

-- a connection of the tab "tab" of the session "family-3" of the principal 3
abbrev of_tab : ℕ → Connection
of_tab c = new_connection 3 50 (some "family-3") (some "tab") 0 2 (welcome c 50)

abbrev one : Manager
one = register 1 (allocate 1 (of_tab 1) empty_manager)

abbrev pub made_two : Manager
made_two = allocate 2 (of_tab 2) one

abbrev two : Manager
two = register 2 made_two

abbrev three : Manager
three = handle_control 2 (subscribe_message (some "monitor.db")) two

abbrev four : Manager
four = kick_local 3 unauthenticated three

one-Reached : Reached one
unfolding exists_where
one-Reached = further at_start (
    accepts 1 3 50 (some "family-3") (some "tab") 0 2 (welcome 1 50)
      record { no_principal = refl; no_topic = refl; no_sid = refl; no_tab = refl })

two_is_new : IsForgotten 2 one
unfolding exists_where register claim_tab replace find_where delete_where
two_is_new = record { no_principal = refl; no_topic = refl; no_sid = refl; no_tab = refl }

two-Reached : Reached two
two-Reached =
    further one-Reached
      (accepts 2 3 50 (some "family-3") (some "tab") 0 2 (welcome 2 50) two_is_new)

two_is_open : (two.heap 2).closed ≡ false
unfolding register claim_tab replace find_where delete_where exists_where close_and_teardown close
    teardown unregister
two_is_open = refl

three-Reached : Reached three
three-Reached = further two-Reached (controls 2 (subscribe_message (some "monitor.db")) two_is_open)

four-Reached : Reached four
four-Reached = further three-Reached (kicks 3 unauthenticated)

Reached-IsSound_example : IsSound four
Reached-IsSound_example = Reached-IsSound four four-Reached

one_is_shut : (two.heap 1).closed ≡ true
unfolding register claim_tab replace find_where delete_where exists_where close_and_teardown close
    teardown unregister
one_is_shut = refl

two-IsSound : IsSound two
two-IsSound = Reached-IsSound two two-Reached

kick_local_clears_example :
    IsIndexed (kick_local 3 unauthenticated two)
    × (connections_for_principal 3 (kick_local 3 unauthenticated two) ≡ [])
    × All
        (λ c. ((kick_local 3 unauthenticated two).heap c).closed ≡ true)
        (connections_for_principal 3 two)
kick_local_clears_example = kick_local_clears 3 unauthenticated two two-IsSound.indexed

pub made_two-IsIndexed : IsIndexed made_two
unfolding register claim_tab replace find_where delete_where exists_where
made_two-IsIndexed = record {
  principals = ((refl, refl), tt);
  topics = tt;
  sids = ((refl, refl), tt);
  tabs = ((refl, refl, refl), tt);
}

register_replaces_example :
    (((register 2 made_two).heap 1).closed ≡ true)
    × (find_where (is_tab "family-3" "tab") (register 2 made_two).by_sid_cid
        ≡ some ("family-3", "tab", 2))
    × (count_where (is_tab "family-3" "tab") (register 2 made_two).by_sid_cid ≡ 1)
    × IsIndexed (register 2 made_two)
unfolding register claim_tab replace find_where delete_where exists_where
register_replaces_example =
    register_replaces "family-3" "tab" 1 2 made_two made_two-IsIndexed refl refl refl refl refl

send_local-IsBounded_example :
    IsIndexed (send_local (some 3) none (event 7) two).1
    × IsBounded (send_local (some 3) none (event 7) two).1
    × ((send_local (some 3) none (event 7) two).0
          + length (shut_out (event 7) (connections_for_principal 3 two) two)
        ≡ open_count (connections_for_principal 3 two) two)
    × All
        (λ c. ((send_local (some 3) none (event 7) two).1.heap c).closed ≡ true)
        (shut_out (event 7) (connections_for_principal 3 two) two)
send_local-IsBounded_example =
    send_local-IsBounded 3 none (event 7) two two-IsSound.indexed two-IsSound.bounded

abbrev settings : Settings
settings = record {
  max_message_bytes = 100;
  control_msg_rate_limit = 2;
  missed_pong_limit = 2;
  idle_timeout = 60000;
}

two_is_fresh : (two.heap 2).missed_pongs ≡ 0
unfolding register claim_tab replace find_where delete_where exists_where close_and_teardown close
    teardown unregister
two_is_fresh = refl

heartbeats_shut_example :
    ((heartbeats settings 2 (1000 ∷ 2000 ∷ 3000 ∷ []) two).heap 2).closed ≡ true
heartbeats_shut_example =
    heartbeats_shut settings 2 (1000 ∷ 2000 ∷ 3000 ∷ []) two (omega (arith, two_is_fresh))
      (omega arith)

abbrev asks : Frame
asks = record { size = 10; parsed = some (subscribe_message none) }

-- with the limit of two
receive_limits_example :
    let r = receive settings 2 20000 20001 asks (1000 ∷ 19000 ∷ []) two in
    let kept = within 20001 (1000 ∷ 19000 ∷ []) in
    IsWindow 20001 r.recent
    × (((2 ≤ length kept)
          × (r.recent ≡ kept)
          × (r.reads_on ≡ true)
          × (r.manager ≡ send 2 (error "rate_limited") (touch 2 20000 two)))
        ⊎ ((length kept < 2)
            × (r.recent ≡ kept ++ 20001 ∷ [])
            × (r.manager
                ≡ (parse_and_handle 2 asks.parsed
                    (kept ++ 20001 ∷ [])
                    (touch 2 20000 two)).manager)))
receive_limits_example =
    receive_limits settings 2 20000 20001 asks (1000 ∷ 19000 ∷ []) two (omega arith)
      (omega arith, (omega arith, tt), (omega arith, tt, tt))

-- a connection of the session of the reused token
abbrev of_family_one : Manager
of_family_one =
    register 1
      (allocate 1 (new_connection 1 0 (some "family-1") none 0 2 (welcome 1 0)) empty_manager)

reuse_ends_connection_example :
    ((reauth 1 6000000 (request (refresh env "used") world).1.committed of_family_one).heap
      1).closed
    ≡ true
unfolding register claim_tab get_by_hash find_where
reuse_ends_connection_example =
    reuse_ends_connection env "used" world 1 6000000 of_family_one {rt = used_token} {at = 1000000}
      refl refl (omega arith) refl
