-- ===== src/Tests/Events.antt =====
-- The event socket's server and its client.
use tcp_info.Base.{
  ℕ, ◌+◌, ◌≤◌, ◌≡◌, ◌↔◌, refl, ◌⊎◌, inl, inr, Bool, true, false, List, [], ◌∷◌, ◌++◌, length, drop,
  Option, none, some, Option-cases, arith, ◌==◌,
}
use tcp_info.Bytes.{Bytes}
use tcp_info.EventSocket.Goroutines.{
  Outcome, moved, panicked, wg_done, flow, add_client, remove_begin, remove_client, remove_end,
  send_to_all_listeners, receive, notify, notify_clients, listen, serve, clean_up,
}
use tcp_info.EventSocket.MustRun.{must_run, calls, calls_of, closes, ended, must_run-follows}
use tcp_info.EventSocket.Order.Follow.{held}
use tcp_info.EventSocket.Order.{clients-follow, AllServed}
use tcp_info.EventSocket.Panics.{step-panics, Sends, wait-waited}
use tcp_info.EventSocket.Shutdown.Ends.{shutdown-ends, own_turns}
use tcp_info.EventSocket.Shutdown.{turns_left, Finished}
use tcp_info.EventSocket.Steps.{
  Turn, listens, flows, cancels, serves, notifies, cleans, begins_removal, removes, ends_removal,
  listen_once, step, run, Reach, here, next, run-Reach, is_own, is_accepted,
}
use tcp_info.EventSocket.{
  FlowEvent, Client, Server, new_server, served, spawned, stopped, done, close_event,
}

abbrev uuid : Bytes
uuid = 65 ∷ []

-- A coding of the events without an id, for JSON.
abbrev marshal_event : FlowEvent → Option Bytes
marshal_event e = elim e.id [ none ↦ some (e.event ∷ e.timestamp ∷ e.uuid) | some id ↦ none ]

abbrev unmarshal_event : Bytes → Option FlowEvent
unmarshal_event (event ∷ timestamp ∷ rest) =
    some (record { event = event; timestamp = timestamp; uuid = rest; id = none })
unmarshal_event _ = none

unmarshal-marshal :
    (e : FlowEvent) (text : Bytes) → marshal_event e ≡ some text → unmarshal_event text ≡ some e
unmarshal-marshal e text is = elim (Option-cases e.id) [
  | inl absent ↦ ground (arith, absent, is)
  | inr (id, given) ↦ absurd (ground (arith, given, is))
]

abbrev state_after : Outcome → Server
state_after (moved s) = s
state_after _ = new_server

abbrev never : ℕ → Bool
never conn = false

abbrev only_two : ℕ → Bool
only_two conn = conn == 2

-- Two clients, two events, and a write to the second client that fails.
abbrev opening : List Turn
opening =
    listens
    ∷ serves none
    ∷ serves none
    ∷ serves (some (some 1))
    ∷ serves none
    ∷ notifies never
    ∷ flows (close_event 7 uuid)
    ∷ notifies never
    ∷ notifies never
    ∷ notifies never
    ∷ serves none
    ∷ serves (some (some 2))
    ∷ serves none
    ∷ flows (close_event 8 uuid)
    ∷ flows (close_event 9 uuid)
    ∷ notifies never
    ∷ notifies never
    ∷ notifies only_two
    ∷ []

abbrev busy : Server
busy = state_after (run marshal_event opening new_server)

busy_moved : run marshal_event opening new_server ≡ moved busy
unfolding step listen_once listen serve notify_clients notify receive flow add_client
    send_to_all_listeners
busy_moved = refl

busy-Reach : Reach marshal_event new_server busy
busy-Reach = run-Reach marshal_event opening new_server busy here busy_moved

-- The context ends, and everything with it.
abbrev closing : List Turn
closing =
    serves none
    ∷ serves none
    ∷ cleans
    ∷ cleans
    ∷ cleans
    ∷ notifies never
    ∷ notifies never
    ∷ begins_removal 2
    ∷ removes 2
    ∷ ends_removal
    ∷ []

abbrev dying : Server
dying = record busy { cancelled = true }

dying-Reach : Reach marshal_event new_server dying
unfolding step
dying-Reach = next busy-Reach cancels dying refl

abbrev dead : Server
dead = state_after (run marshal_event closing dying)

dead_moved : run marshal_event closing dying ≡ moved dead
unfolding step serve clean_up wg_done notify_clients remove_begin remove_client remove_end
    listen_once listen notify receive flow add_client send_to_all_listeners
dead_moved = refl

dead-Reach : Reach marshal_event new_server dead
dead-Reach = run-Reach marshal_event closing dying dead dying-Reach dead_moved

abbrev good_client : Client
good_client = record {
  conn = 1;
  received = (1 ∷ 7 ∷ uuid) ∷ (1 ∷ 8 ∷ uuid) ∷ [];
  errors = 0;
  since = 0;
}

abbrev bad_client : Client
bad_client = record { conn = 2; received = []; errors = 1; since = 1 }

two_clients : busy.clients ≡ (bad_client ∷ []) ++ good_client ∷ []
unfolding step listen_once listen serve notify_clients notify receive flow add_client
    send_to_all_listeners
two_clients = refl

clients-follow_example :
    (busy.sent ≡ busy.handled ++ held busy.notifier ++ busy.event_c)
    × (length busy.event_c ≤ 100)
    × AllServed marshal_event busy.handled busy.clients
clients-follow_example = clients-follow marshal_event busy-Reach

must_run-follows_example :
    must_run unmarshal_event true ended good_client.received
    ≡ (calls marshal_event (drop good_client.since busy.handled), false)
must_run-follows_example =
    must_run-follows marshal_event unmarshal_event unmarshal-marshal busy-Reach (bad_client ∷ []) []
      good_client two_clients refl ended

good_calls :
    calls marshal_event (drop good_client.since busy.handled) ≡ closes 7 uuid ∷ closes 8 uuid ∷ []
unfolding calls_of step listen_once listen serve notify_clients notify receive flow add_client
    send_to_all_listeners
good_calls = refl

wait-waited_example :
    (dead.serving ≡ served)
    × (dead.closer ≡ done)
    × (dead.closed ≡ true)
    × (dead.listening ≡ false)
    × (dead.cancelled ≡ true)
    × (dead.removing ≡ [])
    × ((dead.notifier ≡ spawned) ⊎ (dead.notifier ≡ stopped))
unfolding step serve clean_up wg_done notify_clients remove_begin remove_client remove_end
    listen_once listen notify receive flow add_client send_to_all_listeners
wait-waited_example = wait-waited marshal_event dead-Reach (ground arith) refl

step-panics_example :
    (step marshal_event (flows (close_event 10 uuid)) dead ≡ panicked)
    ↔ Sends marshal_event (flows (close_event 10 uuid)) dead
step-panics_example = step-panics marshal_event dead-Reach (flows (close_event 10 uuid))

shutdown-ends_example :
    (own_turns closing + turns_left dead ≤ turns_left dying)
    × (Finished dead
        ⊎ ((turn : Turn) × (is_own turn ≡ true)
            × (is_accepted turn ≡ false)
            × (v : Server) × (step marshal_event turn dead ≡ moved v)))
unfolding step serve clean_up wg_done notify_clients remove_begin remove_client remove_end
    listen_once listen notify receive flow add_client send_to_all_listeners
shutdown-ends_example =
    shutdown-ends marshal_event dying-Reach refl closing dead dead_moved (ground arith)
