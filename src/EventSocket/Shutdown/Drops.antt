-- ===== src/EventSocket/Shutdown/Drops.antt =====
-- eventsocket/server.go: once the context has ended, each turn of the server leaves fewer.
use tcp_info.Base.{
  ℕ, ◌-◌, ◌<◌, ◌≤◌, ◌≡◌, inl, inr, Bool, true, false, Bool-cases, ◌==◌, ltb, List, [], ◌∷◌, length,
  length-append, Option, none, some, Option-cases, arith,
}
use tcp_info.Bytes.{Bytes}
use tcp_info.EventSocket.Goroutines.{
  After, wg_done-After, event_cap, flow, add_client, without, take_out, remove_begin, remove_client,
  remove_end, send_to_all_listeners, receive, failing, notify, notify_clients, listen, serve,
  clean_up,
}
use tcp_info.EventSocket.Shutdown.{room, turns_left}
use tcp_info.EventSocket.Shutdown.Room.{
  without-length, failing-length, room-length, length-room, notifier_left_mono,
}
use tcp_info.EventSocket.Sound.{take_out-length}
use tcp_info.EventSocket.Steps.{
  Turn, listens, flows, cancels, serves, notifies, cleans, begins_removal, removes, ends_removal,
  listen_once, step, is_own,
}
use tcp_info.EventSocket.{
  FlowEvent, Server, Serving, fresh, listened, looping, accepting, adding, returning, served,
  Notifier, unborn, spawned, testing, receiving, holding, stopping, stopped, Closer, unstarted,
  waiting, unlistened, closed_channel, done,
}

-- The context has ended, and at most `m` turns are left.
abbrev pub Left : ℕ → Server → Type 0
Left m s = (turns_left s ≤ m) × (s.cancelled ≡ true)

-- Fewer than `m` turns are left.
abbrev pub Drops : ℕ → Server → Type 0
Drops m s = (turns_left s < m) × (s.cancelled ≡ true)

serve-Drops :
    (dialled : Option (Option ℕ)) (at : Serving) (s : Server)
    → s.cancelled ≡ true
    → After (Drops (turns_left (record s { serving = at }))) (serve dialled at s)
unfolding serve add_client
serve-Drops dialled fresh s over = tt
serve-Drops dialled listened s over = ground arith
serve-Drops dialled looping s over = ground arith
serve-Drops dialled accepting s over = ground arith
serve-Drops dialled (adding c) s over = ground arith
serve-Drops dialled returning s over =
    wg_done-After (Drops (turns_left (record s { serving = returning })))
      (record s { serving = served; cancelled = true }) (λ n. ground arith)
serve-Drops dialled served s over = tt

clean_up-Drops :
    (c : Closer) (s : Server)
    → s.cancelled ≡ true
    → After (Drops (turns_left (record s { closer = c }))) (clean_up c s)
unfolding clean_up
clean_up-Drops unstarted s over = tt
clean_up-Drops waiting s over = rw over (ground arith)
clean_up-Drops unlistened s over = elim (Bool-cases s.closed) [
  | inl shut ↦ rw shut tt
  | inr opened ↦ rw opened (ground arith)
]
clean_up-Drops closed_channel s over =
    wg_done-After (Drops (turns_left (record s { closer = closed_channel })))
      (record s { closer = done }) (λ n. ground arith)
clean_up-Drops done s over = tt

remove_begin-Drops :
    (conn : ℕ) (s : Server)
    → s.cancelled ≡ true
    → After (Drops (turns_left s)) (remove_begin conn s)
unfolding remove_begin
remove_begin-Drops conn s over = elim (Option-cases (take_out conn s.starting)) [
  | inl absent ↦ rw (remove_begin, absent) tt
  | inr (left, is) ↦
      rw (remove_begin, is) (ground (arith, over, take_out-length conn s.starting left is))
]

remove_client-Drops :
    (conn : ℕ) (s : Server)
    → s.cancelled ≡ true
    → After (Drops (turns_left s)) (remove_client conn s)
unfolding remove_client
remove_client-Drops conn s over = elim (Option-cases (take_out conn s.removing)) [
  | inl absent ↦ rw (remove_client, absent) tt
  | inr (left, is) ↦
      rw (remove_client, is)
        (
          omega (
            arith,
            take_out-length conn s.removing left is,
            notifier_left_mono s.notifier (room s.serving (without conn s.clients))
                (room s.serving s.clients)
                (room-length s.serving (without conn s.clients) s.clients
                  (without-length conn s.clients)),
          ),
          over,
        )
]

remove_end-Drops : (s : Server) → s.cancelled ≡ true → After (Drops (turns_left s)) (remove_end s)
unfolding remove_end
remove_end-Drops s over = elim (Bool-cases (s.leaving == 0)) [
  | inl nobody ↦ rw nobody tt
  | inr somebody ↦ rw somebody (
      wg_done-After (Drops (turns_left s)) (record s { leaving = s.leaving - 1 })
        (λ n. ground arith))
]

receive-Drops :
    (c : List FlowEvent) (s : Server)
    → s.cancelled ≡ true
    → After (Drops (turns_left (record s { notifier = receiving }))) (receive c s)
unfolding receive
receive-Drops (e ∷ rest) s over = ground arith
receive-Drops [] s over = elim (Bool-cases s.closed) [
  | inl shut ↦ rw shut (ground arith)
  | inr opened ↦ rw opened tt
]

listen_once-Left :
    (at : Serving) (s : Server)
    → s.cancelled ≡ true
    → After (Left (turns_left (record s { serving = at }))) (listen_once at s)
unfolding listen_once listen
listen_once-Left fresh s over = ground arith
listen_once-Left listened s over = tt
listen_once-Left looping s over = tt
listen_once-Left accepting s over = tt
listen_once-Left (adding conn) s over = tt
listen_once-Left returning s over = tt
listen_once-Left served s over = tt

module _ (marshal : FlowEvent → Option Bytes) where
  notify-Drops :
      (fails : ℕ → Bool) (e : FlowEvent) (s : Server)
      → s.cancelled ≡ true
      → Drops (turns_left (record s { notifier = holding (some e) })) (notify marshal fails e s)
  unfolding notify send_to_all_listeners
  notify-Drops fails e s over = elim (Option-cases (marshal e)) [
    | inl bad ↦ rw (notify, bad) (ground (arith, over))
    | inr (text, is) ↦
        rw (notify, is)
          (
            omega (
              arith,
              length-append s.starting (failing fails s.clients),
              failing-length fails s.clients,
              length-room s.serving s.clients,
            ),
            over,
          )
  ]

  notify_clients-Drops :
      (fails : ℕ → Bool) (n : Notifier) (s : Server)
      → s.cancelled ≡ true
      → After (Drops (turns_left (record s { notifier = n }))) (notify_clients marshal fails n s)
  unfolding notify_clients
  notify_clients-Drops fails unborn s over = tt
  notify_clients-Drops fails spawned s over = ground arith
  notify_clients-Drops fails testing s over = rw over (ground arith)
  notify_clients-Drops fails receiving s over = receive-Drops s.event_c s over
  notify_clients-Drops fails (holding none) s over = ground arith
  notify_clients-Drops fails (holding (some e)) s over = notify-Drops fails e s over
  notify_clients-Drops fails stopping s over =
      wg_done-After (Drops (turns_left (record s { notifier = stopping })))
        (record s { notifier = stopped }) (λ n. ground arith)
  notify_clients-Drops fails stopped s over = tt

  -- A turn of the server's own goroutines.
  pub step-Drops :
      (turn : Turn) (s : Server)
      → s.cancelled ≡ true
      → is_own turn ≡ true
      → After (Drops (turns_left s)) (step marshal turn s)
  unfolding step
  step-Drops listens s over own = absurd (ground (arith, own))
  step-Drops (flows e) s over own = absurd (ground (arith, own))
  step-Drops cancels s over own = absurd (ground (arith, own))
  step-Drops (serves dialled) s over own = serve-Drops dialled s.serving s over
  step-Drops (notifies fails) s over own = notify_clients-Drops fails s.notifier s over
  step-Drops cleans s over own = clean_up-Drops s.closer s over
  step-Drops (begins_removal conn) s over own = remove_begin-Drops conn s over
  step-Drops (removes conn) s over own = remove_client-Drops conn s over
  step-Drops ends_removal s over own = remove_end-Drops s over

  -- Any other turn.
  pub step-Left :
      (turn : Turn) (s : Server)
      → s.cancelled ≡ true
      → is_own turn ≡ false
      → After (Left (turns_left s)) (step marshal turn s)
  unfolding step flow
  step-Left listens s over own = listen_once-Left s.serving s over
  step-Left (flows e) s over own = elim (Bool-cases s.closed) [
    | inl shut ↦ rw (flow, shut) tt
    | inr opened ↦ elim (Bool-cases (ltb (length s.event_c) event_cap)) [
      | inl room ↦ rw (flow, opened, room) (ground (arith, over))
      | inr full ↦ rw (flow, opened, full) tt
    ]
  ]
  step-Left cancels s over own = ground arith
  step-Left _ s over own = absurd (ground (arith, own))
