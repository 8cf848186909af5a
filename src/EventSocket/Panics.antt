-- ===== src/EventSocket/Panics.antt =====
-- eventsocket/server.go: what can panic, and what `servingWG.Wait()` waits for.
use tcp_info.Base.{
  ◌≡◌, refl, ◌≢◌, ◌↔◌, ◌⊎◌, inl, inr, true, false, Bool-cases, ltb, [], length, Option, arith,
}
use tcp_info.Bytes.{Bytes}
use tcp_info.EventSocket.Goroutines.{Outcome, blocked, moved, panicked, event_cap, flow, listen}
use tcp_info.EventSocket.Sound.{
  IsSound, Safe, remove_begin-IsSound, remove_client-IsSound, remove_end-IsSound, clean_up-IsSound,
  serve-IsSound, notify_clients-IsSound,
}
use tcp_info.EventSocket.Steps.{
  Turn, listens, flows, cancels, serves, notifies, cleans, begins_removal, removes, ends_removal,
  listen_once, step, Reach, here, next,
}
use tcp_info.EventSocket.{
  FlowEvent, Server, new_server, Serving, fresh, listened, looping, accepting, adding, returning,
  served, spawned, stopped, done,
}

new_server-IsSound : IsSound new_server
new_server-IsSound = ground arith

listen_once-IsSound :
    (at : Serving) (s : Server)
    → IsSound (record s { serving = at })
    → Safe IsSound (listen_once at s)
unfolding listen_once listen
listen_once-IsSound fresh s o = ground arith
listen_once-IsSound listened s o = tt
listen_once-IsSound looping s o = tt
listen_once-IsSound accepting s o = tt
listen_once-IsSound (adding conn) s o = tt
listen_once-IsSound returning s o = tt
listen_once-IsSound served s o = tt

flow-IsSound : (e : FlowEvent) (s : Server) → s.closed ≡ false → IsSound s → Safe IsSound (flow e s)
unfolding flow
flow-IsSound e s opened o = elim (Bool-cases (ltb (length s.event_c) event_cap)) [
  | inl room ↦ rw (opened, room) (ground arith)
  | inr full ↦ rw (opened, full) tt
]

module _ (marshal : FlowEvent → Option Bytes) where
  -- A panic comes only from an event that is sent when the channel is closed.
  abbrev pub Sends : Turn → Server → Type 0
  Sends turn s = (e : FlowEvent) × (turn ≡ flows e) × (s.closed ≡ true) × (s.cancelled ≡ true)

  step-IsSound :
      (turn : Turn) (s : Server) → IsSound s → Safe IsSound (step marshal turn s) ⊎ Sends turn s
  unfolding step
  step-IsSound listens s o = inl (listen_once-IsSound s.serving s o)
  step-IsSound (flows e) s o = elim (Bool-cases s.closed) [
    | inl shut ↦ inr (e, refl, shut, ground (arith, o.shut, o.over))
    | inr opened ↦ inl (flow-IsSound e s opened o)
  ]
  step-IsSound cancels s o = inl (ground arith)
  step-IsSound (serves dialled) s o = inl (serve-IsSound dialled s.serving s o)
  step-IsSound (notifies fails) s o = inl (notify_clients-IsSound marshal fails s.notifier s o)
  step-IsSound cleans s o = inl (clean_up-IsSound s.closer s o)
  step-IsSound (begins_removal conn) s o = inl (remove_begin-IsSound conn s o)
  step-IsSound (removes conn) s o = inl (remove_client-IsSound conn s o)
  step-IsSound ends_removal s o = inl (remove_end-IsSound s o)

  Safe-moved : (o : Outcome) (u : Server) → Safe IsSound o → o ≡ moved u → IsSound u
  Safe-moved blocked u h is = ground (arith, is)
  Safe-moved (moved s) u h is = ground (arith, is)
  Safe-moved panicked u h is = elim h [ ]

  Safe-panicked : (o : Outcome) → Safe IsSound o → o ≢ panicked
  Safe-panicked blocked h is = ground (arith, is)
  Safe-panicked (moved s) h is = ground (arith, is)
  Safe-panicked panicked h is = elim h [ ]

  step-Sends : (turn : Turn) (s : Server) → Sends turn s → step marshal turn s ≡ panicked
  unfolding step flow
  step-Sends turn s (e, is, shut, over) = rw (is, flow, shut) refl

  pub moved-IsSound :
      (turn : Turn) (s u : Server) → IsSound s → step marshal turn s ≡ moved u → IsSound u
  moved-IsSound turn s u o is = elim (step-IsSound turn s o) [
    | inl safe ↦ Safe-moved (step marshal turn s) u safe is
    | inr sends ↦ absurd (ground (arith, is, step-Sends turn s sends))
  ]

  pub Reach-IsSound : {s : Server} → Reach marshal new_server s → IsSound s
  Reach-IsSound here = new_server-IsSound
  Reach-IsSound (next {t} r turn u is) = moved-IsSound turn t u (Reach-IsSound r) is

  -- Whatever way the goroutines interleave, no step panics but a FlowCreated or FlowDeleted that
  -- comes when the channel is closed, which is after the context has ended; and that does.
  pub step-panics :
      {s : Server}
      → Reach marshal new_server s
      → (turn : Turn) → (step marshal turn s ≡ panicked) ↔ Sends turn s
  step-panics {s} r turn = (
    λ is. elim (step-IsSound turn s (Reach-IsSound r)) [
      | inl safe ↦ absurd (Safe-panicked (step marshal turn s) safe is)
      | inr sends ↦ sends
    ],
    step-Sends turn s,
  )

  -- `servingWG.Wait()` after `Listen` returns only when `Serve` and its cleanup are over, the
  -- listener and the channel are closed and no client is being removed, but for removals that have
  -- not begun; of the notifier it tells only that it is over or has not begun.
  pub wait-waited :
      {s : Server}
      → Reach marshal new_server s
      → s.serving ≢ fresh
      → s.serving_wg ≡ 0
      → (s.serving ≡ served)
        × (s.closer ≡ done)
        × (s.closed ≡ true)
        × (s.listening ≡ false)
        × (s.cancelled ≡ true)
        × (s.removing ≡ [])
        × ((s.notifier ≡ spawned) ⊎ (s.notifier ≡ stopped))
  wait-waited {s} r begun none_counted = let o = Reach-IsSound r in ground arith
