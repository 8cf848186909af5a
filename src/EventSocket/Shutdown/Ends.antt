-- ===== src/EventSocket/Shutdown/Ends.antt =====
-- eventsocket/server.go: once the context has ended, every schedule comes to an end, with every
-- goroutine over.
use tcp_info.Base.{
  false, ℕ, ◌+◌, ◌≤◌, ◌≡◌, ◌≢◌, refl, ◌⊎◌, inl, inr, true, Bool-cases, List, [], ◌∷◌, Option, arith,
  if◌then◌else◌, subst, sym,
}
use tcp_info.Bytes.{Bytes}
use tcp_info.EventSocket.Goroutines.{After, Outcome, blocked, moved, panicked}
use tcp_info.EventSocket.Panics.{Reach-IsSound, step-panics}
use tcp_info.EventSocket.Shutdown.Drops.{Left, Drops, step-Drops, step-Left}
use tcp_info.EventSocket.Shutdown.Ready.{IsReady, Finished-or-CanGo}
use tcp_info.EventSocket.Shutdown.{turns_left, Finished}
use tcp_info.EventSocket.Steps.{
  Turn, run-cons, run-Reach, moved_same, step, is_own, is_accepted, run, Reach,
}
use tcp_info.EventSocket.{FlowEvent, Server, new_server, fresh}

-- How many turns are the server's own.
abbrev pub own_turns : List Turn → ℕ
own_turns [] = 0
own_turns (turn ∷ turns) = (if is_own turn then 1 else 0) + own_turns turns

module _ (marshal : FlowEvent → Option Bytes) where
  After-moved : (P : Server → Type 0) (o : Outcome) (u : Server) → After P o → o ≡ moved u → P u
  After-moved P blocked u h is = absurd (ground (arith, is))
  After-moved P (moved s) u h is = subst P (moved_same s u is) h
  After-moved P panicked u h is = absurd (ground (arith, is))

  step-turns_left :
      (turn : Turn) (s u : Server)
      → s.cancelled ≡ true
      → step marshal turn s ≡ moved u
      → ((if is_own turn then 1 else 0) + turns_left u ≤ turns_left s) × (u.cancelled ≡ true)
  step-turns_left turn s u over is = elim (Bool-cases (is_own turn)) [
    | inl own ↦
        let drops =
          After-moved (Drops (turns_left s)) (step marshal turn s) u
            (step-Drops marshal turn s over own) is in
        rw own (omega (arith, drops.0), drops.1)
    | inr other ↦
        let left =
          After-moved (Left (turns_left s)) (step marshal turn s) u
            (step-Left marshal turn s over other) is in
        rw other (omega (arith, left.0), left.1)
  ]

  Ready-moved : (o : Outcome) → IsReady o → o ≢ panicked → (u : Server) × (o ≡ moved u)
  Ready-moved blocked ready fine = elim ready [ ]
  Ready-moved (moved s) ready fine = (s, refl)
  Ready-moved panicked ready fine = absurd (fine refl)

  run-left :
      (turns : List Turn) (s u : Server)
      → s.cancelled ≡ true
      → run marshal turns s ≡ moved u
      → (u.cancelled ≡ true) × (own_turns turns + turns_left u ≤ turns_left s)
  run-left [] s u over is =
      let same = moved_same s u is in (rw (sym same) over, rw same (omega arith))
  run-left (turn ∷ turns) s u over is =
      let (t, to, on) = run-cons marshal turn turns s u is in
      let (left, still) = step-turns_left turn s t over to in
      let (ended, rest) = run-left turns t u still on in (ended, omega (arith, left, rest))

  -- Once the context has ended, a schedule has at most `turns_left` turns of the server's own
  -- goroutines, whatever the rest of the program does in between, and where it stops every goroutine
  -- is over or one can go on without a panic and without anything from outside for `Accept`, if
  -- `Listen` has been called and every write to a client returns.
  pub shutdown-ends :
      {s : Server}
      → Reach marshal new_server s
      → s.cancelled ≡ true
      → (turns : List Turn) (u : Server) → run marshal turns s ≡ moved u
      → u.serving ≢ fresh
      → (own_turns turns + turns_left u ≤ turns_left s)
        × (Finished u
            ⊎ ((turn : Turn) × (is_own turn ≡ true)
                × (is_accepted turn ≡ false)
                × (v : Server) × (step marshal turn u ≡ moved v)))
  shutdown-ends {s} r over turns u is begun =
      let reached = run-Reach marshal turns s u r is in
      let (cancelled, left) = run-left turns s u over is in
      (
        left,
        elim (Finished-or-CanGo marshal u (Reach-IsSound marshal reached) cancelled begun) [
          | inl finished ↦ inl finished
          | inr (turn, own, unasked, ready) ↦
              let fine : step marshal turn u ≢ panicked = λ fails.
                let (e, sends, _, _) = (step-panics marshal reached turn).0 fails in
                ground (arith, own, sends) in
              let (v, to) = Ready-moved (step marshal turn u) ready fine in
              inr (turn, own, unasked, v, to)
        ],
      )
