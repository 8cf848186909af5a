-- ===== src/EventSocket/Steps.antt =====
-- eventsocket/server.go: the goroutines interleaved.
use tcp_info.Base.{
  inl, inr, ◌⊎◌, refl, sym, ◌∙◌, subst, arith, ℕ, Bool, true, false, List, [], ◌∷◌, Option, none,
  some, ◌≡◌,
}
use tcp_info.Bytes.{Bytes}
use tcp_info.EventSocket.{FlowEvent, Server, Serving, fresh}
use tcp_info.EventSocket.Goroutines.{
  Outcome, blocked, moved, panicked, flow, remove_begin, remove_client, remove_end, notify_clients,
  listen, serve, clean_up,
}

-- Whose turn it is. The first three are the program around the server: `Listen` when `net.Listen`
-- works, a call of `FlowCreated` or `FlowDeleted`, and the end of the context.
pub data Turn : Type 0 where
  listens : Turn
  flows : FlowEvent → Turn
  cancels : Turn
  serves : Option (Option ℕ) → Turn
  notifies : (ℕ → Bool) → Turn
  cleans : Turn
  begins_removal : ℕ → Turn
  removes : ℕ → Turn
  ends_removal : Turn

-- Turns of the server's own goroutines.
abbrev pub is_own : Turn → Bool
is_own listens = false
is_own (flows event) = false
is_own cancels = false
is_own _ = true

-- `Accept` is given something from outside: a client dials, or there is an error. The error of a
-- listener that is closed comes without that.
abbrev pub is_accepted : Turn → Bool
is_accepted (serves none) = false
is_accepted (serves (some dialled)) = true
is_accepted _ = false

-- `Listen` is called once.
unfoldable pub listen_once : Serving → Server → Outcome
listen_once fresh s = moved (listen false s).0
listen_once _ s = blocked

pub Outcome-cases :
    (o : Outcome) → ((o ≡ blocked) ⊎ (o ≡ panicked)) ⊎ ((u : Server) × (o ≡ moved u))
Outcome-cases blocked = inl (inl refl)
Outcome-cases panicked = inl (inr refl)
Outcome-cases (moved u) = inr (u, refl)

pub moved_same : (s u : Server) → moved s ≡ moved u → s ≡ u
moved_same s u is = ground (arith, is)

module _ (marshal : FlowEvent → Option Bytes) where
  unfoldable pub step : Turn → Server → Outcome
  step listens s = listen_once s.serving s
  step (flows event) s = flow event s
  step cancels s = moved (record s { cancelled = true })
  step (serves dialled) s = serve dialled s.serving s
  step (notifies fails) s = notify_clients marshal fails s.notifier s
  step cleans s = clean_up s.closer s
  step (begins_removal conn) s = remove_begin conn s
  step (removes conn) s = remove_client conn s
  step ends_removal s = remove_end s

  -- What some sequence of turns leads to.
  pub data Reach (s : Server) : Server → Type 0 where
    here : Reach s s
    next : {t : Server} → Reach s t → (turn : Turn) (u : Server) → step turn t ≡ moved u → Reach s u

  -- A computed run: the state after the turns, if all can be taken.
  abbrev pub run : List Turn → Server → Outcome
  run [] s = moved s
  run (turn ∷ turns) s = elim (step turn s) [
    | moved t ↦ run turns t
    | blocked ↦ blocked
    | panicked ↦ panicked
  ]

  pub run-cons :
      (turn : Turn) (turns : List Turn) (s u : Server)
      → run (turn ∷ turns) s ≡ moved u
      → (t : Server) × (step turn s ≡ moved t) × (run turns t ≡ moved u)
  run-cons turn turns s u is = elim (Outcome-cases (step turn s)) [
    | inl (inl stuck) ↦ absurd (ground (arith, is, stuck))
    | inl (inr broken) ↦ absurd (ground (arith, is, broken))
    | inr (t, to) ↦
        let on : run (turn ∷ turns) s ≡ run turns t = rw (run, to) refl in (t, to, sym on ∙ is)
  ]

  pub run-Reach :
      {s : Server} (turns : List Turn) (t u : Server)
      → Reach s t
      → run turns t ≡ moved u
      → Reach s u
  run-Reach {s} [] t u r is = subst (Reach s) (moved_same t u is) r
  run-Reach (turn ∷ turns) t u r is =
      let (v, to, on) = run-cons turn turns t u is in run-Reach turns v u (next r turn v to) on
