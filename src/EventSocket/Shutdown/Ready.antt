-- ===== src/EventSocket/Shutdown/Ready.antt =====
-- eventsocket/server.go: once the context has ended, a goroutine of the server can go on, until all
-- are over.
use tcp_info.Base.{
  ℕ, ◌-◌, ◌≡◌, ◌≢◌, refl, ◌⊎◌, inl, inr, Bool, true, false, Bool-cases, ◌==◌, List, [], ◌∷◌, Option,
  none, some, arith,
}
use tcp_info.Bytes.{Bytes}
use tcp_info.EventSocket.Goroutines.{
  Outcome, blocked, wg_done, take_out, remove_begin, remove_client, remove_end, receive,
  notify_clients, serve, clean_up,
}
use tcp_info.EventSocket.Shutdown.{Finished}
use tcp_info.EventSocket.Sound.{IsSound}
use tcp_info.EventSocket.Steps.{
  Turn, serves, notifies, cleans, begins_removal, removes, ends_removal, step, is_own, is_accepted,
}
use tcp_info.EventSocket.{
  FlowEvent, Server, Serving, fresh, listened, looping, accepting, adding, returning, served,
  Notifier, unborn, spawned, testing, receiving, holding, stopping, stopped, Closer, unstarted,
  waiting, unlistened, closed_channel, done,
}

-- A goroutine can go on, even if no client dials.
abbrev pub IsReady : Outcome → Type 0
IsReady blocked = ⊥
IsReady _ = Unit {0}

wg_done-IsReady : (s : Server) → IsReady (wg_done s)
unfolding wg_done
wg_done-IsReady s = elim (Bool-cases (s.serving_wg == 0)) [
  | inl zeroed ↦ rw zeroed tt
  | inr counted ↦ rw counted tt
]

clean_up-IsReady :
    (c : Closer) (s : Server)
    → s.cancelled ≡ true
    → c ≢ unstarted
    → c ≢ done
    → IsReady (clean_up c s)
unfolding clean_up
clean_up-IsReady unstarted s over begun going = absurd (begun refl)
clean_up-IsReady waiting s over begun going = rw over tt
clean_up-IsReady unlistened s over begun going = elim (Bool-cases s.closed) [
  | inl shut ↦ rw shut tt
  | inr opened ↦ rw opened tt
]
clean_up-IsReady closed_channel s over begun going = wg_done-IsReady (record s { closer = done })
clean_up-IsReady done s over begun going = absurd (going refl)

serve-IsReady :
    (at : Serving) (s : Server)
    → s.listening ≡ false
    → at ≢ fresh
    → at ≢ served
    → IsReady (serve none at s)
unfolding serve
serve-IsReady fresh s deaf begun going = absurd (begun refl)
serve-IsReady listened s deaf begun going = tt
serve-IsReady looping s deaf begun going = tt
serve-IsReady accepting s deaf begun going = rw deaf tt
serve-IsReady (adding conn) s deaf begun going = tt
serve-IsReady returning s deaf begun going =
    wg_done-IsReady (record s { serving = served; cancelled = true })
serve-IsReady served s deaf begun going = absurd (going refl)

receive-IsReady : (c : List FlowEvent) (s : Server) → s.closed ≡ true → IsReady (receive c s)
unfolding receive
receive-IsReady (e ∷ rest) s shut = tt
receive-IsReady [] s shut = rw shut tt

take_out-here : (conn : ℕ) (rest : List ℕ) → take_out conn (conn ∷ rest) ≡ some rest
take_out-here conn rest =
    let same : (conn == conn) ≡ true = ground arith in rw (take_out, same) refl

Closer-cases : (c : Closer) → (c ≡ unstarted) ⊎ ((c ≡ done) ⊎ ((c ≢ unstarted) × (c ≢ done)))
Closer-cases unstarted = inl refl
Closer-cases waiting = inr (inr (ground arith))
Closer-cases unlistened = inr (inr (ground arith))
Closer-cases closed_channel = inr (inr (ground arith))
Closer-cases done = inr (inl refl)

Serving-cases : (at : Serving) → (at ≡ served) ⊎ (at ≢ served)
Serving-cases served = inl refl
Serving-cases fresh = inr (ground arith)
Serving-cases listened = inr (ground arith)
Serving-cases looping = inr (ground arith)
Serving-cases accepting = inr (ground arith)
Serving-cases (adding conn) = inr (ground arith)
Serving-cases returning = inr (ground arith)

Notifier-cases : (n : Notifier) → (n ≡ stopped) ⊎ (n ≢ stopped)
Notifier-cases stopped = inl refl
Notifier-cases unborn = inr (ground arith)
Notifier-cases spawned = inr (ground arith)
Notifier-cases testing = inr (ground arith)
Notifier-cases receiving = inr (ground arith)
Notifier-cases (holding e) = inr (ground arith)
Notifier-cases stopping = inr (ground arith)

List-cases {ℓ} :
    {A : Type ℓ} (xs : List A) → (xs ≡ []) ⊎ ((x : A) × (rest : List A) × (xs ≡ x ∷ rest))
List-cases [] = inl refl
List-cases (x ∷ rest) = inr (x, rest, refl)

module _ (marshal : FlowEvent → Option Bytes) where
  notify_clients-IsReady :
      (fails : ℕ → Bool) (n : Notifier) (s : Server)
      → s.closed ≡ true
      → n ≢ unborn
      → n ≢ stopped
      → IsReady (notify_clients marshal fails n s)
  unfolding notify_clients
  notify_clients-IsReady fails unborn s shut begun going = absurd (begun refl)
  notify_clients-IsReady fails spawned s shut begun going = tt
  notify_clients-IsReady fails testing s shut begun going = tt
  notify_clients-IsReady fails receiving s shut begun going = receive-IsReady s.event_c s shut
  notify_clients-IsReady fails (holding none) s shut begun going = tt
  notify_clients-IsReady fails (holding (some e)) s shut begun going = tt
  notify_clients-IsReady fails stopping s shut begun going =
      wg_done-IsReady (record s { notifier = stopped })
  notify_clients-IsReady fails stopped s shut begun going = absurd (going refl)

  remove_begin-IsReady :
      (conn : ℕ) (rest : List ℕ) (s : Server)
      → s.starting ≡ conn ∷ rest
      → IsReady (remove_begin conn s)
  unfolding remove_begin
  remove_begin-IsReady conn rest s are = rw (remove_begin, are, take_out-here conn rest) tt

  remove_client-IsReady :
      (conn : ℕ) (rest : List ℕ) (s : Server)
      → s.removing ≡ conn ∷ rest
      → IsReady (remove_client conn s)
  unfolding remove_client
  remove_client-IsReady conn rest s are = rw (remove_client, are, take_out-here conn rest) tt

  -- An own goroutine of the server can go on, with nothing from outside for `Accept`.
  abbrev pub CanGo : Server → Type 0
  CanGo s =
      (turn : Turn) × (is_own turn ≡ true)
      × (is_accepted turn ≡ false)
      × IsReady (step marshal turn s)

  removals-CanGo :
      (s : Server) → ((s.starting ≡ []) × (s.removing ≡ []) × (s.leaving ≡ 0)) ⊎ CanGo s
  unfolding step remove_end
  removals-CanGo s = elim (List-cases s.starting) [
    | inr (conn, rest, are) ↦
        inr (begins_removal conn, refl, refl, remove_begin-IsReady conn rest s are)
    | inl none_starting ↦ elim (List-cases s.removing) [
      | inr (conn, rest, are) ↦
          inr (removes conn, refl, refl, remove_client-IsReady conn rest s are)
      | inl none_removing ↦ elim (Bool-cases (s.leaving == 0)) [
        | inl nobody ↦ inl (none_starting, none_removing, ground (arith, nobody))
        | inr somebody ↦ inr (
          ends_removal,
          refl,
          refl,
          rw (remove_end, somebody) (wg_done-IsReady (record s { leaving = s.leaving - 1 })),
        )
      ]
    ]
  ]

  after_close : (s : Server) → IsSound s → s.closer ≡ done → Finished s ⊎ CanGo s
  unfolding step
  after_close s o is = elim (Serving-cases s.serving) [
    | inr going ↦ inr (
      serves none,
      refl,
      refl,
      serve-IsReady s.serving s (ground (arith, o.deaf, is)) (ground (arith, o.started, is)) going,
    )
    | inl over ↦ elim (Notifier-cases s.notifier) [
      | inr going ↦ inr (
        notifies (λ conn. false),
        refl,
        refl,
        notify_clients-IsReady (λ conn. false) s.notifier s (ground (arith, o.shut, is))
            (ground (arith, o.born, over)) going,
      )
      | inl quiet ↦ elim (removals-CanGo s) [
        | inr go ↦ inr go
        | inl (a, b, c) ↦ inl (record {
          serve_over = over;
          notifier_over = quiet;
          closer_over = is;
          none_starting = a;
          none_removing = b;
          none_leaving = c;
        })
      ]
    ]
  ]

  pub Finished-or-CanGo :
      (s : Server) → IsSound s → s.cancelled ≡ true → s.serving ≢ fresh → Finished s ⊎ CanGo s
  unfolding step serve
  Finished-or-CanGo s o over begun = elim (Closer-cases s.closer) [
    | inl unborn_closer ↦
        let at : s.serving ≡ listened = ground (arith, o.started, unborn_closer, begun) in
        inr (serves none, refl, refl, rw (serve, at) tt)
    | inr (inl is) ↦ after_close s o is
    | inr (inr (started, going)) ↦
        inr (cleans, refl, refl, clean_up-IsReady s.closer s over started going)
  ]
