-- ===== src/EventSocket/Order.antt =====
-- eventsocket/server.go: which lines a client gets, whatever way the goroutines interleave.
pub mod Follow
use tcp_info.Base.{
  ◌⊎◌, ◌<◌, ℕ, zero, suc, ◌+◌, ◌-◌, ◌≤◌, ◌≡◌, refl, sym, ap, ◌∙◌, inl, inr, Bool, true, false,
  Bool-cases, get_elem?, ltb, ltb→lt, ◌==◌, List, [], ◌∷◌, ◌++◌, length, length-append, drop,
  Option, none, some, Option-cases, arith, subst,
}
use mathlib.Core.List.{append_assoc, append-nil}
use tcp_info.Bytes.{Bytes}
use tcp_info.EventSocket.Goroutines.{
  After, wg_done-After, Outcome, blocked, moved, panicked, event_cap, wg_done, flow, add_client,
  without, take_out, remove_begin, remove_client, remove_end, write_line, write_lines,
  send_to_all_listeners, receive, notify, notify_clients, listen, serve, clean_up,
}
use tcp_info.EventSocket.Order.Follow.{
  held, lines, AllFollow, Ordered, IsOrdered, AllFollow-without, AllFollow-at,
  AllFollow-write_lines, AllFollow-skip, drop-length,
}
use tcp_info.EventSocket.Panics.{Reach-IsSound}
use tcp_info.EventSocket.Sound.{IsSound}
use tcp_info.EventSocket.Steps.{
  Turn, listens, flows, cancels, serves, notifies, cleans, begins_removal, removes, ends_removal,
  moved_same, listen_once, step, Reach, here, next,
}
use tcp_info.EventSocket.{
  FlowEvent, Client, Server, new_server, Serving, fresh, listened, looping, accepting, adding,
  returning, served, Notifier, unborn, spawned, testing, receiving, holding, stopping, stopped,
  Closer, unstarted, waiting, unlistened, closed_channel, done,
}

module _ (marshal : FlowEvent → Option Bytes) where
  flow-IsOrdered :
      (e : FlowEvent) (s : Server) → IsOrdered marshal s → After (IsOrdered marshal) (flow e s)
  unfolding flow
  flow-IsOrdered e s o = elim (Bool-cases s.closed) [
    | inl shut ↦ rw shut tt
    | inr opened ↦ elim (Bool-cases (ltb (length s.event_c) event_cap)) [
      | inl room ↦
          rw (opened, room)
            (record {
              accounted =
                  ap (λ l. l ++ e ∷ []) o.accounted
                  ∙ append_assoc (s.handled ++ held s.notifier) s.event_c (e ∷ []);
              capped = omega (
                arith,
                ltb→lt (length s.event_c) event_cap room,
                length-append s.event_c (e ∷ []),
              );
              follow = o.follow;
            })
      | inr full ↦ rw (opened, full) tt
    ]
  ]

  receive-IsOrdered :
      (c : List FlowEvent) (s : Server)
      → c ≡ s.event_c
      → Ordered marshal s.sent s.handled [] c s.clients
      → After (IsOrdered marshal) (receive c s)
  unfolding receive
  receive-IsOrdered (e ∷ rest) s is o = record {
    accounted =
        o.accounted
        ∙ ap (λ l. l ++ e ∷ rest) (append-nil s.handled)
        ∙ sym (append_assoc s.handled (e ∷ []) rest);
    capped = omega (arith, o.capped);
    follow = o.follow;
  }
  receive-IsOrdered [] s is o = elim (Bool-cases s.closed) [
    | inl shut ↦ rw shut (subst (λ l. Ordered marshal s.sent s.handled [] l s.clients) is o)
    | inr opened ↦ rw opened tt
  ]

  notify-IsOrdered :
      (fails : ℕ → Bool) (e : FlowEvent) (s : Server)
      → IsOrdered marshal (record s { notifier = holding (some e) })
      → IsOrdered marshal (notify marshal fails e s)
  unfolding notify send_to_all_listeners
  notify-IsOrdered fails e s o = elim (Option-cases (marshal e)) [
    | inl bad ↦
        rw (notify, bad)
          (record {
            accounted = moved_on;
            capped = o.capped;
            follow = AllFollow-skip marshal s.handled e s.clients bad o.follow;
          })
    | inr (text, is) ↦
        rw (notify, is)
          (record {
            accounted = moved_on;
            capped = o.capped;
            follow = AllFollow-write_lines marshal s.handled e text fails s.clients is o.follow;
          })
  ]
    where
      moved_on : s.sent ≡ s.handled ++ e ∷ [] ++ [] ++ s.event_c
      moved_on = o.accounted ∙ ap (λ l. l ++ s.event_c) (sym (append-nil (s.handled ++ e ∷ [])))

  notify_clients-IsOrdered :
      (fails : ℕ → Bool) (n : Notifier) (s : Server)
      → IsOrdered marshal (record s { notifier = n })
      → After (IsOrdered marshal) (notify_clients marshal fails n s)
  unfolding notify_clients
  notify_clients-IsOrdered fails unborn s o = tt
  notify_clients-IsOrdered fails spawned s o = o
  notify_clients-IsOrdered fails testing s o = elim (Bool-cases s.cancelled) [
    | inl over ↦ rw over o
    | inr on ↦ rw on o
  ]
  notify_clients-IsOrdered fails receiving s o = receive-IsOrdered s.event_c s refl o
  notify_clients-IsOrdered fails (holding none) s o = o
  notify_clients-IsOrdered fails (holding (some e)) s o = notify-IsOrdered fails e s o
  notify_clients-IsOrdered fails stopping s o =
      wg_done-After (IsOrdered marshal) (record s { notifier = stopped }) (λ n. o)
  notify_clients-IsOrdered fails stopped s o = tt

  serve-IsOrdered :
      (dialled : Option (Option ℕ)) (at : Serving) (s : Server)
      → s.serving ≡ at
      → (s.serving ≡ listened → s.notifier ≡ unborn)
      → IsOrdered marshal s
      → After (IsOrdered marshal) (serve dialled at s)
  unfolding serve add_client
  serve-IsOrdered dialled fresh s is born o = tt
  serve-IsOrdered dialled listened s is born o =
      subst (λ n. Ordered marshal s.sent s.handled (held n) s.event_c s.clients) (born is) o
  serve-IsOrdered dialled looping s is born o = o
  serve-IsOrdered dialled accepting s is born o = elim (Bool-cases s.listening) [
    | inl on ↦
        rw on
          (elim dialled
            as (λ d. After (IsOrdered marshal) (elim d [
              | none ↦ blocked
              | some none ↦ moved (record s { serving = looping })
              | some (some conn) ↦ moved (record s { serving = adding conn })
            ])) [ none ↦ tt | some none ↦ o | some (some conn) ↦ o ])
    | inr off ↦ rw off o
  ]
  serve-IsOrdered dialled (adding c) s is born o = record {
    accounted = o.accounted;
    capped = o.capped;
    follow = ((omega arith, λ good. sym (ap (lines marshal) (drop-length s.handled))), o.follow);
  }
  serve-IsOrdered dialled returning s is born o =
      wg_done-After (IsOrdered marshal) (record s { serving = served; cancelled = true }) (λ n. o)
  serve-IsOrdered dialled served s is born o = tt

  removal-IsOrdered :
      (conn : ℕ) (s : Server)
      → IsOrdered marshal s
      → After (IsOrdered marshal) (remove_begin conn s)
        × After (IsOrdered marshal) (remove_client conn s)
  unfolding remove_begin remove_client
  removal-IsOrdered conn s o = (
    elim (Option-cases (take_out conn s.starting)) [
      | inl absent ↦ rw (remove_begin, absent) tt
      | inr (left, is) ↦ rw (remove_begin, is) o
    ],
    elim (Option-cases (take_out conn s.removing)) [
      | inl absent ↦ rw (remove_client, absent) tt
      | inr (left, is) ↦
          rw (remove_client, is)
            (record {
              accounted = o.accounted;
              capped = o.capped;
              follow = AllFollow-without marshal s.handled conn s.clients o.follow;
            })
    ],
  )

  remove_end-IsOrdered :
      (s : Server) → IsOrdered marshal s → After (IsOrdered marshal) (remove_end s)
  unfolding remove_end
  remove_end-IsOrdered s o = elim (Bool-cases (s.leaving == 0)) [
    | inl nobody ↦ rw nobody tt
    | inr somebody ↦
        rw somebody
          (wg_done-After (IsOrdered marshal) (record s { leaving = s.leaving - 1 }) (λ n. o))
  ]

  clean_up-IsOrdered :
      (c : Closer) (s : Server) → IsOrdered marshal s → After (IsOrdered marshal) (clean_up c s)
  unfolding clean_up
  clean_up-IsOrdered unstarted s o = tt
  clean_up-IsOrdered waiting s o = elim (Bool-cases s.cancelled) [
    | inl yet ↦ rw yet o
    | inr later ↦ rw later tt
  ]
  clean_up-IsOrdered unlistened s o = elim (Bool-cases s.closed) [
    | inl shut ↦ rw shut tt
    | inr opened ↦ rw opened o
  ]
  clean_up-IsOrdered closed_channel s o =
      wg_done-After (IsOrdered marshal) (record s { closer = done }) (λ n. o)
  clean_up-IsOrdered done s o = tt

  listen_once-IsOrdered :
      (at : Serving) (s : Server)
      → IsOrdered marshal s
      → After (IsOrdered marshal) (listen_once at s)
  unfolding listen_once listen
  listen_once-IsOrdered fresh s o = o
  listen_once-IsOrdered listened s o = tt
  listen_once-IsOrdered looping s o = tt
  listen_once-IsOrdered accepting s o = tt
  listen_once-IsOrdered (adding conn) s o = tt
  listen_once-IsOrdered returning s o = tt
  listen_once-IsOrdered served s o = tt

  step-IsOrdered :
      (turn : Turn) (s : Server)
      → IsSound s
      → IsOrdered marshal s
      → After (IsOrdered marshal) (step marshal turn s)
  unfolding step
  step-IsOrdered listens s h o = listen_once-IsOrdered s.serving s o
  step-IsOrdered (flows e) s h o = flow-IsOrdered e s o
  step-IsOrdered cancels s h o = o
  step-IsOrdered (serves dialled) s h o =
      serve-IsOrdered dialled s.serving s refl (λ at. ground (arith, h.born, at)) o
  step-IsOrdered (notifies fails) s h o = notify_clients-IsOrdered fails s.notifier s o
  step-IsOrdered cleans s h o = clean_up-IsOrdered s.closer s o
  step-IsOrdered (begins_removal conn) s h o = (removal-IsOrdered conn s o).0
  step-IsOrdered (removes conn) s h o = (removal-IsOrdered conn s o).1
  step-IsOrdered ends_removal s h o = remove_end-IsOrdered s o

  After-moved :
      (o : Outcome) (u : Server) → After (IsOrdered marshal) o → o ≡ moved u → IsOrdered marshal u
  After-moved blocked u h is = ground (arith, is)
  After-moved (moved s) u h is = subst (IsOrdered marshal) (moved_same s u is) h
  After-moved panicked u h is = ground (arith, is)

  Reach-IsOrdered : {s : Server} → Reach marshal new_server s → IsOrdered marshal s
  Reach-IsOrdered here = record { accounted = refl; capped = omega arith; follow = tt }
  Reach-IsOrdered (next {t} r turn u is) =
      After-moved (step marshal turn t) u
        (step-IsOrdered turn t (Reach-IsSound marshal r) (Reach-IsOrdered r)) is

  -- A client that no write has failed on has the lines of the events handled since it was added.
  pub client_follows :
      {s : Server}
      → Reach marshal new_server s
      → (front back : List Client) (c : Client) → s.clients ≡ front ++ c ∷ back
      → c.errors ≡ 0
      → c.received ≡ lines marshal (drop c.since s.handled)
  client_follows {s} r front back c are good =
      let all = subst (AllFollow marshal s.handled) are (Reach-IsOrdered r).follow in
      (AllFollow-at marshal s.handled front back c all).1 good

  -- A write has failed on each client, or it has the lines of the events handled since it was added.
  abbrev pub AllServed : List FlowEvent → List Client → Type 0
  AllServed handled [] = Unit {0}
  AllServed handled (c ∷ cs) =
      ((0 < c.errors) ⊎ (c.received ≡ lines marshal (drop c.since handled))) × AllServed handled cs

  AllFollow-AllServed :
      (handled : List FlowEvent) (cs : List Client)
      → AllFollow marshal handled cs
      → AllServed handled cs
  AllFollow-AllServed handled [] h = tt
  AllFollow-AllServed handled (c ∷ cs) h = (
    elim (Bool-cases (c.errors == 0)) [
      | inl good ↦ inr (h.0.1 (ground (arith, good)))
      | inr bad ↦ inl (ground (arith, bad))
    ],
    AllFollow-AllServed handled cs h.1,
  )

  -- Whatever way the goroutines interleave: every event sent is handled, held by the notifier or one
  -- of at most 100 in the channel, in the order in which they were sent, and each client that no
  -- write has failed on has the lines of the events handled since it was added, in this order and no
  -- others.
  pub clients-follow :
      {s : Server}
      → Reach marshal new_server s
      → (s.sent ≡ s.handled ++ held s.notifier ++ s.event_c)
        × (length s.event_c ≤ 100)
        × AllServed s.handled s.clients
  clients-follow {s} r =
      let o = Reach-IsOrdered r in
      (o.accounted, o.capped, AllFollow-AllServed s.handled s.clients o.follow)
