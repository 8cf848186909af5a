-- ===== src/EventSocket/Sound.antt =====
-- eventsocket/server.go: what `servingWG` counts, and in which order the goroutines begin and end.
use tcp_info.Base.{
  ℕ, suc, ◌+◌, ◌-◌, ◌<◌, ◌≡◌, inl, inr, Bool, true, false, Bool-cases, ◌==◌, List, [], ◌∷◌, length,
  Option, none, some, Option-cases, arith,
}
use tcp_info.Bytes.{Bytes}
use tcp_info.EventSocket.Goroutines.{
  Outcome, blocked, moved, panicked, wg_done, add_client, take_out, remove_begin, remove_client,
  remove_end, send_to_all_listeners, receive, notify, notify_clients, serve, clean_up,
}
use tcp_info.EventSocket.{
  FlowEvent, Server, Serving, fresh, listened, looping, accepting, adding, returning, served,
  Notifier, unborn, spawned, testing, receiving, holding, stopping, stopped, Closer, unstarted,
  waiting, unlistened, closed_channel, done,
}

-- What each goroutine has in the count.
abbrev pub serve_count : Serving → ℕ
serve_count fresh = 0
serve_count served = 0
serve_count _ = 1

abbrev pub notifier_count : Notifier → ℕ
notifier_count unborn = 0
notifier_count spawned = 0
notifier_count stopped = 0
notifier_count _ = 1

abbrev pub closer_count : Closer → ℕ
closer_count unstarted = 0
closer_count done = 0
closer_count _ = 1

-- `Serve` has begun; it is over but for its deferred calls.
abbrev pub has_begun : Serving → Bool
has_begun fresh = false
has_begun listened = false
has_begun _ = true

abbrev pub is_ending : Serving → Bool
is_ending returning = true
is_ending served = true
is_ending _ = false

abbrev pub is_born : Notifier → Bool
is_born unborn = false
is_born _ = true

abbrev pub is_started : Closer → Bool
is_started unstarted = false
is_started _ = true

-- The cleanup has closed the listener; it has closed the channel.
abbrev pub has_unlistened : Closer → Bool
has_unlistened unstarted = false
has_unlistened waiting = false
has_unlistened _ = true

abbrev pub has_closed : Closer → Bool
has_closed closed_channel = true
has_closed done = true
has_closed _ = false

pub record Sound (wg : ℕ) (closed cancelled listening : Bool) (at : Serving) (n : Notifier)
    (c : Closer) (removing : List ℕ) (leaving : ℕ) : Type 0 where
  pub counted : wg ≡ serve_count at + notifier_count n + closer_count c + length removing + leaving
  pub born : is_born n ≡ has_begun at
  pub started : is_started c ≡ has_begun at
  pub shut : closed ≡ has_closed c
  pub over : has_unlistened c ≡ true → cancelled ≡ true
  pub deaf : has_unlistened c ≡ true → listening ≡ false
  pub ended : is_ending at ≡ true → cancelled ≡ true

abbrev pub IsSound : Server → Type 0
IsSound s =
    Sound s.serving_wg s.closed s.cancelled s.listening s.serving s.notifier s.closer s.removing
      s.leaving

-- A step that does not panic, and what holds after it.
abbrev pub Safe : (Server → Type 0) → Outcome → Type 0
Safe P (moved s) = P s
Safe P blocked = Unit {0}
Safe P panicked = ⊥

wg_done-Safe :
    (P : Server → Type 0) (s : Server)
    → 0 < s.serving_wg
    → P (record s { serving_wg = s.serving_wg - 1 })
    → Safe P (wg_done s)
unfolding wg_done
wg_done-Safe P s pos h =
    let counted : (s.serving_wg == 0) ≡ false = ground arith in rw (wg_done, counted) h

pub take_out-length :
    (n : ℕ) (ks left : List ℕ) → take_out n ks ≡ some left → length ks ≡ suc (length left)
take_out-length n [] left is = ground (arith, is)
take_out-length n (k ∷ ks) left is = elim (Bool-cases (n == k)) [
  | inl same ↦ ground (arith, same, is)
  | inr other ↦ elim (Option-cases (take_out n ks)) [
    | inl absent ↦ ground (arith, other, absent, is)
    | inr (rest, found) ↦ ground (arith, other, found, is, take_out-length n ks rest found)
  ]
]

pub remove_begin-IsSound : (conn : ℕ) (s : Server) → IsSound s → Safe IsSound (remove_begin conn s)
unfolding remove_begin
remove_begin-IsSound conn s o = elim (Option-cases (take_out conn s.starting)) [
  | inl absent ↦ rw (remove_begin, absent) tt
  | inr (left, is) ↦ rw (remove_begin, is) (ground arith)
]

pub remove_client-IsSound :
    (conn : ℕ) (s : Server) → IsSound s → Safe IsSound (remove_client conn s)
unfolding remove_client
remove_client-IsSound conn s o = elim (Option-cases (take_out conn s.removing)) [
  | inl absent ↦ rw (remove_client, absent) tt
  | inr (left, is) ↦
      rw (remove_client, is) (ground (arith, take_out-length conn s.removing left is))
]

pub remove_end-IsSound : (s : Server) → IsSound s → Safe IsSound (remove_end s)
unfolding remove_end
remove_end-IsSound s o = elim (Bool-cases (s.leaving == 0)) [
  | inl nobody ↦ rw nobody tt
  | inr somebody ↦
      rw somebody
        (wg_done-Safe IsSound (record s { leaving = s.leaving - 1 }) (ground arith) (ground arith))
]

pub clean_up-IsSound :
    (c : Closer) (s : Server) → IsSound (record s { closer = c }) → Safe IsSound (clean_up c s)
unfolding clean_up
clean_up-IsSound unstarted s o = tt
clean_up-IsSound waiting s o = elim (Bool-cases s.cancelled) [
  | inl yet ↦ rw yet (ground arith)
  | inr later ↦ rw later tt
]
clean_up-IsSound unlistened s o = rw o.shut (ground arith)
clean_up-IsSound closed_channel s o =
    wg_done-Safe IsSound (record s { closer = done }) (ground arith) (ground arith)
clean_up-IsSound done s o = tt

pub serve-IsSound :
    (dialled : Option (Option ℕ)) (at : Serving) (s : Server)
    → IsSound (record s { serving = at })
    → Safe IsSound (serve dialled at s)
unfolding serve add_client
serve-IsSound dialled fresh s o = tt
serve-IsSound dialled listened s o = ground arith
serve-IsSound dialled looping s o = elim (Bool-cases s.cancelled) [
  | inl over ↦ rw over (ground arith)
  | inr on ↦ rw on (ground arith)
]
serve-IsSound dialled accepting s o = ground arith
serve-IsSound dialled (adding c) s o = ground arith
serve-IsSound dialled returning s o =
    wg_done-Safe IsSound (record s { serving = served; cancelled = true }) (ground arith)
      (ground arith)
serve-IsSound dialled served s o = tt

receive-IsSound :
    (c : List FlowEvent) (s : Server)
    → IsSound (record s { notifier = receiving })
    → Safe IsSound (receive c s)
unfolding receive
receive-IsSound (e ∷ rest) s o = ground arith
receive-IsSound [] s o = elim (Bool-cases s.closed) [
  | inl shut ↦ rw shut (ground arith)
  | inr opened ↦ rw opened tt
]

module _ (marshal : FlowEvent → Option Bytes) where
  notify-IsSound :
      (fails : ℕ → Bool) (e : FlowEvent) (s : Server)
      → IsSound (record s { notifier = testing })
      → IsSound (notify marshal fails e s)
  unfolding notify send_to_all_listeners
  notify-IsSound fails e s o = elim (Option-cases (marshal e)) [
    | inl bad ↦ rw (notify, bad) o
    | inr (text, is) ↦ rw (notify, is) o
  ]

  pub notify_clients-IsSound :
      (fails : ℕ → Bool) (n : Notifier) (s : Server)
      → IsSound (record s { notifier = n })
      → Safe IsSound (notify_clients marshal fails n s)
  unfolding notify_clients
  notify_clients-IsSound fails unborn s o = tt
  notify_clients-IsSound fails spawned s o = ground arith
  notify_clients-IsSound fails testing s o = elim (Bool-cases s.cancelled) [
    | inl over ↦ rw over (ground arith)
    | inr on ↦ rw on (ground arith)
  ]
  notify_clients-IsSound fails receiving s o = receive-IsSound s.event_c s o
  notify_clients-IsSound fails (holding none) s o = ground arith
  notify_clients-IsSound fails (holding (some e)) s o = notify-IsSound fails e s (ground arith)
  notify_clients-IsSound fails stopping s o =
      wg_done-Safe IsSound (record s { notifier = stopped }) (ground arith) (ground arith)
  notify_clients-IsSound fails stopped s o = tt
