-- ===== src/EventSocket/Goroutines.antt =====
-- eventsocket/server.go: what each goroutine does next.
use tcp_info.Base.{
  Bool-cases, inl, inr, ℕ, ◌+◌, ◌-◌, ◌==◌, ltb, Bool, true, false, if◌then◌else◌, List, [], ◌∷◌,
  ◌++◌, length, Option, none, some,
}
use tcp_info.Bytes.{Bytes}
use tcp_info.EventSocket.{
  FlowEvent, Client, Serving, fresh, listened, looping, accepting, adding, returning, served,
  Notifier, unborn, spawned, testing, receiving, holding, stopping, stopped, Closer, unstarted,
  waiting, unlistened, closed_channel, done, Server,
}

-- A step cannot be done as things stand, leads on, or panics.
pub data Outcome : Type 0 where
  blocked : Outcome
  moved : Server → Outcome
  panicked : Outcome

-- What holds after a step, if it leads on.
abbrev pub After : (Server → Type 0) → Outcome → Type 0
After P (moved s) = P s
After P blocked = Unit {0}
After P panicked = Unit {0}

-- `servingWG.Done()`; a count below 0 panics.
unfoldable pub wg_done : Server → Outcome
wg_done s =
    if s.serving_wg == 0 then panicked else moved (record s { serving_wg = s.serving_wg - 1 })

-- The capacity of the channel that `New` makes.
abbrev pub event_cap : ℕ
event_cap = 100

pub wg_done-After :
    (P : Server → Type 0) (s : Server)
    → ((n : ℕ) → P (record s { serving_wg = n }))
    → After P (wg_done s)
unfolding wg_done
wg_done-After P s h = elim (Bool-cases (s.serving_wg == 0)) [
  | inl zeroed ↦ rw zeroed tt
  | inr counted ↦ rw counted (h (s.serving_wg - 1))
]

-- `s.eventC <- event`, the body of `FlowCreated` and of `FlowDeleted`.
unfoldable pub flow : FlowEvent → Server → Outcome
flow event s =
    if s.closed
    then panicked
    else (if ltb (length s.event_c) event_cap
        then moved (record s { event_c = s.event_c ++ event ∷ []; sent = s.sent ++ event ∷ [] })
        else blocked)

-- `addClient`, with nothing written to the connection yet.
unfoldable pub add_client : ℕ → Server → Server
add_client conn s = record s {
  clients = record { conn = conn; received = []; errors = 0; since = length s.handled } ∷ s.clients;
}

abbrev pub without : ℕ → List Client → List Client
without conn [] = []
without conn (c ∷ cs) = let rest = without conn cs in if c.conn == conn then rest else c ∷ rest

-- Takes a number out of a list, once.
abbrev pub take_out : ℕ → List ℕ → Option (List ℕ)
take_out n [] = none
take_out n (k ∷ ks) =
    let rest = take_out n ks in
    if n == k then some ks else (elim rest [ some left ↦ some (k ∷ left) | none ↦ none ])

-- `removeClient`: `servingWG.Add(1)`, then `delete` under the mutex, which
-- leaves the map alone if the connection is not there, then `servingWG.Done()`.
unfoldable pub remove_begin : ℕ → Server → Outcome
remove_begin conn s = elim (take_out conn s.starting) [
  | some left ↦
      moved
        (record s { starting = left; removing = conn ∷ s.removing; serving_wg = s.serving_wg + 1 })
  | none ↦ blocked
]

unfoldable pub remove_client : ℕ → Server → Outcome
remove_client conn s = elim (take_out conn s.removing) [
  | some left ↦
      moved
        (record s { removing = left; leaving = s.leaving + 1; clients = without conn s.clients })
  | none ↦ blocked
]

unfoldable pub remove_end : Server → Outcome
remove_end s = if s.leaving == 0 then blocked else wg_done (record s { leaving = s.leaving - 1 })

-- The loop of `sendToAllListeners`: `fails` says on which connections `Fprintln` fails. The
-- connections that it fails on are to be removed.
abbrev pub write_line : (ℕ → Bool) → Bytes → Client → Client
write_line fails text c =
    if fails c.conn
    then record c { errors = c.errors + 1 }
    else record c { received = c.received ++ text ∷ [] }

abbrev pub write_lines : (ℕ → Bool) → Bytes → List Client → List Client
write_lines fails text [] = []
write_lines fails text (c ∷ cs) = write_line fails text c ∷ write_lines fails text cs

abbrev pub failing : (ℕ → Bool) → List Client → List ℕ
failing fails [] = []
failing fails (c ∷ cs) = let rest = failing fails cs in if fails c.conn then c.conn ∷ rest else rest

unfoldable pub send_to_all_listeners : (ℕ → Bool) → Bytes → Server → Server
send_to_all_listeners fails text s = record s {
  clients = write_lines fails text s.clients;
  starting = s.starting ++ failing fails s.clients;
}

-- `<-s.eventC`: a closed channel that is empty gives nil.
unfoldable pub receive : List FlowEvent → Server → Outcome
receive (event ∷ rest) s = moved (record s { event_c = rest; notifier = holding (some event) })
receive [] s = if s.closed then moved (record s { notifier = holding none }) else blocked

-- `notifyClients` with an event that it holds; `marshal` is `json.Marshal`, which may fail.
module _ (marshal : FlowEvent → Option Bytes) where
  unfoldable pub notify : (ℕ → Bool) → FlowEvent → Server → Server
  notify fails event s =
      let through = record s { notifier = testing; handled = s.handled ++ event ∷ [] } in
      elim (marshal event) [ some text ↦ send_to_all_listeners fails text through | none ↦ through ]

  -- One step of `notifyClients`.
  unfoldable pub notify_clients : (ℕ → Bool) → Notifier → Server → Outcome
  notify_clients fails unborn s = blocked
  notify_clients fails spawned s =
      moved (record s { notifier = testing; serving_wg = s.serving_wg + 1 })
  notify_clients fails testing s =
      moved (record s { notifier = if s.cancelled then stopping else receiving })
  notify_clients fails receiving s = receive s.event_c s
  notify_clients fails (holding none) s = moved (record s { notifier = testing })
  notify_clients fails (holding (some event)) s = moved (notify fails event s)
  notify_clients fails stopping s = wg_done (record s { notifier = stopped })
  notify_clients fails stopped s = blocked

-- `Listen`, and whether `net.Listen` fails.
unfoldable pub listen : Bool → Server → Server × Bool
listen fails s =
    let counted = record s { serving_wg = s.serving_wg + 1; serving = listened } in
    (record counted { listening = if fails then false else true }, fails)

-- One step of `Serve`. `dialled` is what `Accept` gives: a connection or an error. It blocks while
-- the listener is open and has neither; a closed listener has errors only.
unfoldable pub serve : Option (Option ℕ) → Serving → Server → Outcome
serve dialled fresh s = blocked
serve dialled listened s = moved (record s {
  serving = looping;
  notifier = spawned;
  closer = waiting;
  serving_wg = s.serving_wg + 1;
})
serve dialled looping s =
    moved (record s { serving = if s.cancelled then returning else accepting })
serve dialled accepting s =
    if s.listening
    then (elim dialled [
      | none ↦ blocked
      | some none ↦ moved (record s { serving = looping })
      | some (some conn) ↦ moved (record s { serving = adding conn })
    ])
    else moved (record s { serving = looping })
serve dialled (adding conn) s = moved (record (add_client conn s) { serving = looping })
serve dialled returning s = wg_done (record s { serving = served; cancelled = true })
serve dialled served s = blocked

-- One step of the cleanup; closing a closed channel panics.
unfoldable pub clean_up : Closer → Server → Outcome
clean_up unstarted s = blocked
clean_up waiting s =
    if s.cancelled then moved (record s { listening = false; closer = unlistened }) else blocked
clean_up unlistened s =
    if s.closed then panicked else moved (record s { closed = true; closer = closed_channel })
clean_up closed_channel s = wg_done (record s { closer = done })
clean_up done s = blocked
