-- ===== src/EventSocket/MustRun.antt =====
-- eventsocket/client.go: `MustRun`, on the lines of its connection.
use tcp_info.Base.{
  ℕ, ◌≡◌, refl, ap, ◌∙◌, Bool, true, false, inl, inr, List, [], ◌∷◌, ◌++◌, Option, none, some,
  Option-cases, drop, ◌==◌, if◌then◌else◌,
}
use tcp_info.Bytes.{Bytes}
use tcp_info.EventSocket.Order.Follow.{lines}
use tcp_info.EventSocket.Order.{client_follows}
use tcp_info.EventSocket.Steps.{Reach}
use tcp_info.EventSocket.{FlowEvent, Client, Server, new_server, event_open, event_close}
use tcp_info.Inetdiag.SockId.{SockId}

-- A call of the handler's `Open` or `Close`.
pub data HandlerCall : Type 0 where
  opens : ℕ → Bytes → Option SockId → HandlerCall
  closes : ℕ → Bytes → HandlerCall

-- How the scanner ends: with no error, since the connection was closed, or with another error.
pub data ScanEnd : Type 0 where
  ended : ScanEnd
  conn_closed : ScanEnd
  failed : ScanEnd

-- What one event comes to; an unknown event is only logged.
unfoldable pub calls_of : FlowEvent → List HandlerCall
calls_of e =
    if e.event == event_open
    then opens e.timestamp e.uuid e.id ∷ []
    else (if e.event == event_close then closes e.timestamp e.uuid ∷ [] else [])

-- A scanner's error that ends the program.
abbrev pub is_fatal : ScanEnd → Bool
is_fatal failed = true
is_fatal _ = false

module _ (unmarshal : Bytes → Option FlowEvent) where
  -- The loop, with whether the program ends in `rtx.Must`.
  unfoldable pub scan : ScanEnd → List Bytes → List HandlerCall × Bool
  scan end [] = ([], is_fatal end)
  scan end (text ∷ texts) =
      let (rest, dies) = scan end texts in
      elim (unmarshal text) [ some e ↦ (calls_of e ++ rest, dies) | none ↦ ([], true) ]

  -- `MustRun`, and whether `net.Dial` succeeds.
  unfoldable pub must_run : Bool → ScanEnd → List Bytes → List HandlerCall × Bool
  must_run dials end texts = if dials then scan end texts else ([], true)

module _ (marshal : FlowEvent → Option Bytes) where
  -- The calls for the events that have a line.
  abbrev pub calls : List FlowEvent → List HandlerCall
  calls [] = []
  calls (e ∷ es) =
      let rest = calls es in elim (marshal e) [ some text ↦ calls_of e ++ rest | none ↦ rest ]

  module _ (unmarshal : Bytes → Option FlowEvent)
      (reads_back : (e : FlowEvent) (text : Bytes)
        → marshal e ≡ some text
        → unmarshal text ≡ some e) where
    scan-lines :
        (end : ScanEnd) (es : List FlowEvent)
        → scan unmarshal end (lines marshal es) ≡ (calls es, is_fatal end)
    unfolding scan
    scan-lines end [] = refl
    scan-lines end (e ∷ es) = elim (Option-cases (marshal e)) [
      | inl bad ↦ rw (lines, calls, bad) (scan-lines end es)
      | inr (text, is) ↦ rw (lines, calls, scan, is, reads_back e text is, scan-lines end es) refl
    ]

    -- The server and a client together: `MustRun` on what the server has written to a connection
    -- without an error calls the handler for the events that the server has handled since it
    -- accepted the connection, in order, for those that `json.Marshal` takes, and dies only of an
    -- error of the scanner, if what `json.Marshal` gives is read back by `json.Unmarshal`.
    pub must_run-follows :
        {s : Server}
        → Reach marshal new_server s
        → (front back : List Client) (c : Client) → s.clients ≡ front ++ c ∷ back
        → c.errors ≡ 0
        → (end : ScanEnd)
        → must_run unmarshal true end c.received ≡ (calls (drop c.since s.handled), is_fatal end)
    unfolding must_run
    must_run-follows {s} r front back c are good end =
        ap (scan unmarshal end) (client_follows marshal r front back c are good)
        ∙ scan-lines end (drop c.since s.handled)
