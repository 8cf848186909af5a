-- ===== src/EventSocket.antt =====
-- eventsocket/server.go: the events, and the state of the server. The operations are in the
-- children.
--
-- A goroutine of the server is where it stands: `Serving` for `Serve`, `Notifier` for
-- `notifyClients`, `Closer` for the cleanup that `Serve` starts, and for the calls of `removeClient`
-- the connections that they are given. What the mutex guards is one step, since nothing else reads
-- or writes `clients`.
pub mod Goroutines
pub mod Steps
pub mod Order
pub mod Sound
pub mod Panics
pub mod Shutdown
pub mod MustRun
use tcp_info.Base.{ℕ, Bool, true, false, List, [], Option, none, some}
use tcp_info.Bytes.{Bytes}
use tcp_info.Inetdiag.SockId.{SockId}

-- `TCPEvent`: `Open` and `Close`.
abbrev pub event_open : ℕ
event_open = 0

abbrev pub event_close : ℕ
event_close = 1

-- `FlowEvent`; what a client reads may have any number for the event.
pub record FlowEvent : Type 0 where
  pub event : ℕ
  pub timestamp : ℕ
  pub uuid : Bytes
  pub id : Option SockId

-- What `FlowCreated` and `FlowDeleted` send.
abbrev pub open_event : ℕ → Bytes → SockId → FlowEvent
open_event timestamp uuid id = record {
  event = event_open;
  timestamp = timestamp;
  uuid = uuid;
  id = some id;
}

abbrev pub close_event : ℕ → Bytes → FlowEvent
close_event timestamp uuid = record {
  event = event_close;
  timestamp = timestamp;
  uuid = uuid;
  id = none;
}

-- A connection in `clients`: the lines that were written to it, how many writes failed, and the
-- number of events handled when it was added.
pub record Client : Type 0 where
  pub conn : ℕ
  pub received : List Bytes
  pub errors : ℕ
  pub since : ℕ

pub data Serving : Type 0 where
  -- before `Listen`, and between `Listen` and `Serve`
  fresh : Serving
  listened : Serving
  looping : Serving
  accepting : Serving
  adding : ℕ → Serving
  returning : Serving
  served : Serving

pub data Notifier : Type 0 where
  -- before `go s.notifyClients`, and before its first statement
  unborn : Notifier
  spawned : Notifier
  testing : Notifier
  receiving : Notifier
  holding : Option FlowEvent → Notifier
  stopping : Notifier
  stopped : Notifier

pub data Closer : Type 0 where
  unstarted : Closer
  waiting : Closer
  unlistened : Closer
  closed_channel : Closer
  done : Closer

-- `server`. The channel has the events that were sent and not yet received; `sent` and `handled` are
-- all that were ever sent and that the notifier is through with. A connection has its number.
pub record Server : Type 0 where
  pub event_c : List FlowEvent
  pub closed : Bool
  pub cancelled : Bool
  pub listening : Bool
  pub clients : List Client
  pub serving_wg : ℕ
  pub serving : Serving
  pub notifier : Notifier
  pub closer : Closer
  -- calls of `removeClient`: not begun, counted, and with the mutex given back
  pub starting : List ℕ
  pub removing : List ℕ
  pub leaving : ℕ
  pub sent : List FlowEvent
  pub handled : List FlowEvent

-- `New`.
abbrev pub new_server : Server
new_server = record {
  event_c = [];
  closed = false;
  cancelled = false;
  listening = false;
  clients = [];
  serving_wg = 0;
  serving = fresh;
  notifier = unborn;
  closer = unstarted;
  starting = [];
  removing = [];
  leaving = 0;
  sent = [];
  handled = [];
}
