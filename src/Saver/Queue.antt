-- ===== src/Saver/Queue.antt =====
-- saver/saver.go `newConnection`, `Rotate`, `writeHeader`, `queue` and `endConn`.
--
-- `Connections` holds pointers. Here a connection is taken out, changed and put back, on every path
-- on which the source leaves a changed object behind.
pub mod Frame
pub mod Tidy
pub mod Neat
pub mod Open
pub mod Kept
use tcp_info.Base.Assoc.{lookup, insert, delete}
use tcp_info.Base.{
  ℕ, suc, zero, ◌+◌, ◌/◌, ◌%◌, ◌<◌, Bool, ◌&&◌, List, [], ◌∷◌, ◌++◌, Option, none, some, Result, ok,
  err, panic, Error, cookie_zero, no_marshallers, mkdir_failed, create_failed, ltb, ◌==◌,
  if◌then◌else◌, length, ◌>>=◌,
}
use tcp_info.EventSocket.{open_event, close_event}
use tcp_info.Inetdiag.SockId.{cookie_of, cookie_uint64, get_sock_id}
use tcp_info.Inetdiag.{InetDiagMsg, parse}
use tcp_info.Netlink.{ArchivalRecord, Metadata, idm_bytes}
use tcp_info.Saver.{Os, FileName, Writer, Task, Connection, Saver, day, ten_minutes}

-- `q <- task`, on the channel of index `q`.
unfoldable pub send_on : ℕ → Task → List (List Task) → List (List Task)
send_on q task [] = []
send_on zero task (c ∷ cs) = (c ++ task ∷ []) ∷ cs
send_on (suc q) task (c ∷ cs) = c ∷ send_on q task cs

abbrev pub send : ℕ → Task → Saver → Saver
send q task svr = record svr { marshal_chans = send_on q task svr.marshal_chans }

abbrev pub close_task : Writer → Task
close_task w = record { message = none; writer = some w }

abbrev pub message_task : ArchivalRecord → Option Writer → Task
message_task msg w = record { message = some msg; writer = w }

-- A reading of the clock or an attempt at a file.
abbrev pub ticked : Saver → Saver
ticked svr = record svr { tick = suc svr.tick }

abbrev pub keep : ℕ → Connection → Saver → Saver
keep cookie conn svr = record svr { connections = insert cookie conn svr.connections }

module _ (os : Os) where
  -- `newConnection`; its expiration is `time.Now()`.
  abbrev pub new_connection : InetDiagMsg → ℕ → ℕ → Connection
  new_connection info timestamp tick = record {
    inode = info.inode;
    id = get_sock_id info.id;
    uid = info.uid;
    slice = [];
    start_time = timestamp;
    sequence = 0;
    expiration = os.now tick;
    writer = none;
  }

  -- The connection of a cookie; a first one is made, announced and kept.
  unfoldable pub connect : ℕ → InetDiagMsg → ArchivalRecord → Saver → Saver × Connection
  connect cookie idm msg svr = elim (lookup cookie svr.connections) [
    | some conn ↦ (svr, conn)
    | none ↦
        let conn = new_connection idm msg.timestamp svr.tick in
        let event = open_event msg.timestamp (os.from_cookie cookie) (get_sock_id idm.id) in
        (
          record svr {
            connections = insert cookie conn svr.connections;
            events = svr.events ++ event ∷ [];
            tick = suc svr.tick;
          },
          conn,
        )
  ]

  -- `time.Now().After(conn.Expiration) && conn.Writer != nil`: the file is closed.
  unfoldable pub close_expired : ℕ → Saver → Connection → Saver × Connection
  close_expired q svr conn = elim (conn.writer) [
    | none ↦ (ticked svr, conn)
    | some w ↦
        if ltb conn.expiration (os.now svr.tick)
        then (send q (close_task w) (ticked svr), record conn { writer = none })
        else (ticked svr, conn)
  ]

  -- The day that names the directory: that of the start for the first file, of now for a later one.
  abbrev pub date_path : Saver → Connection → ℕ
  date_path svr conn = (if conn.sequence == 0 then conn.start_time else os.now svr.tick) / day

  abbrev pub next_writer : Saver → Connection → Writer
  next_writer svr conn = record {
    file = record {
      date = date_path svr conn;
      uuid = os.from_cookie (cookie_uint64 conn.id);
      sequence = conn.sequence;
    };
    serial = svr.tick;
  }

  -- `writeHeader`.
  abbrev pub header : Connection → Metadata
  header conn = record {
    uuid = os.from_cookie (cookie_uint64 conn.id);
    sequence = conn.sequence;
    start_time = conn.start_time;
  }

  -- `Rotate`.
  unfoldable pub rotate : Saver → Connection → Saver × Connection × Option Error
  rotate svr conn =
      if os.mkdir_works svr.tick
      then (if os.create_works svr.tick
          then (
            record svr {
              opened = svr.opened ++ (next_writer svr conn, header conn) ∷ [];
              tick = suc svr.tick;
            },
            record conn {
              writer = some (next_writer svr conn);
              expiration = conn.expiration + ten_minutes;
              sequence = suc conn.sequence;
            },
            none,
          )
          else (ticked svr, conn, some create_failed))
      else (ticked svr, conn, some mkdir_failed)

  unfoldable pub rotate_if_closed : Saver → Connection → Saver × Connection × Option Error
  rotate_if_closed svr conn = elim (conn.writer) [
    | none ↦ rotate svr conn
    | some w ↦ (svr, conn, none)
  ]

  -- The last part of `queue`: with a writer, or with `Rotate`'s error, and the connection put back.
  unfoldable pub deliver : ℕ → ℕ → ArchivalRecord → Saver × Connection → Saver × Option Error
  deliver cookie q msg (svr, conn) =
      let (svr', conn', failed) = rotate_if_closed svr conn in
      elim failed [
        | some e ↦ (keep cookie conn' svr', some e)
        | none ↦ (send q (message_task msg conn'.writer) (keep cookie conn' svr'), none)
      ]

  -- `queue`, with the message parsed and its cookie and channel known.
  unfoldable pub queue_on : ℕ → ℕ → InetDiagMsg → ArchivalRecord → Saver → Saver × Option Error
  queue_on cookie q idm msg svr =
      let (svr', conn) = connect cookie idm msg svr in
      deliver cookie q msg (close_expired q svr' conn)

  -- `queue`, with the message parsed.
  unfoldable pub queue_parsed : InetDiagMsg → Saver → ArchivalRecord → Saver × Option Error
  queue_parsed idm svr msg =
      let cookie = cookie_of idm.id in
      let n = length svr.marshal_chans in
      if cookie == 0
      then (svr, some cookie_zero)
      else if ltb n 1
      then (svr, some no_marshallers)
      else queue_on cookie (cookie % n) idm msg svr

  -- `queue`. A message that does not parse is a nil pointer at `idm.ID`.
  unfoldable pub queue : Saver → ArchivalRecord → Result (Saver × Option Error)
  queue svr msg = elim (parse (idm_bytes msg)) [
    | ok idm ↦ ok (queue_parsed idm svr msg)
    | err e ↦ panic
    | panic ↦ panic
  ]

  -- The rest of `endConn`: the connection is closed and forgotten if it has a writer.
  unfoldable pub drop_conn : ℕ → ℕ → Option Connection → Saver → Saver
  drop_conn cookie q none svr = svr
  drop_conn cookie q (some conn) svr = elim (conn.writer) [
    | none ↦ svr
    | some w ↦ record (send q (close_task w) svr) { connections = delete cookie svr.connections }
  ]

  -- `endConn`. With no marshallers the channel's index is a division by zero.
  unfoldable pub end_conn : ℕ → Saver → Result Saver
  end_conn cookie svr =
      let n = length svr.marshal_chans in
      let event = close_event (os.now svr.tick) (os.from_cookie cookie) in
      let told = record (ticked svr) { events = svr.events ++ event ∷ [] } in
      if n == 0
      then panic
      else ok (drop_conn cookie (cookie % n) (lookup cookie svr.connections) told)
