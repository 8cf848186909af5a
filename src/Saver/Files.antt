-- ===== src/Saver/Files.antt =====
-- saver/saver.go: which file a record is written to. The name of a file has the UUID of its
-- connection.
pub mod Queued
pub mod Loop
pub mod Home
pub mod Routed
pub mod Read
use tcp_info.Base.Assoc.{lookup}
use tcp_info.Base.Int64.{int64, uint64}
use tcp_info.Base.{ℕ, ◌≡◌, List, Option, none, some}
use tcp_info.Bytes.{Bytes}
use tcp_info.Cache.Rounds.{key}
use tcp_info.Inetdiag.SockId.{cookie_uint64}
use tcp_info.Netlink.{ArchivalRecord}
use tcp_info.Saver.Marshal.{All}
use tcp_info.Saver.{Os, Writer, Task, Connection, Saver}

module _ (os : Os) where
  -- The UUID of a cookie, which goes through the `int64` of a `SockID`.
  abbrev pub uuid_of : ℕ → Bytes
  uuid_of k = os.from_cookie (uint64 (int64 k))

  -- Each task has a writer, and the file of a message's writer is named for the message's cookie.
  abbrev pub Filed : Option ArchivalRecord → Option Writer → Type 0
  Filed m none = ⊥
  Filed none (some w) = Unit {0}
  Filed (some m) (some w) = (j : ℕ) → key m ≡ some j → w.file.uuid ≡ uuid_of j

  abbrev pub AllFiled : List (List Task) → Type 0
  AllFiled chans = All (All (λ (t : Task). Filed t.message t.writer)) chans

  abbrev pub WriterOf : ℕ → Option Writer → Type 0
  WriterOf k none = Unit {0}
  WriterOf k (some w) = w.file.uuid ≡ uuid_of k

  abbrev pub FiledConn : ℕ → Connection → Type 0
  FiledConn k conn = (cookie_uint64 conn.id ≡ uint64 (int64 k)) × WriterOf k conn.writer

  pub record IsFiled (svr : Saver) : Type 0 where
    pub chans : AllFiled svr.marshal_chans
    pub conns :
        (k : ℕ) (conn : Connection) → lookup k svr.connections ≡ some conn → FiledConn k conn
