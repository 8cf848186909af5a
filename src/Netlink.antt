-- ===== src/Netlink.antt =====
-- netlink/: the messages, the attributes and the records made from them.
--
-- Times are nanoseconds since Go's zero time, in UTC. A pointer that may be nil and a slice that may
-- be nil are options.
pub mod Attr
pub mod Record
pub mod Compare
pub mod Load
use tcp_info.Base.{ℕ, ◌*◌, List, [], Option, none, some}
use tcp_info.Bytes.{Bytes, Slice}

-- `NlMsghdr` and `NetlinkMessage` (syscall's on Linux, written out in netlink_darwin.go).
pub record NlMsghdr : Type 0 where
  pub len : ℕ
  pub type : ℕ
  pub flags : ℕ
  pub seq : ℕ
  pub pid : ℕ

pub record NetlinkMessage : Type 0 where
  pub header : NlMsghdr
  pub body : Slice

-- `RtAttr` and `NetlinkRouteAttr`.
pub record RtAttr : Type 0 where
  pub len : ℕ
  pub type : ℕ

pub record NetlinkRouteAttr : Type 0 where
  pub attr : RtAttr
  pub value : Slice

-- `Metadata`.
pub record Metadata : Type 0 where
  pub uuid : Bytes
  pub sequence : ℕ
  pub start_time : ℕ

-- `ArchivalRecord`.
pub record ArchivalRecord : Type 0 where
  pub timestamp : ℕ
  pub raw_idm : Option Bytes
  pub attributes : List (Option Slice)
  pub metadata : Option Metadata

-- What `pm.RawIDM` shows to `Parse`: a nil slice has no bytes.
abbrev pub idm_bytes : ArchivalRecord → Bytes
idm_bytes r = elim (r.raw_idm) [ none ↦ [] | some b ↦ b ]

-- `MessageBlock`. The arrays are arrays of pointers.
pub record MessageBlock : Type 0 where
  pub v4_time : ℕ
  pub v4_messages : List (Option NetlinkMessage)
  pub v6_time : ℕ
  pub v6_messages : List (Option NetlinkMessage)

-- The constants of inetdiag/inetdiag.go that the code names.
abbrev pub inet_diag_info : ℕ
inet_diag_info = 2

abbrev pub inet_diag_max : ℕ
inet_diag_max = 19
