-- ===== src/Inetdiag.antt =====
-- inetdiag/structs.go: the kernel's `inet_diag_msg` as the program reads it.
--
-- `Parse` casts the raw bytes to `*InetDiagMsg`: the record below is what that pointer shows, field
-- by field, at the struct's offsets on a little-endian machine. The pointer's aliasing of the bytes
-- is in `Inetdiag.Anon`, where the bytes are written.
pub mod Ip
pub mod SockId
pub mod Layout
pub mod Anon
use tcp_info.Base.{
  ℕ, ◌+◌, ◌-◌, ◌*◌, ◌%◌, Bool, Option, none, some, Result, ok, err, idm_parse_failed, ltb,
  if◌then◌else◌, length, take, drop,
}
use tcp_info.Bytes.{Bytes, Slice, visible, le_value, field}

-- `LinuxSockID`: six byte arrays, in network byte order but for the cookie.
pub record LinuxSockId : Type 0 where
  pub sport : Bytes
  pub dport : Bytes
  pub src : Bytes
  pub dst : Bytes
  pub iface : Bytes
  pub cookie : Bytes

-- `InetDiagMsg`.
pub record InetDiagMsg : Type 0 where
  pub family : ℕ
  pub state : ℕ
  pub timer : ℕ
  pub retrans : ℕ
  pub id : LinuxSockId
  pub expires : ℕ
  pub rqueue : ℕ
  pub wqueue : ℕ
  pub uid : ℕ
  pub inode : ℕ

-- `rtaAlignOf`, here and in netlink/netlink_linux.go: `(attrlen + 3) & ^3` clears the two low bits.
unfoldable pub rta_align_of : ℕ → ℕ
rta_align_of attrlen = attrlen + 3 - (attrlen + 3) % 4

-- `unsafe.Sizeof(InetDiagMsg{})`: four bytes, a LinuxSockID of 48, five uint32.
abbrev pub sizeof_inet_diag_msg : ℕ
sizeof_inet_diag_msg = 4 + (2 + 2 + 16 + 16 + 4 + 8) + 5 * 4

-- The LinuxSockID that the message holds from offset 4 on.
abbrev pub sock_id_at : Bytes → LinuxSockId
sock_id_at raw = record {
  sport = field 4 2 raw;
  dport = field 6 2 raw;
  src = field 8 16 raw;
  dst = field 24 16 raw;
  iface = field 40 4 raw;
  cookie = field 44 8 raw;
}

-- `(*InetDiagMsg)(unsafe.Pointer(&raw[0]))`.
unfoldable pub view : Bytes → InetDiagMsg
view raw = record {
  family = le_value (field 0 1 raw);
  state = le_value (field 1 1 raw);
  timer = le_value (field 2 1 raw);
  retrans = le_value (field 3 1 raw);
  id = sock_id_at raw;
  expires = le_value (field 52 4 raw);
  rqueue = le_value (field 56 4 raw);
  wqueue = le_value (field 60 4 raw);
  uid = le_value (field 64 4 raw);
  inode = le_value (field 68 4 raw);
}

-- `RawInetDiagMsg.Parse`.
unfoldable pub parse : Bytes → Result InetDiagMsg
unfolding rta_align_of
parse raw =
    if ltb (length raw) (rta_align_of sizeof_inet_diag_msg)
    then err idm_parse_failed
    else ok (view raw)

-- `SplitInetDiagMsg`: the message, and the slice of the attributes; `none` for `nil, nil`. Both
-- cuts lie within the length that is tested, so neither can be out of range.
unfoldable pub split_inet_diag_msg : Slice → Option (Bytes × Slice)
unfolding rta_align_of
split_inet_diag_msg s =
    let align = rta_align_of sizeof_inet_diag_msg in
    if ltb s.len align
    then none
    else some (take align (visible s), record { back = drop align s.back; len = s.len - align })
