-- ===== src/Netlink/Record.antt =====
-- netlink/archival-record.go: `MakeArchivalRecord`, `HasDiagInfo` and `GetStats`.
pub mod Slots
pub mod Counters
pub mod Wire
pub mod Info
pub mod Formed
use tcp_info.Base.{
  ℕ, zero, suc, ◌+◌, ◌*◌, Bool, true, false, ◌||◌, List, [], ◌∷◌, Option, none, some, Result, ok,
  err, not_type20, parse_failed, ◌>>=◌, ltb, leb, ◌==◌, if◌then◌else◌, length, get_elem?, set,
  replicate,
}
use tcp_info.Bytes.{Bytes, Slice, visible, le_value, field}
use tcp_info.Inetdiag.Ip.{is_local}
use tcp_info.Inetdiag.SockId.{src_ip, dst_ip}
use tcp_info.Inetdiag.{parse, split_inet_diag_msg}
use tcp_info.Netlink.Attr.{parse_route_attr}
use tcp_info.Netlink.{
  NetlinkMessage, NetlinkRouteAttr, ArchivalRecord, inet_diag_info, inet_diag_max,
}

-- The first loop: the largest type.
unfoldable pub max_attr_type : ℕ → List NetlinkRouteAttr → ℕ
max_attr_type m [] = m
max_attr_type m (a ∷ attrs) = max_attr_type (if ltb m a.attr.type then a.attr.type else m) attrs

unfoldable pub capped : ℕ → ℕ
capped m = if ltb (2 * inet_diag_max) m then 2 * inet_diag_max else m

-- The second loop: each value goes to the slot of its type, over what was there.
unfoldable pub fill : ℕ → List (Option Slice) → List NetlinkRouteAttr → List (Option Slice)
fill m table [] = table
fill m table (a ∷ attrs) =
    fill m (if ltb m a.attr.type then table else set table a.attr.type (some a.value)) attrs

-- `record.Attributes`, from the parsed attributes.
unfoldable pub attribute_table : List NetlinkRouteAttr → List (Option Slice)
unfolding max_attr_type capped fill
attribute_table attrs =
    let m = capped (max_attr_type 0 attrs) in fill m (replicate (suc m) none) attrs

-- The part behind the local test.
unfoldable pub finish_record : Bytes → Slice → Result (Option ArchivalRecord)
finish_record raw attr_bytes = do
  attrs ← parse_route_attr attr_bytes
  ok (
      some (record {
        timestamp = 0;
        raw_idm = some raw;
        attributes = attribute_table attrs;
        metadata = none;
      }))

-- The test of `skipLocal`.
unfoldable pub touches_local : Bytes → Result Bool
touches_local raw = do idm ← parse raw; ok (is_local (src_ip idm.id) || is_local (dst_ip idm.id))

-- Behind the split.
unfoldable pub record_unless_local : Bool → Bytes → Slice → Result (Option ArchivalRecord)
record_unless_local skip_local raw attr_bytes =
    if skip_local
    then (do local ← touches_local raw; if local then ok none else finish_record raw attr_bytes)
    else finish_record raw attr_bytes

-- `MakeArchivalRecord`: `ok none` is `nil, nil`.
unfoldable pub make_archival_record : NetlinkMessage → Bool → Result (Option ArchivalRecord)
make_archival_record msg skip_local =
    if msg.header.type == 20
    then (elim (split_inet_diag_msg msg.body) [
      | none ↦ err parse_failed
      | some (raw, attr_bytes) ↦ record_unless_local skip_local raw attr_bytes
    ])
    else err not_type20

-- `HasDiagInfo`.
abbrev pub has_diag_info : ArchivalRecord → Bool
has_diag_info pm = ltb inet_diag_info (length pm.attributes)

-- What an entry of `Attributes` shows: nil has length 0.
abbrev pub entry_bytes : Option Slice → Bytes
entry_bytes none = []
entry_bytes (some s) = visible s

-- `pm.Attributes[INET_DIAG_INFO]`, where it is in range.
abbrev pub diag_info : ArchivalRecord → Option Slice
diag_info pm = elim (get_elem? pm.attributes inet_diag_info) [ none ↦ none | some a ↦ a ]

abbrev pub bytes_received_offset : ℕ
bytes_received_offset = 128

abbrev pub bytes_sent_offset : ℕ
bytes_sent_offset = 200

-- `GetStats`: bytes sent and bytes received.
unfoldable pub get_stats : ArchivalRecord → ℕ × ℕ
get_stats pm =
    if leb (length pm.attributes) inet_diag_info
    then (0, 0)
    else (let raw = entry_bytes (diag_info pm) in
        if ltb (length raw) (bytes_sent_offset + 8) || ltb (length raw) (bytes_received_offset + 8)
        then (0, 0)
        else (
          le_value (field bytes_sent_offset 8 raw),
          le_value (field bytes_received_offset 8 raw),
        ))
