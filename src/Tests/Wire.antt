-- ===== src/Tests/Wire.antt =====
-- Messages and attributes.
use tcp_info.Base.{
  ℕ, zero, ◌≡◌, ◌≢◌, refl, ◌⊎◌, ◌≤◌, ◌<◌, true, false, List, [], ◌∷◌, ◌++◌, map, none, some, arith,
  ok, err, panic, idm_parse_failed, unknown_af, length, take, replicate, min, suc, ltb,
  if◌then◌else◌,
}
use tcp_info.Bytes.{Bytes, slice_of, equal, to_le, IsBytes}
use tcp_info.Inetdiag.Anon.{anonymize, anonymize-hide, af_inet, af_inet6, Hidden}
use tcp_info.Inetdiag.Ip.{is_local, ip, to4, is_ipv6, any_nonzero, ip_equal}
use tcp_info.Inetdiag.Layout.{parse-serialize, serialize}
use tcp_info.Inetdiag.SockId.{ip_string}
use tcp_info.Inetdiag.{InetDiagMsg, parse, view, rta_align_of}
use tcp_info.Netlink.Attr.Loop.{parse_route_attr_lem, goes_on}
use tcp_info.Netlink.Attr.Round.{encode_attr, encode_attrs, AllFit, shown}
use tcp_info.Netlink.Attr.RoundTrip.{parse_route_attr-encode, parse_route_attr_unpadded}
use tcp_info.Netlink.Attr.{parse_route_attr, next_attr, sizeof_rt_attr}
use tcp_info.Netlink.Record.Info.{has_diag_info_absent}
use tcp_info.Netlink.Compare.Significant.{shown_at}
use tcp_info.Netlink.Record.Wire.{last_item, largest_item, make_archival_record-Holds, Holds}
use tcp_info.Netlink.Record.{
  make_archival_record, touches_local, has_diag_info, diag_info, get_stats,
}
use tcp_info.Netlink.{NetlinkRouteAttr, ArchivalRecord}
use tcp_info.Tests.Data.{hex_idm, items, items_bytes, message, zeros, length-zeros}

-- Addresses as Go prints them.
addresses :
    (ip_string (take 4 (127 ∷ 0 ∷ 0 ∷ 1 ∷ []))
      ≡ b'1' ∷ b'2' ∷ b'7' ∷ b'.' ∷ b'0' ∷ b'.' ∷ b'0' ∷ b'.' ∷ b'1' ∷ [])
    × (ip_string (replicate 15 0 ++ 1 ∷ []) ≡ b':' ∷ b':' ∷ b'1' ∷ [])
unfolding ip_string
addresses = (refl, refl)

loopback_is_local : is_local (127 ∷ 0 ∷ 0 ∷ 1 ∷ []) ≡ true
unfolding is_local
loopback_is_local = refl

short_parse : parse (1 ∷ 2 ∷ []) ≡ err idm_parse_failed
unfolding parse
short_parse = refl

hex_idm_is_global : touches_local hex_idm ≡ ok false
unfolding touches_local parse view rta_align_of ip is_local is_ipv6 any_nonzero to4 ip_equal equal
hex_idm_is_global = refl

items_fit : AllFit items
items_fit = ((omega arith, omega arith), ((omega arith, omega arith), tt))

parse_route_attr-encode_example :
    (attrs : List NetlinkRouteAttr) × (parse_route_attr
        (record { back = items_bytes ++ 7 ∷ []; len = 16 })
      ≡ ok attrs)
    × (map shown attrs ≡ items)
unfolding encode_attrs encode_attr to_le rta_align_of
parse_route_attr-encode_example =
    parse_route_attr-encode items (7 ∷ []) (record { back = items_bytes ++ 7 ∷ []; len = 16 })
      items_fit refl refl

make_archival_record-Holds_example :
    (r : ArchivalRecord) × (make_archival_record (message (hex_idm ++ items_bytes)) true
      ≡ ok (some r))
    × Holds hex_idm items r
unfolding encode_attrs encode_attr to_le rta_align_of
make_archival_record-Holds_example =
    make_archival_record-Holds (message (hex_idm ++ items_bytes)) true false hex_idm (0xff ∷ [])
      items refl refl items_fit refl refl hex_idm_is_global

parse_route_attr_lem_example : parse_route_attr (slice_of items_bytes) ≡ (
    if ltb 16 sizeof_rt_attr
    then ok []
    else goes_on (next_attr (slice_of items_bytes)) parse_route_attr)
parse_route_attr_lem_example = parse_route_attr_lem (slice_of items_bytes)

-- A last attribute of five bytes, and the message ends.
parse_route_attr_unpadded_example :
    parse_route_attr (slice_of (items_bytes ++ 5 ∷ 0 ∷ 8 ∷ 0 ∷ 1 ∷ [])) ≡ panic
unfolding encode_attrs encode_attr to_le rta_align_of
parse_route_attr_unpadded_example =
    parse_route_attr_unpadded items 8 (1 ∷ []) [] (slice_of (items_bytes ++ 5 ∷ 0 ∷ 8 ∷ 0 ∷ 1 ∷ []))
      items_fit (omega arith, omega arith) (omega arith) refl refl

-- A record with an attribute of type 3 and none of type 2.
abbrev late_items : List (ℕ × Bytes)
late_items = (3, 9 ∷ []) ∷ []

abbrev late_record : ArchivalRecord
late_record = record {
  timestamp = 0;
  raw_idm = some hex_idm;
  attributes = none ∷ none ∷ none ∷ some (slice_of (9 ∷ [])) ∷ [];
  metadata = none;
}

late_record-Holds : Holds hex_idm late_items late_record
unfolding last_item largest_item
late_record-Holds = record { has_raw = refl; has_size = refl; has_items = late_slots }
  where
    late_slots :
        (t : ℕ)
        → t ≤ min (largest_item late_items) 38
        → shown_at late_record.attributes t ≡ some (last_item t none late_items)
    late_slots zero h = refl
    late_slots (suc zero) h = refl
    late_slots (suc (suc zero)) h = refl
    late_slots (suc (suc (suc zero))) h = refl
    late_slots (suc (suc (suc (suc t)))) h = absurd (omega arith)

has_diag_info_absent_example :
    (has_diag_info late_record ≡ true)
    × (diag_info late_record ≡ none)
    × (get_stats late_record ≡ (0, 0))
unfolding largest_item
has_diag_info_absent_example =
    has_diag_info_absent hex_idm late_items late_record late_record-Holds (omega arith)
      (λ (h : 3 ≡ 2). omega (arith, h), tt)

hex_idm-IsBytes : IsBytes hex_idm
hex_idm-IsBytes = ground arith

parse-serialize_example :
    ((length hex_idm < 72) × (parse hex_idm ≡ err idm_parse_failed))
    ⊎ ((72 ≤ length hex_idm)
        × ((m : InetDiagMsg) × (parse hex_idm ≡ ok m) × (serialize m ≡ take 72 hex_idm)))
parse-serialize_example = parse-serialize hex_idm hex_idm-IsBytes

anonymize-hide_example :
    ((72 ≤ length hex_idm)
      × (((view hex_idm).family ≡ af_inet6) ⊎ ((view hex_idm).family ≡ af_inet))
      × Hidden zeros length-zeros hex_idm)
    ⊎ ((72 ≤ length hex_idm)
        × ((view hex_idm).family ≢ af_inet6)
        × ((view hex_idm).family ≢ af_inet)
        × (anonymize zeros hex_idm ≡ err unknown_af))
    ⊎ ((length hex_idm < 72) × (anonymize zeros hex_idm ≡ err idm_parse_failed))
anonymize-hide_example = anonymize-hide zeros length-zeros hex_idm
