-- ===== src/Netlink/Attr.antt =====
-- netlink/netlink_linux.go `netlinkRouteAttrAndValue` and netlink/archival-record.go
-- `ParseRouteAttr`.
pub mod Loop
pub mod Round
pub mod RoundTrip
use tcp_info.Base.{
  ℕ, zero, suc, ◌+◌, ◌-◌, ◌||◌, List, [], ◌∷◌, Result, ok, err, einval, ◌>>=◌, ltb, if◌then◌else◌,
}
use tcp_info.Bytes.{Slice, visible, reslice, slice_from, slice_to, le_value, field}
use tcp_info.Inetdiag.{rta_align_of}
use tcp_info.Netlink.{RtAttr, NetlinkRouteAttr}

abbrev pub sizeof_rt_attr : ℕ
sizeof_rt_attr = 4

-- `(*unix.RtAttr)(unsafe.Pointer(&b[0]))`: two 16-bit integers.
unfoldable pub rt_attr_at : Slice → RtAttr
rt_attr_at b = record {
  len = le_value (field 0 2 (visible b));
  type = le_value (field 2 2 (visible b));
}

unfoldable pub route_attr_and_value : Slice → Result (RtAttr × Slice × ℕ)
unfolding rt_attr_at
route_attr_and_value b =
    let a = rt_attr_at b in
    if ltb a.len sizeof_rt_attr || ltb b.len a.len
    then err einval
    else (do vbuf ← slice_from b sizeof_rt_attr; ok (a, vbuf, rta_align_of a.len))

-- One round of the loop: the attribute in front and the rest of `b`. Both cuts may panic.
unfoldable pub next_attr : Slice → Result (NetlinkRouteAttr × Slice)
unfolding route_attr_and_value reslice
next_attr b = do
  (a, vbuf, alen) ← route_attr_and_value b
  value ← slice_to vbuf (a.len - sizeof_rt_attr)
  rest ← slice_from b alen
  ok (record { attr = a; value = value }, rest)

-- The loop, with fuel.
pub parse_attrs : ℕ → Slice → Result (List NetlinkRouteAttr)
parse_attrs zero b = ok []
parse_attrs (suc fuel) b =
    let more : Result (List NetlinkRouteAttr) = (do
      (ra, rest) ← next_attr b
      attrs ← parse_attrs fuel rest
      ok (ra ∷ attrs)) in
    if ltb b.len sizeof_rt_attr then ok [] else more

-- `ParseRouteAttr`: every round takes four bytes at least, so the length is fuel enough.
unfoldable pub parse_route_attr : Slice → Result (List NetlinkRouteAttr)
unfolding parse_attrs next_attr
parse_route_attr b = parse_attrs b.len b
