-- ===== src/Netlink/Record/Wire.antt =====
-- `MakeArchivalRecord` on a message as the kernel sends it.
use Prim.Native.Nat.{max}
use tcp_info.Base.{
  ℕ, suc, ◌+◌, ◌≤◌, ◌≡◌, refl, ap, ◌∙◌, Bool, ◌&&◌, List, [], ◌∷◌, ◌++◌, map, Option, none, some,
  arith, ok, ◌==◌, if◌then◌else◌, length, take, drop, min, ge→ltb, ◌-◌,
}
use tcp_info.Bytes.Laws.{take-take, take-append_of, drop-append_of}
use tcp_info.Bytes.{Bytes, Slice}
use tcp_info.Inetdiag.{split_inet_diag_msg}
use tcp_info.Netlink.Attr.Round.{encode_attrs, AllFit, shown}
use tcp_info.Netlink.Attr.RoundTrip.{parse_route_attr-encode}
use tcp_info.Netlink.Compare.Significant.{entry_shown, shown_at, shown_at-get}
use tcp_info.Netlink.Record.Slots.{last_value, largest, attribute_table-slots}
use tcp_info.Netlink.Record.{
  attribute_table, finish_record, touches_local, make_archival_record, record_unless_local,
}
use tcp_info.Netlink.{NetlinkMessage, NetlinkRouteAttr, ArchivalRecord}

-- The last value of a type among the attributes that were sent, and the largest type.
unfoldable pub last_item : ℕ → Option Bytes → List (ℕ × Bytes) → Option Bytes
last_item t before [] = before
last_item t before ((u, v) ∷ items) = last_item t (if u == t then some v else before) items

unfoldable pub largest_item : List (ℕ × Bytes) → ℕ
largest_item [] = 0
largest_item ((u, v) ∷ items) = max u (largest_item items)

last_value-shown :
    (attrs : List NetlinkRouteAttr) (t : ℕ) (before : Option Slice)
    → entry_shown (last_value t before attrs) ≡ last_item t (entry_shown before) (map shown attrs)
unfolding last_value last_item
last_value-shown [] t before = refl
last_value-shown (a ∷ attrs) t before =
    last_value-shown attrs t (if a.attr.type == t then some a.value else before) ∙ ground arith

largest-shown : (attrs : List NetlinkRouteAttr) → largest attrs ≡ largest_item (map shown attrs)
unfolding largest largest_item
largest-shown [] = refl
largest-shown (a ∷ attrs) = rw (largest-shown attrs)

split-wire :
    (raw rest : Bytes) (n : ℕ) (s : Slice)
    → length raw ≡ 72
    → s.back ≡ raw ++ rest
    → s.len ≡ 72 + n
    → split_inet_diag_msg s ≡ some (raw, record { back = rest; len = n })
unfolding split_inet_diag_msg
split-wire raw rest n s h e l =
    let front : take 72 s.back ≡ raw = rw e (take-append_of 72 raw rest h) in
    let behind : drop 72 s.back ≡ rest = rw e (drop-append_of 72 raw rest h) in
    let left : s.len - 72 ≡ n = omega arith in
    rw (ge→ltb s.len 72 (omega arith), take-take 72 s.len s.back (omega arith), front, behind, left)

-- The record that a message should become: the 72 bytes of the inet_diag_msg, and a table in which
-- each type up to the largest one (38 at most) holds the bytes of its last attribute, or nil.
pub record Holds (raw : Bytes) (items : List (ℕ × Bytes)) (r : ArchivalRecord) : Type 0 where
  pub has_raw : r.raw_idm ≡ some raw
  pub has_size : length r.attributes ≡ suc (min (largest_item items) 38)
  pub has_items :
      (t : ℕ)
      → t ≤ min (largest_item items) 38
      → shown_at r.attributes t ≡ some (last_item t none items)

finish_record-Holds :
    (raw spare : Bytes) (items : List (ℕ × Bytes)) (b : Slice)
    → AllFit items
    → b.back ≡ encode_attrs items ++ spare
    → b.len ≡ length (encode_attrs items)
    → (r : ArchivalRecord) × (finish_record raw b ≡ ok (some r)) × Holds raw items r
unfolding finish_record
finish_record-Holds raw spare items b fits e l =
    let (attrs, parsed, are) = parse_route_attr-encode items spare b fits e l in
    let (size, slots) = attribute_table-slots attrs in
    let top : largest attrs ≡ largest_item items = largest-shown attrs ∙ ap largest_item are in
    (
      record {
        timestamp = 0;
        raw_idm = some raw;
        attributes = attribute_table attrs;
        metadata = none;
      },
      rw parsed,
      record {
        has_raw = refl;
        has_size = rw top at size;
        has_items = λ t h.
            shown_at-get (attribute_table attrs) t _ (slots t (rw top h))
            ∙ ap some (last_value-shown attrs t none ∙ rw are);
      },
    )

record_unless_local_lem :
    (skip local : Bool) (raw : Bytes) (b : Slice) (r : ArchivalRecord)
    → touches_local raw ≡ ok local
    → finish_record raw b ≡ ok (some r)
    → record_unless_local skip raw b ≡ ok (if skip && local then none else some r)
unfolding record_unless_local
record_unless_local_lem skip local raw b r h e = ground arith

-- A message of type 20 that holds an inet_diag_msg and well-formed attributes becomes the record
-- that it should, whatever lies behind it in the buffer; with `skipLocal` it becomes no record if one
-- of its addresses is local.
pub make_archival_record-Holds :
    (msg : NetlinkMessage) (skip local : Bool) (raw spare : Bytes) (items : List (ℕ × Bytes))
    → msg.header.type ≡ 20
    → length raw ≡ 72
    → AllFit items
    → msg.body.back ≡ raw ++ (encode_attrs items ++ spare)
    → msg.body.len ≡ 72 + length (encode_attrs items)
    → touches_local raw ≡ ok local
    → (r : ArchivalRecord) × (make_archival_record msg skip
        ≡ ok (if skip && local then none else some r))
      × Holds raw items r
unfolding make_archival_record
make_archival_record-Holds msg skip local raw spare items ty h fits e l loc =
    let rest = encode_attrs items ++ spare in
    let b : Slice = record { back = rest; len = length (encode_attrs items) } in
    let (r, made, holds) = finish_record-Holds raw spare items b fits refl refl in
    (
      r,
      rw (ty, split-wire raw rest (length (encode_attrs items)) msg.body h e l)
          (record_unless_local_lem skip local raw b r loc made),
      holds,
    )
