-- ===== src/Netlink/Record/Formed.antt =====
-- Messages as the kernel sends them, and that each is left out or becomes a complete record.
use tcp_info.Base.{
  ℕ, ℕ_discrete, sym, ◌||◌, ◌<◌, ◌+◌, ◌≤◌, ◌≡◌, ◌≢◌, ◌⊎◌, inl, inr, Bool, true, false, Bool-cases,
  List, [], ◌∷◌, ◌++◌, Option, none, some, Option-cases, arith, Result, ok, err, panic, length,
  subst, ◌==◌, get_elem?, if◌then◌else◌, length-take,
}
use tcp_info.Bytes.{Bytes, Slice, visible}
use tcp_info.Inetdiag.Ip.{is_local}
use tcp_info.Inetdiag.Layout.{parse_long}
use tcp_info.Inetdiag.SockId.{src_ip, dst_ip}
use tcp_info.Inetdiag.{view}
use tcp_info.Netlink.Attr.Round.{encode_attrs, AllFit}
use tcp_info.Netlink.Compare.Significant.{shown_at}
use tcp_info.Netlink.Compare.Quiet.{diag_info-long}
use tcp_info.Netlink.Compare.Total.{IsWide, IsComplete}
use tcp_info.Netlink.Record.Wire.{last_item, Holds, make_archival_record-Holds}
use tcp_info.Netlink.Record.{diag_info, touches_local, make_archival_record}
use tcp_info.Netlink.{NetlinkMessage, ArchivalRecord}

-- Each TCP_INFO reaches up to BusyTime.
abbrev pub AllWide : List (ℕ × Bytes) → Type 0
AllWide [] = Unit {0}
AllWide ((t, v) ∷ items) = ((t ≢ 2) ⊎ (168 ≤ length v)) × AllWide items

-- A message of another type, or one that holds an inet_diag_msg and well-formed attributes.
pub record IsFormed (msg : NetlinkMessage) : Type 0 where
  pub raw : Bytes
  pub spare : Bytes
  pub items : List (ℕ × Bytes)
  pub whole : length raw ≡ 72
  pub fits : AllFit items
  pub widths : AllWide items
  pub bytes : msg.body.back ≡ raw ++ (encode_attrs items ++ spare)
  pub ends : msg.body.len ≡ 72 + length (encode_attrs items)

abbrev pub Handled : Option NetlinkMessage → Type 0
Handled none = Unit {0}
Handled (some msg) = (msg.header.type ≢ 20) ⊎ IsFormed msg

abbrev pub AllHandled : List (Option NetlinkMessage) → Type 0
AllHandled [] = Unit {0}
AllHandled (msg ∷ msgs) = Handled msg × AllHandled msgs

abbrev LongOr : Option Bytes → Type 0
LongOr none = Unit {0}
LongOr (some v) = 168 ≤ length v

last_item-wide :
    (items : List (ℕ × Bytes)) (before : Option Bytes)
    → AllWide items
    → LongOr before
    → LongOr (last_item 2 before items)
unfolding last_item
last_item-wide [] before h k = k
last_item-wide ((t, v) ∷ items) before h k = elim (Bool-cases (t == 2)) [
  | inl same ↦ rw same (last_item-wide items (some v) h.1 (ground (arith, h.0, same)))
  | inr other ↦ rw other (last_item-wide items before h.1 k)
]

shown-wide :
    (table : List (Option Slice)) (o : Option Bytes) (a : Slice)
    → shown_at table 2 ≡ some o
    → LongOr o
    → get_elem? table 2 ≡ some (some a)
    → 168 ≤ length a.back
shown-wide table o a e h f =
    let same : some (visible a) ≡ o = ground (arith, e, f) in
    let long : LongOr (some (visible a)) = subst LongOr (sym same) h in
    omega (arith, long, length-take a.len a.back)

Holds-IsWide :
    (raw : Bytes) (items : List (ℕ × Bytes)) (r : ArchivalRecord)
    → Holds raw items r
    → AllWide items
    → IsWide (diag_info r)
Holds-IsWide raw items r made h = elim (Option-cases (diag_info r)) [
  | inl e ↦ rw e tt
  | inr (a, e) ↦
      let at_two : 2 < length r.attributes = diag_info-long r a e in
      rw e (
        shown-wide r.attributes (last_item 2 none items) a
          (made.has_items 2 (omega (arith, made.has_size))) (last_item-wide items none h tt)
          (ground (arith, e)))
]

Holds-IsComplete :
    (raw : Bytes) (items : List (ℕ × Bytes)) (r : ArchivalRecord) (t : ℕ)
    → Holds raw items r
    → AllWide items
    → length raw ≡ 72
    → IsComplete (record r { timestamp = t })
Holds-IsComplete raw items r t made h whole = record {
  long = rw made.has_raw (omega (arith, whole));
  wide = Holds-IsWide raw items r made h;
}

touches_local_total :
    (raw : Bytes) → 72 ≤ length raw → (local : Bool) × (touches_local raw ≡ ok local)
unfolding touches_local
touches_local_total raw h =
    let m = view raw in
    (is_local (src_ip m.id) || is_local (dst_ip m.id), rw (touches_local, parse_long raw h))

-- A message is left out, with or without an error, or becomes a complete record.
abbrev pub Made : ℕ → Result (Option ArchivalRecord) → Type 0
Made t (ok none) = Unit {0}
Made t (ok (some r)) = IsComplete (record r { timestamp = t })
Made t (err e) = Unit {0}
Made t panic = ⊥

Made-other :
    (t : ℕ) (msg : NetlinkMessage) → msg.header.type ≢ 20 → Made t (make_archival_record msg true)
unfolding make_archival_record
Made-other t msg h = let differs : (msg.header.type == 20) ≡ false = ground arith in rw differs tt

pub make_archival_record-Made :
    (t : ℕ) (msg : NetlinkMessage) → Handled (some msg) → Made t (make_archival_record msg true)
make_archival_record-Made t msg (inl other) = Made-other t msg other
make_archival_record-Made t msg (inr f) = elim (ℕ_discrete msg.header.type 20) [
  | no other ↦ Made-other t msg other
  | yes ty ↦
      let (local, e) = touches_local_total f.raw (omega (arith, f.whole)) in
      let (r, made, holds) =
        make_archival_record-Holds msg true local f.raw f.spare f.items ty f.whole f.fits f.bytes
          f.ends e in
      subst (Made t) (sym made)
        (Made-of local r (Holds-IsComplete f.raw f.items r t holds f.widths f.whole))
]
  where
    Made-of :
        (local : Bool) (r : ArchivalRecord)
        → IsComplete (record r { timestamp = t })
        → Made t (ok (if local then none else some r))
    Made-of true r h = tt
    Made-of false r h = h
