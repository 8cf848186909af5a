-- ===== src/Netlink/Compare/Total.antt =====
-- When `Compare` cannot panic.
use tcp_info.Base.{
  ℕ, ◌≤◌, ◌≡◌, refl, List, Option, none, some, ok, arith, Bool, Result-cases, inl, inr, length,
}
use tcp_info.Bytes.{Slice, reslice}
use tcp_info.Inetdiag.Layout.{parse_long}
use tcp_info.Inetdiag.{view}
use tcp_info.Netlink.Compare.{
  ChangeType, compare_info, compare_parsed, compare, counters_differ, state_differs, parts_differ,
  parse_or_fail,
}
use tcp_info.Netlink.Record.{diag_info}
use tcp_info.Netlink.{ArchivalRecord, idm_bytes}

-- TCP_INFO reaches up to BusyTime, if it is there.
abbrev pub IsWide : Option Slice → Type 0
IsWide none = Unit {0}
IsWide (some a) = 168 ≤ length a.back

-- The message parses, and TCP_INFO can be cut.
pub record IsComplete (r : ArchivalRecord) : Type 0 where
  pub long : 72 ≤ length (idm_bytes r)
  pub wide : IsWide (diag_info r)

parse_or_fail-long :
    (r : ArchivalRecord) → 72 ≤ length (idm_bytes r) → parse_or_fail r ≡ ok (view (idm_bytes r))
unfolding parse_or_fail
parse_or_fail-long r h = rw (parse_or_fail, parse_long (idm_bytes r) h)

parts_differ_total :
    (lo hi : ℕ) (a b : Slice)
    → lo ≤ hi
    → hi ≤ length a.back
    → hi ≤ length b.back
    → (d : Bool) × (parts_differ lo hi a b ≡ ok d)
unfolding parts_differ reslice
parts_differ_total lo hi a b h k m = elim (Result-cases (parts_differ lo hi a b)) [
  | inl done ↦ done
  | inr (inl (e, failed)) ↦ absurd (ground (arith, failed))
  | inr (inr broken) ↦ absurd (ground (arith, broken))
]

compare_info_total :
    (a b : Option Slice) (earlier later : List (Option Slice))
    → IsWide a
    → IsWide b
    → (change : ChangeType) × (compare_info a b earlier later ≡ ok change)
unfolding compare_info counters_differ state_differs
compare_info_total none b earlier later h k = (_, refl)
compare_info_total (some a) none earlier later h k = (_, refl)
compare_info_total (some a) (some b) earlier later h k =
    let (counters, e) = parts_differ_total 60 168 a b (omega arith) h k in
    let (state, f) = parts_differ_total 0 44 a b (omega arith) (omega arith) (omega arith) in
    elim (Result-cases (compare_info (some a) (some b) earlier later)) [
      | inl done ↦ done
      | inr (inl (x, failed)) ↦ absurd (ground (arith, e, f, failed))
      | inr (inr broken) ↦ absurd (ground (arith, e, f, broken))
    ]

-- Two complete records can be compared.
pub compare_total :
    (pm previous : ArchivalRecord)
    → IsComplete pm
    → IsComplete previous
    → (change : ChangeType) × (compare pm (some previous) ≡ ok change)
unfolding compare compare_parsed
compare_total pm previous h k =
    let info =
      compare_info_total (diag_info previous) (diag_info pm) previous.attributes pm.attributes
        k.wide h.wide in
    let first = parse_or_fail-long previous k.long in
    let second = parse_or_fail-long pm h.long in
    elim (Result-cases (compare pm (some previous))) [
      | inl done ↦ done
      | inr (inl (x, failed)) ↦ absurd (ground (arith, first, second, info.1, failed))
      | inr (inr broken) ↦ absurd (ground (arith, first, second, info.1, broken))
    ]
