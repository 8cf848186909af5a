-- ===== src/Netlink/Compare/Quiet.antt =====
-- `Compare` answers `NoMajorChange` exactly for records between which nothing that counts changed.
use tcp_info.Base.{
  ◌<◌, ◌≡◌, ◌↔◌, refl, List, Option, none, some, arith, ok, length, get_elem?-beyond, >>=-eq-ok,
  false,
}
use tcp_info.Bytes.{Slice}
use tcp_info.Inetdiag.{InetDiagMsg, parse}
use tcp_info.Netlink.Compare.Significant.{
  Unchanged, parts_differ_iff, compare_info-quiet, compare_attributes_iff, compare_lengths_iff,
}
use tcp_info.Netlink.Compare.{
  no_major_change, counters_differ, state_differs, compare_lengths, compare_info, compare_parsed,
  parse_or_fail, compare,
}
use tcp_info.Netlink.Record.{diag_info}
use tcp_info.Netlink.{ArchivalRecord, idm_bytes}

parse_or_fail_iff :
    (r : ArchivalRecord) (m : InetDiagMsg) → (parse_or_fail r ≡ ok m) ↔ (parse (idm_bytes r) ≡ ok m)
unfolding parse_or_fail
parse_or_fail_iff r m = ground arith

compare_parsed-quiet :
    (m m' : InetDiagMsg) (previous pm : ArchivalRecord)
    → (compare_parsed m m' previous pm ≡ ok no_major_change) ↔ (
        (m.state ≡ m'.state)
        × (2 < length previous.attributes)
        × (2 < length pm.attributes)
        × (compare_info (diag_info previous) (diag_info pm) previous.attributes pm.attributes
            ≡ ok no_major_change))
unfolding compare_parsed
compare_parsed-quiet m m' previous pm = ground arith

compare_info-both :
    (x y : Option Slice) (earlier later : List (Option Slice))
    → compare_info x y earlier later ≡ ok no_major_change
    → (a : Slice) × (b : Slice) × (x ≡ some a)
      × (y ≡ some b)
      × (counters_differ a b ≡ ok false)
      × (state_differs a b ≡ ok false)
      × (compare_lengths earlier later ≡ no_major_change)
compare_info-both none y earlier later h = absurd (unfold compare_info in cc h)
compare_info-both (some a) none earlier later h = absurd (unfold compare_info in cc h)
compare_info-both (some a) (some b) earlier later h =
    let parts = (compare_info-quiet a b earlier later).0 h in
    (a, b, refl, refl, parts.0, parts.1, parts.2)

quiet-Unchanged :
    (pm previous : ArchivalRecord)
    → compare pm (some previous) ≡ ok no_major_change
    → Unchanged previous pm
unfolding compare counters_differ state_differs
quiet-Unchanged pm previous h =
    let (m, p, h1) = >>=-eq-ok (parse_or_fail previous) _ h in
    let (m', p', h2) = >>=-eq-ok (parse_or_fail pm) _ h1 in
    let tested = (compare_parsed-quiet m m' previous pm).0 h2 in
    let (a, b, is_a, is_b, counters, state, lengths) = compare_info-both _ _ _ _ tested.3 in
    let tables = (compare_lengths_iff previous.attributes pm.attributes).0 lengths in
    record {
      prev_idm = m;
      pm_idm = m';
      prev_parsed = (parse_or_fail_iff previous m).0 p;
      pm_parsed = (parse_or_fail_iff pm m').0 p';
      same_state = tested.0;
      prev_info = a;
      pm_info = b;
      prev_has = is_a;
      pm_has = is_b;
      same_counters = (parts_differ_iff 60 168 a b (omega arith)).0 counters;
      same_head = (parts_differ_iff 0 44 a b (omega arith)).0 state;
      same_length = tables.0;
      same_others = (compare_attributes_iff 0 _ _ tables.0).0 tables.1;
    }

pub diag_info-long :
    (r : ArchivalRecord) (a : Slice) → diag_info r ≡ some a → 2 < length r.attributes
diag_info-long r a h = ground (arith, get_elem?-beyond r.attributes 2)

compare_info-some :
    (x y : Option Slice) (a b : Slice) (earlier later : List (Option Slice))
    → x ≡ some a
    → y ≡ some b
    → counters_differ a b ≡ ok false
    → state_differs a b ≡ ok false
    → compare_lengths earlier later ≡ no_major_change
    → compare_info x y earlier later ≡ ok no_major_change
compare_info-some x y a b earlier later e f counters state lengths =
    rw (e, f) ((compare_info-quiet a b earlier later).1 (counters, state, lengths))

Unchanged-quiet :
    (pm previous : ArchivalRecord)
    → Unchanged previous pm
    → compare pm (some previous) ≡ ok no_major_change
unfolding compare counters_differ state_differs
Unchanged-quiet pm previous u =
    rw
      (
        (parse_or_fail_iff previous u.prev_idm).1 u.prev_parsed,
        (parse_or_fail_iff pm u.pm_idm).1 u.pm_parsed,
      )
      ((compare_parsed-quiet u.prev_idm u.pm_idm previous pm).1 (
        u.same_state,
        diag_info-long previous u.prev_info u.prev_has,
        diag_info-long pm u.pm_info u.pm_has,
        compare_info-some _ _ u.prev_info u.pm_info _ _ u.prev_has u.pm_has
            ((parts_differ_iff 60 168 u.prev_info u.pm_info (omega arith)).1 u.same_counters)
            ((parts_differ_iff 0 44 u.prev_info u.pm_info (omega arith)).1 u.same_head)
            ((compare_lengths_iff _ _).1
              (u.same_length, (compare_attributes_iff 0 _ _ u.same_length).1 u.same_others)),
      ))

-- `Compare` answers `NoMajorChange` exactly when both records parse, the TCP state is the same, both
-- carry TCP_INFO, its bytes from PMTU up to BusyTime and in front of LastDataSent are the same, and
-- so are the types that the tables reach and every attribute but TCP_INFO.
pub compare-quiet :
    (pm previous : ArchivalRecord)
    → (compare pm (some previous) ≡ ok no_major_change) ↔ Unchanged previous pm
compare-quiet pm previous = (quiet-Unchanged pm previous, Unchanged-quiet pm previous)
