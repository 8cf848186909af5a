-- ===== src/Netlink/Compare.antt =====
-- netlink/archival-record.go `Compare`.
pub mod Significant
pub mod Quiet
pub mod Anon
pub mod Total
use tcp_info.Base.{
  ℕ, suc, ◌||◌, not, Bool, List, [], ◌∷◌, Option, none, some, Result, ok, err, parse_failed, ◌>>=◌,
  leb, ltb, ◌==◌, if◌then◌else◌, length,
}
use tcp_info.Bytes.{Bytes, Slice, visible, reslice, equal}
use tcp_info.Inetdiag.{InetDiagMsg, parse}
use tcp_info.Netlink.Record.{diag_info}
use tcp_info.Netlink.{ArchivalRecord, idm_bytes, inet_diag_info}

-- `ChangeType`.
pub data ChangeType : Type 0 where
  no_major_change idiag_state_change no_tcp_info new_attribute lost_attribute : ChangeType
  attribute_length state_or_counter_change packet_count_change previous_was_nil other : ChangeType

-- The offsets of fields of `tcp.LinuxTCPInfo`.
abbrev pub last_data_sent_offset : ℕ
last_data_sent_offset = 44

abbrev pub pmtu_offset : ℕ
pmtu_offset = 60

abbrev pub busytime_offset : ℕ
busytime_offset = 168

-- `RawIDM.Parse`, with its error replaced as `Compare` does.
unfoldable pub parse_or_fail : ArchivalRecord → Result InetDiagMsg
parse_or_fail r = elim (parse (idm_bytes r)) [ ok m ↦ ok m | _ ↦ err parse_failed ]

-- One attribute other than INET_DIAG_INFO; `none` goes on to the next.
unfoldable pub compare_entry : Option Slice → Option Slice → Option ChangeType
compare_entry none (some b) = some new_attribute
compare_entry (some a) none = some lost_attribute
compare_entry none none = none
compare_entry (some a) (some b) =
    if not (length (visible a) == length (visible b))
    then some attribute_length
    else if not (equal (visible a) (visible b))
    then some other
    else none

-- The loop over the attributes, from type `tp` on.
unfoldable pub compare_attributes : ℕ → List (Option Slice) → List (Option Slice) → ChangeType
compare_attributes tp [] later = no_major_change
compare_attributes tp (a ∷ earlier) [] = lost_attribute
compare_attributes tp (a ∷ earlier) (b ∷ later) =
    let rest = compare_attributes (suc tp) earlier later in
    if tp == inet_diag_info
    then rest
    else (elim (compare_entry a b) [ some change ↦ change | none ↦ rest ])

-- `0 != bytes.Compare(a[lo:hi], b[lo:hi])`.
unfoldable pub parts_differ : ℕ → ℕ → Slice → Slice → Result Bool
unfolding reslice equal
parts_differ lo hi a b = do
  a_part ← reslice a lo hi
  b_part ← reslice b lo hi
  ok (not (equal (visible a_part) (visible b_part)))

-- The two parts of TCP_INFO that count, of the previous record and of this one.
unfoldable pub counters_differ : Slice → Slice → Result Bool
counters_differ a b = parts_differ pmtu_offset busytime_offset a b

unfoldable pub state_differs : Slice → Slice → Result Bool
state_differs a b = parts_differ 0 last_data_sent_offset a b

unfoldable pub compare_lengths : List (Option Slice) → List (Option Slice) → ChangeType
compare_lengths earlier later =
    if ltb (length earlier) (length later)
    then new_attribute
    else if ltb (length later) (length earlier)
    then lost_attribute
    else compare_attributes 0 earlier later

-- From the TCP_INFO attributes on.
unfoldable pub compare_info :
    Option Slice → Option Slice → List (Option Slice) → List (Option Slice) → Result ChangeType
compare_info (some a) (some b) earlier later = do
  counters ← counters_differ a b
  if counters then ok state_or_counter_change else (do
    state ← state_differs a b
    ok (if state then state_or_counter_change else compare_lengths earlier later))
compare_info _ _ earlier later = ok no_tcp_info

-- `Compare`, from the parsed messages on.
unfoldable pub compare_parsed :
    InetDiagMsg → InetDiagMsg → ArchivalRecord → ArchivalRecord → Result ChangeType
compare_parsed prev_idm pm_idm previous pm =
    if not (prev_idm.state == pm_idm.state)
    then ok idiag_state_change
    else if leb (length previous.attributes) inet_diag_info
        || leb (length pm.attributes) inet_diag_info
    then ok no_tcp_info
    else compare_info (diag_info previous) (diag_info pm) previous.attributes pm.attributes

-- `Compare`.
unfoldable pub compare : ArchivalRecord → Option ArchivalRecord → Result ChangeType
compare pm none = ok previous_was_nil
compare pm (some previous) = do
  prev_idm ← parse_or_fail previous
  pm_idm ← parse_or_fail pm
  compare_parsed prev_idm pm_idm previous pm
