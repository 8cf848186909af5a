-- ===== src/Tests/Snapshots.antt =====
-- Loading and decoding.
use tcp_info.Base.Int64.{uint64}
use tcp_info.Base.{
  ℕ, suc, ◌≡◌, refl, arith, ◌&&◌, List, [], ◌∷◌, ◌++◌, map, Option, none, some, Result, ok, err,
  panic, parse_failed, ltb,
}
use tcp_info.Bytes.{Bytes, slice_of, visible, to_le, IsBytes}
use tcp_info.Inetdiag.{parse, view, rta_align_of}
use tcp_info.Netlink.Load.Lines.{load_all_archival_records_lem}
use tcp_info.Netlink.Load.Raw.{Fits, encode_message, load_raw_netlink_message-encode}
use tcp_info.Netlink.Load.{load_raw_netlink_message, load_all_archival_records}
use tcp_info.Netlink.Record.{get_stats}
use tcp_info.Netlink.{NlMsghdr, Metadata, ArchivalRecord}
use tcp_info.Base.Bits.{test_bit, set_bit}
use tcp_info.Snapshot.Decode.{present, decode-observed, decode_congestion_panic}
use tcp_info.Snapshot.Load.{
  Decode, stand_in_time, load_all, load_all_lem, last_metadata, snapshots_of,
}
use tcp_info.Snapshot.Stats.{get_stats-tcp_info}
use tcp_info.Snapshot.TcpInfo.{tcp_info_at}
use tcp_info.Snapshot.{
  Snapshot, blank, maybe_copy, to_uint8, decode_struct, decode_number, decode_attr, or_bit,
  note_bits, decode_attrs, decode_idm, decode,
}
use tcp_info.Tests.Data.{hex_idm, with_info, tcp_info_bytes, bare}

abbrev head : NlMsghdr
head = record { len = 18; type = 20; flags = 2; seq = 1; pid = 7 }

head-Fits : Fits head (1 ∷ 2 ∷ [])
head-Fits = record {
  fit_len = refl;
  fit_size = omega arith;
  fit_type = omega arith;
  fit_flags = omega arith;
  fit_seq = omega arith;
  fit_pid = omega arith;
}

load_raw_netlink_message-encode_example :
    load_raw_netlink_message (encode_message head (1 ∷ 2 ∷ []) ++ 9 ∷ [])
    ≡ ok (record { header = head; body = slice_of (1 ∷ 2 ∷ []) }, 9 ∷ [])
load_raw_netlink_message-encode_example =
    load_raw_netlink_message-encode head (1 ∷ 2 ∷ []) (9 ∷ []) head-Fits

-- A stand-in for the JSON of a record: one line is good.
abbrev unmarshal : Bytes → Result ArchivalRecord
unmarshal [] = err parse_failed
unmarshal (x ∷ line) = ok bare

load_all_archival_records_lem_example :
    (load_all_archival_records unmarshal [] ((1 ∷ []) ∷ []) ≡ ok (bare ∷ [], none))
    × (load_all_archival_records unmarshal [] ((1 ∷ []) ∷ [] ∷ (2 ∷ []) ∷ [])
        ≡ ok (bare ∷ [], some parse_failed))
load_all_archival_records_lem_example =
    load_all_archival_records_lem unmarshal (bare ∷ []) ((1 ∷ []) ∷ []) ((2 ∷ []) ∷ []) []
      parse_failed (refl, tt) refl (λ h. cc h)

hex_idm_parses : parse hex_idm ≡ ok (view hex_idm)
unfolding parse rta_align_of
hex_idm_parses = refl

decode-observed_example :
    (s : Snapshot) × (decode (with_info 5 9) ≡ ok ((with_info 5 9).metadata, s))
    × (s.timestamp ≡ (with_info 5 9).timestamp)
    × (s.inet_diag_msg ≡ some (view hex_idm))
    × ((n : ℕ) → test_bit n s.observed ≡ (ltb n 32 && present (suc n) (with_info 5 9).attributes))
decode-observed_example =
    decode-observed (with_info 5 9) hex_idm (view hex_idm) refl hex_idm_parses (λ h. cc h)

abbrev nameless : ArchivalRecord
nameless = record {
  timestamp = 0;
  raw_idm = some hex_idm;
  attributes = none ∷ none ∷ none ∷ none ∷ some (slice_of []) ∷ [];
  metadata = none;
}

decode_congestion_panic_example : decode nameless ≡ panic
decode_congestion_panic_example =
    decode_congestion_panic nameless hex_idm (view hex_idm) refl hex_idm_parses refl

info-IsBytes : IsBytes (visible (tcp_info_bytes 5 9))
unfolding to_le
info-IsBytes = ground arith

get_stats-tcp_info_example : get_stats (with_info 5 9) ≡ (
  uint64 (tcp_info_at (maybe_copy (visible (tcp_info_bytes 5 9)) 232).0).bytes_sent,
  uint64 (tcp_info_at (maybe_copy (visible (tcp_info_bytes 5 9)) 232).0).bytes_received,
)
unfolding to_le
get_stats-tcp_info_example =
    get_stats-tcp_info (with_info 5 9) (tcp_info_bytes 5 9) refl (omega arith) info-IsBytes

-- What `Decode` gives, or nothing.
abbrev decoded : ArchivalRecord → List (Option Metadata × Snapshot)
decoded ar = elim (decode ar) [ ok d ↦ d ∷ [] | err e ↦ [] | panic ↦ [] ]

-- Type 2 is bit 1 of what was observed, and nothing was left unparsed.
decoded_run :
    map (λ (d : Option Metadata × Snapshot). d.1.observed) (decoded (with_info 5 9)) ≡ 2 ∷ []
unfolding decode decode_idm parse rta_align_of decode_attrs decode_attr decode_number decode_struct
    note_bits or_bit set_bit to_uint8 maybe_copy
decoded_run = refl

abbrev title : Metadata
title = record { uuid = 5 ∷ []; sequence = 0; start_time = 1 }

abbrev titled : ArchivalRecord
titled = record { timestamp = 1; raw_idm = none; attributes = []; metadata = some title }

abbrev two_decoded : List (Option Metadata × Snapshot)
two_decoded =
    (some title, blank 1)
    ∷ (none, record (blank stand_in_time) { inet_diag_msg = some (view hex_idm) })
    ∷ []

two_decoded-Decode : Decode (titled ∷ bare ∷ []) two_decoded
unfolding decode decode_idm parse rta_align_of decode_attrs
two_decoded-Decode = (refl, (refl, tt))

load_all_lem_example :
    (load_all none [] (map ok (titled ∷ bare ∷ []))
      ≡ ok (last_metadata none two_decoded, snapshots_of two_decoded))
    × (load_all none [] (map ok (titled ∷ bare ∷ []) ++ err parse_failed ∷ []) ≡ err parse_failed)
load_all_lem_example =
    load_all_lem (titled ∷ bare ∷ []) two_decoded parse_failed [] two_decoded-Decode (λ h. cc h)
