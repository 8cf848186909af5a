-- ===== src/Tests/Rounds.antt =====
-- The saver on whole blocks, and the marshaller.
use tcp_info.Base.Assoc.{lookup, insert, delete}
use tcp_info.Base.{
  ltb, ℕ, replicate, Result, ◌==◌, if◌then◌else◌, inr, ◌≡◌, ◌≢◌, ◌≤◌, ◌<◌, ◌⊎◌, refl, arith, List,
  [], ◌∷◌, ◌++◌, length, none, some, ok,
}
use tcp_info.Bytes.Write.{write}
use tcp_info.Bytes.{Bytes, visible, le_value, be_from, equal, to_le}
use tcp_info.Cache.{update, update_at, drop_evicted, end_cycle}
use tcp_info.Inetdiag.Anon.{anonymize}
use tcp_info.Inetdiag.Ip.{
  ip, is_ipv6, any_nonzero, is_local, to4, ip_equal, is_loopback, is_multicast, is_unspecified,
  is_link_local_unicast,
}
use tcp_info.Inetdiag.SockId.{ip_string, get_sock_id}
use tcp_info.Inetdiag.{parse, view, rta_align_of, split_inet_diag_msg}
use tcp_info.Netlink.Attr.{parse_route_attr}
use tcp_info.Netlink.Record.{
  get_stats, attribute_table, finish_record, touches_local, record_unless_local,
  make_archival_record,
}
use tcp_info.Netlink.{ArchivalRecord, MessageBlock, idm_bytes}
use tcp_info.Saver.Marshal.ReadBack.{file}
use tcp_info.Saver.Marshal.{Output, All, marshal_message, marshal_task, run_marshaller}
use tcp_info.Saver.Archive.{archive}
use tcp_info.Cache.Rounds.{key}
use tcp_info.Saver.Swap.{is_change}
use tcp_info.Netlink.Compare.{
  compare, compare_parsed, compare_info, compare_lengths, compare_attributes, compare_entry,
  counters_differ, parts_differ, state_differs, parse_or_fail,
}
use tcp_info.Saver.Archive.Loop.{message_saver_loop-archive}
use tcp_info.Saver.Archive.Queued.{Works}
use tcp_info.Saver.Archive.Sent.{sent}
use tcp_info.Saver.Files.Loop.{Marshals, message_saver_loop-Marshals}
use tcp_info.Inetdiag.SockId.{cookie_of}
use tcp_info.Saver.Queue.{
  send_on, connect, close_expired, rotate, rotate_if_closed, deliver, queue_on, queue_parsed, queue,
}
use tcp_info.Netlink.Attr.Round.{encode_attr, encode_attrs}
use tcp_info.Netlink.Record.Formed.{IsFormed}
use tcp_info.Saver.Rounds.Loop.{AllBlocks, handle_blocks-IsMetered}
use tcp_info.Saver.Queue.Tidy.{AllTidy}
use tcp_info.Saver.Rounds.Writers.{message_saver_loop-AllTidy}
use tcp_info.Saver.Rounds.Closed.{AllClosed, message_saver_loop-AllClosed}
use tcp_info.Saver.Rounds.Sound.{IsSound}
use tcp_info.Saver.Rounds.Report.{IsMetered, sum, report_both-Moves, Moves, all_bytes}
use tcp_info.Saver.Rounds.{
  Totals, no_bytes, report, grand_total, report_both, retire_all, handle_block, handle_blocks,
  message_saver_loop,
}
use tcp_info.Saver.Swap.{
  store_closing, note_closing, queue_new, swap_old, swap_and_queue, handle_message, handle_messages,
}
use tcp_info.Saver.{Writer, Task, Saver, new_saver, add64}
use tcp_info.Tests.Data.{calm, tcp_info_bytes, bare, zeros, length-zeros, hex_idm, message}
use tcp_info.Tests.Savers.{given, running, running-IsComplete}

abbrev zero_totals : Totals
zero_totals = record {
  reported = no_bytes;
  closed = no_bytes;
  last_report_time = 0;
  sent_rates = [];
  received_rates = [];
}

-- TCP_INFO with five bytes received and nine sent.
abbrev pub info_attr : Bytes
info_attr = 236 ∷ 0 ∷ 2 ∷ 0 ∷ visible (tcp_info_bytes 5 9)

abbrev one_block : MessageBlock
one_block = record {
  v4_time = 2_000_000_000;
  v4_messages = [];
  v6_time = 2_000_000_000;
  v6_messages = some (message (hex_idm ++ info_attr)) ∷ none ∷ [];
}

abbrev after_blocks : Totals × Saver
after_blocks =
    given (handle_blocks calm (one_block ∷ []) zero_totals (new_saver 2)) (zero_totals, new_saver 0)

after_blocks_run :
    (handle_blocks calm (one_block ∷ []) zero_totals (new_saver 2) ≡ ok after_blocks)
    × (after_blocks.0.sent_rates ≡ 72 ∷ [])
    × (length after_blocks.1.connections ≡ 1)
unfolding handle_blocks handle_block handle_messages handle_message make_archival_record
    split_inet_diag_msg record_unless_local touches_local is_local is_loopback is_multicast
    is_unspecified is_link_local_unicast to4 ip_equal equal is_ipv6 any_nonzero finish_record
    parse_route_attr attribute_table queue_new end_cycle retire_all report_both report grand_total
    delete lookup swap_and_queue update update_at drop_evicted swap_old note_closing store_closing
    queue queue_parsed queue_on connect close_expired deliver rotate_if_closed rotate send_on parse
    view rta_align_of le_value be_from get_stats to_le add64 insert get_sock_id ip_string ip
after_blocks_run = (refl, refl, refl)

zero_totals-IsMetered : IsMetered zero_totals
unfolding sum
zero_totals-IsMetered = record { sent_sum = refl; received_sum = refl }

info_items : List (ℕ × Bytes)
info_items = (2, visible (tcp_info_bytes 5 9)) ∷ []

pub info_message-IsFormed : IsFormed (message (hex_idm ++ info_attr))
unfolding info_items encode_attrs encode_attr to_le rta_align_of
info_message-IsFormed = record {
  raw = hex_idm;
  spare = 0xff ∷ [];
  items = info_items;
  whole = refl;
  fits = ((omega arith, omega arith), tt);
  widths = (inr (omega arith), tt);
  bytes = refl;
  ends = refl;
}

one_block-AllBlocks : AllBlocks (one_block ∷ [])
one_block-AllBlocks = ((tt, (inr info_message-IsFormed, (tt, tt))), tt)

running-IsSound : IsSound running
unfolding lookup
running-IsSound = record {
  current_complete = λ k o e. absurd (cc e);
  previous_complete = running-IsComplete;
  has_chan = omega arith;
}

handle_blocks-IsMetered_example :
    (out : Totals × Saver) × (handle_blocks calm (one_block ∷ []) zero_totals running ≡ ok out)
    × IsMetered out.0
handle_blocks-IsMetered_example =
    handle_blocks-IsMetered calm (one_block ∷ []) zero_totals running one_block-AllBlocks
      running-IsSound zero_totals-IsMetered

message_saver_loop-AllTidy_example :
    (svr : Saver) × (message_saver_loop calm (one_block ∷ one_block ∷ []) (new_saver 3) ≡ ok svr)
    × AllTidy svr.marshal_chans
message_saver_loop-AllTidy_example =
    message_saver_loop-AllTidy calm 2 (one_block ∷ one_block ∷ [])
      (one_block-AllBlocks.0, (one_block-AllBlocks.0, tt))

message_saver_loop-AllClosed_example :
    (svr : Saver) × (message_saver_loop calm (one_block ∷ one_block ∷ []) (new_saver 3) ≡ ok svr)
    × AllClosed svr.marshal_chans svr.opened
message_saver_loop-AllClosed_example =
    message_saver_loop-AllClosed calm (λ tick ks k h. h) 2 (one_block ∷ one_block ∷ [])
      (one_block-AllBlocks.0, (one_block-AllBlocks.0, tt))

abbrev reported_once : Totals
reported_once =
    report_both 2 (record { sent = 2; received = 1 }) no_bytes no_bytes no_bytes zero_totals

report_both-Moves_example :
    ((2 ≤ 0) × (reported_once ≡ zero_totals))
    ⊎ ((0 < 2)
        × (reported_once.last_report_time ≡ 2)
        × Moves 0 (all_bytes 0 0 2 0) reported_once.reported.sent [] reported_once.sent_rates
        × Moves 0
            (all_bytes 0 0 1 0)
            reported_once.reported.received
            []
            reported_once.received_rates)
report_both-Moves_example =
    report_both-Moves 2 (record { sent = 2; received = 1 }) no_bytes no_bytes no_bytes zero_totals
      (omega arith) (omega arith)

abbrev output_file : Writer
output_file = record { file = record { date = 0; uuid = 5 ∷ []; sequence = 0 }; serial = 0 }

abbrev tasks : List Task
tasks =
    record { message = some bare; writer = some output_file }
    ∷ record { message = none; writer = some output_file }
    ∷ []

-- A stand-in for the JSON text.
abbrev text : ArchivalRecord → Bytes
text r = idm_bytes r

abbrev outputs : List Output
outputs = given (run_marshaller zeros text tasks) []

-- The record, a newline, the end of the file.
outputs_run : (run_marshaller zeros text tasks ≡ ok outputs) × (length outputs ≡ 3)
unfolding run_marshaller marshal_task marshal_message anonymize parse view rta_align_of le_value
    write
outputs_run = (refl, refl)

message_saver_loop-Marshals_example :
    (svr : Saver) × (message_saver_loop calm (one_block ∷ one_block ∷ []) (new_saver 3) ≡ ok svr)
    × All (Marshals calm zeros text) svr.marshal_chans
message_saver_loop-Marshals_example =
    message_saver_loop-Marshals calm zeros text length-zeros 2 (one_block ∷ one_block ∷ [])
      (one_block-AllBlocks.0, (one_block-AllBlocks.0, tt))

-- A stand-in for JSON that keeps the timestamp, and a scanner of lines.
abbrev tally : ArchivalRecord → Bytes
tally r = replicate r.timestamp 0x78

abbrev untally : Bytes → Result ArchivalRecord
untally line = ok (record bare { timestamp = length line })

abbrev put_in_front : ℕ → List Bytes → List Bytes
put_in_front b [] = (b ∷ []) ∷ []
put_in_front b (line ∷ lines) = (b ∷ line) ∷ lines

abbrev scan_lines : Bytes → List Bytes
scan_lines [] = []
scan_lines (b ∷ bs) = let rest = scan_lines bs in if b == 10 then [] ∷ rest else put_in_front b rest

-- The lines in front of the first that is too long.
abbrev short_lines : List Bytes → List Bytes
short_lines [] = []
short_lines (line ∷ lines) =
    let rest = short_lines lines in if ltb (length line) 65_536 then line ∷ rest else []

abbrev scan_short : Bytes → List Bytes
scan_short b = short_lines (scan_lines b)

abbrev reread : ArchivalRecord → ArchivalRecord
reread r = record bare { timestamp = length (tally r) }

calm-Works : Works calm
calm-Works = record { dirs = λ t. refl; files = λ t. refl }

abbrev hex_cookie : ℕ
hex_cookie = cookie_of (view hex_idm).id

hex_cookie_nonzero : hex_cookie ≢ 0
unfolding view le_value
hex_cookie_nonzero = omega arith

message_saver_loop-archive_example :
    (svr : Saver) × (message_saver_loop calm (one_block ∷ one_block ∷ []) (new_saver 3) ≡ ok svr)
    × (sent hex_cookie svr.marshal_chans ≡ archive hex_cookie (one_block ∷ one_block ∷ []))
message_saver_loop-archive_example =
    message_saver_loop-archive calm calm-Works hex_cookie hex_cookie_nonzero 2
      (one_block ∷ one_block ∷ []) (one_block-AllBlocks.0, (one_block-AllBlocks.0, tt))

-- The second block has the record of the first, which did not change.
archive_run : length (archive hex_cookie (one_block ∷ one_block ∷ [])) ≡ 1
unfolding make_archival_record split_inet_diag_msg record_unless_local touches_local is_local
    is_loopback is_multicast is_unspecified is_link_local_unicast to4 ip_equal equal is_ipv6
    any_nonzero finish_record parse_route_attr attribute_table parse view rta_align_of le_value
    be_from compare compare_parsed compare_info compare_lengths compare_attributes compare_entry
    counters_differ parts_differ state_differs key to_le ip ip_string get_stats parse_or_fail
    is_change
archive_run = refl
