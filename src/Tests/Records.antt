-- ===== src/Tests/Records.antt =====
-- Comparisons and the cache.
use tcp_info.Netlink.Record.Counters.{set_bytes_sent, set_bytes_received, set_counter, poke}
use tcp_info.Bytes.Write.{write, overwrite}
use tcp_info.Netlink.{ArchivalRecord}
use tcp_info.Tests.Savers.{given}
use tcp_info.Base.Assoc.{lookup, insert, delete}
use tcp_info.Base.{Option, ℕ, true, false, panic, ◌≡◌, ◌↔◌, refl, [], ◌∷◌, none, some, ok}
use tcp_info.Bytes.{le_value, equal, reslice, to_le}
use tcp_info.Cache.Keys.{IsValid, fresh, updated, cycled, Reachable-IsValid, key-anonymize_record}
use tcp_info.Cache.Rounds.{key, seen, latest, round, round_residual}
use tcp_info.Cache.{Cache, new_cache, update, update_at, drop_evicted, end_cycle}
use tcp_info.Inetdiag.{parse, view, rta_align_of}
use tcp_info.Netlink.Compare.Anon.{anonymize_record, compare-anonymize_record}
use tcp_info.Netlink.Compare.Quiet.{compare-quiet}
use tcp_info.Netlink.Compare.Significant.{Unchanged}
use tcp_info.Netlink.Compare.{
  no_major_change, no_tcp_info, previous_was_nil, state_or_counter_change, compare, compare_parsed,
  compare_info, compare_lengths, compare_attributes, compare_entry, counters_differ, state_differs,
  parts_differ, parse_or_fail,
}
use tcp_info.Netlink.Record.{get_stats}
use tcp_info.Tests.Data.{with_info, bare, zeros, length-zeros}

-- The bytes sent lie behind the fields that count, the bytes received among them.
compare_runs :
    (compare (with_info 5 9) (some (with_info 5 7)) ≡ ok no_major_change)
    × (compare (with_info 6 7) (some (with_info 5 7)) ≡ ok state_or_counter_change)
    × (compare bare (some (with_info 5 7)) ≡ ok no_tcp_info)
    × (compare bare none ≡ ok previous_was_nil)
unfolding compare parse_or_fail parse view rta_align_of le_value compare_parsed compare_info
    counters_differ state_differs parts_differ reslice equal compare_lengths compare_attributes
    compare_entry to_le
compare_runs = (refl, refl, refl, refl)

get_stats_run : get_stats (with_info 5 300) ≡ (300, 5)
unfolding get_stats le_value to_le
get_stats_run = refl

compare-quiet_example :
    (compare (with_info 5 9) (some (with_info 5 7)) ≡ ok no_major_change)
    ↔ Unchanged (with_info 5 7) (with_info 5 9)
compare-quiet_example = compare-quiet (with_info 5 9) (with_info 5 7)

compare-anonymize_record_example :
    (compare (with_info 6 9) (some (anonymize_record zeros (with_info 5 7)))
      ≡ compare (with_info 6 9) (some (with_info 5 7)))
    × (compare (anonymize_record zeros (with_info 6 9)) (some (with_info 5 7))
        ≡ compare (with_info 6 9) (some (with_info 5 7)))
    × (compare
          (anonymize_record zeros (with_info 6 9))
          (some (anonymize_record zeros (with_info 5 7)))
        ≡ compare (with_info 6 9) (some (with_info 5 7)))
compare-anonymize_record_example =
    compare-anonymize_record zeros length-zeros (with_info 6 9) (with_info 5 7)

round_residual_example :
    lookup 5 (round (round new_cache (with_info 1 2 ∷ [])).0 []).1 ≡ some (with_info 1 2)
unfolding seen latest key parse view rta_align_of le_value
round_residual_example = round_residual 5 new_cache (with_info 1 2 ∷ []) [] refl

-- A record of the cookie 5, a new round, and another one of it.
abbrev first_update : Cache × Option ArchivalRecord
first_update = (record { current = (5, bare) ∷ []; previous = []; cycles = 0 }, none)

abbrev second_update : Cache × Option ArchivalRecord
second_update = (record { current = (5, with_info 1 2) ∷ []; previous = []; cycles = 1 }, some bare)

updates_run :
    (update new_cache bare ≡ ok first_update)
    × (update (end_cycle first_update.0).0 (with_info 1 2) ≡ ok second_update)
unfolding update update_at drop_evicted end_cycle parse view rta_align_of le_value lookup insert
    delete
updates_run = (refl, refl)

Reachable-IsValid_example : IsValid second_update.0
Reachable-IsValid_example = Reachable-IsValid (
    updated (with_info 1 2) second_update (cycled (updated bare first_update fresh updates_run.0))
      updates_run.1)

key-anonymize_record_example : key (anonymize_record zeros bare) ≡ key bare
key-anonymize_record_example = key-anonymize_record zeros length-zeros bare

abbrev sent_more : ℕ × ArchivalRecord
sent_more = given (set_bytes_sent true 9 (with_info 1 2)) (0, bare)

set_bytes_run :
    (sent_more.0 ≡ 2) × (get_stats sent_more.1 ≡ (9, 1)) × (set_bytes_received false 9 bare ≡ panic)
unfolding set_counter poke write overwrite to_le get_stats le_value
set_bytes_run = (refl, refl, refl)
