-- ===== src/Saver/Swap.antt =====
-- saver/saver.go `swapAndQueue` and `handleType`.
pub mod Closing
pub mod Keeps
pub mod Total
use tcp_info.Base.Assoc.{lookup, insert, delete}
use tcp_info.Base.{
  ℕ, suc, ◌+◌, Bool, true, false, List, [], ◌∷◌, Option, none, some, Result, ok, err, panic, Error,
  if◌then◌else◌, ◌>>=◌,
}
use tcp_info.Cache.{Cache, update}
use tcp_info.Inetdiag.SockId.{cookie_of}
use tcp_info.Inetdiag.{InetDiagMsg, parse}
use tcp_info.Netlink.Compare.{ChangeType, no_major_change, compare}
use tcp_info.Netlink.Record.{make_archival_record, has_diag_info, get_stats}
use tcp_info.Netlink.{NetlinkMessage, ArchivalRecord, idm_bytes}
use tcp_info.Saver.Queue.{queue}
use tcp_info.Saver.{Os, TcpStats, Saver, add64}

abbrev pub count_total : Saver → Saver
count_total svr = record svr {
  stats = record (svr.stats) { total_count = suc svr.stats.total_count };
}

abbrev pub count_new : Saver → Saver
count_new svr = record svr { stats = record (svr.stats) { new_count = suc svr.stats.new_count } }

abbrev pub count_diff : Saver → Saver
count_diff svr = record svr { stats = record (svr.stats) { diff_count = suc svr.stats.diff_count } }

-- The statistics of the last record with DIAG_INFO are put by for the end of the connection.
unfoldable pub store_closing : ℕ → ArchivalRecord → Saver → Saver
store_closing cookie old svr =
    let (s_old, r_old) = get_stats old in
    record svr {
      closing_stats = insert cookie (record { sent = s_old; received = r_old }) svr.closing_stats;
      closing_totals = record {
        sent = add64 svr.closing_totals.sent s_old;
        received = add64 svr.closing_totals.received r_old;
      };
    }

unfoldable pub note_closing : ℕ → ArchivalRecord → ArchivalRecord → Saver → Saver
note_closing cookie pm old svr =
    if has_diag_info pm
    then svr
    else if has_diag_info old
    then store_closing cookie old svr
    else svr

-- `change > netlink.NoMajorChange`.
unfoldable pub is_change : ChangeType → Bool
is_change no_major_change = false
is_change _ = true

-- An error of `queue` is logged, and what it has done stays.
abbrev pub logged : Result (Saver × Option Error) → Result Saver
logged r = do (svr, failed) ← r; ok svr

module _ (os : Os) where
  -- A cookie that the round before did not have.
  unfoldable pub queue_new : ArchivalRecord → Saver → Result Saver
  queue_new pm svr = logged (queue os (count_new svr) pm)

  unfoldable pub queue_changed : ChangeType → ArchivalRecord → Saver → Result Saver
  queue_changed change pm svr =
      if is_change change then logged (queue os (count_diff svr) pm) else ok svr

  -- One that it had.
  unfoldable pub queue_diff : InetDiagMsg → ArchivalRecord → ArchivalRecord → Saver → Result Saver
  queue_diff pm_idm pm old svr =
      let noted = note_closing (cookie_of pm_idm.id) pm old svr in
      elim (compare pm (some old)) [
        | ok change ↦ queue_changed change pm noted
        | err e ↦ ok noted
        | panic ↦ panic
      ]

  unfoldable pub swap_old : Option ArchivalRecord → ArchivalRecord → Saver → Result Saver
  swap_old none pm svr = queue_new pm svr
  swap_old (some old) pm svr = elim (parse (idm_bytes pm)) [
    | ok pm_idm ↦ queue_diff pm_idm pm old svr
    | err e ↦ ok svr
    | panic ↦ panic
  ]

  -- `swapAndQueue`.
  unfoldable pub swap_and_queue : Saver → ArchivalRecord → Result Saver
  swap_and_queue svr pm =
      let counted = count_total svr in
      elim (update svr.cache pm) [
        | ok (c, old) ↦ swap_old old pm (record counted { cache = c })
        | err e ↦ ok counted
        | panic ↦ panic
      ]

  -- One message of `handleType`: what it adds to the totals, and the saver after it.
  unfoldable pub handle_message :
      ℕ → TcpStats → Saver → Option NetlinkMessage → Result (TcpStats × Saver)
  handle_message t live svr none = ok (live, svr)
  handle_message t live svr (some msg) = elim (make_archival_record msg true) [
    | ok none ↦ ok (live, svr)
    | ok (some ar) ↦ (do
      let stamped = record ar { timestamp = t }
      let counts = get_stats stamped
      svr' ← swap_and_queue svr stamped
      ok (
        record { sent = add64 live.sent counts.0; received = add64 live.received counts.1 },
        svr',
      ))
    | err e ↦ ok (live, svr)
    | panic ↦ panic
  ]

  unfoldable pub handle_messages :
      ℕ → TcpStats → Saver → List (Option NetlinkMessage) → Result (TcpStats × Saver)
  handle_messages t live svr [] = ok (live, svr)
  handle_messages t live svr (msg ∷ msgs) = do
    (live', svr') ← handle_message t live svr msg
    handle_messages t live' svr' msgs

  -- `handleType`: bytes sent and received on all connections that it keeps, and the saver.
  abbrev pub handle_type : ℕ → List (Option NetlinkMessage) → Saver → Result (TcpStats × Saver)
  handle_type t msgs svr = handle_messages t (record { sent = 0; received = 0 }) svr msgs
