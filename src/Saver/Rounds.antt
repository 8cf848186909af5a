-- ===== src/Saver/Rounds.antt =====
-- saver/saver.go `MessageSaverLoop` and `Close`.
pub mod Report
pub mod Ended
pub mod Retire
pub mod Sound
pub mod Loop
pub mod Keeps
pub mod Writers
pub mod Closed
use tcp_info.Base.Assoc.{lookup, delete}
use tcp_info.Base.{
  ℕ, suc, ◌+◌, ◌-◌, ◌*◌, ◌/◌, Bool, ◌||◌, List, [], ◌∷◌, ◌++◌, map, Option, none, some, Result, ok,
  ltb, if◌then◌else◌, ◌>>=◌,
}
use tcp_info.Cache.{Records, end_cycle}
use tcp_info.Netlink.Record.{has_diag_info, get_stats}
use tcp_info.Netlink.{ArchivalRecord, MessageBlock}
use tcp_info.Saver.Queue.{end_conn, ticked}
use tcp_info.Saver.Swap.{handle_type}
use tcp_info.Saver.{Os, TcpStats, Saver, add64, sub64}

-- The loop's own variables, with what it hands to the two rate histograms. `last_report_time` is in
-- seconds since the zero time.
pub record Totals : Type 0 where
  pub reported : TcpStats
  pub closed : TcpStats
  pub last_report_time : ℕ
  pub sent_rates : List ℕ
  pub received_rates : List ℕ

abbrev pub no_bytes : TcpStats
no_bytes = record { sent = 0; received = 0 }

-- The statistics of a connection that has gone without DIAG_INFO: those put by, which are then taken
-- out of the closing totals.
unfoldable pub take_closing : ℕ → Saver → TcpStats × Saver
take_closing cookie svr = elim (lookup cookie svr.closing_stats) [
  | none ↦ (no_bytes, svr)
  | some st ↦ (
    st,
    record svr {
      closing_stats = delete cookie svr.closing_stats;
      closing_totals = record {
        sent = sub64 svr.closing_totals.sent st.sent;
        received = sub64 svr.closing_totals.received st.received;
      };
    },
  )
]

unfoldable pub final_stats : ℕ → ArchivalRecord → Saver → TcpStats × Saver
final_stats cookie ar svr =
    if has_diag_info ar
    then (record { sent = (get_stats ar).0; received = (get_stats ar).1 }, svr)
    else take_closing cookie svr

abbrev pub count_expired : Saver → Saver
count_expired svr = record svr {
  stats = record (svr.stats) { expired_count = suc svr.stats.expired_count };
}

-- 10 * maxSwitchSpeed / 8, in bytes.
abbrev pub max_step : ℕ
max_step = 12_500_000_000

-- One of the two reports: the total that is reported from now on, and the rates observed.
unfoldable pub report : ℕ → ℕ → List ℕ → ℕ × List ℕ
report total reported rates =
    if ltb (add64 max_step reported) total || ltb total reported
    then (reported, rates)
    else (total, rates ++ (8 * (total - reported)) ∷ [])

-- `closed + svr.ClosingTotals + s4 + s6`.
unfoldable pub grand_total : ℕ → ℕ → ℕ → ℕ → ℕ
grand_total closed closing v4 v6 = add64 (add64 (add64 closed closing) v4) v6

-- The report of both totals, once a second.
unfoldable pub report_both : ℕ → TcpStats → TcpStats → TcpStats → TcpStats → Totals → Totals
report_both seconds closing v4 v6 closed totals =
    let total_sent = grand_total closed.sent closing.sent v4.sent v6.sent in
    let total_received = grand_total closed.received closing.received v4.received v6.received in
    let (sent, sent_rates) = report total_sent totals.reported.sent totals.sent_rates in
    let (received, received_rates) =
      report total_received totals.reported.received totals.received_rates in
    if ltb totals.last_report_time seconds
    then record {
      reported = record { sent = sent; received = received };
      closed = closed;
      last_report_time = seconds;
      sent_rates = sent_rates;
      received_rates = received_rates;
    }
    else record totals { closed = closed }

module _ (os : Os) where
  -- One connection that is left over at the end of the cycle.
  unfoldable pub retire : ℕ → ArchivalRecord → TcpStats → Saver → Result (TcpStats × Saver)
  retire cookie ar closed svr = do
    let (st, svr1) = final_stats cookie ar svr
    svr2 ← end_conn os cookie svr1
    ok (
      record { sent = add64 closed.sent st.sent; received = add64 closed.received st.received },
      count_expired svr2,
    )

  unfoldable pub retire_all : Records → TcpStats → Saver → Result (TcpStats × Saver)
  retire_all [] closed svr = ok (closed, svr)
  retire_all ((cookie, ar) ∷ residual) closed svr = do
    (closed', svr') ← retire cookie ar closed svr
    retire_all residual closed' svr'

  -- The body of the loop, on one block of messages.
  unfoldable pub handle_block : MessageBlock → Totals → Saver → Result (Totals × Saver)
  handle_block msgs totals svr = do
    (v4, svr1) ← handle_type os msgs.v4_time msgs.v4_messages svr
    (v6, svr2) ← handle_type os msgs.v6_time msgs.v6_messages svr1
    let (cache, residual) = end_cycle svr2.cache
    let svr3 = record (ticked svr2) { cache = cache }
    (closed, svr4) ← retire_all (os.order svr2.tick residual) totals.closed svr3
    ok (report_both (msgs.v4_time / 1_000_000_000) svr4.closing_totals v4 v6 closed totals, svr4)

  unfoldable pub end_all : List ℕ → Saver → Result Saver
  end_all [] svr = ok svr
  end_all (cookie ∷ cookies) svr = do svr' ← end_conn os cookie svr; end_all cookies svr'

  -- `Close`: every connection is ended. The channels are closed after that.
  unfoldable pub close : Saver → Result Saver
  close svr =
      end_all (os.key_order svr.tick (map (λ (c : ℕ × _). c.0) svr.connections)) (ticked svr)

  unfoldable pub handle_blocks : List MessageBlock → Totals → Saver → Result (Totals × Saver)
  handle_blocks [] totals svr = ok (totals, svr)
  handle_blocks (msgs ∷ blocks) totals svr = do
    (totals', svr') ← handle_block msgs totals svr
    handle_blocks blocks totals' svr'

  -- `MessageSaverLoop`, on the blocks that the channel gives until it is closed.
  unfoldable pub message_saver_loop : List MessageBlock → Saver → Result Saver
  message_saver_loop blocks svr = do
    (totals, svr') ←
        handle_blocks blocks
          (record {
            reported = no_bytes;
            closed = no_bytes;
            last_report_time = 0;
            sent_rates = [];
            received_rates = [];
          })
          svr
    close svr'
