-- ===== src/Saver/Swap/Closing.antt =====
-- The accounting of closing connections: `ClosingTotals` against `ClosingStats`.
use tcp_info.Base.Assoc.{
  lookup, Distinct, insert-Distinct, sum_of, sum_of-insert_new, sum_of-insert_old,
}
use tcp_info.Base.{ℕ, ◌+◌, ◌%◌, ◌^◌, ◌≡◌, none, some, arith, ok, Bool-cases, false, inl, inr}
use tcp_info.Cache.Rounds.{key}
use tcp_info.Cache.{Cache}
use tcp_info.Saver.Swap.Keeps.{swap_and_queue-keeps}
use tcp_info.Netlink.Record.{has_diag_info, get_stats}
use tcp_info.Netlink.{ArchivalRecord}
use tcp_info.Saver.Queue.Frame.{Frame, queue-Frame}
use tcp_info.Netlink.Compare.Total.{IsComplete}
use tcp_info.Saver.Swap.Total.{swap_and_queue_total}
use tcp_info.Saver.Swap.{store_closing, note_closing, swap_and_queue}
use tcp_info.Saver.{Os, Stats, TcpStats, Saver, add64}

abbrev pub pending_sent : Saver → ℕ
pending_sent svr = sum_of (λ st. st.sent) svr.closing_stats

abbrev pub pending_received : Saver → ℕ
pending_received svr = sum_of (λ st. st.received) svr.closing_stats

-- The totals are the sums of the entries, as `uint64`, and each connection has one entry at most.
pub record IsBalanced (svr : Saver) : Type 0 where
  pub one_each : Distinct svr.closing_stats
  pub sent_sum : svr.closing_totals.sent ≡ pending_sent svr % 2 ^ 64
  pub received_sum : svr.closing_totals.received ≡ pending_received svr % 2 ^ 64

add64-mod : (a b : ℕ) → add64 (a % 2 ^ 64) b ≡ (b + a) % 2 ^ 64
unfolding add64
add64-mod a b = omega arith

-- An entry for a connection that has none pending.
pub store_closing-IsBalanced :
    (cookie : ℕ) (old : ArchivalRecord) (svr : Saver)
    → IsBalanced svr
    → lookup cookie svr.closing_stats ≡ none
    → IsBalanced (store_closing cookie old svr)
unfolding store_closing
store_closing-IsBalanced cookie old svr b h =
    let st : TcpStats = record { sent = (get_stats old).0; received = (get_stats old).1 } in
    record {
      one_each = insert-Distinct cookie st svr.closing_stats b.one_each;
      sent_sum = rw (
        b.sent_sum,
        add64-mod (pending_sent svr) st.sent,
        sum_of-insert_new (λ s. s.sent) cookie st svr.closing_stats h,
      );
      received_sum = rw (
        b.received_sum,
        add64-mod (pending_received svr) st.received,
        sum_of-insert_new (λ s. s.received) cookie st svr.closing_stats h,
      );
    }

-- A second entry for a connection that still has one replaces it, and the replaced bytes stay in the
-- totals with no entry that could ever take them out again.
pub store_closing_again :
    (cookie : ℕ) (old : ArchivalRecord) (st : TcpStats) (svr : Saver)
    → IsBalanced svr
    → lookup cookie svr.closing_stats ≡ some st
    → let svr' = store_closing cookie old svr in
      (svr'.closing_totals.sent ≡ (pending_sent svr' + st.sent) % 2 ^ 64)
      × (svr'.closing_totals.received ≡ (pending_received svr' + st.received) % 2 ^ 64)
unfolding store_closing
store_closing_again cookie old st svr b h =
    let new : TcpStats = record { sent = (get_stats old).0; received = (get_stats old).1 } in
    (
      rw (
        b.sent_sum,
        add64-mod (pending_sent svr) new.sent,
        sum_of-insert_old (λ s. s.sent) cookie new st svr.closing_stats h,
      ),
      rw (
        b.received_sum,
        add64-mod (pending_received svr) new.received,
        sum_of-insert_old (λ s. s.received) cookie new st svr.closing_stats h,
      ),
    )

-- What is balanced depends on the closing fields alone.
pub IsBalanced-Frame : {svr svr' : Saver} → Frame svr svr' → IsBalanced svr → IsBalanced svr'
IsBalanced-Frame f b = record {
  one_each = rw f.same_closing_stats b.one_each;
  sent_sum = rw (f.same_closing_totals, f.same_closing_stats) b.sent_sum;
  received_sum = rw (f.same_closing_totals, f.same_closing_stats) b.received_sum;
}

pub IsBalanced-stats :
    (svr : Saver) (s : Stats) → IsBalanced svr → IsBalanced (record svr { stats = s })
IsBalanced-stats svr s b = record {
  one_each = b.one_each;
  sent_sum = b.sent_sum;
  received_sum = b.received_sum;
}

IsBalanced-cache :
    (svr : Saver) (c : Cache) → IsBalanced svr → IsBalanced (record svr { cache = c })
IsBalanced-cache svr c b = record {
  one_each = b.one_each;
  sent_sum = b.sent_sum;
  received_sum = b.received_sum;
}

note_closing-IsBalanced :
    (cookie : ℕ) (pm old : ArchivalRecord) (svr : Saver)
    → IsBalanced svr
    → ((has_diag_info pm ≡ false) → lookup cookie svr.closing_stats ≡ none)
    → IsBalanced (note_closing cookie pm old svr)
unfolding note_closing
note_closing-IsBalanced cookie pm old svr b h = elim (Bool-cases (has_diag_info pm)) [
  | inl has ↦ rw has b
  | inr not ↦ rw not (elim (Bool-cases (has_diag_info old)) [
    | inl had ↦ rw had (store_closing-IsBalanced cookie old svr b (h not))
    | inr never ↦ rw never b
  ])
]

swapped-IsBalanced :
    (os : Os) (svr : Saver) (pm : ArchivalRecord) (svr' : Saver)
    → IsBalanced svr
    → ((k : ℕ) → key pm ≡ some k → has_diag_info pm ≡ false → lookup k svr.closing_stats ≡ none)
    → swap_and_queue os svr pm ≡ ok svr'
    → IsBalanced svr'
swapped-IsBalanced os svr pm svr' b free =
    swap_and_queue-keeps os IsBalanced (λ a m out e. IsBalanced-Frame (queue-Frame os a m e))
      (λ a s. IsBalanced-stats a s) svr pm svr' b
      (λ c old e. IsBalanced-cache _ c (IsBalanced-stats svr _ b))
      λ k old c is q. note_closing-IsBalanced k pm old _ q (free k is)

-- `swapAndQueue` ends on a complete record, while the cache's records are complete, and keeps the
-- totals balanced, if a record without DIAG_INFO comes only while its connection has no entry
-- pending. A record is complete if its message parses and its TCP_INFO, if it has one, reaches up
-- to BusyTime.
pub swap_and_queue-IsBalanced :
    (os : Os) (svr : Saver) (pm : ArchivalRecord)
    → IsBalanced svr
    → IsComplete pm
    → ((k : ℕ) (o : ArchivalRecord) → lookup k svr.cache.previous ≡ some o → IsComplete o)
    → ((k : ℕ) → key pm ≡ some k → has_diag_info pm ≡ false → lookup k svr.closing_stats ≡ none)
    → (svr' : Saver) × (swap_and_queue os svr pm ≡ ok svr') × IsBalanced svr'
swap_and_queue-IsBalanced os svr pm b h cached free =
    let (svr', done) = swap_and_queue_total os svr pm h cached in
    (svr', done, swapped-IsBalanced os svr pm svr' b free done)
