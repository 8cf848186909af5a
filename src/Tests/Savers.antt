-- ===== src/Tests/Savers.antt =====
-- The saver on single records.
use tcp_info.Base.Assoc.{lookup, insert, delete, sum_of}
use tcp_info.Base.{
  ℕ, ℕ_discrete, subst, ◌+◌, ◌%◌, ◌^◌, ◌≡◌, refl, arith, [], ◌∷◌, some, Result, ok, err, panic,
}
use tcp_info.Bytes.{le_value, be_from, to_le}
use tcp_info.Cache.{update, update_at, drop_evicted}
use tcp_info.Inetdiag.Ip.{ip}
use tcp_info.Inetdiag.SockId.{ip_string, get_sock_id}
use tcp_info.Inetdiag.{parse, view, rta_align_of}
use tcp_info.Netlink.Compare.{compare, compare_parsed, parse_or_fail}
use tcp_info.Netlink.Record.{get_stats}
use tcp_info.Netlink.{idm_bytes, ArchivalRecord}
use tcp_info.Netlink.Compare.Total.{IsComplete}
use tcp_info.Saver.Queue.{
  send_on, connect, close_expired, rotate, rotate_if_closed, deliver, queue_on, queue_parsed, queue,
}
use tcp_info.Saver.Swap.Closing.{
  IsBalanced, pending_sent, pending_received, store_closing_again, swap_and_queue-IsBalanced,
}
use tcp_info.Saver.Swap.{
  store_closing, note_closing, is_change, queue_changed, queue_diff, swap_old, swap_and_queue,
}
use tcp_info.Saver.{Saver, new_saver, add64}
use tcp_info.Tests.Data.{calm, with_info, bare}

-- What a run gives.
abbrev pub given {ℓ} : {A : Type ℓ} → Result A → A → A
given (ok a) d = a
given (err e) d = d
given panic d = d

-- Two marshallers, and a round behind it in which cookie 5 had its statistics.
abbrev pub running : Saver
running = record (new_saver 2) {
  cache = record { current = []; previous = (5, with_info 1 2) ∷ []; cycles = 1 };
}

running-IsBalanced : IsBalanced running
unfolding sum_of
running-IsBalanced = record { one_each = tt; sent_sum = refl; received_sum = refl }

abbrev swapped : Saver
swapped = given (swap_and_queue calm running bare) running

-- The record that goes out is put by.
swapped_run :
    (swap_and_queue calm running bare ≡ ok swapped)
    × (swapped.closing_stats ≡ (5, record { sent = 2; received = 1 }) ∷ [])
    × (swapped.stats.diff_count ≡ 1)
unfolding swap_and_queue update update_at drop_evicted swap_old queue_diff note_closing
    store_closing queue_changed is_change queue queue_parsed queue_on connect close_expired deliver
    rotate_if_closed rotate send_on parse view rta_align_of le_value be_from get_stats to_le add64
    lookup insert delete compare compare_parsed parse_or_fail get_sock_id ip_string ip
swapped_run = (refl, refl, refl)

pub running-IsComplete :
    (k : ℕ) (o : ArchivalRecord) → lookup k running.cache.previous ≡ some o → IsComplete o
unfolding lookup to_le
running-IsComplete k o e = elim (ℕ_discrete 5 k) [
  | yes five ↦
      let same : with_info 1 2 ≡ o = ground (arith, e) in
      subst IsComplete same (record { long = omega arith; wide = omega arith })
  | no other ↦ absurd (ground (arith, e))
]

swap_and_queue-IsBalanced_example :
    (svr : Saver) × (swap_and_queue calm running bare ≡ ok svr) × IsBalanced svr
unfolding lookup
swap_and_queue-IsBalanced_example =
    swap_and_queue-IsBalanced calm running bare running-IsBalanced
      (record { long = omega arith; wide = tt }) running-IsComplete (λ k is lacks. refl)

-- The same connection loses its statistics once more while the first ones are put by.
abbrev pending : Saver
pending = record running {
  closing_stats = (5, record { sent = 2; received = 1 }) ∷ [];
  closing_totals = record { sent = 2; received = 1 };
}

pending-IsBalanced : IsBalanced pending
unfolding sum_of lookup
pending-IsBalanced = record { one_each = (refl, tt); sent_sum = refl; received_sum = refl }

store_closing_again_example :
    ((store_closing 5 (with_info 3 4) pending).closing_totals.sent
      ≡ (pending_sent (store_closing 5 (with_info 3 4) pending) + 2) % 2 ^ 64)
    × ((store_closing 5 (with_info 3 4) pending).closing_totals.received
        ≡ (pending_received (store_closing 5 (with_info 3 4) pending) + 1) % 2 ^ 64)
unfolding lookup
store_closing_again_example =
    store_closing_again 5 (with_info 3 4) (record { sent = 2; received = 1 }) pending
      pending-IsBalanced refl

-- Six bytes in the totals, four of them with an entry.
store_closing_again_run :
    ((store_closing 5 (with_info 3 4) pending).closing_totals.sent ≡ 6)
    × (pending_sent (store_closing 5 (with_info 3 4) pending) ≡ 4)
unfolding sum_of lookup insert store_closing get_stats le_value to_le add64
store_closing_again_run = (refl, refl)

-- The connection of the cookie 5 has a file open.
abbrev leaving : Saver
leaving = record pending {
  connections =
      (
        5,
        record {
          inode = 0;
          id = get_sock_id (view (idm_bytes bare)).id;
          uid = 0;
          slice = [];
          start_time = 0;
          sequence = 1;
          expiration = 0;
          writer =
              some (record { file = record { date = 0; uuid = 5 ∷ []; sequence = 0 }; serial = 0 });
        },
      )
      ∷ [];
}
