-- ===== src/Saver/Swap/Total.antt =====
-- When `swapAndQueue` cannot panic.
use tcp_info.Base.Assoc.{lookup}
use tcp_info.Base.{ℕ, ◌≤◌, ◌≡◌, refl, Option, none, some, ok, Bool-cases, inl, inr, length}
use tcp_info.Cache.{update, update_at}
use tcp_info.Inetdiag.Layout.{parse_long}
use tcp_info.Inetdiag.SockId.{cookie_of}
use tcp_info.Inetdiag.{InetDiagMsg, view}
use tcp_info.Netlink.Compare.Total.{IsComplete, compare_total}
use tcp_info.Netlink.{ArchivalRecord, idm_bytes}
use tcp_info.Saver.Queue.{queue, queue_parsed}
use tcp_info.Saver.Swap.{
  logged, is_change, count_total, count_new, count_diff, queue_new, queue_changed, queue_diff,
  swap_old, swap_and_queue, note_closing,
}
use tcp_info.Saver.{Os, Saver}

module _ (os : Os) where
  logged_total :
      (svr : Saver) (pm : ArchivalRecord)
      → 72 ≤ length (idm_bytes pm)
      → logged (queue os svr pm) ≡ ok (queue_parsed os (view (idm_bytes pm)) svr pm).0
  unfolding queue
  logged_total svr pm h = rw (queue, parse_long (idm_bytes pm) h)

  queue_diff_total :
      (m : InetDiagMsg) (pm old : ArchivalRecord) (svr : Saver)
      → IsComplete pm
      → IsComplete old
      → (svr' : Saver) × (queue_diff os m pm old svr ≡ ok svr')
  unfolding queue_diff queue_changed
  queue_diff_total m pm old svr h k =
      let (change, e) = compare_total pm old h k in
      let noted = note_closing (cookie_of m.id) pm old svr in
      let sent = logged_total (count_diff noted) pm h.long in
      elim (Bool-cases (is_change change)) [
        | inl changed ↦ (
          (queue_parsed os (view (idm_bytes pm)) (count_diff noted) pm).0,
          rw (queue_diff, e, queue_changed, changed) sent,
        )
        | inr same ↦ (noted, rw (queue_diff, e, queue_changed, same) refl)
      ]

  swap_old_total :
      (old : Option ArchivalRecord) (pm : ArchivalRecord) (svr : Saver)
      → IsComplete pm
      → ((o : ArchivalRecord) → old ≡ some o → IsComplete o)
      → (svr' : Saver) × (swap_old os old pm svr ≡ ok svr')
  unfolding swap_old queue_new
  swap_old_total none pm svr h k = (
    (queue_parsed os (view (idm_bytes pm)) (count_new svr) pm).0,
    logged_total (count_new svr) pm h.long,
  )
  swap_old_total (some old) pm svr h k =
      let (svr', e) = queue_diff_total (view (idm_bytes pm)) pm old svr h (k old refl) in
      (svr', rw (swap_old, parse_long (idm_bytes pm) h.long) e)

  -- On a complete record, with complete records in the cache, it does not panic.
  pub swap_and_queue_total :
      (svr : Saver) (pm : ArchivalRecord)
      → IsComplete pm
      → ((k : ℕ) (o : ArchivalRecord) → lookup k svr.cache.previous ≡ some o → IsComplete o)
      → (svr' : Saver) × (swap_and_queue os svr pm ≡ ok svr')
  unfolding swap_and_queue update update_at
  swap_and_queue_total svr pm h k =
      let cookie = cookie_of (view (idm_bytes pm)).id in
      let (svr', e) =
        swap_old_total (lookup cookie svr.cache.previous) pm
          (record (count_total svr) { cache = (update_at cookie pm svr.cache).0 }) h (k cookie) in
      (svr', rw (swap_and_queue, update, parse_long (idm_bytes pm) h.long) e)
