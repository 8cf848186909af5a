-- ===== src/Saver/Swap/Keeps.antt =====
-- A rule for `swapAndQueue`: what its parts keep, it keeps.
use tcp_info.Base.{
  ℕ, ◌≡◌, Option, Error, none, some, ok, >>=-eq-ok, ok-injective, subst, Bool-cases, inl, inr,
  Result-cases,
}
use tcp_info.Cache.Rounds.{key}
use tcp_info.Cache.Keys.{key-parse}
use tcp_info.Cache.{Cache, update}
use tcp_info.Inetdiag.SockId.{cookie_of}
use tcp_info.Inetdiag.{InetDiagMsg, parse}
use tcp_info.Netlink.Compare.{ChangeType, compare}
use tcp_info.Netlink.{ArchivalRecord, idm_bytes}
use tcp_info.Saver.Queue.{queue}
use tcp_info.Saver.Swap.{
  note_closing, is_change, logged, count_total, count_new, count_diff, queue_new, queue_changed,
  queue_diff, swap_old, swap_and_queue,
}
use tcp_info.Saver.{Os, Stats, Saver}

module _ (os : Os) (P : Saver → Type 0)
    (queued : (a : Saver) (pm : ArchivalRecord) (out : Saver × Option Error)
      → queue os a pm ≡ ok out
      → P a
      → P out.0)
    (tally : (svr : Saver) (s : Stats) → P svr → P (record svr { stats = s })) where
  logged-keeps :
      (svr : Saver) (pm : ArchivalRecord) (svr' : Saver)
      → P svr
      → logged (queue os svr pm) ≡ ok svr'
      → P svr'
  logged-keeps svr pm svr' p h =
      let (out, e, last) = >>=-eq-ok (queue os svr pm) _ h in
      subst P (ok-injective last) (queued svr pm out e p)

  queue_changed-keeps :
      (change : ChangeType) (svr : Saver) (pm : ArchivalRecord) (svr' : Saver)
      → P svr
      → queue_changed os change pm svr ≡ ok svr'
      → P svr'
  unfolding queue_changed
  queue_changed-keeps change svr pm svr' p h = elim (Bool-cases (is_change change)) [
    | inl yes_change ↦
        logged-keeps (count_diff svr) pm svr' (tally svr _ p) (rw (yes_change, queue_changed) at h)
    | inr same ↦ subst P (ok-injective (rw (same, queue_changed) at h)) p
  ]

  queue_diff-keeps :
      (pm_idm : InetDiagMsg) (pm old : ArchivalRecord) (svr svr' : Saver)
      → P (note_closing (cookie_of pm_idm.id) pm old svr)
      → queue_diff os pm_idm pm old svr ≡ ok svr'
      → P svr'
  unfolding queue_diff
  queue_diff-keeps pm_idm pm old svr svr' p h = elim (Result-cases (compare pm (some old))) [
    | inl (change, e) ↦ queue_changed-keeps change _ pm svr' p (rw (e, queue_diff) at h)
    | inr (inl (e, failed)) ↦ subst P (ok-injective (rw (failed, queue_diff) at h)) p
    | inr (inr broken) ↦ cc (rw (broken, queue_diff) at h)
  ]

  swap_old-keeps :
      (old : Option ArchivalRecord) (pm : ArchivalRecord) (svr svr' : Saver)
      → P svr
      → ((k : ℕ) (o : ArchivalRecord) → key pm ≡ some k → P (note_closing k pm o svr))
      → swap_old os old pm svr ≡ ok svr'
      → P svr'
  unfolding swap_old queue_new
  swap_old-keeps none pm svr svr' p noted h = logged-keeps (count_new svr) pm svr' (tally svr _ p) h
  swap_old-keeps (some old) pm svr svr' p noted h = elim (Result-cases (parse (idm_bytes pm))) [
    | inl (m, e) ↦
        queue_diff-keeps m pm old svr svr' (noted (cookie_of m.id) old (key-parse pm m e))
          (rw (e, swap_old) at h)
    | inr (inl (e, failed)) ↦ subst P (ok-injective (rw (failed, swap_old) at h)) p
    | inr (inr broken) ↦ cc (rw (broken, swap_old) at h)
  ]

  -- What is left to the user of the rule is the cache after `Update` and what is put by for a closing
  -- connection.
  pub swap_and_queue-keeps :
      (svr : Saver) (pm : ArchivalRecord) (svr' : Saver)
      → P svr
      → ((c : Cache) (old : Option ArchivalRecord)
          → update svr.cache pm ≡ ok (c, old)
          → P (record (count_total svr) { cache = c }))
      → ((k : ℕ) (old : ArchivalRecord) (c : Cache)
          → key pm ≡ some k
          → P (record (count_total svr) { cache = c })
          → P (note_closing k pm old (record (count_total svr) { cache = c })))
      → swap_and_queue os svr pm ≡ ok svr'
      → P svr'
  unfolding swap_and_queue
  swap_and_queue-keeps svr pm svr' p cached noted h = elim (Result-cases (update svr.cache pm)) [
    | inl ((c, old), e) ↦
        let q = cached c old e in
        swap_old-keeps old pm (record (count_total svr) { cache = c }) svr' q
          (λ k o is. noted k o c is q) (rw (e, swap_and_queue) at h)
    | inr (inl (e, failed)) ↦
        subst P (ok-injective (rw (failed, swap_and_queue) at h)) (tally svr _ p)
    | inr (inr broken) ↦ cc (rw (broken, swap_and_queue) at h)
  ]
