-- ===== src/Saver/Archive/Swapped.antt =====
-- saver/saver.go `swapAndQueue` and `handleType`, against what is known of one connection.
use tcp_info.Base.Assoc.{lookup}
use tcp_info.Base.{
  ℕ, ◌<◌, ◌≡◌, ◌≢◌, refl, sym, ap, ◌∙◌, Bool, true, false, Bool-cases, inl, inr, [], ◌++◌, Option,
  none, some, arith, length, if◌then◌else◌, ok, ok-injective, Result-cases, subst, >>=-eq-ok,
}
use mathlib.Core.List.{append-nil}
use tcp_info.Cache.Rounds.{key, has_key, lookup-put_current, lookup-put_previous, update-key, put}
use tcp_info.Cache.Keys.{key-parse}
use tcp_info.Cache.{Cache, update, update_at}
use tcp_info.Inetdiag.SockId.{cookie_of}
use tcp_info.Inetdiag.{InetDiagMsg, parse}
use tcp_info.Netlink.Compare.{ChangeType, compare}
use tcp_info.Netlink.{ArchivalRecord, idm_bytes}
use tcp_info.Saver.Archive.Queued.{Works, if_of, queue-sent}
use tcp_info.Saver.Archive.Sent.{sent}
use tcp_info.Saver.Archive.{Known, is_worth, note}
use tcp_info.Saver.Queue.Frame.{queue-Frame}
use tcp_info.Saver.Queue.{queue}
use tcp_info.Saver.Swap.Keeps.{swap_and_queue-keeps}
use tcp_info.Saver.Swap.{
  note_closing, store_closing, is_change, logged, count_total, count_new, count_diff, queue_new,
  queue_changed, queue_diff, swap_old, swap_and_queue,
}
use tcp_info.Saver.{Os, Saver}

-- What the saver knows of a connection.
abbrev pub view : ℕ → Saver → Known
view k svr = record {
  fresh = lookup k svr.cache.current;
  before = lookup k svr.cache.previous;
  archived = sent k svr.marshal_chans;
}

-- From one saver to another what is known changes in this way, and there is a marshaller.
pub record Knows (k : ℕ) (f : Known → Known) (a b : Saver) : Type 0 where
  pub known : view k b ≡ f (view k a)
  pub has_chan : 0 < length b.marshal_chans

pub Known-path :
    (a b : Known) → a.fresh ≡ b.fresh → a.before ≡ b.before → a.archived ≡ b.archived → a ≡ b
Known-path a b f g h = ground arith

-- From `a` to `b` a record is archived, or nothing, and the cache stays.
record Archives (k : ℕ) (pm : ArchivalRecord) (is : Bool) (a b : Saver) : Type 0 where
  same_cache : b.cache ≡ a.cache
  more : sent k b.marshal_chans ≡ sent k a.marshal_chans ++ (if is then if_of k pm else [])

module _ (os : Os) (works : Works os) (k : ℕ) (pos : k ≢ 0) (pm : ArchivalRecord) where
  logged-Archives :
      (a b : Saver)
      → 0 < length a.marshal_chans
      → logged (queue os a pm) ≡ ok b
      → Archives k pm true a b
  logged-Archives a b h e =
      let (out, is, last) = >>=-eq-ok (queue os a pm) _ e in
      subst (Archives k pm true a) (ok-injective last) (record {
        same_cache = (queue-Frame os a pm is).same_cache;
        more = queue-sent os k a pm works pos h is;
      })

  Archives-none : (a b : Saver) → a ≡ b → Archives k pm false a b
  Archives-none a b same =
      subst (Archives k pm false a) same
        (record { same_cache = refl; more = sym (append-nil (sent k a.marshal_chans)) })

  queue_changed-Archives :
      (change : ChangeType) (a b : Saver)
      → 0 < length a.marshal_chans
      → queue_changed os change pm a ≡ ok b
      → Archives k pm (is_change change) a b
  unfolding queue_changed
  queue_changed-Archives change a b h e = elim (Bool-cases (is_change change)) [
    | inl changed ↦
        let done = logged-Archives (count_diff a) b h (rw (changed, queue_changed) at e) in
        rw changed (record { same_cache = done.same_cache; more = done.more })
    | inr same ↦ rw same (Archives-none a b (ok-injective (rw (same, queue_changed) at e)))
  ]

  note_closing-same :
      (j : ℕ) (old : ArchivalRecord) (a : Saver)
      → ((note_closing j pm old a).cache ≡ a.cache)
        × ((note_closing j pm old a).marshal_chans ≡ a.marshal_chans)
  unfolding note_closing store_closing
  note_closing-same j old a = ground arith

  queue_diff-Archives :
      (m : InetDiagMsg) (old : ArchivalRecord) (a b : Saver)
      → 0 < length a.marshal_chans
      → queue_diff os m pm old a ≡ ok b
      → Archives k pm (is_worth (some old) pm) a b
  unfolding queue_diff
  queue_diff-Archives m old a b h e = elim (Result-cases (compare pm (some old))) [
    | inl (change, is) ↦
        let done = queue_changed-Archives change noted b (rw chans h) (rw (is, queue_diff) at e) in
        rw (is_worth, is)
          (record {
            same_cache = done.same_cache ∙ cache;
            more =
                done.more
                ∙ ap (λ c. sent k c ++ (if is_change change then if_of k pm else [])) chans;
          })
    | inr (inl (x, failed)) ↦
        let done = Archives-none noted b (ok-injective (rw (failed, queue_diff) at e)) in
        rw (is_worth, failed)
          (record {
            same_cache = done.same_cache ∙ cache;
            more = done.more ∙ ap (λ c. sent k c ++ []) chans;
          })
    | inr (inr broken) ↦ cc (rw (broken, queue_diff) at e)
  ]
    where
      noted : Saver
      noted = note_closing (cookie_of m.id) pm old a

      cache : noted.cache ≡ a.cache
      cache = (note_closing-same (cookie_of m.id) old a).0

      chans : noted.marshal_chans ≡ a.marshal_chans
      chans = (note_closing-same (cookie_of m.id) old a).1

  swap_old-Archives :
      (m : InetDiagMsg) (old : Option ArchivalRecord) (a b : Saver)
      → parse (idm_bytes pm) ≡ ok m
      → 0 < length a.marshal_chans
      → swap_old os old pm a ≡ ok b
      → Archives k pm (is_worth old pm) a b
  unfolding swap_old queue_new
  swap_old-Archives m none a b parsed h e =
      let done = logged-Archives (count_new a) b h e in
      record { same_cache = done.same_cache; more = done.more }
  swap_old-Archives m (some old) a b parsed h e =
      queue_diff-Archives m old a b h (rw (parsed, swap_old) at e)

  -- `Update` at the cookie of the record, and what is sent of it.
  swapped-view :
      (j : ℕ) (a b svr : Saver)
      → key pm ≡ some j
      → a.cache ≡ (update_at j pm svr.cache).0
      → a.marshal_chans ≡ svr.marshal_chans
      → Archives k pm (is_worth (lookup j svr.cache.previous) pm) a b
      → view k b ≡ (if has_key k pm then note pm (view k svr) else view k svr)
  unfolding put update_at
  swapped-view j a b svr is cached chans done = elim (Bool-cases (has_key k pm)) [
    | inl has ↦
        let at : j ≡ k = ground (arith, is, has) in
        rw has (
          Known-path (view k b) (note pm (view k svr)) (fresh ∙ rw has refl) (before ∙ rw has refl)
            (more
              ∙ ap
                  (λ i.
                    sent k svr.marshal_chans
                    ++ (if is_worth (lookup i svr.cache.previous) pm then if_of k pm else []))
                  at
              ∙ rw has refl))
    | inr lacks ↦ rw lacks (
        Known-path (view k b) (view k svr) (fresh ∙ rw lacks refl) (before ∙ rw lacks refl)
          (more ∙ rw lacks (nothing_more (is_worth (lookup j svr.cache.previous) pm))))
  ]
    where
      after : put svr.cache pm ≡ b.cache
      after =
          (let up = update-key svr.cache pm j is in rw (put, up) refl)
          ∙ sym cached
          ∙ sym done.same_cache

      fresh :
          lookup k b.cache.current ≡ (if has_key k pm then some pm else lookup k svr.cache.current)
      fresh = ap (λ (c : Cache). lookup k c.current) (sym after) ∙ lookup-put_current k svr.cache pm

      before :
          lookup k b.cache.previous ≡ (if has_key k pm then none else lookup k svr.cache.previous)
      before =
          ap (λ (c : Cache). lookup k c.previous) (sym after) ∙ lookup-put_previous k svr.cache pm

      more :
          sent k b.marshal_chans
          ≡ sent k svr.marshal_chans
            ++ (if is_worth (lookup j svr.cache.previous) pm then if_of k pm else [])
      more =
          done.more
          ∙ ap
              (λ c.
                sent k c ++ (if is_worth (lookup j svr.cache.previous) pm then if_of k pm else []))
              chans

      nothing_more :
          (w : Bool) → sent k svr.marshal_chans ++ (if w then [] else []) ≡ sent k svr.marshal_chans
      nothing_more true = append-nil (sent k svr.marshal_chans)
      nothing_more false = append-nil (sent k svr.marshal_chans)

  swap_and_queue-view :
      (svr b : Saver)
      → 0 < length svr.marshal_chans
      → swap_and_queue os svr pm ≡ ok b
      → view k b ≡ (if has_key k pm then note pm (view k svr) else view k svr)
  unfolding swap_and_queue update key
  swap_and_queue-view svr b h e = elim (Result-cases (parse (idm_bytes pm))) [
    | inl (m, parsed) ↦
        let j = cookie_of m.id in
        let is = key-parse pm m parsed in
        let up = update-key svr.cache pm j is in
        let a = record (count_total svr) { cache = (update_at j pm svr.cache).0 } in
        swapped-view j a b svr is refl refl (
          swap_old-Archives m (lookup j svr.cache.previous) a b parsed h
            (unfold update_at in (rw (up, swap_and_queue) at e)))
    | inr (inl (x, failed)) ↦
        let lacks : has_key k pm ≡ false = rw (has_key, key, failed) refl in
        rw lacks (ap (view k) (sym (ok-injective (rw (update, failed, swap_and_queue) at e))))
    | inr (inr broken) ↦ cc (rw (update, broken, swap_and_queue) at e)
  ]

  swap_and_queue-chans :
      (svr b : Saver)
      → 0 < length svr.marshal_chans
      → swap_and_queue os svr pm ≡ ok b
      → 0 < length b.marshal_chans
  swap_and_queue-chans svr b h =
      swap_and_queue-keeps os (λ s. 0 < length s.marshal_chans)
        (λ a m out e p. omega (arith, (queue-Frame os a m e).same_chans, p)) (λ c s p. p) svr pm b h
        (λ c old e. h)
        (λ j old c is p. omega (
          arith,
          ap length (note_closing-same j old (record (count_total svr) { cache = c })).1,
          p,
        ))

  -- `swapAndQueue`, on what is known of a connection.
  pub swap_and_queue-Knows :
      (svr b : Saver)
      → 0 < length svr.marshal_chans
      → swap_and_queue os svr pm ≡ ok b
      → Knows k (λ s. if has_key k pm then note pm s else s) svr b
  swap_and_queue-Knows svr b h e = record {
    known = swap_and_queue-view svr b h e;
    has_chan = swap_and_queue-chans svr b h e;
  }
