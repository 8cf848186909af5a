-- ===== src/Saver/Archive/Loop.antt =====
-- saver/saver.go `MessageSaverLoop`: of each connection it archives what the reference archives.
use tcp_info.Base.Assoc.{lookup}
use tcp_info.Base.{
  ℕ, zero, suc, ◌%◌, get_or, replicate, ◌<◌, ◌≡◌, ◌≢◌, refl, sym, ap, ◌∙◌, true, inl, inr, List, [],
  ◌∷◌, ◌++◌, map, Option, none, some, arith, length, if◌then◌else◌, ok, ok-injective, Result,
  Result-cases, subst, >>=-eq-ok,
}
use tcp_info.Cache.Rounds.{has_key}
use tcp_info.Cache.{Records, end_cycle}
use tcp_info.Netlink.Record.{make_archival_record}
use tcp_info.Netlink.{NetlinkMessage, ArchivalRecord, MessageBlock}
use tcp_info.Saver.Archive.Queued.{Works, end_conn-sent}
use tcp_info.Saver.Archive.Sent.{messages, sent}
use tcp_info.Saver.Archive.Swapped.{view, Knows, Known-path, swap_and_queue-Knows}
use tcp_info.Saver.Archive.{
  Known, nothing, note, note_all, turn_over, records, note_block, note_blocks, archive,
}
use tcp_info.Saver.Queue.Frame.{end_conn-Frame}
use tcp_info.Saver.Queue.{ticked, end_conn}
use tcp_info.Saver.Rounds.Loop.{AllBlocks, message_saver_loop_total}
use tcp_info.Saver.Rounds.{
  Totals, no_bytes, retire, retire_all, final_stats, take_closing, handle_block, handle_blocks,
  end_all, close, message_saver_loop,
}
use tcp_info.Saver.Swap.{swap_and_queue, handle_message, handle_messages}
use tcp_info.Saver.{Os, TcpStats, Connection, Saver, Task, new_saver}

abbrev note_if : ℕ → ArchivalRecord → Known → Known
note_if k r s = if has_key k r then note r s else s

-- The record of one message, if it makes one.
abbrev made : ℕ → Result (Option ArchivalRecord) → List ArchivalRecord
made t (ok (some ar)) = record ar { timestamp = t } ∷ []
made t _ = []

Knows-trans :
    (k : ℕ) (f g : Known → Known) (a b c : Saver)
    → Knows k f a b
    → Knows k g b c
    → Knows k (λ s. g (f s)) a c
Knows-trans k f g a b c p q = record { known = q.known ∙ ap g p.known; has_chan = q.has_chan }

Knows-same : (k : ℕ) (a b : Saver) → 0 < length a.marshal_chans → a ≡ b → Knows k (λ s. s) a b
Knows-same k a b h same = subst (Knows k (λ s. s) a) same (record { known = refl; has_chan = h })

note_all-append :
    (k : ℕ) (front behind : List ArchivalRecord) (s : Known)
    → note_all k (front ++ behind) s ≡ note_all k behind (note_all k front s)
note_all-append k [] behind s = refl
note_all-append k (r ∷ front) behind s = note_all-append k front behind (note_if k r s)

records-cons :
    (t : ℕ) (msg : NetlinkMessage) (msgs : List (Option NetlinkMessage))
    → records t (some msg ∷ msgs) ≡ made t (make_archival_record msg true) ++ records t msgs
records-cons t msg msgs = elim (Result-cases (make_archival_record msg true)) [
  | inl (none, e) ↦ rw (records, e) refl
  | inl (some ar, e) ↦ rw (records, e) refl
  | inr (inl (x, e)) ↦ rw (records, e) refl
  | inr (inr e) ↦ rw (records, e) refl
]

module _ (os : Os) (works : Works os) (k : ℕ) (pos : k ≢ 0) where
  handle_message-Knows :
      (t : ℕ) (live : TcpStats) (svr : Saver) (msg : NetlinkMessage) (out : TcpStats × Saver)
      → 0 < length svr.marshal_chans
      → handle_message os t live svr (some msg) ≡ ok out
      → Knows k (note_all k (made t (make_archival_record msg true))) svr out.1
  unfolding handle_message
  handle_message-Knows t live svr msg out h e =
      elim (Result-cases (make_archival_record msg true)) [
        | inr (inl (x, failed)) ↦ rw failed (unchanged (rw (failed, handle_message) at e))
        | inr (inr broken) ↦ cc (rw (broken, handle_message) at e)
        | inl (none, is) ↦ rw is (unchanged (rw (is, handle_message) at e))
        | inl (some ar, is) ↦
            let stamped : ArchivalRecord = record ar { timestamp = t } in
            let (b, done, last) =
              >>=-eq-ok (swap_and_queue os svr stamped) _ (rw (is, handle_message) at e) in
            rw is (
              subst (λ (o : TcpStats × Saver). Knows k (note_if k stamped) svr o.1)
                (ok-injective last) (swap_and_queue-Knows os works k pos stamped svr b h done))
      ]
    where
      unchanged : ok (live, svr) ≡ ok out → Knows k (λ s. s) svr out.1
      unchanged same =
          Knows-same k svr out.1 h (ap (λ (o : TcpStats × Saver). o.1) (ok-injective same))

  handle_messages-Knows :
      (t : ℕ) (live : TcpStats) (svr : Saver) (msgs : List (Option NetlinkMessage))
      (out : TcpStats × Saver)
      → 0 < length svr.marshal_chans
      → handle_messages os t live svr msgs ≡ ok out
      → Knows k (note_all k (records t msgs)) svr out.1
  unfolding handle_messages handle_message
  handle_messages-Knows t live svr [] out h e =
      Knows-same k svr out.1 h (ap (λ (o : TcpStats × Saver). o.1) (ok-injective e))
  handle_messages-Knows t live svr (none ∷ msgs) out h e =
      handle_messages-Knows t live svr msgs out h e
  handle_messages-Knows t live svr (some msg ∷ msgs) out h e =
      let (mid, is, rest) = >>=-eq-ok (handle_message os t live svr (some msg)) _ e in
      let one = handle_message-Knows t live svr msg mid h is in
      let two = handle_messages-Knows t mid.0 mid.1 msgs out one.has_chan rest in
      let front = made t (make_archival_record msg true) in
      record {
        known =
            two.known
            ∙ ap (note_all k (records t msgs)) one.known
            ∙ sym (note_all-append k front (records t msgs) (view k svr))
            ∙ ap (λ rs. note_all k rs (view k svr)) (sym (records-cons t msg msgs));
        has_chan = two.has_chan;
      }

  -- The end of a connection archives nothing.
  end_conn-Knows :
      (cookie : ℕ) (a b : Saver)
      → 0 < length a.marshal_chans
      → end_conn os cookie a ≡ ok b
      → Knows k (λ s. s) a b
  end_conn-Knows cookie a b h e =
      let frame = end_conn-Frame os cookie a e in
      record {
        known =
            Known-path (view k b) (view k a) (ap (λ c. lookup k c.current) frame.same_cache)
              (ap (λ c. lookup k c.previous) frame.same_cache) (end_conn-sent os k cookie a h e);
        has_chan = omega (arith, frame.same_chans, h);
      }

  final_stats-Knows :
      (cookie : ℕ) (ar : ArchivalRecord) (a : Saver)
      → 0 < length a.marshal_chans
      → Knows k (λ s. s) a (final_stats cookie ar a).1
  unfolding final_stats take_closing
  final_stats-Knows cookie ar a h = record { known = ground arith; has_chan = ground (arith, h) }

  retire-Knows :
      (cookie : ℕ) (ar : ArchivalRecord) (closed : TcpStats) (svr : Saver) (out : TcpStats × Saver)
      → 0 < length svr.marshal_chans
      → retire os cookie ar closed svr ≡ ok out
      → Knows k (λ s. s) svr out.1
  unfolding retire
  retire-Knows cookie ar closed svr out h e =
      let before = final_stats cookie ar svr in
      let (after, is, last) = >>=-eq-ok (end_conn os cookie before.1) _ e in
      let one = final_stats-Knows cookie ar svr h in
      let two = end_conn-Knows cookie before.1 after one.has_chan is in
      subst (λ (o : TcpStats × Saver). Knows k (λ s. s) svr o.1) (ok-injective last)
        (record { known = two.known ∙ one.known; has_chan = two.has_chan })

  retire_all-Knows :
      (residual : Records) (closed : TcpStats) (svr : Saver) (out : TcpStats × Saver)
      → 0 < length svr.marshal_chans
      → retire_all os residual closed svr ≡ ok out
      → Knows k (λ s. s) svr out.1
  unfolding retire_all
  retire_all-Knows [] closed svr out h e =
      Knows-same k svr out.1 h (ap (λ (o : TcpStats × Saver). o.1) (ok-injective e))
  retire_all-Knows ((cookie, ar) ∷ residual) closed svr out h e =
      let (mid, is, rest) = >>=-eq-ok (retire os cookie ar closed svr) _ e in
      let one = retire-Knows cookie ar closed svr mid h is in
      Knows-trans k (λ s. s) (λ s. s) svr mid.1 out.1 one
        (retire_all-Knows residual mid.0 mid.1 out one.has_chan rest)

  end_cycle-Knows :
      (b : Saver)
      → 0 < length b.marshal_chans
      → Knows k turn_over b (record (ticked b) { cache = (end_cycle b.cache).0 })
  unfolding end_cycle lookup
  end_cycle-Knows b h = record { known = refl; has_chan = h }

  handle_block-Knows :
      (msgs : MessageBlock) (t : Totals) (svr : Saver) (out : Totals × Saver)
      → 0 < length svr.marshal_chans
      → handle_block os msgs t svr ≡ ok out
      → Knows k (note_block k msgs) svr out.1
  unfolding handle_block
  handle_block-Knows msgs t svr out h e =
      let (a, e1, h1) =
        >>=-eq-ok (handle_messages os msgs.v4_time no_bytes svr msgs.v4_messages) _ e in
      let (b, e2, h2) =
        >>=-eq-ok (handle_messages os msgs.v6_time no_bytes a.1 msgs.v6_messages) _ h1 in
      let ended = end_cycle b.1.cache in
      let cycled = record (ticked b.1) { cache = ended.0 } in
      let (c, e3, last) =
        >>=-eq-ok (retire_all os (os.order b.1.tick ended.1) t.closed cycled) _ h2 in
      let k4 = handle_messages-Knows msgs.v4_time no_bytes svr msgs.v4_messages a h e1 in
      let k6 = handle_messages-Knows msgs.v6_time no_bytes a.1 msgs.v6_messages b k4.has_chan e2 in
      let turned = end_cycle-Knows b.1 k6.has_chan in
      let retired =
        retire_all-Knows (os.order b.1.tick ended.1) t.closed cycled c turned.has_chan e3 in
      subst (λ (o : Totals × Saver). Knows k (note_block k msgs) svr o.1) (ok-injective last)
        (record {
          known =
              retired.known
              ∙ turned.known
              ∙ ap turn_over
                  (k6.known ∙ ap (note_all k (records msgs.v6_time msgs.v6_messages)) k4.known);
          has_chan = retired.has_chan;
        })

  handle_blocks-Knows :
      (blocks : List MessageBlock) (t : Totals) (svr : Saver) (out : Totals × Saver)
      → 0 < length svr.marshal_chans
      → handle_blocks os blocks t svr ≡ ok out
      → Knows k (note_blocks k blocks) svr out.1
  unfolding handle_blocks
  handle_blocks-Knows [] t svr out h e =
      Knows-same k svr out.1 h (ap (λ (o : Totals × Saver). o.1) (ok-injective e))
  handle_blocks-Knows (msgs ∷ blocks) t svr out h e =
      let (mid, is, rest) = >>=-eq-ok (handle_block os msgs t svr) _ e in
      let one = handle_block-Knows msgs t svr mid h is in
      Knows-trans k (note_block k msgs) (note_blocks k blocks) svr mid.1 out.1 one
        (handle_blocks-Knows blocks mid.0 mid.1 out one.has_chan rest)

  end_all-Knows :
      (cookies : List ℕ) (a b : Saver)
      → 0 < length a.marshal_chans
      → end_all os cookies a ≡ ok b
      → Knows k (λ s. s) a b
  unfolding end_all
  end_all-Knows [] a b h e = Knows-same k a b h (ok-injective e)
  end_all-Knows (cookie ∷ cookies) a b h e =
      let (mid, is, rest) = >>=-eq-ok (end_conn os cookie a) _ e in
      let one = end_conn-Knows cookie a mid h is in
      Knows-trans k (λ s. s) (λ s. s) a mid b one (end_all-Knows cookies mid b one.has_chan rest)

  sent-new_saver : (n : ℕ) → sent k (new_saver n).marshal_chans ≡ []
  sent-new_saver n = ap (messages k) (idle n (k % length (new_saver n).marshal_chans))
    where
      idle : (n i : ℕ) → get_or {A = List Task} (replicate n []) i [] ≡ []
      idle zero i = refl
      idle (suc n) zero = refl
      idle (suc n) (suc i) = idle n i

  -- From a new saver with a marshaller at least, over any sequence of blocks as the kernel sends them
  -- and through the close, the loop ends, and the records that it has sent for a cookie that is not 0
  -- are those that the reference archives, in order, if directories and files can be made.
  pub message_saver_loop-archive :
      (n : ℕ) (blocks : List MessageBlock)
      → AllBlocks blocks
      → (svr : Saver) × (message_saver_loop os blocks (new_saver (suc n)) ≡ ok svr)
        × (sent k svr.marshal_chans ≡ archive k blocks)
  unfolding message_saver_loop close lookup
  message_saver_loop-archive n blocks formed =
      let (svr, done) = message_saver_loop_total os n blocks formed in
      let (mid, is, rest) =
        >>=-eq-ok (handle_blocks os blocks started (new_saver (suc n))) _ done in
      let one = handle_blocks-Knows blocks started (new_saver (suc n)) mid (omega arith) is in
      let order = os.key_order mid.1.tick (map (λ (c : ℕ × Connection). c.0) mid.1.connections) in
      let two = end_all-Knows order (ticked mid.1) svr one.has_chan rest in
      let new : view k (new_saver (suc n)) ≡ nothing =
        Known-path (view k (new_saver (suc n))) nothing refl refl (sent-new_saver (suc n)) in
      (
        svr,
        done,
        ap (λ (s : Known). s.archived) (two.known ∙ one.known ∙ ap (note_blocks k blocks) new),
      )
    where
      started : Totals
      started = record {
        reported = no_bytes;
        closed = no_bytes;
        last_report_time = 0;
        sent_rates = [];
        received_rates = [];
      }
