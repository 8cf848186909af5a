-- ===== src/Saver/Rounds/Keeps.antt =====
-- A rule for `MessageSaverLoop`: what `queue` and `endConn` keep, and what depends on no more than the
-- channels, the connections, the files and the clock, the loop keeps.
use tcp_info.Base.{
  Error, ℕ, suc, ◌≤◌, ◌≡◌, refl, true, List, [], ◌∷◌, map, Option, none, some, ok, >>=-eq-ok,
  ok-injective, subst, Result-cases, inl, inr, arith, Option-cases,
}
use tcp_info.Cache.{Cache, Records, end_cycle}
use tcp_info.Netlink.Record.{make_archival_record}
use tcp_info.Netlink.{ArchivalRecord, MessageBlock, NetlinkMessage}
use tcp_info.Saver.Queue.Tidy.{closed}
use tcp_info.Saver.Queue.{ticked, queue, end_conn}
use tcp_info.Saver.Rounds.Loop.{AllBlocks, message_saver_loop_total}
use tcp_info.Saver.Rounds.{
  Totals, no_bytes, count_expired, retire, retire_all, final_stats, take_closing, handle_block,
  handle_blocks, end_all, close, message_saver_loop,
}
use tcp_info.Saver.Swap.Keeps.{swap_and_queue-keeps}
use tcp_info.Saver.Swap.{
  note_closing, store_closing, count_total, swap_and_queue, handle_message, handle_messages,
}
use tcp_info.Saver.{Os, Stats, TcpStats, Connection, Saver, new_saver}

-- The two savers have the same channels, connections and files, and no earlier clock reading.
pub record Same (a b : Saver) : Type 0 where
  pub same_chans : b.marshal_chans ≡ a.marshal_chans
  pub same_conns : b.connections ≡ a.connections
  pub same_opened : b.opened ≡ a.opened
  pub later : a.tick ≤ b.tick

same :
    {a : Saver} {stats : Stats} {cache : Cache} → Same a (record a { stats = stats; cache = cache })
same = record { same_chans = refl; same_conns = refl; same_opened = refl; later = omega arith }

later : {a : Saver} {cache : Cache} → Same a (record (ticked a) { cache = cache })
later = record { same_chans = refl; same_conns = refl; same_opened = refl; later = omega arith }

note_closing-Same :
    (k : ℕ) (pm old : ArchivalRecord) (svr : Saver) → Same svr (note_closing k pm old svr)
unfolding note_closing store_closing
note_closing-Same k pm old svr = ground arith

final_stats-Same :
    (cookie : ℕ) (ar : ArchivalRecord) (svr : Saver) → Same svr (final_stats cookie ar svr).1
unfolding final_stats take_closing
final_stats-Same cookie ar svr = ground arith

module _ (os : Os) (P : Saver → Type 0) (still : (a b : Saver) → Same a b → P a → P b)
    (queued : (a : Saver) (pm : ArchivalRecord) (out : Saver × Option Error)
      → queue os a pm ≡ ok out
      → P a
      → P out.0)
    (ended : (cookie : ℕ) (a b : Saver) → end_conn os cookie a ≡ ok b → P a → P b) where
  swapped-keeps :
      (svr svr' : Saver) (pm : ArchivalRecord) → P svr → swap_and_queue os svr pm ≡ ok svr' → P svr'
  swapped-keeps svr svr' pm n =
      swap_and_queue-keeps os P queued (λ a s p. still a (record a { stats = s }) same p) svr pm
        svr' n (λ c old e. still svr (record (count_total svr) { cache = c }) same n)
        (λ k old c is p.
          still (record (count_total svr) { cache = c })
            (note_closing k pm old (record (count_total svr) { cache = c }))
            (note_closing-Same k pm old (record (count_total svr) { cache = c })) p)

  handle_message-keeps :
      (t : ℕ) (live : TcpStats) (svr : Saver) (msg : Option NetlinkMessage) (out : TcpStats × Saver)
      → P svr
      → handle_message os t live svr msg ≡ ok out
      → P out.1
  unfolding handle_message
  handle_message-keeps t live svr none out n h =
      subst (λ (o : TcpStats × Saver). P o.1) (ok-injective h) n
  handle_message-keeps t live svr (some msg) out n h =
      elim (Result-cases (make_archival_record msg true)) [
        | inr (inl (e, failed)) ↦ unchanged (rw (failed, handle_message) at h)
        | inr (inr broken) ↦ cc (rw (broken, handle_message) at h)
        | inl (made, e) ↦ elim (Option-cases made) [
          | inl skipped ↦ unchanged (rw (e, skipped, handle_message) at h)
          | inr (ar, is) ↦
              let (svr', done, last) =
                >>=-eq-ok (swap_and_queue os svr (record ar { timestamp = t })) _
                  (rw (e, is, handle_message) at h) in
              subst (λ (o : TcpStats × Saver). P o.1) (ok-injective last)
                (swapped-keeps svr svr' (record ar { timestamp = t }) n done)
        ]
      ]
    where
      unchanged : ok (live, svr) ≡ ok out → P out.1
      unchanged same = subst (λ (o : TcpStats × Saver). P o.1) (ok-injective same) n

  handle_messages-keeps :
      (t : ℕ) (live : TcpStats) (svr : Saver) (msgs : List (Option NetlinkMessage))
      (out : TcpStats × Saver)
      → P svr
      → handle_messages os t live svr msgs ≡ ok out
      → P out.1
  unfolding handle_messages
  handle_messages-keeps t live svr [] out n h =
      subst (λ (o : TcpStats × Saver). P o.1) (ok-injective h) n
  handle_messages-keeps t live svr (msg ∷ msgs) out n h =
      let (mid, e, rest) = >>=-eq-ok (handle_message os t live svr msg) _ h in
      handle_messages-keeps t mid.0 mid.1 msgs out (handle_message-keeps t live svr msg mid n e)
        rest

  retire-keeps :
      (cookie : ℕ) (ar : ArchivalRecord) (closed : TcpStats) (svr : Saver) (out : TcpStats × Saver)
      → P svr
      → retire os cookie ar closed svr ≡ ok out
      → P out.1
  unfolding retire
  retire-keeps cookie ar closed svr out n h =
      let before = final_stats cookie ar svr in
      let (after, e, last) = >>=-eq-ok (end_conn os cookie before.1) _ h in
      subst (λ (o : TcpStats × Saver). P o.1) (ok-injective last)
        (still after (count_expired after) same
          (ended cookie before.1 after e (still svr before.1 (final_stats-Same cookie ar svr) n)))

  retire_all-keeps :
      (residual : Records) (closed : TcpStats) (svr : Saver) (out : TcpStats × Saver)
      → P svr
      → retire_all os residual closed svr ≡ ok out
      → P out.1
  unfolding retire_all
  retire_all-keeps [] closed svr out n h =
      subst (λ (o : TcpStats × Saver). P o.1) (ok-injective h) n
  retire_all-keeps ((cookie, ar) ∷ residual) closed svr out n h =
      let (mid, e, rest) = >>=-eq-ok (retire os cookie ar closed svr) _ h in
      retire_all-keeps residual mid.0 mid.1 out (retire-keeps cookie ar closed svr mid n e) rest

  ticked-keeps : (svr : Saver) → P svr → P (ticked svr)
  ticked-keeps svr n = still svr (ticked svr) later n

  handle_block-keeps :
      (msgs : MessageBlock) (t : Totals) (svr : Saver) (out : Totals × Saver)
      → P svr
      → handle_block os msgs t svr ≡ ok out
      → P out.1
  unfolding handle_block
  handle_block-keeps msgs t svr out n h =
      let (a, e, h1) =
        >>=-eq-ok (handle_messages os msgs.v4_time no_bytes svr msgs.v4_messages) _ h in
      let (b, f, h2) =
        >>=-eq-ok (handle_messages os msgs.v6_time no_bytes a.1 msgs.v6_messages) _ h1 in
      let ended = end_cycle b.1.cache in
      let cycled = record (ticked b.1) { cache = ended.0 } in
      let (c, g, last) =
        >>=-eq-ok (retire_all os (os.order b.1.tick ended.1) t.closed cycled) _ h2 in
      let na = handle_messages-keeps msgs.v4_time no_bytes svr msgs.v4_messages a n e in
      let nb = handle_messages-keeps msgs.v6_time no_bytes a.1 msgs.v6_messages b na f in
      subst (λ (o : Totals × Saver). P o.1) (ok-injective last)
        (retire_all-keeps (os.order b.1.tick ended.1) t.closed cycled c (still b.1 cycled later nb)
          g)

  handle_blocks-keeps :
      (blocks : List MessageBlock) (t : Totals) (svr : Saver) (out : Totals × Saver)
      → P svr
      → handle_blocks os blocks t svr ≡ ok out
      → P out.1
  unfolding handle_blocks
  handle_blocks-keeps [] t svr out n h = subst (λ (o : Totals × Saver). P o.1) (ok-injective h) n
  handle_blocks-keeps (msgs ∷ blocks) t svr out n h =
      let (mid, e, rest) = >>=-eq-ok (handle_block os msgs t svr) _ h in
      handle_blocks-keeps blocks mid.0 mid.1 out (handle_block-keeps msgs t svr mid n e) rest

  end_all-keeps :
      (cookies : List ℕ) (svr svr' : Saver) → P svr → end_all os cookies svr ≡ ok svr' → P svr'
  unfolding end_all
  end_all-keeps [] svr svr' n h = subst P (ok-injective h) n
  end_all-keeps (cookie ∷ cookies) svr svr' n h =
      let (mid, e, rest) = >>=-eq-ok (end_conn os cookie svr) _ h in
      end_all-keeps cookies mid svr' (ended cookie svr mid e n) rest

  -- The saver before the close, and after it.
  pub message_saver_loop-keeps :
      (n : ℕ) (blocks : List MessageBlock)
      → AllBlocks blocks
      → P (new_saver (suc n))
      → (svr : Saver) × (message_saver_loop os blocks (new_saver (suc n)) ≡ ok svr)
        × P svr
        × (mid : Saver) × (end_all os
              (os.key_order mid.tick (map (λ (c : ℕ × Connection). c.0) mid.connections))
              (ticked mid)
            ≡ ok svr)
  unfolding message_saver_loop close
  message_saver_loop-keeps n blocks h p =
      let (svr, done) = message_saver_loop_total os n blocks h in
      let (mid, e, rest) = >>=-eq-ok (handle_blocks os blocks started (new_saver (suc n))) _ done in
      let before = handle_blocks-keeps blocks started (new_saver (suc n)) mid p e in
      let order = os.key_order mid.1.tick (map (λ (c : ℕ × Connection). c.0) mid.1.connections) in
      (
        svr,
        done,
        end_all-keeps order (ticked mid.1) svr (ticked-keeps mid.1 before) rest,
        mid.1,
        rest,
      )
    where
      started : Totals
      started = record {
        reported = no_bytes;
        closed = no_bytes;
        last_report_time = 0;
        sent_rates = [];
        received_rates = [];
      }
