-- ===== src/Saver/Rounds/Loop.antt =====
-- The whole of `MessageSaverLoop`, on blocks of messages as the kernel sends them.
use tcp_info.Base.Assoc.{lookup}
use tcp_info.Base.{ℕ, suc, ◌≡◌, refl, ◌/◌, List, [], ◌∷◌, map, arith, ok}
use tcp_info.Cache.{Records, end_cycle}
use tcp_info.Netlink.Record.Formed.{AllHandled}
use tcp_info.Netlink.{ArchivalRecord, MessageBlock}
use tcp_info.Saver.Queue.Frame.{end_conn-Frame}
use tcp_info.Saver.Queue.{ticked}
use tcp_info.Saver.Rounds.Report.{IsMetered, handled-IsMetered}
use tcp_info.Saver.Rounds.Retire.{end_conn_total}
use tcp_info.Saver.Rounds.Sound.{IsSound, Frame-IsSound, tally-IsSound, handle_messages-IsSound}
use tcp_info.Saver.Rounds.{
  Totals, no_bytes, count_expired, retire, retire_all, final_stats, take_closing, handle_block,
  handle_blocks, end_all, close, message_saver_loop, report_both,
}
use tcp_info.Saver.{Os, TcpStats, Connection, Saver, new_saver, add64}

-- Both halves of each block.
abbrev pub AllBlocks : List MessageBlock → Type 0
AllBlocks [] = Unit {0}
AllBlocks (msgs ∷ blocks) =
    (AllHandled msgs.v4_messages × AllHandled msgs.v6_messages) × AllBlocks blocks

final_stats-IsSound :
    (cookie : ℕ) (ar : ArchivalRecord) (svr : Saver)
    → IsSound svr
    → IsSound (final_stats cookie ar svr).1
unfolding final_stats take_closing
final_stats-IsSound cookie ar svr h = record {
  current_complete = λ j o e. ground (arith, h.current_complete j o, e);
  previous_complete = λ j o e. ground (arith, h.previous_complete j o, e);
  has_chan = ground (arith, h.has_chan);
}

end_cycle-IsSound :
    (svr : Saver) → IsSound svr → IsSound (record (ticked svr) { cache = (end_cycle svr.cache).0 })
unfolding end_cycle lookup
end_cycle-IsSound svr h = record {
  current_complete = λ k o e. absurd (cc e);
  previous_complete = h.current_complete;
  has_chan = h.has_chan;
}

new_saver-IsSound : (n : ℕ) → IsSound (new_saver (suc n))
unfolding lookup
new_saver-IsSound n = record {
  current_complete = λ k o e. absurd (cc e);
  previous_complete = λ k o e. absurd (cc e);
  has_chan = omega arith;
}

module _ (os : Os) where
  retire-IsSound :
      (cookie : ℕ) (ar : ArchivalRecord) (closed : TcpStats) (svr : Saver)
      → IsSound svr
      → (out : TcpStats × Saver) × (retire os cookie ar closed svr ≡ ok out) × IsSound out.1
  unfolding retire
  retire-IsSound cookie ar closed svr s =
      let before = final_stats cookie ar svr in
      let s1 = final_stats-IsSound cookie ar svr s in
      let (after, e) = end_conn_total os cookie before.1 s1.has_chan in
      (
        (
          record {
            sent = add64 closed.sent before.0.sent;
            received = add64 closed.received before.0.received;
          },
          count_expired after,
        ),
        rw e refl,
        tally-IsSound after _
            (Frame-IsSound before.1 after (end_conn-Frame os cookie before.1 e) s1),
      )

  retire_all-IsSound :
      (residual : Records) (closed : TcpStats) (svr : Saver)
      → IsSound svr
      → (out : TcpStats × Saver) × (retire_all os residual closed svr ≡ ok out) × IsSound out.1
  unfolding retire_all
  retire_all-IsSound [] closed svr s = ((closed, svr), refl, s)
  retire_all-IsSound ((cookie, ar) ∷ residual) closed svr s =
      let (mid, e, s1) = retire-IsSound cookie ar closed svr s in
      let (out, f, s2) = retire_all-IsSound residual mid.0 mid.1 s1 in (out, rw (e, f) refl, s2)

  handle_block-IsSound :
      (msgs : MessageBlock) (t : Totals) (svr : Saver)
      → AllHandled msgs.v4_messages
      → AllHandled msgs.v6_messages
      → IsSound svr
      → (out : Totals × Saver) × (handle_block os msgs t svr ≡ ok out) × IsSound out.1
  unfolding handle_block
  handle_block-IsSound msgs t svr h4 h6 s =
      let zeros = no_bytes in
      let (a, e, s1) = handle_messages-IsSound os msgs.v4_time zeros svr msgs.v4_messages h4 s in
      let (b, f, s2) = handle_messages-IsSound os msgs.v6_time zeros a.1 msgs.v6_messages h6 s1 in
      let ended = end_cycle b.1.cache in
      let (c, g, s3) =
        retire_all-IsSound (os.order b.1.tick ended.1) t.closed
          (record (ticked b.1) { cache = ended.0 }) (end_cycle-IsSound b.1 s2) in
      (
        (report_both (msgs.v4_time / 1_000_000_000) c.1.closing_totals a.0 b.0 c.0 t, c.1),
        rw (e, f, g) refl,
        s3,
      )

  handle_blocks-IsSound :
      (blocks : List MessageBlock) (t : Totals) (svr : Saver)
      → AllBlocks blocks
      → IsSound svr
      → (out : Totals × Saver) × (handle_blocks os blocks t svr ≡ ok out) × IsSound out.1
  unfolding handle_blocks
  handle_blocks-IsSound [] t svr h s = ((t, svr), refl, s)
  handle_blocks-IsSound (msgs ∷ blocks) t svr h s =
      let (mid, e, s1) = handle_block-IsSound msgs t svr h.0.0 h.0.1 s in
      let (out, f, s2) = handle_blocks-IsSound blocks mid.0 mid.1 h.1 s1 in
      (out, rw (e, f) refl, s2)

  end_all-IsSound :
      (cookies : List ℕ) (svr : Saver)
      → IsSound svr
      → (svr' : Saver) × (end_all os cookies svr ≡ ok svr') × IsSound svr'
  unfolding end_all
  end_all-IsSound [] svr s = (svr, refl, s)
  end_all-IsSound (cookie ∷ cookies) svr s =
      let (mid, e) = end_conn_total os cookie svr s.has_chan in
      let (out, f, s2) =
        end_all-IsSound cookies mid (Frame-IsSound svr mid (end_conn-Frame os cookie svr e) s) in
      (out, rw (e, f) refl, s2)

  -- Any sequence of blocks whose messages are nil, of another type than 20, or an inet_diag_msg with
  -- well-formed attributes of which TCP_INFO reaches up to BusyTime, is handled without a panic by a
  -- new saver with a marshaller at least, through the end of every connection at the close.
  pub message_saver_loop_total :
      (n : ℕ) (blocks : List MessageBlock)
      → AllBlocks blocks
      → (svr : Saver) × (message_saver_loop os blocks (new_saver (suc n)) ≡ ok svr)
  unfolding message_saver_loop close
  message_saver_loop_total n blocks h =
      let started : Totals = record {
        reported = no_bytes;
        closed = no_bytes;
        last_report_time = 0;
        sent_rates = [];
        received_rates = [];
      } in
      let (mid, e, s) =
        handle_blocks-IsSound blocks started (new_saver (suc n)) h (new_saver-IsSound n) in
      let (out, f, s2) =
        end_all-IsSound
          (os.key_order mid.1.tick (map (λ (c : ℕ × Connection). c.0) mid.1.connections))
          (ticked mid.1)
          (Frame-IsSound mid.1 (ticked mid.1)
            (record {
              same_closing_stats = refl;
              same_closing_totals = refl;
              same_cache = refl;
              same_stats = refl;
              same_chans = refl;
            })
            s) in
      (out, rw (e, f) refl)

  -- Such blocks are handled, from any sound saver, and what each of the two rate histograms observes
  -- keeps adding up to eight times the bytes reported.
  pub handle_blocks-IsMetered :
      (blocks : List MessageBlock) (t : Totals) (svr : Saver)
      → AllBlocks blocks
      → IsSound svr
      → IsMetered t
      → (out : Totals × Saver) × (handle_blocks os blocks t svr ≡ ok out) × IsMetered out.0
  handle_blocks-IsMetered blocks t svr h s m =
      let (out, done, s') = handle_blocks-IsSound blocks t svr h s in
      (out, done, handled-IsMetered os blocks t svr out m done)
