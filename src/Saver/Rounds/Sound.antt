-- ===== src/Saver/Rounds/Sound.antt =====
-- On messages as the kernel sends them, no round of the saver panics.
use tcp_info.Base.Assoc.{lookup}
use tcp_info.Base.{
  ℕ, ◌≤◌, ◌≡◌, refl, inl, inr, true, Bool-cases, List, [], ◌∷◌, Option, none, some, arith, Result,
  ok, err, panic, length, subst,
}
use tcp_info.Cache.Rounds.{put, has_key, lookup-put_current, lookup-put_previous}
use tcp_info.Cache.{Cache, update}
use tcp_info.Netlink.Compare.Total.{IsComplete}
use tcp_info.Netlink.Record.Formed.{Handled, AllHandled, Made, make_archival_record-Made}
use tcp_info.Netlink.Record.{make_archival_record, get_stats}
use tcp_info.Netlink.{NetlinkMessage, ArchivalRecord}
use tcp_info.Saver.Queue.Frame.{Frame, queue-Frame}
use tcp_info.Saver.Swap.Keeps.{swap_and_queue-keeps}
use tcp_info.Saver.Swap.Total.{swap_and_queue_total}
use tcp_info.Saver.Swap.{
  note_closing, store_closing, count_total, swap_and_queue, handle_message, handle_messages,
}
use tcp_info.Saver.{Os, TcpStats, Stats, Saver, add64}

-- Every record of both maps is complete, and there is a marshaller.
pub record IsSound (svr : Saver) : Type 0 where
  pub current_complete :
      (k : ℕ) (o : ArchivalRecord) → lookup k svr.cache.current ≡ some o → IsComplete o
  pub previous_complete :
      (k : ℕ) (o : ArchivalRecord) → lookup k svr.cache.previous ≡ some o → IsComplete o
  pub has_chan : 1 ≤ length svr.marshal_chans

IsComplete-put :
    (c : Cache) (pm : ArchivalRecord) (k : ℕ) (o : ArchivalRecord)
    → IsComplete pm
    → ((j : ℕ) (r : ArchivalRecord) → lookup j c.current ≡ some r → IsComplete r)
    → lookup k (put c pm).current ≡ some o
    → IsComplete o
IsComplete-put c pm k o h all e = elim (Bool-cases (has_key k pm)) [
  | inl has ↦
      let same : pm ≡ o = ground (arith, e, lookup-put_current k c pm, has) in
      subst IsComplete same h
  | inr lacks ↦ all k o (ground (arith, e, lookup-put_current k c pm, lacks))
]

update-put :
    (c c' : Cache) (pm : ArchivalRecord) (old : Option ArchivalRecord)
    → update c pm ≡ ok (c', old)
    → put c pm ≡ c'
unfolding put
update-put c c' pm old e = rw (put, e)

cached-IsSound :
    (svr : Saver) (pm : ArchivalRecord) (c : Cache) (old : Option ArchivalRecord)
    → IsSound svr
    → IsComplete pm
    → update svr.cache pm ≡ ok (c, old)
    → IsSound (record (count_total svr) { cache = c })
cached-IsSound svr pm c old s h e =
    let is = update-put svr.cache c pm old e in
    record {
      current_complete = λ k o f. IsComplete-put svr.cache pm k o h s.current_complete (rw is f);
      previous_complete = λ k o f.
          s.previous_complete k o (ground (arith, lookup-put_previous k svr.cache pm, is, f));
      has_chan = s.has_chan;
    }

pub Frame-IsSound : (a b : Saver) → Frame a b → IsSound a → IsSound b
Frame-IsSound a b f s = record {
  current_complete = rw f.same_cache s.current_complete;
  previous_complete = rw f.same_cache s.previous_complete;
  has_chan = rw f.same_chans s.has_chan;
}

pub tally-IsSound : (svr : Saver) (s : Stats) → IsSound svr → IsSound (record svr { stats = s })
tally-IsSound svr s h = record {
  current_complete = h.current_complete;
  previous_complete = h.previous_complete;
  has_chan = h.has_chan;
}

note_closing-IsSound :
    (k : ℕ) (pm old : ArchivalRecord) (svr : Saver)
    → IsSound svr
    → IsSound (note_closing k pm old svr)
unfolding note_closing store_closing
note_closing-IsSound k pm old svr h = record {
  current_complete = λ j o e. ground (arith, h.current_complete j o, e);
  previous_complete = λ j o e. ground (arith, h.previous_complete j o, e);
  has_chan = ground (arith, h.has_chan);
}

module _ (os : Os) where
  pub swap_and_queue-IsSound :
      (svr : Saver) (pm : ArchivalRecord)
      → IsSound svr
      → IsComplete pm
      → (svr' : Saver) × (swap_and_queue os svr pm ≡ ok svr') × IsSound svr'
  swap_and_queue-IsSound svr pm s h =
      let (svr', done) = swap_and_queue_total os svr pm h s.previous_complete in
      (
        svr',
        done,
        swap_and_queue-keeps os IsSound (λ a m out e. Frame-IsSound a out.0 (queue-Frame os a m e))
            tally-IsSound svr pm svr' s (λ c old e. cached-IsSound svr pm c old s h e)
            (λ k old c is q. note_closing-IsSound k pm old _ q) done,
      )

  -- One message, by what becomes of it.
  handle-Made :
      (t : ℕ) (live : TcpStats) (svr : Saver) (msg : NetlinkMessage)
      (made : Result (Option ArchivalRecord))
      → make_archival_record msg true ≡ made
      → Made t made
      → IsSound svr
      → (out : TcpStats × Saver) × (handle_message os t live svr (some msg) ≡ ok out)
        × IsSound out.1
  unfolding handle_message
  handle-Made t live svr msg (ok none) e m s = ((live, svr), rw (handle_message, e) refl, s)
  handle-Made t live svr msg (ok (some r)) e m s =
      let (svr', done, s') = swap_and_queue-IsSound svr (record r { timestamp = t }) s m in
      let counts = get_stats (record r { timestamp = t }) in
      (
        (record { sent = add64 live.sent counts.0; received = add64 live.received counts.1 }, svr'),
        rw (handle_message, e, done) refl,
        s',
      )
  handle-Made t live svr msg (err x) e m s = ((live, svr), rw (handle_message, e) refl, s)
  handle-Made t live svr msg panic e m s = elim m [ ]

  handle_message-IsSound :
      (t : ℕ) (live : TcpStats) (svr : Saver) (msg : Option NetlinkMessage)
      → Handled msg
      → IsSound svr
      → (out : TcpStats × Saver) × (handle_message os t live svr msg ≡ ok out) × IsSound out.1
  unfolding handle_message
  handle_message-IsSound t live svr none h s = ((live, svr), refl, s)
  handle_message-IsSound t live svr (some msg) h s =
      handle-Made t live svr msg (make_archival_record msg true) refl
        (make_archival_record-Made t msg h) s

  pub handle_messages-IsSound :
      (t : ℕ) (live : TcpStats) (svr : Saver) (msgs : List (Option NetlinkMessage))
      → AllHandled msgs
      → IsSound svr
      → (out : TcpStats × Saver) × (handle_messages os t live svr msgs ≡ ok out) × IsSound out.1
  unfolding handle_messages
  handle_messages-IsSound t live svr [] h s = ((live, svr), refl, s)
  handle_messages-IsSound t live svr (msg ∷ msgs) h s =
      let (mid, e, s') = handle_message-IsSound t live svr msg h.0 s in
      let (out, f, s'') = handle_messages-IsSound t mid.0 mid.1 msgs h.1 s' in
      (out, rw (e, f) refl, s'')
