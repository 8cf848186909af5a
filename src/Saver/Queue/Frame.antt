-- ===== src/Saver/Queue/Frame.antt =====
-- What `queue` and `endConn` leave alone.
use tcp_info.Base.{
  ℕ, zero, suc, ◌≡◌, refl, ap, ◌∙◌, ◌%◌, List, [], ◌∷◌, Option, arith, ok, Error, length,
}
use tcp_info.Inetdiag.SockId.{cookie_of}
use tcp_info.Inetdiag.{InetDiagMsg}
use tcp_info.Netlink.{ArchivalRecord}
use tcp_info.Saver.Queue.{
  send_on, connect, close_expired, rotate, rotate_if_closed, deliver, queue_on, queue_parsed, queue,
  drop_conn, end_conn,
}
use tcp_info.Saver.{Os, Task, Connection, Saver}

-- The two savers differ at most in connections, tasks, events, files and clock readings.
pub record Frame (svr svr' : Saver) : Type 0 where
  pub same_closing_stats : svr'.closing_stats ≡ svr.closing_stats
  pub same_closing_totals : svr'.closing_totals ≡ svr.closing_totals
  pub same_cache : svr'.cache ≡ svr.cache
  pub same_stats : svr'.stats ≡ svr.stats
  pub same_chans : length svr'.marshal_chans ≡ length svr.marshal_chans

pub Frame-trans : {a b c : Saver} → Frame a b → Frame b c → Frame a c
Frame-trans f g = record {
  same_closing_stats = g.same_closing_stats ∙ f.same_closing_stats;
  same_closing_totals = g.same_closing_totals ∙ f.same_closing_totals;
  same_cache = g.same_cache ∙ f.same_cache;
  same_stats = g.same_stats ∙ f.same_stats;
  same_chans = g.same_chans ∙ f.same_chans;
}

pub length-send_on :
    (q : ℕ) (task : Task) (chans : List (List Task)) → length (send_on q task chans) ≡ length chans
unfolding send_on
length-send_on q task [] = refl
length-send_on zero task (c ∷ cs) = refl
length-send_on (suc q) task (c ∷ cs) = ap suc (length-send_on q task cs)

module _ (os : Os) where
  pub connect-Frame :
      (cookie : ℕ) (idm : InetDiagMsg) (msg : ArchivalRecord) (svr : Saver)
      → Frame svr (connect os cookie idm msg svr).0
  unfolding connect
  connect-Frame cookie idm msg svr = ground arith

  pub close_expired-Frame :
      (q : ℕ) (svr : Saver) (conn : Connection) → Frame svr (close_expired os q svr conn).0
  unfolding close_expired
  close_expired-Frame q svr conn = grind (arith, length-send_on)

  rotate_if_closed-Frame :
      (svr : Saver) (conn : Connection) → Frame svr (rotate_if_closed os svr conn).0
  unfolding rotate_if_closed rotate
  rotate_if_closed-Frame svr conn = ground arith

  deliver-Frame :
      (cookie q : ℕ) (msg : ArchivalRecord) (svr : Saver) (conn : Connection)
      → Frame svr (deliver os cookie q msg (svr, conn)).0
  unfolding deliver
  deliver-Frame cookie q msg svr conn =
      grind (arith, length-send_on, rotate_if_closed-Frame svr conn)

  queue_on-Frame :
      (cookie q : ℕ) (idm : InetDiagMsg) (msg : ArchivalRecord) (svr : Saver)
      → Frame svr (queue_on os cookie q idm msg svr).0
  unfolding queue_on
  queue_on-Frame cookie q idm msg svr =
      let one = connect os cookie idm msg svr in
      let two = close_expired os q one.0 one.1 in
      Frame-trans (connect-Frame cookie idm msg svr)
        (Frame-trans (close_expired-Frame q one.0 one.1) (deliver-Frame cookie q msg two.0 two.1))

  pub queue_parsed-Frame :
      (idm : InetDiagMsg) (svr : Saver) (msg : ArchivalRecord)
      → Frame svr (queue_parsed os idm svr msg).0
  unfolding queue_parsed
  queue_parsed-Frame idm svr msg = ground (
    arith,
    queue_on-Frame (cookie_of idm.id) (cookie_of idm.id % length svr.marshal_chans) idm msg svr,
  )

  -- Whatever `queue` answers, an error included.
  pub queue-Frame :
      (svr : Saver) (msg : ArchivalRecord) {out : Saver × Option Error}
      → queue os svr msg ≡ ok out
      → Frame svr out.0
  unfolding queue
  queue-Frame svr msg h = grind (arith, queue_parsed-Frame)

  pub end_conn-Frame :
      (cookie : ℕ) (svr : Saver) {svr' : Saver} → end_conn os cookie svr ≡ ok svr' → Frame svr svr'
  unfolding end_conn drop_conn
  end_conn-Frame cookie svr h = grind (arith, length-send_on)
