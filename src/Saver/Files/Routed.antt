-- ===== src/Saver/Files/Routed.antt =====
-- saver/saver.go `queue` and `endConn`: they keep the tasks of a file on one channel, behind its header.
use tcp_info.Base.Assoc.{lookup, lookup-delete}
use tcp_info.Base.{
  ℕ, suc, ◌%◌, ◌≡◌, refl, sym, ap, ◌∙◌, subst, ◌==◌, ltb, Bool-cases, inl, inr, [], ◌∷◌, ◌++◌,
  Option, none, some, Option-cases, Result-cases, Error, ok, ok-injective, arith, length,
}
use tcp_info.EventSocket.{close_event}
use tcp_info.Inetdiag.SockId.{cookie_of}
use tcp_info.Inetdiag.{InetDiagMsg, parse}
use tcp_info.Netlink.{ArchivalRecord, idm_bytes}
use tcp_info.Saver.Files.Home.{
  AllSpare-OnlyOn, HasHome, With, ticked-Homed, keep-Homed, send-Homed, header_records-first,
  header_records-other,
}
use tcp_info.Saver.Queue.Tidy.{uses}
use tcp_info.Saver.Queue.{
  header, next_writer, keep, ticked, send, close_task, message_task, new_connection, connect,
  close_expired, rotate, rotate_if_closed, deliver, queue_on, queue_parsed, queue, drop_conn,
  end_conn,
}
use tcp_info.Saver.{Os, Connection, Saver}

module _ (os : Os) (s n : ℕ) where
  connect-With :
      (cookie : ℕ) (idm : InetDiagMsg) (msg : ArchivalRecord) (svr : Saver)
      → HasHome os s n svr
      → With os s n cookie (connect os cookie idm msg svr).0 (connect os cookie idm msg svr).1
  unfolding connect
  connect-With cookie idm msg svr (q, h) = elim (Option-cases (lookup cookie svr.connections)) [
    | inl absent ↦
        let conn = new_connection os idm msg.timestamp svr.tick in
        let kept = keep-Homed os s n q cookie svr conn h (λ used. absurd (cc used)) in
        let later = ticked-Homed os s n q (keep cookie conn svr) kept in
        rw (connect, absent)
          (
            q,
            record {
              count = later.count;
              only = later.only;
              home = later.home;
              begun = later.begun;
              fresh = later.fresh;
            },
            λ used. absurd (cc used),
          )
    | inr (conn, found) ↦ rw (connect, found) (q, h, h.home cookie conn found)
  ]

  later-With :
      (cookie : ℕ) (svr : Saver) (conn : Connection)
      → With os s n cookie svr conn
      → With os s n cookie (ticked svr) conn
  later-With cookie svr conn (q, h, mine) = (
    q,
    ticked-Homed os s n q svr h,
    λ used. let (here, past, headed) = mine used in (here, omega (arith, past), headed),
  )

  close_expired-With :
      (cookie : ℕ) (svr : Saver) (conn : Connection)
      → With os s n cookie svr conn
      → With os s n cookie
          (close_expired os (cookie % n) svr conn).0
          (close_expired os (cookie % n) svr conn).1
  unfolding close_expired
  close_expired-With cookie svr conn h = elim (Option-cases conn.writer) [
    | inl shut ↦ rw (close_expired, shut) (later-With cookie svr conn h)
    | inr (w, is) ↦ elim (Bool-cases (ltb conn.expiration (os.now svr.tick))) [
      | inl late ↦
          let (q, on, mine) = later-With cookie svr conn h in
          rw (close_expired, is, late)
            (
              q,
              send-Homed os s n q (cookie % n) (close_task w) (ticked svr) on
                  (λ used. mine (ap (uses s) is ∙ used)),
              λ used. absurd (cc used),
            )
      | inr early ↦ rw (close_expired, is, early) (later-With cookie svr conn h)
    ]
  ]

  rotate-With :
      (cookie : ℕ) (svr : Saver) (conn : Connection)
      → With os s n cookie svr conn
      → With os s n cookie (rotate os svr conn).0 (rotate os svr conn).1
  unfolding rotate
  rotate-With cookie svr conn (q, h, mine) = elim (Bool-cases (os.mkdir_works svr.tick)) [
    | inr broken ↦ rw (rotate, broken) (later-With cookie svr conn (q, h, mine))
    | inl dir ↦ elim (Bool-cases (os.create_works svr.tick)) [
      | inr broken ↦ rw (rotate, dir, broken) (later-With cookie svr conn (q, h, mine))
      | inl file ↦ elim (Bool-cases (svr.tick == s)) [
        | inl now ↦
            let at : svr.tick ≡ s = ground (arith, now) in
            let (spare, none_yet) = h.fresh (omega (arith, at)) in
            let headed =
              header_records-first s svr.opened (next_writer os svr conn) (header os conn) none_yet
                now in
            rw (rotate, dir, file)
              (
                cookie % n,
                record {
                  count = h.count;
                  only = AllSpare-OnlyOn s (cookie % n) svr.marshal_chans spare;
                  home = λ k c found used. absurd (omega (arith, at, (h.home k c found used).1));
                  begun = inl spare;
                  fresh = λ early. absurd (omega (arith, at, early));
                },
                λ used. (refl, omega (arith, at), headed),
              )
        | inr other ↦
            let on = ticked-Homed os s n q svr h in
            let same =
              header_records-other s svr.opened (next_writer os svr conn) (header os conn) other in
            rw (rotate, dir, file)
              (
                q,
                record {
                  count = on.count;
                  only = on.only;
                  home = λ k c found used.
                      let (here, past, headed) = on.home k c found used in
                      (here, past, (headed.0, same ∙ headed.1));
                  begun = elim (on.begun) [
                    | inl spare ↦ inl spare
                    | inr headed ↦ inr (headed.0, same ∙ headed.1)
                  ];
                  fresh = λ early. ((on.fresh early).0, same ∙ (on.fresh early).1);
                },
                λ used. absurd (ground (arith, other, used)),
              )
      ]
    ]
  ]

  rotate_if_closed-With :
      (cookie : ℕ) (svr : Saver) (conn : Connection)
      → With os s n cookie svr conn
      → With os s n cookie (rotate_if_closed os svr conn).0 (rotate_if_closed os svr conn).1
  unfolding rotate_if_closed
  rotate_if_closed-With cookie svr conn h = elim (Option-cases conn.writer) [
    | inl shut ↦ rw (rotate_if_closed, shut) (rotate-With cookie svr conn h)
    | inr (w, is) ↦ rw (rotate_if_closed, is) h
  ]

  delivered-HasHome :
      (cookie : ℕ) (msg : ArchivalRecord) (r : Saver × Connection × Option Error)
      → With os s n cookie r.0 r.1
      → HasHome os s n
          (elim r.2 as (λ x. Saver × Option Error) [
            | some e ↦ (keep cookie r.1 r.0, some e)
            | none ↦ (send (cookie % n) (message_task msg r.1.writer) (keep cookie r.1 r.0), none)
          ]).0
  delivered-HasHome cookie msg (svr, conn, some e) h =
      let (q, on, mine) = h in (q, keep-Homed os s n q cookie svr conn on mine)
  delivered-HasHome cookie msg (svr, conn, none) (q, h, mine) = (
    q,
    send-Homed os s n q (cookie % n) (message_task msg conn.writer) (keep cookie conn svr)
        (keep-Homed os s n q cookie svr conn h mine) mine,
  )

  queue_on-HasHome :
      (cookie : ℕ) (idm : InetDiagMsg) (msg : ArchivalRecord) (svr : Saver)
      → HasHome os s n svr
      → HasHome os s n (queue_on os cookie (cookie % n) idm msg svr).0
  unfolding queue_on deliver
  queue_on-HasHome cookie idm msg svr h =
      let one = connect os cookie idm msg svr in
      let two = close_expired os (cookie % n) one.0 one.1 in
      delivered-HasHome cookie msg (rotate_if_closed os two.0 two.1) (
        rotate_if_closed-With cookie two.0 two.1
          (close_expired-With cookie one.0 one.1 (connect-With cookie idm msg svr h)))

  queue_parsed-HasHome :
      (idm : InetDiagMsg) (svr : Saver) (msg : ArchivalRecord)
      → HasHome os s n svr
      → HasHome os s n (queue_parsed os idm svr msg).0
  unfolding queue_parsed
  queue_parsed-HasHome idm svr msg h = elim (Bool-cases (cookie_of idm.id == 0)) [
    | inl zeroed ↦ rw (zeroed) h
    | inr cookie ↦ elim (Bool-cases (ltb (length svr.marshal_chans) 1)) [
      | inl nowhere ↦ rw (cookie, nowhere) h
      | inr somewhere ↦
          rw (cookie, somewhere)
            (subst
              (λ (m : ℕ).
                HasHome os s n
                  (queue_on os (cookie_of idm.id) (cookie_of idm.id % m) idm msg svr).0)
              (sym h.1.count) (queue_on-HasHome (cookie_of idm.id) idm msg svr h))
    ]
  ]

  pub queue-HasHome :
      (svr : Saver) (msg : ArchivalRecord) (out : Saver × Option Error)
      → queue os svr msg ≡ ok out
      → HasHome os s n svr
      → HasHome os s n out.0
  unfolding queue
  queue-HasHome svr msg out e h = elim (Result-cases (parse (idm_bytes msg))) [
    | inl (idm, is) ↦
        let done : queue_parsed os idm svr msg ≡ out = ok-injective (rw (is, queue) at e) in
        subst (λ (o : Saver × Option Error). HasHome os s n o.0) done
          (queue_parsed-HasHome idm svr msg h)
    | inr (inl (x, failed)) ↦ absurd (cc (rw (failed, queue) at e))
    | inr (inr broken) ↦ absurd (cc (rw (broken, queue) at e))
  ]

  drop_conn-HasHome :
      (cookie : ℕ) (found : Option Connection) (svr : Saver)
      → lookup cookie svr.connections ≡ found
      → HasHome os s n svr
      → HasHome os s n (drop_conn os cookie (cookie % n) found svr)
  unfolding drop_conn
  drop_conn-HasHome cookie none svr at h = h
  drop_conn-HasHome cookie (some conn) svr at (q, h) = elim (Option-cases conn.writer) [
    | inl shut ↦ rw (drop_conn, shut) (q, h)
    | inr (w, is) ↦
        let sent =
          send-Homed os s n q (cookie % n) (close_task w) svr h
            (λ used. h.home cookie conn at (ap (uses s) is ∙ used)) in
        rw (drop_conn, is)
          (
            q,
            record {
              count = sent.count;
              only = sent.only;
              home = λ k c left used.
                  h.home k c (ground (arith, lookup-delete cookie k svr.connections, left)) used;
              begun = sent.begun;
              fresh = sent.fresh;
            },
          )
  ]

  pub end_conn-HasHome :
      (cookie : ℕ) (a b : Saver) → end_conn os cookie a ≡ ok b → HasHome os s n a → HasHome os s n b
  unfolding end_conn
  end_conn-HasHome cookie a b e (q, h) = elim (Bool-cases (length a.marshal_chans == 0)) [
    | inl nowhere ↦ absurd (cc (rw (nowhere, end_conn) at e))
    | inr somewhere ↦
        let found = lookup cookie a.connections in
        let told = record a {
          events = a.events ++ close_event (os.now a.tick) (os.from_cookie cookie) ∷ [];
          tick = suc a.tick;
        } in
        let on = ticked-Homed os s n q a h in
        let dropped = drop_conn-HasHome cookie found told refl (
          q,
          record {
            count = on.count;
            only = on.only;
            home = on.home;
            begun = on.begun;
            fresh = on.fresh;
          },
        ) in
        subst (HasHome os s n) (ok-injective (rw (somewhere, end_conn) at e)) (
          subst (λ (m : ℕ). HasHome os s n (drop_conn os cookie (cookie % m) found told))
            (sym h.count) dropped)
  ]
