-- ===== src/Saver/Files/Queued.antt =====
-- saver/saver.go `queue` and `endConn`: they keep every record in its own connection's files.
use tcp_info.Base.Assoc.{lookup, lookup-insert, lookup-delete}
use tcp_info.Base.{
  ℕ, zero, suc, ◌%◌, ◌≡◌, refl, sym, ap, ◌∙◌, subst, ◌==◌, Bool-cases, ltb, inl, inr, List, [], ◌∷◌,
  ◌++◌, Option, none, some, Option-cases, arith, Error, ok, ok-injective, Result-cases, length,
}
use tcp_info.Cache.Keys.{key-parse}
use tcp_info.Cache.Rounds.{key}
use tcp_info.EventSocket.{close_event}
use tcp_info.Inetdiag.SockId.{cookie_of, get_sock_id}
use tcp_info.Inetdiag.{InetDiagMsg, parse}
use tcp_info.Netlink.{ArchivalRecord, idm_bytes}
use tcp_info.Saver.Files.{uuid_of, Filed, AllFiled, WriterOf, FiledConn, IsFiled}
use tcp_info.Saver.Marshal.{All-append}
use tcp_info.Saver.Queue.{
  send_on, close_task, message_task, ticked, send, new_connection, keep, next_writer, connect,
  close_expired, rotate, rotate_if_closed, deliver, queue_on, queue_parsed, queue, drop_conn,
  end_conn,
}
use tcp_info.Saver.{Os, Writer, Task, Connection, Saver}

module _ (os : Os) where
  AllFiled-send_on :
      (q : ℕ) (t : Task) (cs : List (List Task))
      → Filed os t.message t.writer
      → AllFiled os cs
      → AllFiled os (send_on q t cs)
  unfolding send_on
  AllFiled-send_on q t [] f h = tt
  AllFiled-send_on zero t (c ∷ cs) f h = (All-append _ c (t ∷ []) h.0 (f, tt), h.1)
  AllFiled-send_on (suc q) t (c ∷ cs) f h = (h.0, AllFiled-send_on q t cs f h.1)

  -- A saver and a connection that is taken out of it.
  abbrev With : ℕ → Saver → Connection → Type 0
  With cookie svr conn = IsFiled os svr × FiledConn os cookie conn

  keep-IsFiled :
      (cookie : ℕ) (svr : Saver) (conn : Connection)
      → With cookie svr conn
      → IsFiled os (keep cookie conn svr)
  keep-IsFiled cookie svr conn h = record {
    chans = h.0.chans;
    conns = λ k c found. elim (Bool-cases (cookie == k)) [
      | inl same ↦
          let at : cookie ≡ k = ground (arith, same) in
          let is : conn ≡ c =
            ground (arith, lookup-insert cookie k conn svr.connections, same, found) in
          subst (λ i. FiledConn os i c) at (subst (FiledConn os cookie) is h.1)
      | inr other ↦
          h.0.conns k c (ground (arith, lookup-insert cookie k conn svr.connections, other, found))
    ];
  }

  connect-With :
      (idm : InetDiagMsg) (msg : ArchivalRecord) (svr : Saver)
      → IsFiled os svr
      → With
          (cookie_of idm.id)
          (connect os (cookie_of idm.id) idm msg svr).0
          (connect os (cookie_of idm.id) idm msg svr).1
  unfolding connect get_sock_id
  connect-With idm msg svr h = elim (Option-cases (lookup (cookie_of idm.id) svr.connections)) [
    | inl absent ↦
        let conn = new_connection os idm msg.timestamp svr.tick in
        let kept = keep-IsFiled (cookie_of idm.id) svr conn (h, (refl, tt)) in
        rw (connect, absent) (record { chans = kept.chans; conns = kept.conns }, (refl, tt))
    | inr (conn, found) ↦ rw (connect, found) (h, h.conns (cookie_of idm.id) conn found)
  ]

  close_expired-With :
      (cookie q : ℕ) (svr : Saver) (conn : Connection)
      → With cookie svr conn
      → With cookie (close_expired os q svr conn).0 (close_expired os q svr conn).1
  unfolding close_expired
  close_expired-With cookie q svr conn h = elim (Option-cases conn.writer) [
    | inl shut ↦ rw (close_expired, shut) (record { chans = h.0.chans; conns = h.0.conns }, h.1)
    | inr (w, is) ↦ elim (Bool-cases (ltb conn.expiration (os.now svr.tick))) [
      | inl late ↦
          rw (close_expired, is, late)
            (
              record {
                chans = AllFiled-send_on q (close_task w) svr.marshal_chans tt h.0.chans;
                conns = h.0.conns;
              },
              (h.1.0, tt),
            )
      | inr early ↦
          rw (close_expired, is, early) (record { chans = h.0.chans; conns = h.0.conns }, h.1)
    ]
  ]

  -- After `Rotate` without an error the connection has a writer.
  abbrev Rotated : ℕ → Saver × Connection × Option Error → Type 0
  Rotated cookie (svr, conn, failed) =
      With cookie svr conn × (failed ≡ none → (w : Writer) × (conn.writer ≡ some w))

  rotate-Rotated :
      (cookie : ℕ) (svr : Saver) (conn : Connection)
      → With cookie svr conn
      → Rotated cookie (rotate os svr conn)
  unfolding rotate
  rotate-Rotated cookie svr conn h = elim (Bool-cases (os.mkdir_works svr.tick)) [
    | inr broken ↦ rw (rotate, broken) (later, λ e. absurd (ground (arith, e)))
    | inl dir ↦ elim (Bool-cases (os.create_works svr.tick)) [
      | inr broken ↦ rw (rotate, dir, broken) (later, λ e. absurd (ground (arith, e)))
      | inl file ↦
          rw (rotate, dir, file)
            (
              (record { chans = h.0.chans; conns = h.0.conns }, (h.1.0, ap os.from_cookie h.1.0)),
              λ e. (next_writer os svr conn, refl),
            )
    ]
  ]
    where
      later : With cookie (ticked svr) conn
      later = (record { chans = h.0.chans; conns = h.0.conns }, h.1)

  rotate_if_closed-Rotated :
      (cookie : ℕ) (svr : Saver) (conn : Connection)
      → With cookie svr conn
      → Rotated cookie (rotate_if_closed os svr conn)
  unfolding rotate_if_closed
  rotate_if_closed-Rotated cookie svr conn h = elim (Option-cases conn.writer) [
    | inl shut ↦ rw (rotate_if_closed, shut) (rotate-Rotated cookie svr conn h)
    | inr (w, is) ↦ rw (rotate_if_closed, is) (h, λ e. (w, is))
  ]

  delivered-IsFiled :
      (cookie q : ℕ) (msg : ArchivalRecord) (r : Saver × Connection × Option Error)
      → key msg ≡ some cookie
      → Rotated cookie r
      → IsFiled os
          (elim r.2 as (λ x. Saver × Option Error) [
            | some e ↦ (keep cookie r.1 r.0, some e)
            | none ↦ (send q (message_task msg r.1.writer) (keep cookie r.1 r.0), none)
          ]).0
  delivered-IsFiled cookie q msg (svr, conn, some e) is h = keep-IsFiled cookie svr conn h.0
  delivered-IsFiled cookie q msg (svr, conn, none) is h =
      let (w, has) = h.1 refl in
      let kept = keep-IsFiled cookie svr conn h.0 in
      let named : w.file.uuid ≡ uuid_of os cookie = subst (WriterOf os cookie) has h.0.1.1 in
      let filed : Filed os (some msg) conn.writer = subst (Filed os (some msg)) (sym has) (λ j at.
        let equal_keys : cookie ≡ j = ground (arith, is, at) in
        named ∙ ap (uuid_of os) equal_keys) in
      record {
        chans =
            AllFiled-send_on q (message_task msg conn.writer) svr.marshal_chans filed kept.chans;
        conns = kept.conns;
      }

  queue_on-IsFiled :
      (q : ℕ) (idm : InetDiagMsg) (msg : ArchivalRecord) (svr : Saver)
      → key msg ≡ some (cookie_of idm.id)
      → IsFiled os svr
      → IsFiled os (queue_on os (cookie_of idm.id) q idm msg svr).0
  unfolding queue_on deliver
  queue_on-IsFiled q idm msg svr is h =
      let cookie = cookie_of idm.id in
      let one = connect os cookie idm msg svr in
      let two = close_expired os q one.0 one.1 in
      delivered-IsFiled cookie q msg (rotate_if_closed os two.0 two.1) is (
        rotate_if_closed-Rotated cookie two.0 two.1
          (close_expired-With cookie q one.0 one.1 (connect-With idm msg svr h)))

  queue_parsed-IsFiled :
      (idm : InetDiagMsg) (svr : Saver) (msg : ArchivalRecord)
      → key msg ≡ some (cookie_of idm.id)
      → IsFiled os svr
      → IsFiled os (queue_parsed os idm svr msg).0
  unfolding queue_parsed
  queue_parsed-IsFiled idm svr msg is h = elim (Bool-cases (cookie_of idm.id == 0)) [
    | inl zeroed ↦ rw zeroed h
    | inr cookie ↦ elim (Bool-cases (ltb (length svr.marshal_chans) 1)) [
      | inl nowhere ↦ rw (cookie, nowhere) h
      | inr somewhere ↦
          rw (cookie, somewhere)
            (queue_on-IsFiled (cookie_of idm.id % length svr.marshal_chans) idm msg svr is h)
    ]
  ]

  pub queue-IsFiled :
      (svr : Saver) (msg : ArchivalRecord) (out : Saver × Option Error)
      → queue os svr msg ≡ ok out
      → IsFiled os svr
      → IsFiled os out.0
  unfolding queue
  queue-IsFiled svr msg out e h = elim (Result-cases (parse (idm_bytes msg))) [
    | inl (idm, is) ↦
        let done : queue_parsed os idm svr msg ≡ out = ok-injective (rw (is, queue) at e) in
        subst (λ (o : Saver × Option Error). IsFiled os o.0) done
          (queue_parsed-IsFiled idm svr msg (key-parse msg idm is) h)
    | inr (inl (x, failed)) ↦ cc (rw (failed, queue) at e)
    | inr (inr broken) ↦ cc (rw (broken, queue) at e)
  ]

  drop_conn-IsFiled :
      (cookie q : ℕ) (found : Option Connection) (svr : Saver)
      → IsFiled os svr
      → IsFiled os (drop_conn os cookie q found svr)
  unfolding drop_conn
  drop_conn-IsFiled cookie q none svr h = h
  drop_conn-IsFiled cookie q (some conn) svr h = elim (Option-cases conn.writer) [
    | inl shut ↦ rw (drop_conn, shut) h
    | inr (w, is) ↦
        rw (drop_conn, is)
          (record {
            chans = AllFiled-send_on q (close_task w) svr.marshal_chans tt h.chans;
            conns = λ k c left.
                h.conns k c (ground (arith, lookup-delete cookie k svr.connections, left));
          })
  ]

  pub end_conn-IsFiled :
      (cookie : ℕ) (a b : Saver) → end_conn os cookie a ≡ ok b → IsFiled os a → IsFiled os b
  unfolding end_conn
  end_conn-IsFiled cookie a b e h = elim (Bool-cases (length a.marshal_chans == 0)) [
    | inl nowhere ↦ cc (rw (nowhere, end_conn) at e)
    | inr somewhere ↦ subst (IsFiled os) (ok-injective (rw (somewhere, end_conn) at e)) (
        drop_conn-IsFiled cookie (cookie % length a.marshal_chans) (lookup cookie a.connections)
          (record a {
            events = a.events ++ close_event (os.now a.tick) (os.from_cookie cookie) ∷ [];
            tick = suc a.tick;
          })
          (record { chans = h.chans; conns = h.conns }))
  ]
