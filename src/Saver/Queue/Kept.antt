-- ===== src/Saver/Queue/Kept.antt =====
-- saver/saver.go `queue` and `endConn`: they close a writer once and use none that is closed.
use native.Mathlib.Nat.{mod-lt}
use tcp_info.Base.Assoc.{lookup, insert, delete, lookup-delete}
use tcp_info.Base.{
  ℕ, suc, ◌+◌, ◌%◌, ◌≡◌, ◌≢◌, refl, sym, ap, ◌∙◌, subst, true, false, ◌==◌, Bool-cases, ltb, ltb→ge,
  ◌<◌, inl, inr, [], ◌∷◌, ◌++◌, Option, none, some, Option-cases, arith, Error, ok, ok-injective,
  Result-cases, length,
}
use tcp_info.EventSocket.{close_event}
use tcp_info.Inetdiag.SockId.{cookie_of}
use tcp_info.Inetdiag.{InetDiagMsg, parse}
use tcp_info.Netlink.{ArchivalRecord, idm_bytes}
use tcp_info.Saver.Queue.Frame.{connect-Frame}
use tcp_info.Saver.Queue.Open.{
  writer_at, open_for, IsNeat, open_with, NeatWith, open_with-same, open_with-other,
  open_for-insert, open_with-found, open_with-insert,
}
use tcp_info.Saver.Queue.Neat.{Neat, Neat-tick, Neat-message, Neat-close, Neat-open}
use tcp_info.Saver.Queue.{
  send_on, message_task, ticked, send, new_connection, header, keep, next_writer, connect,
  close_expired, rotate, rotate_if_closed, deliver, queue_on, queue_parsed, queue, drop_conn,
  end_conn,
}
use tcp_info.Saver.{Os, ten_minutes, Writer, Connection, Saver}

module _ (os : Os) where
  connect-NeatWith :
      (cookie : ℕ) (idm : InetDiagMsg) (msg : ArchivalRecord) (svr : Saver)
      → IsNeat svr
      → NeatWith cookie (connect os cookie idm msg svr).0 (connect os cookie idm msg svr).1
  unfolding connect
  connect-NeatWith cookie idm msg svr n = elim (Option-cases (lookup cookie svr.connections)) [
    | inl absent ↦
        rw (connect, absent)
          (let conn = new_connection os idm msg.timestamp svr.tick in
            Neat-tick n (suc svr.tick) (open_with cookie conn (insert cookie conn svr.connections))
              (omega arith)
              (λ k.
                open_with-insert cookie conn svr.connections k
                ∙ open_with-found cookie conn svr.connections k (ap writer_at (sym absent))))
    | inr (conn, found) ↦
        rw (connect, found)
          (Neat-tick n svr.tick (open_with cookie conn svr.connections) (omega arith)
            (λ k. open_with-found cookie conn svr.connections k (ap writer_at (sym found))))
  ]

  close_expired-NeatWith :
      (cookie q : ℕ) (svr : Saver) (conn : Connection)
      → q < length svr.marshal_chans
      → NeatWith cookie svr conn
      → NeatWith cookie (close_expired os q svr conn).0 (close_expired os q svr conn).1
  unfolding close_expired
  close_expired-NeatWith cookie q svr conn reaches n = elim (Option-cases conn.writer) [
    | inl shut ↦ rw (close_expired, shut) (Neat-tick n (suc svr.tick) _ (omega arith) (λ k. refl))
    | inr (w, is) ↦ elim (Bool-cases (ltb conn.expiration (os.now svr.tick))) [
      | inl late ↦
          rw (close_expired, is, late)
            (Neat-close n q cookie w (suc svr.tick)
              (open_with cookie (record conn { writer = none }) svr.connections)
              (open_with-same cookie conn svr.connections ∙ is) (omega arith)
              (open_with-same cookie (record conn { writer = none }) svr.connections)
              (λ j differs.
                open_with-other cookie (record conn { writer = none }) svr.connections j differs
                ∙ sym (open_with-other cookie conn svr.connections j differs))
              reaches)
      | inr early ↦
          rw (close_expired, is, early) (Neat-tick n (suc svr.tick) _ (omega arith) (λ k. refl))
    ]
  ]

  -- After `Rotate` without an error the connection has a writer.
  abbrev Rotated : ℕ → Saver × Connection × Option Error → Type 0
  Rotated cookie (svr, conn, failed) =
      NeatWith cookie svr conn × (failed ≡ none → (w : Writer) × (conn.writer ≡ some w))

  rotate-Rotated :
      (cookie : ℕ) (svr : Saver) (conn : Connection)
      → conn.writer ≡ none
      → NeatWith cookie svr conn
      → Rotated cookie (rotate os svr conn)
  unfolding rotate
  rotate-Rotated cookie svr conn shut n = elim (Bool-cases (os.mkdir_works svr.tick)) [
    | inr broken ↦ rw (rotate, broken) (later, λ h. absurd (ground (arith, h)))
    | inl dir ↦ elim (Bool-cases (os.create_works svr.tick)) [
      | inr broken ↦ rw (rotate, dir, broken) (later, λ h. absurd (ground (arith, h)))
      | inl file ↦
          rw (rotate, dir, file)
            (
              Neat-open n cookie (next_writer os svr conn) (header os conn)
                  (open_with cookie opened svr.connections)
                  (open_with-same cookie conn svr.connections ∙ shut) refl
                  (open_with-same cookie opened svr.connections)
                  (λ j differs.
                    open_with-other cookie opened svr.connections j differs
                    ∙ sym (open_with-other cookie conn svr.connections j differs)),
              λ h. (next_writer os svr conn, refl),
            )
    ]
  ]
    where
      opened : Connection
      opened = record conn {
        writer = some (next_writer os svr conn);
        expiration = conn.expiration + ten_minutes;
        sequence = suc conn.sequence;
      }

      later : NeatWith cookie (ticked svr) conn
      later =
          Neat-tick n (suc svr.tick) (open_with cookie conn svr.connections) (omega arith)
            (λ k. refl)

  rotate_if_closed-Rotated :
      (cookie : ℕ) (svr : Saver) (conn : Connection)
      → NeatWith cookie svr conn
      → Rotated cookie (rotate_if_closed os svr conn)
  unfolding rotate_if_closed
  rotate_if_closed-Rotated cookie svr conn n = elim (Option-cases conn.writer) [
    | inl shut ↦ rw (rotate_if_closed, shut) (rotate-Rotated cookie svr conn shut n)
    | inr (w, is) ↦ rw (rotate_if_closed, is) (n, λ h. (w, is))
  ]

  keep-IsNeat :
      (cookie : ℕ) (svr : Saver) (conn : Connection)
      → NeatWith cookie svr conn
      → IsNeat (keep cookie conn svr)
  keep-IsNeat cookie svr conn n =
      Neat-tick n svr.tick (open_for (insert cookie conn svr.connections)) (omega arith)
        (open_for-insert cookie conn svr.connections)

  delivered-IsNeat :
      (cookie q : ℕ) (msg : ArchivalRecord) (r : Saver × Connection × Option Error)
      → Rotated cookie r
      → IsNeat
          (elim r.2 as (λ x. Saver × Option Error) [
            | some e ↦ (keep cookie r.1 r.0, some e)
            | none ↦ (send q (message_task msg r.1.writer) (keep cookie r.1 r.0), none)
          ]).0
  delivered-IsNeat cookie q msg (svr, conn, some e) h = keep-IsNeat cookie svr conn h.0
  delivered-IsNeat cookie q msg (svr, conn, none) h =
      let (w, is) = h.1 refl in
      let kept = keep cookie conn svr in
      subst
        (λ x.
          Neat (send_on q (message_task msg x) kept.marshal_chans) kept.tick
            (open_for kept.connections) kept.opened)
        (sym is)
        (Neat-message (keep-IsNeat cookie svr conn h.0) q cookie w msg (
          open_for-insert cookie conn svr.connections cookie
          ∙ open_with-same cookie conn svr.connections
          ∙ is))

  queue_on-IsNeat :
      (cookie q : ℕ) (idm : InetDiagMsg) (msg : ArchivalRecord) (svr : Saver)
      → q < length svr.marshal_chans
      → IsNeat svr
      → IsNeat (queue_on os cookie q idm msg svr).0
  unfolding queue_on deliver
  queue_on-IsNeat cookie q idm msg svr reaches n =
      let one = connect os cookie idm msg svr in
      let two = close_expired os q one.0 one.1 in
      delivered-IsNeat cookie q msg (rotate_if_closed os two.0 two.1) (
        rotate_if_closed-Rotated cookie two.0 two.1 (
          close_expired-NeatWith cookie q one.0 one.1
            (omega (arith, reaches, (connect-Frame os cookie idm msg svr).same_chans))
            (connect-NeatWith cookie idm msg svr n)))

  queue_parsed-IsNeat :
      (idm : InetDiagMsg) (svr : Saver) (msg : ArchivalRecord)
      → IsNeat svr
      → IsNeat (queue_parsed os idm svr msg).0
  unfolding queue_parsed
  queue_parsed-IsNeat idm svr msg n = elim (Bool-cases (cookie_of idm.id == 0)) [
    | inl zeroed ↦ rw zeroed n
    | inr cookie ↦ elim (Bool-cases (ltb (length svr.marshal_chans) 1)) [
      | inl nowhere ↦ rw (cookie, nowhere) n
      | inr somewhere ↦
          rw (cookie, somewhere)
            (queue_on-IsNeat (cookie_of idm.id) (cookie_of idm.id % length svr.marshal_chans) idm
              msg svr (mod-lt (cookie_of idm.id) (ltb→ge (length svr.marshal_chans) 1 somewhere)) n)
    ]
  ]

  pub queue-IsNeat :
      (svr : Saver) (msg : ArchivalRecord) (out : Saver × Option Error)
      → queue os svr msg ≡ ok out
      → IsNeat svr
      → IsNeat out.0
  unfolding queue
  queue-IsNeat svr msg out h n = elim (Result-cases (parse (idm_bytes msg))) [
    | inl (idm, e) ↦
        let is : queue_parsed os idm svr msg ≡ out = ok-injective (rw (e, queue) at h) in
        subst (λ (o : Saver × Option Error). IsNeat o.0) is (queue_parsed-IsNeat idm svr msg n)
    | inr (inl (e, failed)) ↦ cc (rw (failed, queue) at h)
    | inr (inr broken) ↦ cc (rw (broken, queue) at h)
  ]

  drop_conn-IsNeat :
      (cookie q : ℕ) (svr : Saver) (found : Option Connection)
      → lookup cookie svr.connections ≡ found
      → q < length svr.marshal_chans
      → IsNeat svr
      → IsNeat (drop_conn os cookie q found svr)
  unfolding drop_conn
  drop_conn-IsNeat cookie q svr none is reaches n = n
  drop_conn-IsNeat cookie q svr (some conn) is reaches n = elim (Option-cases conn.writer) [
    | inl shut ↦ rw (drop_conn, shut) n
    | inr (w, has) ↦
        rw (drop_conn, has)
          (Neat-close n q cookie w svr.tick (open_for (delete cookie svr.connections))
            (ap writer_at is ∙ has) (omega arith) gone others reaches)
  ]
    where
      gone : open_for (delete cookie svr.connections) cookie ≡ none
      gone =
          let same : (cookie == cookie) ≡ true = ground arith in
          rw (lookup-delete cookie cookie svr.connections, same) refl

      others :
          (j : ℕ)
          → j ≢ cookie
          → open_for (delete cookie svr.connections) j ≡ open_for svr.connections j
      others j differs =
          let other : (cookie == j) ≡ false = ground (arith, differs) in
          rw (lookup-delete cookie j svr.connections, other) refl

  pub end_conn-IsNeat :
      (cookie : ℕ) (svr : Saver) {svr' : Saver}
      → end_conn os cookie svr ≡ ok svr'
      → IsNeat svr
      → IsNeat svr'
  unfolding end_conn
  end_conn-IsNeat cookie svr {svr'} h n = elim (Bool-cases (length svr.marshal_chans == 0)) [
    | inl nowhere ↦ cc (rw (nowhere, end_conn) at h)
    | inr somewhere ↦
        let told =
          Neat-tick n (suc svr.tick) (open_for svr.connections) (omega arith) (λ k. refl) in
        subst IsNeat (ok-injective (rw (somewhere, end_conn) at h)) (
          drop_conn-IsNeat cookie (cookie % length svr.marshal_chans)
            (record svr {
              events = svr.events ++ close_event (os.now svr.tick) (os.from_cookie cookie) ∷ [];
              tick = suc svr.tick;
            })
            (lookup cookie svr.connections) refl
            (mod-lt cookie (
              let some_chan : 0 < length svr.marshal_chans = ground (arith, somewhere) in
              some_chan))
            told)
  ]
