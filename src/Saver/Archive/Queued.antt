-- ===== src/Saver/Archive/Queued.antt =====
-- saver/saver.go `queue` and `endConn`: what they archive.
use tcp_info.Base.Assoc.{lookup}
use tcp_info.Base.{
  ℕ, suc, ◌%◌, ◌<◌, ◌≡◌, ◌≢◌, refl, sym, ap, ◌∙◌, true, false, ◌==◌, Bool-cases, ltb, inl, inr,
  List, [], ◌∷◌, ◌++◌, Option, none, some, Option-cases, arith, length, if◌then◌else◌, Error, ok,
  ok-injective, Result-cases,
}
use mathlib.Core.List.{append-nil}
use tcp_info.Cache.Keys.{key-parse}
use tcp_info.Cache.Rounds.{key, has_key}
use tcp_info.EventSocket.{close_event}
use tcp_info.Inetdiag.SockId.{cookie_of}
use tcp_info.Inetdiag.{InetDiagMsg, parse}
use tcp_info.Netlink.{ArchivalRecord, idm_bytes}
use tcp_info.Saver.Archive.Sent.{sent, sent-close, sent-message}
use tcp_info.Saver.Queue.Frame.{close_expired-Frame}
use tcp_info.Saver.Queue.{
  connect, close_expired, rotate, rotate_if_closed, deliver, queue_on, queue_parsed, queue,
  drop_conn, end_conn,
}
use tcp_info.Saver.{Os, Connection, Saver}

-- Directories and files can always be made.
pub record Works (os : Os) : Type 0 where
  pub dirs : (t : ℕ) → os.mkdir_works t ≡ true
  pub files : (t : ℕ) → os.create_works t ≡ true

-- A record, if it is of the cookie.
abbrev pub if_of : ℕ → ArchivalRecord → List ArchivalRecord
if_of k m = if has_key k m then m ∷ [] else []

module _ (os : Os) where
  connect-chans :
      (cookie : ℕ) (idm : InetDiagMsg) (msg : ArchivalRecord) (svr : Saver)
      → (connect os cookie idm msg svr).0.marshal_chans ≡ svr.marshal_chans
  unfolding connect
  connect-chans cookie idm msg svr = ground arith

  close_expired-sent :
      (k q : ℕ) (svr : Saver) (conn : Connection)
      → 0 < length svr.marshal_chans
      → sent k (close_expired os q svr conn).0.marshal_chans ≡ sent k svr.marshal_chans
  unfolding close_expired
  close_expired-sent k q svr conn h = elim (Option-cases conn.writer) [
    | inl shut ↦ rw (close_expired, shut) refl
    | inr (w, is) ↦ elim (Bool-cases (ltb conn.expiration (os.now svr.tick))) [
      | inl late ↦ rw (close_expired, is, late) (sent-close k q w svr.marshal_chans h)
      | inr early ↦ rw (close_expired, is, early) refl
    ]
  ]

  rotate_if_closed-chans :
      (svr : Saver) (conn : Connection)
      → Works os
      → ((rotate_if_closed os svr conn).0.marshal_chans ≡ svr.marshal_chans)
        × ((rotate_if_closed os svr conn).2 ≡ none)
  unfolding rotate_if_closed rotate
  rotate_if_closed-chans svr conn works = ground (arith, works.dirs svr.tick, works.files svr.tick)

  deliver-sent :
      (k cookie q : ℕ) (msg : ArchivalRecord) (svr : Saver) (conn : Connection)
      → Works os
      → 0 < length svr.marshal_chans
      → q ≡ cookie % length svr.marshal_chans
      → key msg ≡ some cookie
      → sent k (deliver os cookie q msg (svr, conn)).0.marshal_chans
        ≡ sent k svr.marshal_chans ++ if_of k msg
  unfolding deliver
  deliver-sent k cookie q msg svr conn works h at is =
      let (same, fine) = rotate_if_closed-chans svr conn works in
      let w = (rotate_if_closed os svr conn).1.writer in
      rw (deliver, fine, same, at) (sent-message k cookie msg w svr.marshal_chans h is)

  queue_on-sent :
      (k cookie : ℕ) (idm : InetDiagMsg) (msg : ArchivalRecord) (svr : Saver)
      → Works os
      → 0 < length svr.marshal_chans
      → key msg ≡ some cookie
      → sent k (queue_on os cookie (cookie % length svr.marshal_chans) idm msg svr).0.marshal_chans
        ≡ sent k svr.marshal_chans ++ if_of k msg
  unfolding queue_on
  queue_on-sent k cookie idm msg svr works h is =
      let q = cookie % length svr.marshal_chans in
      let one = connect os cookie idm msg svr in
      let two = close_expired os q one.0 one.1 in
      let same = connect-chans cookie idm msg svr in
      let len1 : length one.0.marshal_chans ≡ length svr.marshal_chans = ap length same in
      let len2 : length two.0.marshal_chans ≡ length svr.marshal_chans =
        (close_expired-Frame os q one.0 one.1).same_chans ∙ len1 in
      deliver-sent k cookie q msg two.0 two.1 works (omega (arith, len2, h))
        (ap (λ n. cookie % n) (sym len2)) is
      ∙ ap (λ l. l ++ if_of k msg)
          (close_expired-sent k q one.0 one.1 (omega (arith, len1, h)) ∙ ap (sent k) same)

  -- Cookie 0 is refused.
  queue_parsed-sent :
      (k : ℕ) (idm : InetDiagMsg) (svr : Saver) (msg : ArchivalRecord)
      → Works os
      → k ≢ 0
      → 0 < length svr.marshal_chans
      → key msg ≡ some (cookie_of idm.id)
      → sent k (queue_parsed os idm svr msg).0.marshal_chans
        ≡ sent k svr.marshal_chans ++ if_of k msg
  unfolding queue_parsed
  queue_parsed-sent k idm svr msg works pos h is = elim (Bool-cases (cookie_of idm.id == 0)) [
    | inl zeroed ↦
        let lacks : has_key k msg ≡ false = ground (arith, is, zeroed, pos) in
        rw (zeroed, lacks) (sym (append-nil (sent k svr.marshal_chans)))
    | inr cookie ↦
        let somewhere : ltb (length svr.marshal_chans) 1 ≡ false = ground arith in
        rw (cookie, somewhere) (queue_on-sent k (cookie_of idm.id) idm msg svr works h is)
  ]

  pub queue-sent :
      (k : ℕ) (svr : Saver) (msg : ArchivalRecord) {out : Saver × Option Error}
      → Works os
      → k ≢ 0
      → 0 < length svr.marshal_chans
      → queue os svr msg ≡ ok out
      → sent k out.0.marshal_chans ≡ sent k svr.marshal_chans ++ if_of k msg
  unfolding queue
  queue-sent k svr msg {out} works pos h e = elim (Result-cases (parse (idm_bytes msg))) [
    | inl (idm, is) ↦
        let done : queue_parsed os idm svr msg ≡ out = ok-injective (rw (is, queue) at e) in
        ap (λ (o : Saver × Option Error). sent k o.0.marshal_chans) (sym done)
        ∙ queue_parsed-sent k idm svr msg works pos h (key-parse msg idm is)
    | inr (inl (x, failed)) ↦ cc (rw (failed, queue) at e)
    | inr (inr broken) ↦ cc (rw (broken, queue) at e)
  ]

  drop_conn-sent :
      (k cookie q : ℕ) (found : Option Connection) (svr : Saver)
      → 0 < length svr.marshal_chans
      → sent k (drop_conn os cookie q found svr).marshal_chans ≡ sent k svr.marshal_chans
  unfolding drop_conn
  drop_conn-sent k cookie q none svr h = refl
  drop_conn-sent k cookie q (some conn) svr h = elim (Option-cases conn.writer) [
    | inl shut ↦ rw (drop_conn, shut) refl
    | inr (w, is) ↦ rw (drop_conn, is) (sent-close k q w svr.marshal_chans h)
  ]

  pub end_conn-sent :
      (k cookie : ℕ) (svr : Saver) {svr' : Saver}
      → 0 < length svr.marshal_chans
      → end_conn os cookie svr ≡ ok svr'
      → sent k svr'.marshal_chans ≡ sent k svr.marshal_chans
  unfolding end_conn
  end_conn-sent k cookie svr {svr'} h e =
      let busy : (length svr.marshal_chans == 0) ≡ false = ground arith in
      ap (λ (s : Saver). sent k s.marshal_chans) (sym (ok-injective (rw (busy, end_conn) at e)))
      ∙ drop_conn-sent k cookie (cookie % length svr.marshal_chans) (lookup cookie svr.connections)
          (record svr {
            events = svr.events ++ close_event (os.now svr.tick) (os.from_cookie cookie) ∷ [];
            tick = suc svr.tick;
          })
          h
