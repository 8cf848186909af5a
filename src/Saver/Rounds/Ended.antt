-- ===== src/Saver/Rounds/Ended.antt =====
-- saver/saver.go `endConn` over the residual of a round: which connections it ends.
use tcp_info.Base.Assoc.{lookup, lookup-delete}
use tcp_info.Base.{
  ℕ, suc, ◌≡◌, refl, sym, ap, ◌∙◌, subst, ◌⊎◌, inl, inr, List, [], ◌∷◌, ◌++◌, map, Option, none,
  some, Option-cases, Bool-cases, ok, >>=-eq-ok, ok-injective, arith, length, ◌==◌, ◌%◌, true,
}
use mathlib.Core.List.{append_assoc, append-nil}
use tcp_info.Bytes.{Bytes}
use tcp_info.Cache.{Records}
use tcp_info.EventSocket.{FlowEvent, close_event}
use tcp_info.Netlink.{ArchivalRecord}
use tcp_info.Saver.Queue.{drop_conn, end_conn}
use tcp_info.Saver.Rounds.{final_stats, take_closing, retire, retire_all}
use tcp_info.Saver.{Os, Connection, TcpStats, Saver}

-- The connection of a cookie is gone, or it has no writer.
abbrev pub IsEnded : ℕ → Saver → Type 0
IsEnded k svr =
    (lookup k svr.connections ≡ none)
    ⊎ ((conn : Connection) × (lookup k svr.connections ≡ some conn) × (conn.writer ≡ none))

abbrev pub AllEnded : Records → Saver → Type 0
AllEnded [] svr = Unit {0}
AllEnded ((cookie, ar) ∷ residual) svr = IsEnded cookie svr × AllEnded residual svr

abbrev pub uuids_of : List FlowEvent → List Bytes
uuids_of [] = []
uuids_of (e ∷ events) = e.uuid ∷ uuids_of events

uuids_of-append : (a b : List FlowEvent) → uuids_of (a ++ b) ≡ uuids_of a ++ uuids_of b
uuids_of-append [] b = refl
uuids_of-append (e ∷ a) b = ap (◌∷◌ e.uuid) (uuids_of-append a b)

final_stats-conns :
    (cookie : ℕ) (ar : ArchivalRecord) (svr : Saver)
    → ((final_stats cookie ar svr).1.connections ≡ svr.connections)
      × ((final_stats cookie ar svr).1.events ≡ svr.events)
unfolding final_stats take_closing
final_stats-conns cookie ar svr = ground arith

module _ (os : Os) where
  drop_conn-IsEnded_same :
      (k q : ℕ) (found : Option Connection) (svr : Saver)
      → lookup k svr.connections ≡ found
      → IsEnded k (drop_conn os k q found svr)
  unfolding drop_conn
  drop_conn-IsEnded_same k q none svr at = inl at
  drop_conn-IsEnded_same k q (some conn) svr at = elim (Option-cases conn.writer) [
    | inl shut ↦ rw (drop_conn, shut) (inr (conn, at, shut))
    | inr (w, is) ↦
        let same : (k == k) ≡ true = ground arith in
        rw (drop_conn, is) (inl (rw (same) at (lookup-delete k k svr.connections)))
  ]

  drop_conn-IsEnded :
      (j k q : ℕ) (found : Option Connection) (svr : Saver)
      → IsEnded j svr
      → IsEnded j (drop_conn os k q found svr)
  unfolding drop_conn
  drop_conn-IsEnded j k q none svr h = h
  drop_conn-IsEnded j k q (some conn) svr h = elim (Option-cases conn.writer) [
    | inl shut ↦ rw (drop_conn, shut) h
    | inr (w, is) ↦ elim (Bool-cases (k == j)) [
      | inl same ↦ rw (drop_conn, is) (inl (rw (same) at (lookup-delete k j svr.connections)))
      | inr other ↦ rw (drop_conn, is, lookup-delete k j svr.connections, other) h
    ]
  ]

  drop_conn-events :
      (k q : ℕ) (found : Option Connection) (svr : Saver)
      → (drop_conn os k q found svr).events ≡ svr.events
  unfolding drop_conn
  drop_conn-events k q none svr = refl
  drop_conn-events k q (some conn) svr = ground arith

  -- What the end of one connection does.
  abbrev Ends : ℕ → Saver → Saver → Type 0
  Ends cookie a b =
      IsEnded cookie b
      × ((j : ℕ) → IsEnded j a → IsEnded j b)
      × (uuids_of b.events ≡ uuids_of a.events ++ os.from_cookie cookie ∷ [])

  end_conn-Ends : (cookie : ℕ) (a b : Saver) → end_conn os cookie a ≡ ok b → Ends cookie a b
  unfolding end_conn
  end_conn-Ends cookie a b h = elim (Bool-cases (length a.marshal_chans == 0)) [
    | inl nowhere ↦ absurd (cc (rw (nowhere, end_conn) at h))
    | inr somewhere ↦
        let q = cookie % length a.marshal_chans in
        let found = lookup cookie a.connections in
        let event = close_event (os.now a.tick) (os.from_cookie cookie) in
        let told = record a { events = a.events ++ event ∷ []; tick = suc a.tick } in
        subst (Ends cookie a) (ok-injective (rw (somewhere, end_conn) at h)) (
          drop_conn-IsEnded_same cookie q found told refl,
          λ j ended. drop_conn-IsEnded j cookie q found told ended,
          ap uuids_of (drop_conn-events cookie q found told)
              ∙ uuids_of-append a.events (event ∷ []),
        )
  ]

  retire-Ends :
      (cookie : ℕ) (ar : ArchivalRecord) (closed : TcpStats) (svr : Saver) (out : TcpStats × Saver)
      → retire os cookie ar closed svr ≡ ok out
      → Ends cookie svr out.1
  unfolding retire
  retire-Ends cookie ar closed svr out h =
      let before = final_stats cookie ar svr in
      let (conns, events) = final_stats-conns cookie ar svr in
      let (after, e, last) = >>=-eq-ok (end_conn os cookie before.1) _ h in
      let (gone, still, told) = end_conn-Ends cookie before.1 after e in
      subst (λ (o : TcpStats × Saver). Ends cookie svr o.1) (ok-injective last)
        (gone, λ j ended. still j (rw (conns) ended), rw (events) at told)

  pub retired :
      (residual : Records) (closed : TcpStats) (svr : Saver) (out : TcpStats × Saver)
      → retire_all os residual closed svr ≡ ok out
      → ((j : ℕ) → IsEnded j svr → IsEnded j out.1)
        × AllEnded residual out.1
        × (uuids_of out.1.events
            ≡ uuids_of svr.events ++ map (λ (e : ℕ × ArchivalRecord). os.from_cookie e.0) residual)
  unfolding retire_all
  retired [] closed svr out h =
      let same : svr ≡ out.1 = ap (λ (o : TcpStats × Saver). o.1) (ok-injective h) in
      (
        λ j ended. subst (IsEnded j) same ended,
        tt,
        ap (λ (a : Saver). uuids_of a.events) (sym same) ∙ sym (append-nil (uuids_of svr.events)),
      )
  retired ((cookie, ar) ∷ residual) closed svr out h =
      let (mid, e, rest) = >>=-eq-ok (retire os cookie ar closed svr) _ h in
      let (gone, still, told) = retire-Ends cookie ar closed svr mid e in
      let (kept, all, more) = retired residual mid.0 mid.1 out rest in
      let uuids = map (λ (e : ℕ × ArchivalRecord). os.from_cookie e.0) residual in
      (
        λ j ended. kept j (still j ended),
        (kept cookie gone, all),
        more
            ∙ ap (λ (u : List Bytes). u ++ uuids) told
            ∙ append_assoc (uuids_of svr.events) (os.from_cookie cookie ∷ []) uuids,
      )
