-- ===== src/Saver/Rounds/Closed.antt =====
-- The files of `MessageSaverLoop`: every writer is closed by the end.
use tcp_info.Base.{
  ℕ, suc, ◌%◌, ◌≡◌, ◌≢◌, refl, true, false, Bool, ◌||◌, ◌==◌, List, [], ◌∷◌, ◌++◌, map, Option,
  none, some, ok, >>=-eq-ok, ok-injective, inl, inr, Bool-cases, arith, Option-cases, length, ap,
  ◌∙◌,
}
use tcp_info.Base.Assoc.{lookup, lookup-delete}
use tcp_info.EventSocket.{close_event}
use tcp_info.Netlink.{MessageBlock, Metadata}
use tcp_info.Saver.Queue.Open.{open_for, writer_at}
use tcp_info.Saver.Queue.Tidy.{AllOwned, closed}
use tcp_info.Saver.Queue.{ticked, end_conn, drop_conn}
use tcp_info.Saver.Rounds.Loop.{AllBlocks}
use tcp_info.Saver.Rounds.Writers.{message_saver_loop-IsNeat}
use tcp_info.Saver.Rounds.{end_all, message_saver_loop}
use tcp_info.Saver.{Os, new_saver, Connection, Saver, Task, Writer}

abbrev pub contains : ℕ → List ℕ → Bool
contains k [] = false
contains k (c ∷ cs) = c == k || contains k cs

abbrev keys : List (ℕ × Connection) → List ℕ
keys conns = map (λ (c : ℕ × Connection). c.0) conns

-- Each writer that was opened is closed on a channel.
abbrev pub AllClosed : List (List Task) → List (Writer × Metadata) → Type 0
AllClosed chans [] = Unit {0}
AllClosed chans ((w, header) ∷ rest) = (closed w.serial chans ≡ true) × AllClosed chans rest

AllOwned-AllClosed :
    (chans : List (List Task)) (f : ℕ → Option Writer) (opened : List (Writer × Metadata))
    → ((k : ℕ) → f k ≡ none)
    → AllOwned chans f opened
    → AllClosed chans opened
AllOwned-AllClosed chans f [] idle o = tt
AllOwned-AllClosed chans f ((w, header) ∷ rest) idle o = (
  elim (o.0) [ inl shut ↦ shut | inr (k, is) ↦ absurd (ground (arith, is, idle k)) ],
  AllOwned-AllClosed chans f rest idle o.1,
)

contains-keys :
    (k : ℕ) (conns : List (ℕ × Connection)) (w : Writer)
    → open_for conns k ≡ some w
    → contains k (keys conns) ≡ true
unfolding lookup
contains-keys k [] w h = absurd (ground (arith, h))
contains-keys k ((i, c) ∷ conns) w h = elim (Bool-cases (i == k)) [
  | inl same ↦ rw same refl
  | inr other ↦ ground (arith, other, contains-keys k conns w (rw (open_for, lookup, other) at h))
]

module _ (os : Os) where
  drop_conn-open :
      (cookie q : ℕ) (svr : Saver) (found : Option Connection) (k : ℕ) (w : Writer)
      → lookup cookie svr.connections ≡ found
      → open_for (drop_conn os cookie q found svr).connections k ≡ some w
      → (open_for svr.connections k ≡ some w) × (k ≢ cookie)
  unfolding drop_conn
  drop_conn-open cookie q svr none k w is h =
      (h, λ at. ground (arith, ap (open_for svr.connections) at, ap writer_at is, h))
  drop_conn-open cookie q svr (some conn) k w is h = elim (Option-cases conn.writer) [
    | inl shut ↦
        let same = rw (shut, drop_conn) at h in
        (same, λ at. ground (arith, ap (open_for svr.connections) at, ap writer_at is, same, shut))
    | inr (v, has) ↦ elim (Bool-cases (cookie == k)) [
      | inl same ↦
          absurd (cc (rw (has, drop_conn, lookup-delete cookie k svr.connections, same) at h))
      | inr other ↦ (
        rw (has, drop_conn, lookup-delete cookie k svr.connections, other) at h,
        λ at. ground (arith, other, at),
      )
    ]
  ]

  end_conn-open :
      (cookie : ℕ) (svr svr' : Saver) (k : ℕ) (w : Writer)
      → end_conn os cookie svr ≡ ok svr'
      → open_for svr'.connections k ≡ some w
      → (open_for svr.connections k ≡ some w) × (k ≢ cookie)
  unfolding end_conn
  end_conn-open cookie svr svr' k w e h = elim (Bool-cases (length svr.marshal_chans == 0)) [
    | inl nowhere ↦ cc (rw (nowhere, end_conn) at e)
    | inr somewhere ↦
        drop_conn-open cookie (cookie % length svr.marshal_chans)
          (record svr {
            events = svr.events ++ close_event (os.now svr.tick) (os.from_cookie cookie) ∷ [];
            tick = suc svr.tick;
          })
          (lookup cookie svr.connections) k w refl
          (ap (λ (s : Saver). open_for s.connections k)
              (ok-injective (rw (somewhere, end_conn) at e))
            ∙ h)
  ]

  end_all-open :
      (cookies : List ℕ) (svr svr' : Saver) (k : ℕ) (w : Writer)
      → end_all os cookies svr ≡ ok svr'
      → open_for svr'.connections k ≡ some w
      → (open_for svr.connections k ≡ some w) × (contains k cookies ≡ false)
  unfolding end_all
  end_all-open [] svr svr' k w e h =
      (ap (λ (s : Saver). open_for s.connections k) (ok-injective e) ∙ h, refl)
  end_all-open (cookie ∷ cookies) svr svr' k w e h =
      let (mid, f, rest) = >>=-eq-ok (end_conn os cookie svr) _ e in
      let (still, spared) = end_all-open cookies mid svr' k w rest h in
      let (was, differs) = end_conn-open cookie svr mid k w f still in
      (was, ground (arith, spared, differs))

  -- From a new saver with a marshaller at least, over any sequence of blocks as the kernel sends them
  -- and through the close, the loop ends, and every writer that it has opened has been closed, if
  -- `range` visits every key of a map.
  pub message_saver_loop-AllClosed :
      ((tick : ℕ) (ks : List ℕ) (k : ℕ)
        → contains k ks ≡ true
        → contains k (os.key_order tick ks) ≡ true)
      → (n : ℕ) (blocks : List MessageBlock) → AllBlocks blocks
      → (svr : Saver) × (message_saver_loop os blocks (new_saver (suc n)) ≡ ok svr)
        × AllClosed svr.marshal_chans svr.opened
  message_saver_loop-AllClosed visits n blocks h =
      let (svr, done, ended, mid, ends) = message_saver_loop-IsNeat os n blocks h in
      let order = os.key_order mid.tick (keys mid.connections) in
      let none_open : (k : ℕ) → open_for svr.connections k ≡ none = λ k.
        elim (Option-cases (open_for svr.connections k)) [
          | inl shut ↦ shut
          | inr (w, has) ↦
              let (was, spared) = end_all-open order (ticked mid) svr k w ends has in
              absurd (
                ground (
                  arith,
                  spared,
                  visits mid.tick (keys mid.connections) k (contains-keys k mid.connections w was),
                ))
        ] in
      (
        svr,
        done,
        AllOwned-AllClosed svr.marshal_chans (open_for svr.connections) svr.opened none_open
            ended.owned,
      )
