-- ===== src/Saver/Rounds/Report.antt =====
-- The reports of bytes sent and received.
use tcp_info.Base.{
  ℕ, ◌+◌, ◌-◌, ◌*◌, ◌^◌, ◌%◌, ◌≤◌, ◌<◌, ◌⊎◌, ◌≡◌, refl, List, [], ◌∷◌, ◌++◌, arith, ok, >>=-eq-ok,
  ok-injective, subst, Bool-cases, inl, inr, ltb, ltb→lt, ltb→ge,
}
use tcp_info.Netlink.{MessageBlock}
use tcp_info.Saver.Rounds.{
  Totals, grand_total, report, report_both, handle_block, handle_blocks, retire_all,
}
use tcp_info.Saver.Swap.{handle_type}
use tcp_info.Saver.{Os, TcpStats, Saver, add64}

-- The sum of what a histogram has observed.
unfoldable pub sum : List ℕ → ℕ
sum [] = 0
sum (x ∷ xs) = x + sum xs

sum-append : (xs ys : List ℕ) → sum (xs ++ ys) ≡ sum xs + sum ys
unfolding sum
sum-append [] ys = omega arith
sum-append (x ∷ xs) ys = omega (arith, sum-append xs ys)

-- What one report does to a reported total and to its rates: it moves it to the new total, if that
-- lies at most 12.5e9 bytes ahead, and observes eight times the difference; otherwise it leaves both.
abbrev pub Moves : ℕ → ℕ → ℕ → List ℕ → List ℕ → Type 0
Moves reported total now rates rates' =
    ((reported ≤ total)
      × (total ≤ reported + 12_500_000_000)
      × (now ≡ total)
      × (rates' ≡ rates ++ (8 * (total - reported)) ∷ []))
    ⊎ (((total < reported) ⊎ (reported + 12_500_000_000 < total))
        × (now ≡ reported)
        × (rates' ≡ rates))

-- The bytes so far on closed connections, on closing ones, and on the others of both families.
abbrev pub all_bytes : ℕ → ℕ → ℕ → ℕ → ℕ
all_bytes closed closing v4 v6 = (closed + closing + v4 + v6) % 2 ^ 64

grand_total-all_bytes :
    (closed closing v4 v6 : ℕ) → grand_total closed closing v4 v6 ≡ all_bytes closed closing v4 v6
unfolding grand_total add64
grand_total-all_bytes closed closing v4 v6 = omega arith

report-Moves :
    (total reported : ℕ) (rates : List ℕ)
    → reported + 12_500_000_000 < 2 ^ 64
    → Moves reported total (report total reported rates).0 rates (report total reported rates).1
unfolding report add64
report-Moves total reported rates h = ground arith

reports-Moves :
    (closed closing v4 v6 reported : ℕ) (rates : List ℕ)
    → reported + 12_500_000_000 < 2 ^ 64
    → let out = report (grand_total closed closing v4 v6) reported rates in
      Moves reported (all_bytes closed closing v4 v6) out.0 rates out.1
reports-Moves closed closing v4 v6 reported rates h =
    let total = grand_total closed closing v4 v6 in
    let out = report total reported rates in
    subst (λ (x : ℕ). Moves reported x out.0 rates out.1)
      (grand_total-all_bytes closed closing v4 v6) (report-Moves total reported rates h)

sum-report :
    (total reported : ℕ) (rates : List ℕ)
    → sum rates ≡ 8 * reported
    → sum (report total reported rates).1 ≡ 8 * (report total reported rates).0
unfolding report sum
sum-report total reported rates h = ground (arith, sum-append rates ((8 * (total - reported)) ∷ []))

-- What both histograms have observed adds up to eight times the bytes reported: each reported byte
-- is counted once.
pub record IsMetered (t : Totals) : Type 0 where
  pub sent_sum : sum t.sent_rates ≡ 8 * t.reported.sent
  pub received_sum : sum t.received_rates ≡ 8 * t.reported.received

module _ (seconds : ℕ) (closing v4 v6 closed : TcpStats) (t : Totals) where
  new_sent : ℕ
  new_sent = grand_total closed.sent closing.sent v4.sent v6.sent

  new_received : ℕ
  new_received = grand_total closed.received closing.received v4.received v6.received

  report_both-IsMetered : IsMetered t → IsMetered (report_both seconds closing v4 v6 closed t)
  unfolding report_both new_sent new_received
  report_both-IsMetered m = ground (
    arith,
    sum-report new_sent t.reported.sent t.sent_rates,
    sum-report new_received t.reported.received t.received_rates,
  )

  -- In a new second each reported total moves to the sum of the bytes on closed connections, on
  -- closing ones and on the others of both families, modulo 2^64, if that is at most 12.5e9 bytes
  -- ahead, and eight times the difference is observed; otherwise both stay. Within the same second
  -- nothing is reported. The totals so far must not be within that distance of 2^64.
  pub report_both-Moves :
      t.reported.sent + 12_500_000_000 < 2 ^ 64
      → t.reported.received + 12_500_000_000 < 2 ^ 64
      → let t' = report_both seconds closing v4 v6 closed t in
        ((seconds ≤ t.last_report_time) × (t' ≡ record t { closed = closed }))
        ⊎ ((t.last_report_time < seconds)
            × (t'.last_report_time ≡ seconds)
            × Moves t.reported.sent
                (all_bytes closed.sent closing.sent v4.sent v6.sent)
                t'.reported.sent
                t.sent_rates
                t'.sent_rates
            × Moves t.reported.received
                (all_bytes closed.received closing.received v4.received v6.received)
                t'.reported.received
                t.received_rates
                t'.received_rates)
  unfolding report_both new_sent new_received
  report_both-Moves h k = elim (Bool-cases (ltb t.last_report_time seconds)) [
    | inl later ↦ rw later (
        inr (
          ltb→lt t.last_report_time seconds later,
          refl,
          reports-Moves closed.sent closing.sent v4.sent v6.sent t.reported.sent t.sent_rates h,
          reports-Moves closed.received closing.received v4.received v6.received t.reported.received
              t.received_rates k,
        ))
    | inr same ↦ rw same (inl (ltb→ge t.last_report_time seconds same, refl))
  ]

module _ (os : Os) where
  handle_block-IsMetered :
      (msgs : MessageBlock) (t : Totals) (svr : Saver) (out : Totals × Saver)
      → IsMetered t
      → handle_block os msgs t svr ≡ ok out
      → IsMetered out.0
  unfolding handle_block
  handle_block-IsMetered msgs t svr out m h =
      let (a, e, h1) = >>=-eq-ok (handle_type os msgs.v4_time msgs.v4_messages svr) _ h in
      let (b, f, h2) = >>=-eq-ok (handle_type os msgs.v6_time msgs.v6_messages a.1) _ h1 in
      let (c, g, last) = >>=-eq-ok (retire_all os _ t.closed _) _ h2 in
      subst (λ (o : Totals × Saver). IsMetered o.0) (ok-injective last)
        (report_both-IsMetered _ _ a.0 b.0 c.0 t m)

  -- Over any sequence of blocks, what either histogram observes adds up to eight times the bytes
  -- reported, from any state in which it does.
  pub handled-IsMetered :
      (blocks : List MessageBlock) (t : Totals) (svr : Saver) (out : Totals × Saver)
      → IsMetered t
      → handle_blocks os blocks t svr ≡ ok out
      → IsMetered out.0
  unfolding handle_blocks
  handled-IsMetered [] t svr out m h =
      subst (λ (o : Totals × Saver). IsMetered o.0) (ok-injective h) m
  handled-IsMetered (msgs ∷ blocks) t svr out m h =
      let (mid, e, rest) = >>=-eq-ok (handle_block os msgs t svr) _ h in
      handled-IsMetered blocks mid.0 mid.1 out (handle_block-IsMetered msgs t svr mid m e) rest
