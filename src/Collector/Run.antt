-- ===== src/Collector/Run.antt =====
-- collector/collector_linux.go: `collectDefaultNamespace` and `Run`.
--
-- The sockets of each round, the clock and the context are parameters, read at the number of the
-- round. The ticker only waits, and the counts that `Run` returns are never set.
use tcp_info.Base.{
  ℕ, zero, suc, ◌+◌, ◌%◌, ◌≤◌, ◌<◌, ◌≡◌, refl, ◌⊎◌, inl, inr, Bool, true, false, not, ◌&&◌, ◌||◌,
  List, [], ◌∷◌, ◌++◌, map, Option, none, some, Error, arith, ltb, ◌==◌, if◌then◌else◌, length,
  length-append, Bool-cases,
}
use tcp_info.Collector.{Socket, one_type}
use tcp_info.Netlink.{NetlinkMessage, MessageBlock}

-- What a round of `Run` meets.
pub record World : Type 0 where
  pub inet6 : ℕ → Socket
  pub inet : ℕ → Socket
  pub time6 : ℕ → ℕ
  pub time4 : ℕ → ℕ
  -- `ctx.Err() != nil`, in front of a round
  pub cancelled : ℕ → Bool

-- The messages of an answer without an error.
abbrev pub messages_of : List NetlinkMessage × Option Error → List (Option NetlinkMessage)
messages_of (res, none) = map some res
messages_of (res, some e) = []

-- `collectDefaultNamespace`: the block that it sends, and the number of sockets.
unfoldable pub collect_default_namespace : World → ℕ → Option (MessageBlock × ℕ)
collect_default_namespace world n = elim (one_type (world.inet6 n)) [
  | none ↦ none
  | some res6 ↦ elim (one_type (world.inet n)) [
    | none ↦ none
    | some res4 ↦ some (
      record {
        v4_time = world.time4 n;
        v4_messages = messages_of res4;
        v6_time = world.time6 n;
        v6_messages = messages_of res6;
      },
      length res4.0 + length res6.0,
    )
  ]
]

-- The variables of `Run`, and the blocks that it has sent.
pub record Progress : Type 0 where
  pub loops : ℕ
  pub total_count : ℕ
  pub sent : List MessageBlock
  pub cache_logs : ℕ

-- The body of the loop.
abbrev pub advance : Progress → MessageBlock × ℕ → Progress
advance p (block, total) = record {
  loops = suc p.loops;
  total_count = p.total_count + total;
  sent = p.sent ++ block ∷ [];
  cache_logs = if p.loops % 6000 == 0 then suc p.cache_logs else p.cache_logs;
}

-- The loop's condition.
abbrev pub goes_round : World → ℕ → Progress → Bool
goes_round world reps p = (reps == 0 || ltb p.loops reps) && not (world.cancelled p.loops)

-- The loop of `Run`, with fuel; `none` if it has not ended.
unfoldable pub run_loop : ℕ → World → ℕ → Progress → Option Progress
run_loop zero world reps p = none
run_loop (suc fuel) world reps p = elim (goes_round world reps p) [
  | true ↦ elim (collect_default_namespace world p.loops) [
    | none ↦ none
    | some round ↦ run_loop fuel world reps (advance p round)
  ]
  | false ↦ some p
]

-- `Run`.
abbrev pub run : ℕ → World → ℕ → Option Progress
run fuel world reps =
    run_loop fuel world reps (record { loops = 0; total_count = 0; sent = []; cache_logs = 0 })

-- Each round up to `bound` gets its answers, whatever they are.
abbrev pub Answered : World → ℕ → Type 0
Answered world bound =
    (n : ℕ)
    → n < bound
    → (round : MessageBlock × ℕ) × (collect_default_namespace world n ≡ some round)

-- There is nothing to do in round `bound`.
abbrev pub EndsBy : World → ℕ → ℕ → Type 0
EndsBy world reps bound = ((1 ≤ reps) × (reps ≤ bound)) ⊎ (world.cancelled bound ≡ true)

run_loop-ends :
    (fuel : ℕ) (world : World) (reps bound : ℕ) (p : Progress)
    → Answered world bound
    → EndsBy world reps bound
    → bound ≡ p.loops + fuel
    → length p.sent ≡ p.loops
    → (q : Progress) × (run_loop (suc fuel) world reps p ≡ some q)
      × (q.loops ≤ bound)
      × (length q.sent ≡ q.loops)
unfolding run_loop
run_loop-ends zero world reps bound p answers ends far sent =
    let stops : goes_round world reps p ≡ false = ground (arith, ends, far) in
    (p, rw (run_loop, stops) refl, omega arith, sent)
run_loop-ends (suc fuel) world reps bound p answers ends far sent =
    elim (Bool-cases (goes_round world reps p)) [
      | inr stops ↦ (p, rw (run_loop, stops) refl, omega arith, sent)
      | inl again ↦
          let (round, e) = answers p.loops (omega arith) in
          let (q, f, few, counted) =
            run_loop-ends fuel world reps bound (advance p round) answers ends (omega arith)
              (omega (arith, length-append p.sent (round.0 ∷ []))) in
          (q, rw (run_loop, again, e) f, few, counted)
    ]

-- `Run` ends after `bound` rounds at most, if `reps` lies between 1 and `bound` or the
-- context is cancelled in front of round `bound`, while the kernel answers in each round; and it
-- has sent one block for each round.
pub run_ends :
    (world : World) (reps bound : ℕ)
    → Answered world bound
    → EndsBy world reps bound
    → (q : Progress) × (run (suc bound) world reps ≡ some q)
      × (q.loops ≤ bound)
      × (length q.sent ≡ q.loops)
run_ends world reps bound answers ends =
    run_loop-ends bound world reps bound
      (record { loops = 0; total_count = 0; sent = []; cache_logs = 0 }) answers ends (omega arith)
      refl
