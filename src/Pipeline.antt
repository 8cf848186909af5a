-- ===== src/Pipeline.antt =====
-- main.go, from the making of the saver on, where no event socket is given, so that the event server
-- is the one of `NullServer`, whose methods return at once: the collector runs, its channel is closed,
-- the saver handles what was sent, and `svr.Done.Wait` waits for its marshallers. The saver and the
-- collector share nothing but the channel, and a marshaller gets nothing but its tasks, so that each
-- can be taken in turn: a full channel only makes its sender wait for a goroutine that goes on.
use tcp_info.Base.{
  ℕ, zero, suc, ◌≡◌, refl, List, [], ◌∷◌, ◌++◌, Option, none, some, arith, Result, ok, ◌>>=◌,
  Bool-cases, inl, inr, subst, Option-cases,
}
use tcp_info.Collector.Run.{
  World, Progress, collect_default_namespace, advance, goes_round, run_loop, run, Answered, EndsBy,
  run_ends,
}
use tcp_info.Netlink.Record.Formed.{AllHandled}
use tcp_info.Bytes.{Bytes}
use tcp_info.Saver.Files.Loop.{message_saver_loop-IsFiled}
use tcp_info.Saver.Files.Read.{AllFiled-HasWriters}
use tcp_info.Saver.Marshal.{Output, run_marshallers, run_marshallers_total}
use tcp_info.Netlink.{ArchivalRecord, MessageBlock}
use tcp_info.Saver.Rounds.Loop.{AllBlocks}
use tcp_info.Saver.Rounds.{message_saver_loop}
use tcp_info.Saver.{Os, Saver, new_saver}

-- The saver with its marshallers, from the blocks that it is sent: the saver and what has reached the
-- files behind their headers.
unfoldable pub run_saver :
    Os
    → (Bytes → Bytes)
    → (ArchivalRecord → Bytes)
    → List MessageBlock
    → Result (Saver × List (List Output))
run_saver os anon json blocks = do
  svr ← message_saver_loop os blocks (new_saver 3)
  outs ← run_marshallers anon json svr.marshal_chans
  ok (svr, outs)

-- `main`, with three marshallers; `none` if the collector has not ended.
unfoldable pub pipeline :
    ℕ
    → World
    → Os
    → (Bytes → Bytes)
    → (ArchivalRecord → Bytes)
    → ℕ
    → Option (Result (Saver × List (List Output)))
pipeline fuel world os anon json reps = elim (run fuel world reps) [
  | none ↦ none
  | some p ↦ some (run_saver os anon json p.sent)
]

-- The block of each round holds messages as the kernel sends them.
abbrev pub FormedRounds : World → Type 0
FormedRounds world =
    (n : ℕ) (round : MessageBlock × ℕ)
    → collect_default_namespace world n ≡ some round
    → AllHandled round.0.v4_messages × AllHandled round.0.v6_messages

AllBlocks-snoc :
    (blocks : List MessageBlock) (b : MessageBlock)
    → AllBlocks blocks
    → AllHandled b.v4_messages × AllHandled b.v6_messages
    → AllBlocks (blocks ++ b ∷ [])
AllBlocks-snoc [] b h k = (k, tt)
AllBlocks-snoc (x ∷ blocks) b h k = (h.0, AllBlocks-snoc blocks b h.1 k)

run_loop-AllBlocks :
    (fuel : ℕ) (world : World) (reps : ℕ) (p q : Progress)
    → FormedRounds world
    → AllBlocks p.sent
    → run_loop fuel world reps p ≡ some q
    → AllBlocks q.sent
unfolding run_loop
run_loop-AllBlocks zero world reps p q formed h e = cc e
run_loop-AllBlocks (suc fuel) world reps p q formed h e =
    elim (Bool-cases (goes_round world reps p)) [
      | inr stops ↦
          let same : p ≡ q = ground (arith, rw (stops, run_loop) at e) in
          subst (λ (r : Progress). AllBlocks r.sent) same h
      | inl again ↦ elim (Option-cases (collect_default_namespace world p.loops)) [
        | inl silent ↦ cc (rw (again, silent, run_loop) at e)
        | inr (round, answer) ↦
            run_loop-AllBlocks fuel world reps (advance p round) q formed
              (AllBlocks-snoc p.sent round.0 h (formed p.loops round answer))
              (rw (again, answer, run_loop) at e)
      ]
    ]

run_saver_total :
    (os : Os) (anon : Bytes → Bytes) (json : ArchivalRecord → Bytes) (blocks : List MessageBlock)
    → AllBlocks blocks
    → (done : Saver × List (List Output)) × (run_saver os anon json blocks ≡ ok done)
unfolding run_saver
run_saver_total os anon json blocks h =
    let (svr, ended, filed) = message_saver_loop-IsFiled os 2 blocks h in
    let (outs, marshalled) =
      run_marshallers_total anon json svr.marshal_chans
        (AllFiled-HasWriters os svr.marshal_chans filed.chans) in
    ((svr, outs), rw (ended, marshalled) refl)

-- With no event socket, if the kernel answers in each round, with messages as it sends them, and the
-- number of rounds is set or the context is cancelled, the program ends, after `bound` rounds at most,
-- and nothing in it panics: not the collector's loop, not the handling of any block, not the close,
-- and no marshaller, and each of these has done all of its tasks.
pub pipeline_ends :
    (world : World) (os : Os) (anon : Bytes → Bytes) (json : ArchivalRecord → Bytes)
    (reps bound : ℕ)
    → Answered world bound
    → FormedRounds world
    → EndsBy world reps bound
    → (done : Saver × List (List Output)) × (pipeline (suc bound) world os anon json reps
        ≡ some (ok done))
unfolding pipeline
pipeline_ends world os anon json reps bound answers formed ends =
    let (q, ran, few, counted) = run_ends world reps bound answers ends in
    let sound : AllBlocks q.sent =
      run_loop-AllBlocks (suc bound) world reps
        (record { loops = 0; total_count = 0; sent = []; cache_logs = 0 }) q formed tt ran in
    let (out, done) = run_saver_total os anon json q.sent sound in
    (out, rw (pipeline, ran, done) refl)
