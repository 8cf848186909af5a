-- ===== src/Zstd/Waits.antt =====
-- zstd/zstd.go: a `Close` that gives nil has waited for the process, and one that waits returns.
use tcp_info.Base.{
  ℕ, suc, ◌<◌, ◌-◌, ◌∙◌, ◌==◌, Bool-cases, ◌⊎◌, inl, inr, ◌≡◌, ◌≢◌, refl, sym, subst, Bool, true,
  false, List, [], ◌∷◌, Option, none, some, Error, Result, ok, panic, arith,
}
use tcp_info.Zstd.{
  Runner, running, closing, counting, finished, Pipe, run_command, close_writer, finish_close, Turn,
  runs, closes, returns, pipe_step, Reach, here, next, run_turns,
}

-- What the `WaitGroup` counts, and which end of the pipe is open, at each place of the goroutine.
abbrev counted : Runner → ℕ
counted finished = 0
counted _ = 1

abbrev is_read : Runner → Bool
is_read running = true
is_read closing = true
is_read _ = false

abbrev Synced : Runner → ℕ → Type 0
Synced finished n = Unit {0}
Synced _ n = n ≡ 0

record IsSynced (p : Pipe) : Type 0 where
  counts : p.wg ≡ counted p.runner
  reads : p.reader_open ≡ is_read p.runner
  synced : Synced p.runner p.synced

abbrev After : Option (Result Pipe) → Type 0
After (some (ok q)) = IsSynced q
After (some panic) = ⊥
After _ = Unit {0}

run_command-IsSynced :
    (r : Runner) (p : Pipe)
    → p.wg ≡ counted r
    → p.reader_open ≡ is_read r
    → Synced r p.synced
    → After (run_command r p)
unfolding run_command
run_command-IsSynced running p c r s = record { counts = c; reads = r; synced = s }
run_command-IsSynced closing p c r s = record { counts = c; reads = refl; synced = s }
run_command-IsSynced counting p c r s =
    rw (c, run_command) (record { counts = refl; reads = r; synced = tt })
run_command-IsSynced finished p c r s = tt

close_writer-IsSynced :
    (answer : Option Error) (p : Pipe) → IsSynced p → IsSynced (close_writer answer p)
unfolding close_writer
close_writer-IsSynced none p h = record { counts = h.counts; reads = h.reads; synced = h.synced }
close_writer-IsSynced (some e) p h = record {
  counts = h.counts;
  reads = h.reads;
  synced = h.synced;
}

Synced-suc : (r : Runner) (n : ℕ) → counted r ≡ 0 → Synced r n
Synced-suc finished n h = tt
Synced-suc running n h = absurd (ground (arith, h))
Synced-suc closing n h = absurd (ground (arith, h))
Synced-suc counting n h = absurd (ground (arith, h))

finish_close-IsSynced : (p : Pipe) → IsSynced p → After (finish_close p)
unfolding finish_close
finish_close-IsSynced p h = elim (Bool-cases (p.waiting == 0)) [
  | inl idle ↦ rw (idle, finish_close) tt
  | inr waits ↦ elim (Bool-cases (p.wg == 0)) [
    | inl over ↦
        let zeroed : p.wg ≡ 0 = ground (arith, over) in
        rw (waits, over, finish_close)
          (record {
            counts = h.counts;
            reads = h.reads;
            synced = Synced-suc p.runner (suc p.synced) (sym h.counts ∙ zeroed);
          })
    | inr more ↦ rw (waits, more, finish_close) tt
  ]
]

pipe_step-IsSynced : (turn : Turn) (p : Pipe) → IsSynced p → After (pipe_step turn p)
unfolding pipe_step
pipe_step-IsSynced runs p h = run_command-IsSynced p.runner p h.counts h.reads h.synced
pipe_step-IsSynced (closes answer) p h = close_writer-IsSynced answer p h
pipe_step-IsSynced returns p h = finish_close-IsSynced p h

Reach-IsSynced : {p : Pipe} → Reach p → IsSynced p
Reach-IsSynced here = record { counts = refl; reads = refl; synced = refl }
Reach-IsSynced (next {p} r turn q is) =
    subst After is (pipe_step-IsSynced turn p (Reach-IsSynced r))

no_panic : (o : Option (Result Pipe)) → After o → o ≢ some panic
no_panic o h is = elim (subst After is h) [ ]

-- What is so once the command has ended: nothing, or the ends of the pipe as they are.
synced_cases :
    (r : Runner) (p : Pipe)
    → p.wg ≡ counted r
    → p.reader_open ≡ is_read r
    → Synced r p.synced
    → (p.synced ≡ 0) ⊎ ((r ≡ finished) × (p.reader_open ≡ false) × (p.wg ≡ 0))
synced_cases finished p c o s = inr (refl, o, c)
synced_cases running p c o s = inl s
synced_cases closing p c o s = inl s
synced_cases counting p c o s = inl s

-- The turns of the goroutine after the command, and then of one `Close`.
abbrev pub last_turns : Runner → List Turn
last_turns running = []
last_turns closing = runs ∷ runs ∷ returns ∷ []
last_turns counting = runs ∷ returns ∷ []
last_turns finished = returns ∷ []

run_turns-cons :
    (turn : Turn) (turns : List Turn) (p q : Pipe)
    → pipe_step turn p ≡ some (ok q)
    → run_turns (turn ∷ turns) p ≡ run_turns turns q
run_turns-cons turn turns p q is = rw (is, run_turns) refl

-- What `Close` leaves behind when it gives nil.
abbrev pub returned : Pipe → Pipe
returned p = record p { waiting = p.waiting - 1; synced = suc p.synced }

abbrev pub drained : Pipe → Pipe
drained p = record p { reader_open = false; wg = 0; runner = finished }

finish_close_returns :
    (p : Pipe) → p.wg ≡ 0 → 0 < p.waiting → run_turns (returns ∷ []) p ≡ some (ok (returned p))
unfolding finish_close pipe_step
finish_close_returns p over waits =
    let done : finish_close p ≡ some (ok (returned p)) = ground (arith, over, waits) in
    rw (run_turns, done) refl

counting_returns :
    (p : Pipe)
    → p.runner ≡ counting
    → p.wg ≡ 1
    → p.reader_open ≡ false
    → 0 < p.waiting
    → run_turns (runs ∷ returns ∷ []) p ≡ some (ok (returned (drained p)))
unfolding pipe_step run_command
counting_returns p at one shut waits =
    run_turns-cons runs (returns ∷ []) p (drained p) (rw (at, one, run_command) (rw (shut) refl))
    ∙ finish_close_returns (drained p) refl waits

closing_returns :
    (p : Pipe)
    → p.runner ≡ closing
    → p.wg ≡ 1
    → 0 < p.waiting
    → run_turns (runs ∷ runs ∷ returns ∷ []) p ≡ some (ok (returned (drained p)))
unfolding pipe_step run_command
closing_returns p at one waits =
    let shut = record p { reader_open = false; runner = counting } in
    run_turns-cons runs (runs ∷ returns ∷ []) p shut (rw (at, run_command) refl)
    ∙ counting_returns shut refl one refl waits

last_turns_return :
    (r : Runner) (p : Pipe)
    → p.runner ≡ r
    → p.wg ≡ counted r
    → p.reader_open ≡ is_read r
    → r ≢ running
    → 0 < p.waiting
    → (q : Pipe) × (run_turns (last_turns r) p ≡ some (ok q)) × (q.synced ≡ suc p.synced)
last_turns_return running p at c o other waits = absurd (other refl)
last_turns_return closing p at c o other waits =
    (returned (drained p), closing_returns p at c waits, refl)
last_turns_return counting p at c o other waits =
    (returned (drained p), counting_returns p at c o waits, refl)
last_turns_return finished p at c o other waits = (returned p, finish_close_returns p c waits, refl)

-- Whatever way `NewWriter`'s goroutine and the calls of `Close` interleave, no turn panics, and once a
-- `Close` has given nil the command is over, its end of the pipe is closed and the goroutine is done.
pub Reach-waited :
    (p : Pipe)
    → Reach p
    → (turn : Turn)
    → (pipe_step turn p ≢ some panic)
      × ((p.synced ≡ 0) ⊎ ((p.runner ≡ finished) × (p.reader_open ≡ false) × (p.wg ≡ 0)))
Reach-waited p r turn =
    let h = Reach-IsSynced r in
    (
      no_panic (pipe_step turn p) (pipe_step-IsSynced turn p h),
      synced_cases p.runner p h.counts h.reads h.synced,
    )

-- A `Close` that waits gives nil once the command has ended and the goroutine has taken the turns that
-- are left to it, however far it has come.
pub Reach-returns :
    (p : Pipe)
    → Reach p
    → p.runner ≢ running
    → 0 < p.waiting
    → (q : Pipe) × (run_turns (last_turns p.runner) p ≡ some (ok q)) × (q.synced ≡ suc p.synced)
Reach-returns p r ended waits =
    let h = Reach-IsSynced r in last_turns_return p.runner p refl h.counts h.reads ended waits
