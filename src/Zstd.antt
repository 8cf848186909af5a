-- ===== src/Zstd.antt =====
-- zstd/zstd.go: the writer through a zstd process, and its `Close` that waits for the process.
--
-- When the command ends, and what `os.Pipe`, `os.Create` and the `Close` of the pipe answer, are
-- arguments. What the process does with its bytes is not in the repository.
pub mod Waits
use tcp_info.Base.{
  ℕ, suc, ◌+◌, ◌-◌, Bool, true, false, List, [], ◌∷◌, ◌++◌, Option, none, some, Error, Result, ok,
  err, panic, ◌==◌, if◌then◌else◌, ◌≡◌,
}

-- Where the goroutine that `NewWriter` starts stands: in `cmd.Run()`, before `pipeR.Close()`, before
-- `wg.Done()`, at its end.
pub data Runner : Type 0 where
  running closing counting finished : Runner

-- The pipe, the `WaitGroup` and the calls of `Close`: those that wait, how many gave nil, and the
-- errors that the others gave.
pub record Pipe : Type 0 where
  pub writer_open : Bool
  pub reader_open : Bool
  pub wg : ℕ
  pub runner : Runner
  pub waiting : ℕ
  pub synced : ℕ
  pub failures : List Error

-- What `NewWriter` leaves behind once its goroutine has begun.
abbrev pub started : Pipe
started = record {
  writer_open = true;
  reader_open = true;
  wg = 1;
  runner = running;
  waiting = 0;
  synced = 0;
  failures = [];
}

-- `NewWriter`, with the errors of `os.Pipe` and `os.Create`.
unfoldable pub new_writer : Option Error → Option Error → Result Pipe
new_writer (some e) created = err e
new_writer none (some e) = err e
new_writer none none = ok started

-- The goroutine's next part, as `cmd.Run` returns for the first. An error of the command is logged.
unfoldable pub run_command : Runner → Pipe → Option (Result Pipe)
run_command running p = some (ok (record p { runner = closing }))
run_command closing p = some (ok (record p { reader_open = false; runner = counting }))
run_command counting p =
    if p.wg == 0 then some panic else some (ok (record p { wg = p.wg - 1; runner = finished }))
run_command finished p = none

-- `Close` up to its `Wait`, with the answer of the pipe's own `Close`.
unfoldable pub close_writer : Option Error → Pipe → Pipe
close_writer (some e) p = record p { failures = p.failures ++ e ∷ [] }
close_writer none p = record p { writer_open = false; waiting = suc p.waiting }

-- `w.wg.Wait()`, then `return nil`, of one of the calls that wait.
unfoldable pub finish_close : Pipe → Option (Result Pipe)
finish_close p =
    if p.waiting == 0
    then none
    else if p.wg == 0
    then some (ok (record p { waiting = p.waiting - 1; synced = suc p.synced }))
    else none

pub data Turn : Type 0 where
  runs : Turn
  closes : Option Error → Turn
  returns : Turn

-- A turn that cannot be taken is none.
unfoldable pub pipe_step : Turn → Pipe → Option (Result Pipe)
pipe_step runs p = run_command p.runner p
pipe_step (closes answer) p = some (ok (close_writer answer p))
pipe_step returns p = finish_close p

-- What some sequence of turns leads to.
pub data Reach : Pipe → Type 0 where
  here : Reach started
  next : {p : Pipe} → Reach p → (turn : Turn) (q : Pipe) → pipe_step turn p ≡ some (ok q) → Reach q

-- A computed run_turns of turns.
abbrev pub run_turns : List Turn → Pipe → Option (Result Pipe)
run_turns [] p = some (ok p)
run_turns (turn ∷ turns) p = elim (pipe_step turn p) [
  | none ↦ none
  | some (ok q) ↦ run_turns turns q
  | some (err e) ↦ some (err e)
  | some panic ↦ some panic
]
