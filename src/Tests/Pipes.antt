-- ===== src/Tests/Pipes.antt =====
-- A writer through zstd, the names of states, and csvtool.
use tcp_info.Bytes.{equal}
use tcp_info.Csvtool.{csvtool, printed, died}
use tcp_info.Snapshot.Load.{load_all}
use tcp_info.Base.{◌∷◌, [], err, parse_failed}
use tcp_info.Tcp.{state_string}
use tcp_info.Base.Assoc.{lookup}
use tcp_info.Base.Int64.{pos}
use tcp_info.Base.{false, refl, arith, ◌≡◌, ◌≢◌, ◌⊎◌, none, some, ok, panic}
use tcp_info.Zstd.Waits.{last_turns, Reach-waited, Reach-returns}
use tcp_info.Zstd.{
  closing, finished, Pipe, started, run_command, close_writer, runs, closes, returns, pipe_step,
  Reach, here, next, run_turns,
}

-- A `Close` waits, and the command has ended.
abbrev ended : Pipe
ended = record started { writer_open = false; runner = closing; waiting = 1 }

ended-Reach : Reach ended
unfolding pipe_step close_writer run_command
ended-Reach = next (next here (closes none) (close_writer none started) refl) runs ended refl

Reach-returns_example :
    (q : Pipe) × (run_turns (last_turns closing) ended ≡ some (ok q)) × (q.synced ≡ 1)
Reach-returns_example = Reach-returns ended ended-Reach (λ h. ground (arith, h)) (omega arith)

Reach-waited_example :
    (pipe_step returns ended ≢ some panic)
    × ((ended.synced ≡ 0)
        ⊎ ((ended.runner ≡ finished) × (ended.reader_open ≡ false) × (ended.wg ≡ 0)))
Reach-waited_example = Reach-waited ended ended-Reach returns

state_string_run :
    (state_string (λ x. "?") (pos 10) ≡ "LISTEN") × (state_string (λ x. "?") (pos 12) ≡ "?")
unfolding lookup
state_string_run = (refl, refl)

-- Two arguments, an archive that is empty, and one that is there only in plain.
csvtool_run :
    (csvtool []
        (λ f. some [])
        (λ f. none)
        (λ b. err parse_failed)
        (λ s. some (7 ∷ []))
        ([] ∷ [] ∷ [])
      ≡ died)
    × (csvtool []
          (λ f. some [])
          (λ f. none)
          (λ b. err parse_failed)
          (λ s. some (7 ∷ []))
          ((b'a' ∷ []) ∷ [])
        ≡ printed (7 ∷ []))
    × (csvtool []
          (λ f. some [])
          (λ f. none)
          (λ b. err parse_failed)
          (λ s. some (7 ∷ []))
          ((b'a' ∷ b'.' ∷ b'z' ∷ b's' ∷ b't' ∷ []) ∷ [])
        ≡ died)
unfolding csvtool load_all equal
csvtool_run = (refl, refl, refl)
