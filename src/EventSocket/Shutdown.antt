-- ===== src/EventSocket/Shutdown.antt =====
-- eventsocket/server.go: the end of the server's goroutines once the context has ended.
pub mod Room
pub mod Drops
pub mod Ready
pub mod Ends
use tcp_info.Base.{ℕ, ◌+◌, ◌*◌, ◌≡◌, List, [], length}
use tcp_info.EventSocket.{
  Client, Server, Serving, fresh, listened, looping, accepting, adding, returning, served, Notifier,
  unborn, spawned, testing, receiving, holding, stopping, stopped, Closer, unstarted, waiting,
  unlistened, closed_channel, done,
}

-- A bound on the turns that are left when the context has ended. A write that fails may start a
-- removal, of three turns, for each client that there is or that `Serve` may still add.
abbrev pub room : Serving → List Client → ℕ
room accepting cs = length cs + 1
room (adding conn) cs = length cs + 1
room _ cs = length cs

abbrev pub serve_left : Serving → ℕ
serve_left fresh = 10
serve_left listened = 9
serve_left looping = 2
serve_left accepting = 4
serve_left (adding conn) = 3
serve_left returning = 1
serve_left served = 0

abbrev pub notifier_left : ℕ → Notifier → ℕ
notifier_left n unborn = 0
notifier_left n spawned = 3
notifier_left n testing = 2
notifier_left n receiving = 3 * n + 4
notifier_left n (holding e) = 3 * n + 3
notifier_left n stopping = 1
notifier_left n stopped = 0

abbrev pub closer_left : Closer → ℕ
closer_left unstarted = 0
closer_left waiting = 3
closer_left unlistened = 2
closer_left closed_channel = 1
closer_left done = 0

abbrev pub turns_left : Server → ℕ
turns_left s =
    serve_left s.serving
    + notifier_left (room s.serving s.clients) s.notifier
    + closer_left s.closer
    + 3 * length s.starting
    + 2 * length s.removing
    + s.leaving

-- Every goroutine of the server is over.
pub record Finished (s : Server) : Type 0 where
  pub serve_over : s.serving ≡ served
  pub notifier_over : s.notifier ≡ stopped
  pub closer_over : s.closer ≡ done
  pub none_starting : s.starting ≡ []
  pub none_removing : s.removing ≡ []
  pub none_leaving : s.leaving ≡ 0
