-- ===== src/Saver/Queue/Open.antt =====
-- saver/saver.go `Connections`: the writer that each cookie has open.
use tcp_info.Base.Assoc.{lookup, insert, lookup-insert}
use tcp_info.Base.{
  ℕ, ◌≡◌, ◌≢◌, refl, ap, ◌∙◌, true, false, ◌==◌, Bool-cases, inl, inr, List, Option, none, some,
  arith, if◌then◌else◌,
}
use tcp_info.Saver.Queue.Neat.{Neat}
use tcp_info.Saver.{Writer, Connection, Saver}

abbrev pub writer_at : Option Connection → Option Writer
writer_at none = none
writer_at (some conn) = conn.writer

-- The writer that a cookie has open.
abbrev pub open_for : List (ℕ × Connection) → ℕ → Option Writer
open_for conns k = writer_at (lookup k conns)

abbrev pub IsNeat : Saver → Type 0
IsNeat svr = Neat svr.marshal_chans svr.tick (open_for svr.connections) svr.opened

-- The same with the connection of a cookie taken out.
abbrev pub open_with : ℕ → Connection → List (ℕ × Connection) → ℕ → Option Writer
open_with cookie conn conns k = if cookie == k then conn.writer else open_for conns k

abbrev pub NeatWith : ℕ → Saver → Connection → Type 0
NeatWith cookie svr conn =
    Neat svr.marshal_chans svr.tick (open_with cookie conn svr.connections) svr.opened

pub open_with-same :
    (cookie : ℕ) (conn : Connection) (conns : List (ℕ × Connection))
    → open_with cookie conn conns cookie ≡ conn.writer
open_with-same cookie conn conns =
    let same : (cookie == cookie) ≡ true = ground arith in rw same refl

pub open_with-other :
    (cookie : ℕ) (conn : Connection) (conns : List (ℕ × Connection)) (j : ℕ)
    → j ≢ cookie
    → open_with cookie conn conns j ≡ open_for conns j
open_with-other cookie conn conns j differs =
    let other : (cookie == j) ≡ false = ground (arith, differs) in rw other refl

pub open_for-insert :
    (cookie : ℕ) (conn : Connection) (conns : List (ℕ × Connection)) (k : ℕ)
    → open_for (insert cookie conn conns) k ≡ open_with cookie conn conns k
open_for-insert cookie conn conns k = elim (Bool-cases (cookie == k)) [
  | inl same ↦ rw (lookup-insert cookie k conn conns, same) refl
  | inr other ↦ rw (lookup-insert cookie k conn conns, other) refl
]

pub open_with-found :
    (cookie : ℕ) (conn : Connection) (conns : List (ℕ × Connection)) (k : ℕ)
    → conn.writer ≡ open_for conns cookie
    → open_with cookie conn conns k ≡ open_for conns k
open_with-found cookie conn conns k is = elim (Bool-cases (cookie == k)) [
  | inl same ↦ let at : cookie ≡ k = ground (arith, same) in rw same (is ∙ ap (open_for conns) at)
  | inr other ↦ rw other refl
]

pub open_with-insert :
    (cookie : ℕ) (conn : Connection) (conns : List (ℕ × Connection)) (k : ℕ)
    → open_with cookie conn (insert cookie conn conns) k ≡ open_with cookie conn conns k
open_with-insert cookie conn conns k = elim (Bool-cases (cookie == k)) [
  | inl same ↦ rw same refl
  | inr other ↦ rw (lookup-insert cookie k conn conns, other) refl
]
