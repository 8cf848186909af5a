-- ===== src/Snapshot/Load.antt =====
-- snapshot/snapshot.go: `Reader.Next` and `LoadAll`, on what the archive reader's `Next` answers, call
-- by call; behind the last answer it says EOF.
use tcp_info.Base.{
  ℕ, ◌≡◌, ◌≢◌, ◌∙◌, List, [], ◌∷◌, ◌++◌, map, Option, none, some, Error, Result, ok, err, panic,
  eof, ◌>>=◌, ◌==◌, if◌then◌else◌, arith,
}
use mathlib.Core.List.{append_assoc, append-nil}
use tcp_info.Netlink.{Metadata, ArchivalRecord}
use tcp_info.Snapshot.{Snapshot, decode}

-- 2009-05-29 23:59:59 UTC.
abbrev pub stand_in_time : ℕ
stand_in_time = 63_379_238_399_000_000_000

-- A record that a reader has left without a time gets one.
abbrev pub stamped : ArchivalRecord → ArchivalRecord
stamped ar = if ar.timestamp == 0 then record ar { timestamp = stand_in_time } else ar

-- `Reader.Next`.
abbrev pub next_snapshot : Result ArchivalRecord → Result (Option Metadata × Snapshot)
next_snapshot answer = do ar ← answer; decode (stamped ar)

abbrev pub newer : Option Metadata → Option Metadata → Option Metadata
newer (some meta) before = some meta
newer none before = before

-- `LoadAll`.
unfoldable pub load_all :
    Option Metadata
    → List Snapshot
    → List (Result ArchivalRecord)
    → Result (Option Metadata × List Snapshot)
load_all metadata snapshots [] = ok (metadata, snapshots)
load_all metadata snapshots (answer ∷ answers) = elim (next_snapshot answer) [
  | ok (meta, snap) ↦ load_all (newer meta metadata) (snapshots ++ snap ∷ []) answers
  | err eof ↦ ok (metadata, snapshots)
  | err e ↦ err e
  | panic ↦ panic
]

-- Each record decodes to its metadata and snapshot.
abbrev pub Decode : List ArchivalRecord → List (Option Metadata × Snapshot) → Type 0
Decode [] [] = Unit {0}
Decode (ar ∷ ars) (d ∷ ds) = (decode (stamped ar) ≡ ok d) × Decode ars ds
Decode _ _ = ⊥

abbrev pub last_metadata : Option Metadata → List (Option Metadata × Snapshot) → Option Metadata
last_metadata before [] = before
last_metadata before (d ∷ ds) = last_metadata (newer d.0 before) ds

abbrev pub snapshots_of : List (Option Metadata × Snapshot) → List Snapshot
snapshots_of ds = map (λ (d : Option Metadata × Snapshot). d.1) ds

load_all-step :
    (metadata : Option Metadata) (snapshots : List Snapshot) (answer : Result ArchivalRecord)
    (answers : List (Result ArchivalRecord)) (d : Option Metadata × Snapshot)
    → next_snapshot answer ≡ ok d
    → load_all metadata snapshots (answer ∷ answers)
      ≡ load_all (newer d.0 metadata) (snapshots ++ d.1 ∷ []) answers
unfolding load_all
load_all-step metadata snapshots answer answers d h = ground (arith, h)

load_all-append :
    (metadata : Option Metadata) (snapshots : List Snapshot) (ars : List ArchivalRecord)
    (ds : List (Option Metadata × Snapshot)) (answers : List (Result ArchivalRecord))
    → Decode ars ds
    → load_all metadata snapshots (map ok ars ++ answers)
      ≡ load_all (last_metadata metadata ds) (snapshots ++ snapshots_of ds) answers
load_all-append metadata snapshots [] [] answers h = rw (append-nil snapshots)
load_all-append metadata snapshots (ar ∷ ars) (d ∷ ds) answers h =
    load_all-step metadata snapshots (ok ar) (map ok ars ++ answers) d h.0
    ∙ load_all-append (newer d.0 metadata) (snapshots ++ d.1 ∷ []) ars ds answers h.1
    ∙ rw (append_assoc snapshots (d.1 ∷ []) (snapshots_of ds))
load_all-append metadata snapshots [] (d ∷ ds) answers h = elim h [ ]
load_all-append metadata snapshots (ar ∷ ars) [] answers h = elim h [ ]

load_all-err :
    (metadata : Option Metadata) (snapshots : List Snapshot) (e : Error)
    (answers : List (Result ArchivalRecord))
    → e ≢ eof
    → load_all metadata snapshots (err e ∷ answers) ≡ err e
unfolding load_all
load_all-err metadata snapshots e answers h = ground (arith, h)

-- On records that all decode, `LoadAll` gives every snapshot, in order, and the last metadata that is
-- not nil; an error of the reader behind them, other than EOF, is all that it gives.
pub load_all_lem :
    (ars : List ArchivalRecord) (ds : List (Option Metadata × Snapshot)) (e : Error)
    (answers : List (Result ArchivalRecord))
    → Decode ars ds
    → e ≢ eof
    → (load_all none [] (map ok ars) ≡ ok (last_metadata none ds, snapshots_of ds))
      × (load_all none [] (map ok ars ++ err e ∷ answers) ≡ err e)
unfolding load_all
load_all_lem ars ds e answers h other = (
  rw (append-nil (map ok ars)) at (load_all-append none [] ars ds [] h),
  load_all-append none [] ars ds (err e ∷ answers) h ∙ load_all-err _ _ e answers other,
)
