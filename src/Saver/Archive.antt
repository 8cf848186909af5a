-- ===== src/Saver/Archive.antt =====
-- What the saver archives of one connection, said without its cache, its maps and its channels.
pub mod Sent
pub mod Queued
pub mod Swapped
pub mod Loop
use tcp_info.Base.{
  ℕ, ◌≡◌, Bool, true, false, List, [], ◌∷◌, ◌++◌, Option, none, some, ok, err, panic, if◌then◌else◌,
}
use tcp_info.Cache.Rounds.{has_key}
use tcp_info.Netlink.Compare.{compare}
use tcp_info.Netlink.Record.{make_archival_record}
use tcp_info.Netlink.{NetlinkMessage, ArchivalRecord, MessageBlock}
use tcp_info.Saver.Swap.{is_change}

-- What is known of a connection: its record of this round and of the round before, and the records
-- archived so far.
pub record Known : Type 0 where
  pub fresh : Option ArchivalRecord
  pub before : Option ArchivalRecord
  pub archived : List ArchivalRecord

abbrev pub nothing : Known
nothing = record { fresh = none; before = none; archived = [] }

-- A record is worth a line if the round before has none, or one that it differs from.
abbrev pub is_worth : Option ArchivalRecord → ArchivalRecord → Bool
is_worth none r = true
is_worth (some o) r = elim (compare r (some o)) [
  | ok change ↦ is_change change
  | err e ↦ false
  | panic ↦ false
]

-- A record of the connection comes. A later one of the same round finds none before it.
abbrev pub note : ArchivalRecord → Known → Known
note r s = record {
  fresh = some r;
  before = none;
  archived = s.archived ++ (if is_worth s.before r then r ∷ [] else []);
}

abbrev pub note_all : ℕ → List ArchivalRecord → Known → Known
note_all k [] s = s
note_all k (r ∷ rs) s = note_all k rs (if has_key k r then note r s else s)

-- A round is over.
abbrev pub turn_over : Known → Known
turn_over s = record s { fresh = none; before = s.fresh }

-- The records of some messages, which all get the time of their block.
abbrev pub records : ℕ → List (Option NetlinkMessage) → List ArchivalRecord
records t [] = []
records t (none ∷ msgs) = records t msgs
records t (some msg ∷ msgs) =
    let rest = records t msgs in
    elim (make_archival_record msg true) [
      | ok (some ar) ↦ record ar { timestamp = t } ∷ rest
      | ok none ↦ rest
      | err e ↦ rest
      | panic ↦ rest
    ]

abbrev pub note_block : ℕ → MessageBlock → Known → Known
note_block k b s =
    turn_over (
      note_all k (records b.v6_time b.v6_messages) (note_all k (records b.v4_time b.v4_messages) s))

abbrev pub note_blocks : ℕ → List MessageBlock → Known → Known
note_blocks k [] s = s
note_blocks k (b ∷ blocks) s = note_blocks k blocks (note_block k b s)

-- The records archived of the connection with a cookie.
abbrev pub archive : ℕ → List MessageBlock → List ArchivalRecord
archive k blocks = (note_blocks k blocks nothing).archived
