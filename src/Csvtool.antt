-- ===== src/Csvtool.antt =====
-- cmd/csvtool/main.go: an archive to CSV.
--
-- What the standard input, a file and a file through zstd hold, by the lines that the scanner finds,
-- `json.Unmarshal` and the CSV of github.com/gocarina/gocsv are parameters.
use tcp_info.Base.{
  ◌-◌, Bool, List, [], ◌∷◌, map, Option, none, some, Result, ok, err, panic, ◌&&◌, leb,
  if◌then◌else◌, length, drop, ◌≡◌, ◌≢◌, refl, einval, eof, arith,
}
use tcp_info.Bytes.{Bytes, equal}
use tcp_info.Netlink.{ArchivalRecord, Metadata}
use tcp_info.Snapshot.Load.{Decode, snapshots_of, load_all, load_all_lem}
use tcp_info.Snapshot.{Snapshot}

-- How the program ends: with its output, by `log.Fatal`, or by a panic.
pub data Exit : Type 0 where
  printed : Bytes → Exit
  died : Exit
  panicked : Exit

-- `strings.HasSuffix`.
abbrev pub has_suffix : Bytes → Bytes → Bool
has_suffix s suffix =
    leb (length suffix) (length s) && equal (drop (length s - length suffix) s) suffix

-- ".zst"
abbrev pub zst : Bytes
zst = b'.' ∷ b'z' ∷ b's' ∷ b't' ∷ []

module _ (stdin : List Bytes) (open_plain : Bytes → Option (List Bytes))
    (unzip : Bytes → Option (List Bytes)) (unmarshal : Bytes → Result ArchivalRecord)
    (to_csv : List Snapshot → Option Bytes) where
  -- `openFile`, none where it gives an error or `zstd.NewReader` dies.
  abbrev pub open_file : Bytes → Option (List Bytes)
  open_file fn = if has_suffix fn zst then unzip fn else open_plain fn

  -- The source that `main` reads, none where it dies.
  abbrev pub source_of : List Bytes → Option (List Bytes)
  source_of [] = some stdin
  source_of (fn ∷ []) = open_file fn
  source_of (fn ∷ other ∷ args) = none

  abbrev pub print_csv : Result (Option Metadata × List Snapshot) → Exit
  print_csv (ok (metadata, snaps)) = elim (to_csv snaps) [ some csv ↦ printed csv | none ↦ died ]
  print_csv (err e) = died
  print_csv panic = panicked

  -- `main`, on its arguments.
  unfoldable pub csvtool : List Bytes → Exit
  csvtool args = elim (source_of args) [
    | some lines ↦ print_csv (load_all none [] (map unmarshal lines))
    | none ↦ died
  ]

  -- A source whose lines all parse and decode is printed as the CSV of its snapshots, in order.
  csvtool-snapshots_of :
      (args lines : List Bytes) (ars : List ArchivalRecord) (ds : List (Option Metadata × Snapshot))
      (csv : Bytes)
      → source_of args ≡ some lines
      → map unmarshal lines ≡ map ok ars
      → Decode ars ds
      → to_csv (snapshots_of ds) ≡ some csv
      → csvtool args ≡ printed csv
  unfolding csvtool
  csvtool-snapshots_of args lines ars ds csv from_source parsed decoded as_csv =
      let not_eof : einval ≢ eof = λ h. ground (arith, h) in
      let all = (load_all_lem ars ds einval [] decoded not_eof).0 in
      rw (csvtool, from_source, parsed, all, print_csv, as_csv) refl
