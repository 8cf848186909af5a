-- ===== src/Netlink/Load/Lines.antt =====
-- `LoadAllArchivalRecords` on files that are good, up to a line.
use tcp_info.Base.{
  ◌≡◌, ◌≢◌, refl, ◌∙◌, List, [], ◌∷◌, ◌++◌, none, some, Error, Result, ok, err, eof, arith,
}
use mathlib.Core.List.{append_assoc, append-nil}
use tcp_info.Bytes.{Bytes}
use tcp_info.Netlink.Load.{ending, load_all_archival_records}
use tcp_info.Netlink.{ArchivalRecord}

ending_other : (e : Error) → e ≢ eof → ending e ≡ some e
unfolding ending
ending_other eof h = absurd (h refl)
ending_other _ h = refl

module _ (unmarshal : Bytes → Result ArchivalRecord) where
  -- Each line is the text of its record.
  abbrev pub AreTexts : List Bytes → List ArchivalRecord → Type 0
  AreTexts [] [] = Unit {0}
  AreTexts (line ∷ lines) (r ∷ rs) = (unmarshal line ≡ ok r) × AreTexts lines rs
  AreTexts _ _ = ⊥

  pub load_all-append :
      (msgs rs : List ArchivalRecord) (lines rest : List Bytes)
      → AreTexts lines rs
      → load_all_archival_records unmarshal msgs (lines ++ rest)
        ≡ load_all_archival_records unmarshal (msgs ++ rs) rest
  unfolding load_all_archival_records
  load_all-append msgs [] [] rest h = rw (append-nil msgs)
  load_all-append msgs (r ∷ rs) (line ∷ lines) rest h =
      rw h.0
        (load_all-append (msgs ++ r ∷ []) rs lines rest h.1 ∙ rw (append_assoc msgs (r ∷ []) rs))
  load_all-append msgs [] (line ∷ lines) rest h = elim h [ ]
  load_all-append msgs (r ∷ rs) [] rest h = elim h [ ]

  load_all-bad :
      (msgs : List ArchivalRecord) (bad : Bytes) (rest : List Bytes) (e : Error)
      → unmarshal bad ≡ err e
      → e ≢ eof
      → load_all_archival_records unmarshal msgs (bad ∷ rest) ≡ ok (msgs, some e)
  unfolding load_all_archival_records
  load_all-bad msgs bad rest e h other = ground (arith, h, ending_other e other)

  -- A good file gives all of its records, in order; a line that does not parse ends them there, with
  -- its error.
  pub load_all_archival_records_lem :
      (rs : List ArchivalRecord) (lines rest : List Bytes) (bad : Bytes) (e : Error)
      → AreTexts lines rs
      → unmarshal bad ≡ err e
      → e ≢ eof
      → (load_all_archival_records unmarshal [] lines ≡ ok (rs, none))
        × (load_all_archival_records unmarshal [] (lines ++ bad ∷ rest) ≡ ok (rs, some e))
  unfolding load_all_archival_records ending
  load_all_archival_records_lem rs lines rest bad e h fails other = (
    rw (append-nil lines) at (load_all-append [] rs lines [] h),
    load_all-append [] rs lines (bad ∷ rest) h ∙ load_all-bad rs bad rest e fails other,
  )
