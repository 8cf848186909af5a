-- ===== src/Saver/Marshal/ReadBack.antt =====
-- saver/saver.go `runMarshaller`, then netlink/archival-record.go `LoadAllArchivalRecords`: what is
-- read from the files that a marshaller has written.
--
-- The text of a record, the lines that `bufio.Scanner` finds in a file and what `json.Unmarshal` reads
-- from a line are parameters.
use tcp_info.Base.{
  ◌<◌, ◌≤◌, ltb, ltb→lt, ltb→ge, length, ℕ, ◌≡◌, refl, ◌∙◌, sym, ap, ok-injective, >>=-eq-ok, List,
  [], ◌∷◌, ◌++◌, map, Option, none, some, Result, ok, err, panic, ◌==◌, if◌then◌else◌, Bool-cases,
  inl, inr, Result-cases,
}
use mathlib.Core.List.{append_assoc, append-nil}
use tcp_info.Bytes.{Bytes}
use tcp_info.Inetdiag.Anon.{anonymize}
use tcp_info.Netlink.Load.{load_all_archival_records}
use tcp_info.Netlink.Load.Lines.{AreTexts, load_all-append}
use tcp_info.Netlink.{ArchivalRecord, Metadata, idm_bytes}
use tcp_info.Saver.Marshal.{
  Output, wrote, closed, newline, All, HasWriter, run_marshallers, run_marshallers_total,
  marshal_message, marshal_task, run_marshaller,
}
use tcp_info.Saver.{Task, Writer}

-- The record that `writeHeader` writes.
abbrev pub header_record : Metadata → ArchivalRecord
header_record header = record {
  timestamp = 0;
  raw_idm = none;
  attributes = [];
  metadata = some header;
}

-- The headers written to the file with a serial number.
abbrev pub header_records : ℕ → List (Writer × Metadata) → List ArchivalRecord
header_records s [] = []
header_records s ((w, header) ∷ opened) =
    let rest = header_records s opened in
    if w.serial == s then header_record header ∷ rest else rest

-- What the outputs add to the file with a serial number.
abbrev pub content : ℕ → List Output → Bytes
content s [] = []
content s (wrote w b ∷ out) = let rest = content s out in if w.serial == s then b ++ rest else rest
content s (closed w ∷ out) = content s out

-- The record that a task stands for in the file with a serial number: its message, anonymized.
abbrev pub hidden_of :
    (Bytes → Bytes) → ℕ → Option ArchivalRecord → Option Writer → List ArchivalRecord
hidden_of anon s (some msg) (some w) = elim (anonymize anon (idm_bytes msg)) [
  | ok raw ↦ if w.serial == s then record msg { raw_idm = some raw } ∷ [] else []
  | err e ↦ []
  | panic ↦ []
]
hidden_of anon s none w = []
hidden_of anon s (some msg) none = []

abbrev pub hidden_records : (Bytes → Bytes) → ℕ → List Task → List ArchivalRecord
hidden_records anon s [] = []
hidden_records anon s (t ∷ tasks) =
    hidden_of anon s t.message t.writer ++ hidden_records anon s tasks

-- The lines of their texts.
abbrev pub text_of : (ArchivalRecord → Bytes) → List ArchivalRecord → Bytes
text_of json [] = []
text_of json (r ∷ rs) = json r ++ (newline ++ text_of json rs)

text_of-append :
    (json : ArchivalRecord → Bytes) (a b : List ArchivalRecord)
    → text_of json (a ++ b) ≡ text_of json a ++ text_of json b
text_of-append json [] b = refl
text_of-append json (r ∷ a) b =
    ap (λ (t : Bytes). json r ++ (newline ++ t)) (text_of-append json a b)
    ∙ sym (append_assoc (json r) (newline ++ text_of json a) (text_of json b))

content-append : (s : ℕ) (a b : List Output) → content s (a ++ b) ≡ content s a ++ content s b
content-append s [] b = refl
content-append s (closed w ∷ a) b = content-append s a b
content-append s (wrote w t ∷ a) b = elim (Bool-cases (w.serial == s)) [
  | inl this ↦ rw (this) (
      ap (λ (x : Bytes). t ++ x) (content-append s a b)
      ∙ sym (append_assoc t (content s a) (content s b)))
  | inr other ↦ rw (other) (content-append s a b)
]

module _ (anon : Bytes → Bytes) (json : ArchivalRecord → Bytes) where
  content-message :
      (s : ℕ) (m : ArchivalRecord) (w : Writer)
      → content s (marshal_message anon json m w)
        ≡ text_of json (hidden_of anon s (some m) (some w))
  unfolding marshal_message
  content-message s m w = elim (Result-cases (anonymize anon (idm_bytes m))) [
    | inl (raw, is) ↦ elim (Bool-cases (w.serial == s)) [
      | inl this ↦ rw (is, this, marshal_message, hidden_of) refl
      | inr other ↦ rw (is, other, marshal_message, hidden_of) refl
    ]
    | inr (inl (e, failed)) ↦ rw (failed, marshal_message, hidden_of) refl
    | inr (inr broken) ↦ rw (broken, marshal_message, hidden_of) refl
  ]

  content-task :
      (s : ℕ) (m : Option ArchivalRecord) (w : Option Writer) (out : List Output)
      → marshal_task anon json m w ≡ ok out
      → content s out ≡ text_of json (hidden_of anon s m w)
  unfolding marshal_task
  content-task s none (some w) out h = ap (content s) (sym (ok-injective h))
  content-task s none none out h = cc h
  content-task s (some m) none out h = cc h
  content-task s (some m) (some w) out h =
      ap (content s) (sym (ok-injective h)) ∙ content-message s m w

  -- A file has the lines of the records that stand for its tasks.
  content-tasks :
      (s : ℕ) (tasks : List Task) (out : List Output)
      → run_marshaller anon json tasks ≡ ok out
      → content s out ≡ text_of json (hidden_records anon s tasks)
  unfolding run_marshaller
  content-tasks s [] out h = ap (content s) (sym (ok-injective h))
  content-tasks s (t ∷ tasks) out h =
      let (first, e, h1) = >>=-eq-ok (marshal_task anon json t.message t.writer) _ h in
      let (rest, f, last) = >>=-eq-ok (run_marshaller anon json tasks) _ h1 in
      let one = content-task s t.message t.writer first e in
      let more = content-tasks s tasks rest f in
      ap (content s) (sym (ok-injective last))
      ∙ content-append s first rest
      ∙ rw (one, more)
          (sym (
            text_of-append json (hidden_of anon s t.message t.writer)
              (hidden_records anon s tasks)))

-- What the outputs of all marshallers add to a file.
abbrev pub contents : ℕ → List (List Output) → Bytes
contents s [] = []
contents s (out ∷ outs) = content s out ++ contents s outs

abbrev pub all_hidden : (Bytes → Bytes) → ℕ → List (List Task) → List ArchivalRecord
all_hidden anon s [] = []
all_hidden anon s (tasks ∷ chans) = hidden_records anon s tasks ++ all_hidden anon s chans

contents-tasks :
    (anon : Bytes → Bytes) (json : ArchivalRecord → Bytes) (s : ℕ) (chans : List (List Task))
    (outs : List (List Output))
    → run_marshallers anon json chans ≡ ok outs
    → contents s outs ≡ text_of json (all_hidden anon s chans)
unfolding run_marshallers
contents-tasks anon json s [] outs h = ap (contents s) (sym (ok-injective h))
contents-tasks anon json s (tasks ∷ chans) outs h =
    let (out, e, h1) = >>=-eq-ok (run_marshaller anon json tasks) _ h in
    let (rest, f, last) = >>=-eq-ok (run_marshallers anon json chans) _ h1 in
    let one = content-tasks anon json s tasks out e in
    let more = contents-tasks anon json s chans rest f in
    ap (contents s) (sym (ok-injective last))
    ∙ rw (one, more)
        (sym (text_of-append json (hidden_records anon s tasks) (all_hidden anon s chans)))

-- The file with a serial number: its header, which `Rotate` writes before the writer is on any
-- channel, and what the marshallers add. The order of these does not matter where one of them alone
-- has tasks of the file.
abbrev pub file :
    (ArchivalRecord → Bytes) → ℕ → List (Writer × Metadata) → List (List Output) → Bytes
file json s opened outs = text_of json (header_records s opened) ++ contents s outs

-- `bufio.MaxScanTokenSize`: what a line has to be shorter than for the scanner to find it.
abbrev pub max_scan_token_size : ℕ
max_scan_token_size = 65_536

-- The records in front of the first one whose text is too long.
abbrev pub scannable : (ArchivalRecord → Bytes) → List ArchivalRecord → List ArchivalRecord
scannable json [] = []
scannable json (r ∷ rs) =
    let rest = scannable json rs in
    if ltb (length (json r)) max_scan_token_size then r ∷ rest else []

module _ (json : ArchivalRecord → Bytes) (scan : Bytes → List Bytes)
    (unmarshal : Bytes → Result ArchivalRecord) (back : ArchivalRecord → ArchivalRecord)
    (end_of_file : scan [] ≡ [])
    (one_line : (r : ArchivalRecord) (rest : Bytes)
      → length (json r) < 65_536
      → scan (json r ++ (newline ++ rest)) ≡ json r ∷ scan rest)
    (too_long : (r : ArchivalRecord) (rest : Bytes)
      → 65_536 ≤ length (json r)
      → scan (json r ++ (newline ++ rest)) ≡ [])
    (reads : (r : ArchivalRecord) → unmarshal (json r) ≡ ok (back r)) where
  load_texts :
      (rs : List ArchivalRecord)
      → AreTexts unmarshal (scan (text_of json rs)) (map back (scannable json rs))
  load_texts [] = rw (end_of_file) tt
  load_texts (r ∷ rs) = elim (Bool-cases (ltb (length (json r)) 65_536)) [
    | inl short ↦
        rw (short, one_line r (text_of json rs) (ltb→lt (length (json r)) 65_536 short))
          (reads r, load_texts rs)
    | inr long ↦ rw (long, too_long r (text_of json rs) (ltb→ge (length (json r)) 65_536 long)) tt
  ]

  -- Marshallers whose tasks all have a writer do all of them, and a file is read back without an
  -- error as its header and its messages that anonymize, anonymized, in order, up to the first whose
  -- text is too long for a line of the scanner.
  pub marshaller_files_load :
      (anon : Bytes → Bytes) (s : ℕ) (opened : List (Writer × Metadata)) (chans : List (List Task))
      → All (λ tasks. All (λ task. HasWriter task.writer) tasks) chans
      → (outs : List (List Output)) × (run_marshallers anon json chans ≡ ok outs)
        × (load_all_archival_records unmarshal [] (scan (file json s opened outs))
            ≡ ok (
              map back (scannable json (header_records s opened ++ all_hidden anon s chans)),
              none,
            ))
  unfolding load_all_archival_records
  marshaller_files_load anon s opened chans h =
      let (outs, done) = run_marshallers_total anon json chans h in
      let heads = header_records s opened in
      let rs = heads ++ all_hidden anon s chans in
      let whole : text_of json rs ≡ file json s opened outs =
        text_of-append json heads (all_hidden anon s chans)
        ∙ ap (λ (b : Bytes). text_of json heads ++ b)
            (sym (contents-tasks anon json s chans outs done)) in
      (
        outs,
        done,
        rw (whole, append-nil (scan (file json s opened outs))) at
            (load_all-append unmarshal [] (map back (scannable json rs)) (scan (text_of json rs)) []
              (load_texts rs)),
      )
