-- ===== src/Netlink/Load.antt =====
-- netlink/archival-record.go: `LoadRawNetlinkMessage`, the readers and `LoadAllArchivalRecords`.
--
-- A reader of raw messages is the bytes that are left. The lines that `bufio.Scanner` finds and
-- `json.Unmarshal` are parameters.
pub mod Raw
pub mod Lines
use tcp_info.Base.{
  ℕ, ◌+◌, ◌-◌, ◌%◌, ◌^◌, Bool, false, List, [], ◌∷◌, ◌++◌, Option, none, some, Error, Result, ok,
  err, panic, eof, unexpected_eof, ◌>>=◌, ltb, ◌==◌, if◌then◌else◌, length, take, drop,
}
use tcp_info.Bytes.{Bytes, slice_of, le_value, field}
use tcp_info.Netlink.Record.{make_archival_record}
use tcp_info.Netlink.{NlMsghdr, NetlinkMessage, ArchivalRecord}

-- `io.ReadFull`, as `binary.Read` uses it: what is read, and the rest.
unfoldable pub read_full : ℕ → Bytes → Result (Bytes × Bytes)
read_full n b =
    if n == 0
    then ok ([], b)
    else if length b == 0
    then err eof
    else if ltb (length b) n
    then err unexpected_eof
    else ok (take n b, drop n b)

abbrev pub sizeof_nl_msghdr : ℕ
sizeof_nl_msghdr = 16

-- The header that 16 bytes hold.
unfoldable pub header_at : Bytes → NlMsghdr
header_at b = record {
  len = le_value (field 0 4 b);
  type = le_value (field 4 2 b);
  flags = le_value (field 6 2 b);
  seq = le_value (field 8 4 b);
  pid = le_value (field 12 4 b);
}

-- `header.Len-uint32(binary.Size(header))`.
abbrev pub data_len : NlMsghdr → ℕ
data_len h = (h.len + 2 ^ 32 - sizeof_nl_msghdr) % 2 ^ 32

-- `LoadRawNetlinkMessage`: the message, and what the reader still has.
unfoldable pub load_raw_netlink_message : Bytes → Result (NetlinkMessage × Bytes)
load_raw_netlink_message rdr = do
  (front, rest) ← read_full sizeof_nl_msghdr rdr
  let head = header_at front
  (content, rest') ← read_full (data_len head) rest
  ok (record { header = head; body = slice_of content }, rest')

-- `rawReader.Next`, with what the reader still has if a message was read.
unfoldable pub raw_next : Bytes → Result (Result (Option ArchivalRecord) × Bytes)
raw_next rdr = do
  (msg, rest) ← load_raw_netlink_message rdr
  ok (make_archival_record msg false, rest)

-- `err == io.EOF` ends the list without an error.
unfoldable pub ending : Error → Option Error
ending eof = none
ending e = some e

module _ (unmarshal : Bytes → Result ArchivalRecord) where
  -- `archiveReader.Next`: the record or the error, and the lines that are left.
  unfoldable pub archive_next : List Bytes → Result ArchivalRecord × List Bytes
  archive_next [] = (err eof, [])
  archive_next (line ∷ lines) = (unmarshal line, lines)

  -- `LoadAllArchivalRecords`: the records, and the error that ends them. At the end of the lines
  -- `Next` answers with EOF.
  unfoldable pub load_all_archival_records :
      List ArchivalRecord → List Bytes → Result (List ArchivalRecord × Option Error)
  load_all_archival_records msgs [] = ok (msgs, none)
  load_all_archival_records msgs (line ∷ lines) = elim (unmarshal line) [
    | ok pm ↦ load_all_archival_records (msgs ++ pm ∷ []) lines
    | err e ↦ ok (msgs, ending e)
    | panic ↦ panic
  ]
