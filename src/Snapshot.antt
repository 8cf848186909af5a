-- ===== src/Snapshot.antt =====
-- snapshot/snapshot.go: an archival record decoded into one snapshot.
--
-- A pointer to a struct is the struct's fields, read from its bytes at their offsets. The metrics
-- and the log lines for what is not decoded are not part of the model.
pub mod TcpInfo
pub mod Infos
pub mod Decode
pub mod Load
pub mod Stats
use tcp_info.Base.{
  ℕ, suc, zero, ◌+◌, ◌-◌, Bool, true, false, List, [], ◌∷◌, ◌++◌, Option, none, some, Result, ok,
  err, panic, empty_record, ◌>>=◌, ◌==◌, ltb, if◌then◌else◌, length, get_or, take, replicate,
}
use tcp_info.Bytes.{Bytes, Slice, visible, le_value}
use tcp_info.Inetdiag.{InetDiagMsg, parse}
use tcp_info.Netlink.{Metadata, ArchivalRecord}
use tcp_info.Base.Bits.{set_bit}
use tcp_info.Snapshot.Infos.{
  MemInfo, SocketMemInfo, VegasInfo, DctcpInfo, BbrInfo, sizeof_mem_info, sizeof_socket_mem_info,
  sizeof_vegas_info, sizeof_dctcp_info, sizeof_bbr_info, mem_info_at, socket_mem_info_at,
  vegas_info_at, dctcp_info_at, bbr_info_at,
}
use tcp_info.Snapshot.TcpInfo.{LinuxTcpInfo, sizeof_tcp_info, tcp_info_at}

-- `Snapshot`.
pub record Snapshot : Type 0 where
  pub timestamp : ℕ
  pub observed : ℕ
  pub not_fully_parsed : ℕ
  pub inet_diag_msg : Option InetDiagMsg
  pub congestion_algorithm : Bytes
  pub tos : ℕ
  pub tclass : ℕ
  pub class_id : ℕ
  pub shutdown : ℕ
  pub protocol : ℕ
  pub mark : ℕ
  pub tcp_info : Option LinuxTcpInfo
  pub mem_info : Option MemInfo
  pub socket_mem : Option SocketMemInfo
  pub vegas_info : Option VegasInfo
  pub dctcp_info : Option DctcpInfo
  pub bbr_info : Option BbrInfo

-- `Snapshot{}` with its time.
abbrev pub blank : ℕ → Snapshot
blank time = record {
  timestamp = time;
  observed = 0;
  not_fully_parsed = 0;
  inet_diag_msg = none;
  congestion_algorithm = [];
  tos = 0;
  tclass = 0;
  class_id = 0;
  shutdown = 0;
  protocol = 0;
  mark = 0;
  tcp_info = none;
  mem_info = none;
  socket_mem = none;
  vegas_info = none;
  dctcp_info = none;
  bbr_info = none;
}

-- `maybeCopy`: the bytes that the pointer shows, zeros behind a source that is too short, and
-- whether the source was too short or of the struct's size.
unfoldable pub maybe_copy : Bytes → ℕ → Bytes × Bool
maybe_copy src size =
    if ltb (length src) size
    then (src ++ replicate (size - length src) 0, true)
    else (take size src, length src == size)

-- `CongestionAlgorithm`: `raw[:len(raw)-1]` panics on an empty value.
unfoldable pub congestion_of : Bytes → Result Bytes
congestion_of raw = if length raw == 0 then panic else ok (take (length raw - 1) raw)

-- `toUint8`, also as `toTOS`, `toTCLASS`, `toClassID`, `toShutdown` and `toProtocol`.
unfoldable pub to_uint8 : Bytes → ℕ × Bool
to_uint8 [] = (0, false)
to_uint8 (x ∷ raw) = (x, true)

-- `toMark`.
unfoldable pub to_mark : Bytes → ℕ × Bool
to_mark raw = if length raw == 4 then (le_value raw, true) else (0, false)

-- The attributes that are structs.
unfoldable pub decode_struct : ℕ → Bytes → Snapshot → Snapshot × Bool
decode_struct t raw s =
    if t == 1
    then (let (b, good) = maybe_copy raw sizeof_mem_info in
        (record s { mem_info = some (mem_info_at b) }, good))
    else if t == 2
    then (let (b, good) = maybe_copy raw sizeof_tcp_info in
        (record s { tcp_info = some (tcp_info_at b) }, good))
    else if t == 3
    then (let (b, good) = maybe_copy raw sizeof_vegas_info in
        (record s { vegas_info = some (vegas_info_at b) }, good))
    else if t == 7
    then (let (b, good) = maybe_copy raw sizeof_socket_mem_info in
        (record s { socket_mem = some (socket_mem_info_at b) }, good))
    else if t == 9
    then (let (b, good) = maybe_copy raw sizeof_dctcp_info in
        (record s { dctcp_info = some (dctcp_info_at b) }, good))
    else if t == 16
    then (let (b, good) = maybe_copy raw sizeof_bbr_info in
        (record s { bbr_info = some (bbr_info_at b) }, good))
    else (s, false)

-- The attributes that are one number.
unfoldable pub decode_number : ℕ → Bytes → Snapshot → Snapshot × Bool
decode_number t raw s =
    let (v, good) = to_uint8 raw in
    if t == 5
    then (record s { tos = v }, good)
    else if t == 6
    then (record s { tclass = v }, good)
    else if t == 8
    then (record s { shutdown = v }, good)
    else if t == 10
    then (record s { protocol = v }, good)
    else if t == 15
    then (let (m, whole) = to_mark raw in (record s { mark = m }, whole))
    else if t == 17
    then (record s { class_id = v }, good)
    else decode_struct t raw s

-- The switch: a type that no case decodes leaves the snapshot alone, and is not fully parsed.
unfoldable pub decode_attr : ℕ → Bytes → Snapshot → Result (Snapshot × Bool)
decode_attr t raw s =
    if t == 4
    then (do name ← congestion_of raw; ok (record s { congestion_algorithm = name }, true))
    else ok (decode_number t raw s)

-- `1 << uint8(t-1)` in 32 bits is 0 for type 0 and for types above 32.
unfoldable pub or_bit : ℕ → ℕ → ℕ
or_bit zero bits = bits
or_bit (suc n) bits = if ltb n 32 then set_bit n bits else bits

unfoldable pub note_bits : ℕ → Snapshot × Bool → Snapshot
note_bits t (s, good) = record s {
  observed = or_bit t s.observed;
  not_fully_parsed = if good then s.not_fully_parsed else or_bit t s.not_fully_parsed;
}

-- The loop over the attributes, from type `t` on.
unfoldable pub decode_attrs : ℕ → List (Option Slice) → Snapshot → Result Snapshot
decode_attrs t [] s = ok s
decode_attrs t (none ∷ attrs) s = decode_attrs (suc t) attrs s
decode_attrs t (some raw ∷ attrs) s = do
  done ← decode_attr t (visible raw) s
  decode_attrs (suc t) attrs (note_bits t done)

-- `result.InetDiagMsg`.
unfoldable pub decode_idm : Option Bytes → Snapshot → Result Snapshot
decode_idm none s = ok s
decode_idm (some raw) s = do idm ← parse raw; ok (record s { inet_diag_msg = some idm })

-- `Decode`.
unfoldable pub decode : ArchivalRecord → Result (Option Metadata × Snapshot)
decode ar =
    let whole : Result (Option Metadata × Snapshot) = (do
      started ← decode_idm ar.raw_idm (blank ar.timestamp)
      s ← decode_attrs 0 ar.attributes started
      ok (ar.metadata, s)) in
    elim (ar.metadata) [
      | some meta ↦ whole
      | none ↦ elim (ar.raw_idm) [ none ↦ err empty_record | some raw ↦ whole ]
    ]
