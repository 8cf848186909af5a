-- ===== src/Netlink/Record/Counters.antt =====
-- netlink/archival-record.go: `SetBytesReceived` and `SetBytesSent`, which only tests may call.
use tcp_info.Base.{
  ℕ, ◌+◌, ◌^◌, ◌≤◌, ◌<◌, ◌≡◌, refl, sym, ◌∙◌, ap, Bool, true, false, Option, none, some, Result, ok,
  panic, ltb, leb, if◌then◌else◌, length, set, get_elem?-set_self, arith, ge→ltb,
}
use tcp_info.Bytes.Laws.{length-to_le, le_value-to_le}
use tcp_info.Bytes.Write.{
  write, overwrite_all, field-write_before, field-write_after, field-write_self, length-write,
  take-write_within,
}
use tcp_info.Bytes.{Bytes, Slice, visible, field, le_value, to_le}
use tcp_info.Inetdiag.Layout.{length-field}
use tcp_info.Netlink.Compare.Quiet.{diag_info-long}
use tcp_info.Netlink.Record.{
  entry_bytes, diag_info, bytes_received_offset, bytes_sent_offset, get_stats,
}
use tcp_info.Netlink.{ArchivalRecord, inet_diag_info}

-- The entry with eight of its bytes replaced by a `uint64`, in the array that the slice lies in.
unfoldable pub poke : ℕ → ℕ → Option Slice → Option Slice
poke off value none = none
poke off value (some s) = some (record s { back = write off (to_le 8 value) s.back })

-- `SetBytesReceived` and `SetBytesSent` but for the offset: the counter before, and the record after.
-- The first argument is whether a test runs.
unfoldable pub set_counter : ℕ → Bool → ℕ → ArchivalRecord → Result (ℕ × ArchivalRecord)
set_counter off in_test value pm =
    if in_test
    then if leb (length pm.attributes) inet_diag_info
      then ok (0, pm)
      else (let raw = entry_bytes (diag_info pm) in
          if ltb (length raw) (off + 8)
          then ok (0, pm)
          else ok (
            le_value (field off 8 raw),
            record pm {
              attributes = set pm.attributes inet_diag_info (poke off value (diag_info pm));
            },
          ))
    else panic

abbrev pub set_bytes_received : Bool → ℕ → ArchivalRecord → Result (ℕ × ArchivalRecord)
set_bytes_received in_test value pm = set_counter bytes_received_offset in_test value pm

abbrev pub set_bytes_sent : Bool → ℕ → ArchivalRecord → Result (ℕ × ArchivalRecord)
set_bytes_sent in_test value pm = set_counter bytes_sent_offset in_test value pm

pub get_stats-raw :
    (pm : ArchivalRecord) (a : Slice)
    → diag_info pm ≡ some a
    → 208 ≤ length (visible a)
    → get_stats pm ≡ (le_value (field 200 8 (visible a)), le_value (field 128 8 (visible a)))
unfolding get_stats
get_stats-raw pm a has long =
    let enough : leb (length pm.attributes) 2 ≡ false = ground (arith, diag_info-long pm a has) in
    rw (
      enough,
      has,
      ge→ltb (length (visible a)) 208 long,
      ge→ltb (length (visible a)) 136 (omega arith),
    )

poked : ℕ → ℕ → ArchivalRecord → ArchivalRecord
poked off value pm = record pm {
  attributes = set pm.attributes inet_diag_info (poke off value (diag_info pm));
}

-- A field that a number of its width is written to holds that number.
field-written :
    (off value : ℕ) (raw : Bytes)
    → off + 8 ≤ length raw
    → value < 2 ^ 64
    → le_value (field off 8 (write off (to_le 8 value) raw)) ≡ value
field-written off value raw long fits =
    let width : length (to_le 8 value) ≡ length (field off 8 raw) =
      length-to_le 8 value ∙ sym (length-field off 8 raw long) in
    rw
      (
        field-write_self off 8 (to_le 8 value) raw,
        overwrite_all (to_le 8 value) (field off 8 raw) width,
      )
      (le_value-to_le 8 value fits)

module _ (off value : ℕ) (pm : ArchivalRecord) (s : Slice) (has : diag_info pm ≡ some s)
    (long : 208 ≤ length (visible s)) where
  stored : Slice
  stored = record s { back = write off (to_le 8 value) s.back }

  visible-stored : visible stored ≡ write off (to_le 8 value) (visible s)
  unfolding stored
  visible-stored = take-write_within s.len off (to_le 8 value) s.back

  diag_info-poked : diag_info (poked off value pm) ≡ some stored
  unfolding poked stored poke
  diag_info-poked =
      let there =
        get_elem?-set_self pm.attributes 2 (poke off value (diag_info pm))
          (diag_info-long pm s has) in
      ap (λ (o : Option (Option Slice)). elim o [ none ↦ none | some a ↦ a ]) there
      ∙ ap (poke off value) has

  get_stats-poked : get_stats (poked off value pm) ≡ (
    le_value (field 200 8 (write off (to_le 8 value) (visible s))),
    le_value (field 128 8 (write off (to_le 8 value) (visible s))),
  )
  get_stats-poked =
      let reaches : 208 ≤ length (visible stored) =
        rw (visible-stored, length-write off (to_le 8 value) (visible s)) long in
      rw (visible-stored) at (get_stats-raw (poked off value pm) stored diag_info-poked reaches)

  set_counter_at :
      off + 8 ≤ 208
      → set_counter off true value pm ≡ ok (le_value (field off 8 (visible s)), poked off value pm)
  unfolding set_counter poked
  set_counter_at near =
      let enough : leb (length pm.attributes) 2 ≡ false = ground (arith, diag_info-long pm s has) in
      rw (set_counter, enough, has, ge→ltb (length (visible s)) (off + 8) (omega arith)) refl

-- On a TCP_INFO that reaches past BytesSent, in a test, either call gives the counter that `GetStats`
-- gave, and `GetStats` then gives the new one, and the other as it was.
get_stats-set_bytes :
    (value : ℕ) (pm : ArchivalRecord) (s : Slice)
    → diag_info pm ≡ some s
    → 208 ≤ length (visible s)
    → value < 2 ^ 64
    → ((out : ArchivalRecord) × (set_bytes_sent true value pm ≡ ok ((get_stats pm).0, out))
        × (get_stats out ≡ (value, (get_stats pm).1)))
      × ((out : ArchivalRecord) × (set_bytes_received true value pm ≡ ok ((get_stats pm).1, out))
          × (get_stats out ≡ ((get_stats pm).0, value)))
get_stats-set_bytes value pm s has long fits =
    let raw = visible s in
    let now = get_stats-raw pm s has long in
    let wide = length-to_le 8 value in
    (
      (
        poked 200 value pm,
        rw (now) (set_counter_at 200 value pm s has long (omega arith)),
        rw (now) (
            rw
              (
                field-written 200 value raw long fits,
                field-write_before 128 8 200 (to_le 8 value) raw (omega arith),
              )
              at (get_stats-poked 200 value pm s has long)),
      ),
      (
        poked 128 value pm,
        rw (now) (set_counter_at 128 value pm s has long (omega arith)),
        rw (now) (
            rw
              (
                field-written 128 value raw (omega arith) fits,
                field-write_after 200 8 128 (to_le 8 value) raw (omega (arith, wide)),
              )
              at (get_stats-poked 128 value pm s has long)),
      ),
    )
