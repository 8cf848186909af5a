-- ===== src/Snapshot/Stats.antt =====
-- `GetStats`, which the saver reads from the raw bytes, against the decoded TCP_INFO.
use tcp_info.Base.Int64.{int64, uint64, uint64-int64}
use tcp_info.Base.{
  ℕ, zero, suc, ◌+◌, ◌-◌, ◌≤◌, ◌≡◌, refl, ◌∙◌, some, [], ◌∷◌, ◌++◌, arith, length, take, replicate,
}
use tcp_info.Bytes.Laws.{le_value-lt, take-take}
use tcp_info.Bytes.{Bytes, Slice, visible, field, le_value, IsBytes}
use tcp_info.Inetdiag.Layout.{IsBytes-take, IsBytes-drop, length-field}
use tcp_info.Netlink.Record.Counters.{get_stats-raw}
use tcp_info.Netlink.Record.{diag_info, get_stats}
use tcp_info.Netlink.{ArchivalRecord}
use tcp_info.Snapshot.TcpInfo.{tcp_info_at, sizeof_tcp_info}
use tcp_info.Snapshot.{maybe_copy}

field-append_left :
    (off n : ℕ) (b rest : Bytes) → off + n ≤ length b → field off n (b ++ rest) ≡ field off n b
field-append_left zero zero b rest h = refl
field-append_left zero (suc n) [] rest h = absurd (omega arith)
field-append_left zero (suc n) (x ∷ b) rest h = rw (field-append_left zero n b rest (omega arith))
field-append_left (suc off) zero [] rest h = absurd (omega arith)
field-append_left (suc off) n (x ∷ b) rest h = field-append_left off n b rest (omega arith)
field-append_left (suc off) (suc n) [] rest h = absurd (omega arith)

field-take : (off n k : ℕ) (b : Bytes) → off + n ≤ k → field off n (take k b) ≡ field off n b
field-take zero n k b h = take-take n k b (omega arith)
field-take (suc off) n zero b h = absurd (omega arith)
field-take (suc off) n (suc k) [] h = refl
field-take (suc off) n (suc k) (x ∷ b) h = field-take off n k b (omega arith)

field-maybe_copy :
    (off n size : ℕ) (b : Bytes)
    → off + n ≤ length b
    → off + n ≤ size
    → field off n (maybe_copy b size).0 ≡ field off n b
unfolding maybe_copy
field-maybe_copy off n size b h k =
    ground (
      arith,
      field-append_left off n b (replicate (size - length b) 0) h,
      field-take off n size b k,
    )

counter_same :
    (off : ℕ) (b : Bytes)
    → IsBytes b
    → off + 8 ≤ length b
    → uint64 (int64 (le_value (field off 8 b))) ≡ le_value (field off 8 b)
counter_same off b bytes h = uint64-int64 _ (
    omega (
      arith,
      length-field off 8 b h,
      rw (length-field off 8 b h) at
          (le_value-lt (field off 8 b) (IsBytes-take 8 _ (IsBytes-drop off b bytes))),
    ))

-- On a TCP_INFO that reaches past BytesSent, `GetStats` gives the counters that `Decode` shows, where
-- they are signed.
pub get_stats-tcp_info :
    (pm : ArchivalRecord) (a : Slice)
    → diag_info pm ≡ some a
    → 208 ≤ length (visible a)
    → IsBytes (visible a)
    → let info = tcp_info_at (maybe_copy (visible a) sizeof_tcp_info).0 in
      get_stats pm ≡ (uint64 info.bytes_sent, uint64 info.bytes_received)
unfolding tcp_info_at
get_stats-tcp_info pm a has long bytes =
    get_stats-raw pm a has long
    ∙ rw (
      field-maybe_copy 200 8 232 (visible a) (omega arith) (omega arith),
      field-maybe_copy 128 8 232 (visible a) (omega arith) (omega arith),
      counter_same 200 (visible a) bytes (omega arith),
      counter_same 128 (visible a) bytes (omega arith),
    )
