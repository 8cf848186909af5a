-- ===== src/Inetdiag/Layout.antt =====
-- The layout of `inet_diag_msg` as the kernel writes it, told apart from the program's reading.
use tcp_info.Base.{
  ℕ, zero, suc, ◌+◌, ◌≤◌, ◌<◌, ◌≡◌, refl, ap, ◌⊎◌, inl, inr, ok, err, idm_parse_failed, lt→ltb,
  ge→ltb, dec_lt, [], ◌∷◌, ◌++◌, arith, length, take, drop, length-take, length-drop,
}
use tcp_info.Bytes.Laws.{to_le-le_value}
use tcp_info.Bytes.{Bytes, field, to_le, le_value, IsBytes}
use tcp_info.Inetdiag.{LinuxSockId, InetDiagMsg, view, parse}

-- The struct's bytes: four single bytes, the socket's arrays, five 32-bit integers.
abbrev pub sock_id_bytes : LinuxSockId → Bytes → Bytes
sock_id_bytes id rest =
    id.sport ++ (id.dport ++ (id.src ++ (id.dst ++ (id.iface ++ (id.cookie ++ rest)))))

pub serialize : InetDiagMsg → Bytes
serialize m =
    to_le 1 m.family
    ++ (to_le 1 m.state
        ++ (to_le 1 m.timer
            ++ (to_le 1 m.retrans
                ++ sock_id_bytes m.id (
                    to_le 4 m.expires
                    ++ (to_le 4 m.rqueue
                        ++ (to_le 4 m.wqueue ++ (to_le 4 m.uid ++ to_le 4 m.inode)))))))

take_split : (n k m : ℕ) (b : Bytes) → k ≡ n + m → take n b ++ take m (drop n b) ≡ take k b
take_split zero k m b h = rw (let e : k ≡ m = omega arith in e)
take_split (suc n) zero m b h = absurd (omega arith)
take_split (suc n) (suc k) zero [] h = refl
take_split (suc n) (suc k) (suc m) [] h = refl
take_split (suc n) (suc k) m (x ∷ b) h = ap (◌∷◌ x) (take_split n k m b (omega arith))

drop_split : (n k m : ℕ) (b : Bytes) → k ≡ n + m → drop m (drop n b) ≡ drop k b
drop_split zero k m b h = rw (let e : k ≡ m = omega arith in e)
drop_split (suc n) zero m b h = absurd (omega arith)
drop_split (suc n) (suc k) zero [] h = refl
drop_split (suc n) (suc k) (suc m) [] h = refl
drop_split (suc n) (suc k) m (x ∷ b) h = drop_split n k m b (omega arith)

-- Two adjacent fields are one longer field.
field-append :
    (off n m : ℕ) (b : Bytes) → field off n b ++ field (off + n) m b ≡ field off (n + m) b
field-append off n m b =
    rw (← drop_split off (off + n) n b refl) (take_split n (n + m) m (drop off b) refl)

pub IsBytes-drop : (n : ℕ) (b : Bytes) → IsBytes b → IsBytes (drop n b)
IsBytes-drop zero b h = h
IsBytes-drop (suc n) [] h = tt
IsBytes-drop (suc n) (x ∷ b) h = IsBytes-drop n b h.1

pub IsBytes-take : (n : ℕ) (b : Bytes) → IsBytes b → IsBytes (take n b)
IsBytes-take zero b h = tt
IsBytes-take (suc n) [] h = tt
IsBytes-take (suc n) (x ∷ b) h = (h.0, IsBytes-take n b h.1)

pub length-field : (off n : ℕ) (b : Bytes) → off + n ≤ length b → length (field off n b) ≡ n
length-field off n b h = omega (arith, length-take n (drop off b), length-drop off b)

-- A number read from a field is stored back as the same bytes.
to_le-field :
    (off n : ℕ) (b : Bytes)
    → off + n ≤ length b
    → IsBytes b
    → to_le n (le_value (field off n b)) ≡ field off n b
to_le-field off n b h bytes =
    rw (length-field off n b h) at
      (to_le-le_value (field off n b) (IsBytes-take n _ (IsBytes-drop off b bytes)))

-- The struct that the program sees holds all 72 bytes, each in one field and in the kernel's order.
pub serialize-view :
    (raw : Bytes) → IsBytes raw → 72 ≤ length raw → serialize (view raw) ≡ field 0 72 raw
unfolding serialize view
serialize-view raw bytes h =
    rw
      (
        to_le-field 0 1 raw (omega arith) bytes,
        to_le-field 1 1 raw (omega arith) bytes,
        to_le-field 2 1 raw (omega arith) bytes,
        to_le-field 3 1 raw (omega arith) bytes,
        to_le-field 52 4 raw (omega arith) bytes,
        to_le-field 56 4 raw (omega arith) bytes,
        to_le-field 60 4 raw (omega arith) bytes,
        to_le-field 64 4 raw (omega arith) bytes,
        to_le-field 68 4 raw (omega arith) bytes,
        field-append 64 4 4 raw,
        field-append 60 4 8 raw,
        field-append 56 4 12 raw,
        field-append 52 4 16 raw,
        field-append 44 8 20 raw,
        field-append 40 4 28 raw,
        field-append 24 16 32 raw,
        field-append 8 16 48 raw,
        field-append 6 2 64 raw,
        field-append 4 2 66 raw,
        field-append 3 1 68 raw,
        field-append 2 1 69 raw,
        field-append 1 1 70 raw,
        field-append 0 1 71 raw,
      )
      refl

pub parse_long : (raw : Bytes) → 72 ≤ length raw → parse raw ≡ ok (view raw)
unfolding parse
parse_long raw h = rw (ge→ltb (length raw) 72 h)

pub parse_short : (raw : Bytes) → length raw < 72 → parse raw ≡ err idm_parse_failed
unfolding parse
parse_short raw h = rw (lt→ltb (length raw) 72 h)

-- `Parse` succeeds exactly on 72 bytes or more, and then its fields, written out in the kernel's
-- order, are the first 72 bytes: nothing is lost, swapped or read twice.
pub parse-serialize :
    (raw : Bytes)
    → IsBytes raw
    → ((length raw < 72) × (parse raw ≡ err idm_parse_failed))
      ⊎ ((72 ≤ length raw) × ((m : InetDiagMsg) × (parse raw ≡ ok m) × (serialize m ≡ take 72 raw)))
parse-serialize raw bytes = elim (dec_lt (length raw) 72) [
  | yes less ↦ inl (less, parse_short raw less)
  | no more ↦
      let enough : 72 ≤ length raw = omega arith in
      inr (enough, (view raw, parse_long raw enough, serialize-view raw bytes enough))
]
