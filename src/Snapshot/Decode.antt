-- ===== src/Snapshot/Decode.antt =====
-- When `Decode` succeeds, and which attributes it says that it has observed.
use tcp_info.Base.{
  ℕ, zero, suc, ◌+◌, ◌-◌, take, ◌≡◌, ◌≢◌, refl, ◌∙◌, ◌⊎◌, inl, inr, arith, Bool, true, false, ◌||◌,
  ◌&&◌, List, [], ◌∷◌, Option, none, some, ok, panic, ◌==◌, ltb, get_elem?, ℕ_discrete, length,
}
use tcp_info.Bytes.{Bytes, Slice, visible}
use tcp_info.Inetdiag.{InetDiagMsg, parse}
use tcp_info.Netlink.{ArchivalRecord}
use tcp_info.Netlink.Compare.Significant.{shown_at}
use tcp_info.Base.Bits.{test_bit, test_bit-zero, test_bit-set_bit}
use tcp_info.Snapshot.{
  Snapshot, blank, congestion_of, decode_struct, decode_number, decode_attr, or_bit, note_bits,
  decode_attrs, decode_idm, decode,
}

-- The table has an attribute of the type, empty or not.
abbrev pub present : ℕ → List (Option Slice) → Bool
present u attrs = elim (get_elem? attrs u) [ some (some a) ↦ true | _ ↦ false ]

-- The same on the rest of a table that starts at type `t`.
present_from : ℕ → ℕ → List (Option Slice) → Bool
present_from u t [] = false
present_from u t (none ∷ attrs) = present_from u (suc t) attrs
present_from u t (some a ∷ attrs) = t == u || present_from u (suc t) attrs

present_from-before :
    (u t : ℕ) (attrs : List (Option Slice)) → ltb u t ≡ true → present_from u t attrs ≡ false
unfolding present_from
present_from-before u t [] h = refl
present_from-before u t (none ∷ attrs) h = present_from-before u (suc t) attrs (ground arith)
present_from-before u t (some a ∷ attrs) h =
    ground (arith, present_from-before u (suc t) attrs (ground arith))

present_from-present :
    (k u t : ℕ) (attrs : List (Option Slice)) → u ≡ t + k → present_from u t attrs ≡ present k attrs
unfolding present_from
present_from-present k u t [] e = refl
present_from-present zero u t (none ∷ attrs) e = present_from-before u (suc t) attrs (ground arith)
present_from-present zero u t (some a ∷ attrs) e = ground arith
present_from-present (suc k) u t (none ∷ attrs) e =
    present_from-present k u (suc t) attrs (omega arith)
present_from-present (suc k) u t (some a ∷ attrs) e =
    ground (arith, present_from-present k u (suc t) attrs (omega arith))

-- The parts of a snapshot that the switch does not touch.
record SameHead (s s' : Snapshot) : Type 0 where
  same_time : s'.timestamp ≡ s.timestamp
  same_idm : s'.inet_diag_msg ≡ s.inet_diag_msg
  same_observed : s'.observed ≡ s.observed

decode_struct-SameHead : (t : ℕ) (raw : Bytes) (s : Snapshot) → SameHead s (decode_struct t raw s).0
unfolding decode_struct
decode_struct-SameHead t raw s = ground arith

decode_number-SameHead : (t : ℕ) (raw : Bytes) (s : Snapshot) → SameHead s (decode_number t raw s).0
unfolding decode_number
decode_number-SameHead t raw s = ground (arith, decode_struct-SameHead t raw s)

decode_attr-SameHead :
    (t : ℕ) (raw : Bytes) (s : Snapshot)
    → (t ≢ 4) ⊎ (raw ≢ [])
    → (out : Snapshot × Bool) × (decode_attr t raw s ≡ ok out) × SameHead s out.0
unfolding decode_attr congestion_of
decode_attr-SameHead t [] s h = elim (ℕ_discrete t 4) [
  | yes e ↦ absurd (ground arith)
  | no n ↦ (decode_number t [] s, ground arith, decode_number-SameHead t [] s)
]
decode_attr-SameHead t (x ∷ raw) s h = elim (ℕ_discrete t 4) [
  | yes e ↦ (
    (record s { congestion_algorithm = take (length (x ∷ raw) - 1) (x ∷ raw) }, true),
    rw e (ground arith),
    record { same_time = refl; same_idm = refl; same_observed = refl },
  )
  | no n ↦ (decode_number t (x ∷ raw) s, ground arith, decode_number-SameHead t (x ∷ raw) s)
]

-- No CONG attribute that is empty without being nil, on a table that starts at type `t`.
abbrev Named : ℕ → List (Option Slice) → Type 0
Named t attrs = (k : ℕ) → t + k ≡ 4 → shown_at attrs k ≢ some (some [])

Named-cons :
    (t : ℕ) (a : Option Slice) (attrs : List (Option Slice))
    → Named t (a ∷ attrs)
    → Named (suc t) attrs
Named-cons t a attrs h k e = h (suc k) (omega arith)

Named-head :
    (t : ℕ) (a : Slice) (attrs : List (Option Slice))
    → Named t (some a ∷ attrs)
    → (t ≢ 4) ⊎ (visible a ≢ [])
Named-head t a attrs h = elim (ℕ_discrete t 4) [
  | yes e ↦ inr (λ empty. h 0 (omega arith) (rw empty))
  | no n ↦ inl n
]

test_bit-or_bit :
    (n t bits : ℕ) → test_bit n (or_bit t bits) ≡ ((ltb n 32 && t == suc n) || test_bit n bits)
unfolding or_bit
test_bit-or_bit n zero bits = ground arith
test_bit-or_bit n (suc t) bits = ground (arith, test_bit-set_bit n t bits)

-- The loop's result.
record Decoded (t : ℕ) (attrs : List (Option Slice)) (s s' : Snapshot) : Type 0 where
  loop_time : s'.timestamp ≡ s.timestamp
  loop_idm : s'.inet_diag_msg ≡ s.inet_diag_msg
  loop_observed :
      (n : ℕ)
      → test_bit n s'.observed
        ≡ ((ltb n 32 && present_from (suc n) t attrs) || test_bit n s.observed)

decode_attrs-Decoded :
    (t : ℕ) (attrs : List (Option Slice)) (s : Snapshot)
    → Named t attrs
    → (s' : Snapshot) × (decode_attrs t attrs s ≡ ok s') × Decoded t attrs s s'
unfolding decode_attrs present_from note_bits
decode_attrs-Decoded t [] s h =
    (s, refl, record { loop_time = refl; loop_idm = refl; loop_observed = λ n. ground arith })
decode_attrs-Decoded t (none ∷ attrs) s h =
    let (s', e, d) = decode_attrs-Decoded (suc t) attrs s (Named-cons t none attrs h) in
    (
      s',
      e,
      record { loop_time = d.loop_time; loop_idm = d.loop_idm; loop_observed = d.loop_observed },
    )
decode_attrs-Decoded t (some a ∷ attrs) s h =
    let (out, did, same) = decode_attr-SameHead t (visible a) s (Named-head t a attrs h) in
    let (s', e, d) =
      decode_attrs-Decoded (suc t) attrs (note_bits t out) (Named-cons t (some a) attrs h) in
    (
      s',
      rw (did, e),
      record {
        loop_time = d.loop_time ∙ same.same_time;
        loop_idm = d.loop_idm ∙ same.same_idm;
        loop_observed = λ n.
            ground
              (arith, d.loop_observed n, test_bit-or_bit n t out.0.observed, same.same_observed);
      },
    )

-- A record whose message parses, and that has no empty CONG attribute, is decoded: to its metadata
-- and a snapshot with its time, the message, and in `Observed` the bit t - 1 for exactly the
-- attribute types t from 1 to 32 that the table has.
pub decode-observed :
    (ar : ArchivalRecord) (raw : Bytes) (m : InetDiagMsg)
    → ar.raw_idm ≡ some raw
    → parse raw ≡ ok m
    → shown_at ar.attributes 4 ≢ some (some [])
    → (s : Snapshot) × (decode ar ≡ ok (ar.metadata, s))
      × (s.timestamp ≡ ar.timestamp)
      × (s.inet_diag_msg ≡ some m)
      × ((n : ℕ) → test_bit n s.observed ≡ (ltb n 32 && present (suc n) ar.attributes))
unfolding decode decode_idm
decode-observed ar raw m has parsed named =
    let started : Snapshot = record (blank ar.timestamp) { inet_diag_msg = some m } in
    let (s, e, d) =
      decode_attrs-Decoded 0 ar.attributes started
        λ k at_four. (let four : k ≡ 4 = omega (arith, at_four) in rw four named) in
    (
      s,
      ground (arith, e),
      d.loop_time,
      d.loop_idm,
      λ n.
          d.loop_observed n
          ∙ rw (test_bit-zero n, present_from-present (suc n) (suc n) 0 ar.attributes (omega arith))
              (ground arith),
    )

decode_attrs-panic :
    (k t : ℕ) (attrs : List (Option Slice)) (s : Snapshot)
    → t + k ≡ 4
    → shown_at attrs k ≡ some (some [])
    → decode_attrs t attrs s ≡ panic
unfolding decode_attrs decode_attr congestion_of
decode_attrs-panic k t [] s e h = cc h
decode_attrs-panic zero t (none ∷ attrs) s e h = cc h
decode_attrs-panic zero t (some a ∷ attrs) s e h =
    let four : t ≡ 4 = omega arith in
    let empty : visible a ≡ [] = ground (arith, h) in rw (four, empty)
decode_attrs-panic (suc k) t (none ∷ attrs) s e h =
    decode_attrs-panic k (suc t) attrs s (omega arith) h
decode_attrs-panic (suc k) t (some a ∷ attrs) s e h =
    let other : (t == 4) ≡ false = ground arith in
    rw other (decode_attrs-panic k (suc t) attrs _ (omega arith) h)

-- A CONG attribute that is empty without being nil makes `Decode` panic, whatever else the record
-- holds, if its message parses.
pub decode_congestion_panic :
    (ar : ArchivalRecord) (raw : Bytes) (m : InetDiagMsg)
    → ar.raw_idm ≡ some raw
    → parse raw ≡ ok m
    → shown_at ar.attributes 4 ≡ some (some [])
    → decode ar ≡ panic
unfolding decode decode_idm
decode_congestion_panic ar raw m has parsed empty =
    let started : Snapshot = record (blank ar.timestamp) { inet_diag_msg = some m } in
    ground (arith, decode_attrs-panic 4 0 ar.attributes started refl empty)
