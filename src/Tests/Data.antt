-- ===== src/Tests/Data.antt =====
-- The messages, records and parameters of the tests.
use tcp_info.Base.{
  ℕ, ◌+◌, ◌≡◌, refl, ap, suc, true, List, [], ◌∷◌, ◌++◌, map, none, some, length, replicate,
}
use tcp_info.Bytes.{Bytes, Slice, slice_of, to_le}
use tcp_info.Netlink.{NetlinkMessage, ArchivalRecord}
use tcp_info.Saver.{Os}

-- An inet_diag_msg of family `f`, state `s` and cookie `c`, between 2001:db8::1 and 2001:db8::2.
abbrev pub address : ℕ → Bytes
address n = 0x20 ∷ 0x01 ∷ 0x0d ∷ 0xb8 ∷ (replicate 11 0 ++ n ∷ [])

abbrev pub idm : ℕ → ℕ → ℕ → Bytes
idm f s c =
    f
    ∷ s
    ∷ 0
    ∷ 0
    ∷ 0x01
    ∷ 0xbb
    ∷ 0xc0
    ∷ 0x01
    ∷ (address 1 ++ (address 2 ++ (replicate 4 0 ++ (c ∷ replicate 27 0))))

abbrev pub hex_idm : Bytes
hex_idm = idm 10 1 5

-- Two attributes, the first with three bytes of padding.
abbrev pub items : List (ℕ × Bytes)
items = (5, 9 ∷ []) ∷ (2, 1 ∷ 2 ∷ 3 ∷ 4 ∷ []) ∷ []

abbrev pub items_bytes : Bytes
items_bytes = 5 ∷ 0 ∷ 5 ∷ 0 ∷ 9 ∷ 0 ∷ 0 ∷ 0 ∷ 8 ∷ 0 ∷ 2 ∷ 0 ∷ 1 ∷ 2 ∷ 3 ∷ 4 ∷ []

abbrev pub message : Bytes → NetlinkMessage
message b = record {
  header = record { len = 0; type = 20; flags = 2; seq = 1; pid = 7 };
  body = record { back = b ++ 0xff ∷ []; len = length b };
}

-- An anonymizer that writes zeros.
abbrev pub zeros : Bytes → Bytes
zeros a = map (λ _. 0) a

pub length-zeros : (a : Bytes) → length (zeros a) ≡ length a
length-zeros [] = refl
length-zeros (x ∷ a) = ap suc (length-zeros a)

-- A TCP_INFO of 232 bytes with these numbers of bytes received and sent.
abbrev pub tcp_info_bytes : ℕ → ℕ → Slice
tcp_info_bytes received sent =
    slice_of (
      replicate 128 0 ++ (to_le 8 received ++ (replicate 64 0 ++ (to_le 8 sent ++ replicate 24 0))))

-- Records of cookie 5, with and without attributes.
abbrev pub with_info : ℕ → ℕ → ArchivalRecord
with_info received sent = record {
  timestamp = 0;
  raw_idm = some hex_idm;
  attributes = none ∷ none ∷ some (tcp_info_bytes received sent) ∷ [];
  metadata = none;
}

abbrev pub bare : ArchivalRecord
bare = record { timestamp = 0; raw_idm = some hex_idm; attributes = none ∷ []; metadata = none }

abbrev pub calm : Os
calm = record {
  now = λ n. 1000 + n;
  mkdir_works = λ n. true;
  create_works = λ n. true;
  order = λ n r. r;
  key_order = λ n r. r;
  from_cookie = λ c. c ∷ [];
}
