-- ===== src/Netlink/Load/Raw.antt =====
-- A message that was written is read back.
use tcp_info.Base.{
  ℕ, ◌+◌, ◌^◌, ◌<◌, ◌≡◌, refl, arith, [], ◌∷◌, ◌++◌, ok, length, take, length-append,
}
use mathlib.Core.List.{append_assoc}
use tcp_info.Bytes.Laws.{length-to_le, le_value-to_le, take-append_of, drop-append_of}
use tcp_info.Bytes.{Bytes, slice_of, to_le, le_value}
use tcp_info.Netlink.Load.{data_len, read_full, header_at, load_raw_netlink_message}
use tcp_info.Netlink.{NlMsghdr}

-- The bytes of a header, and of a message with this header and data.
unfoldable pub encode_header : NlMsghdr → Bytes
encode_header h =
    to_le 4 h.len ++ (to_le 2 h.type ++ (to_le 2 h.flags ++ (to_le 4 h.seq ++ to_le 4 h.pid)))

abbrev pub encode_message : NlMsghdr → Bytes → Bytes
encode_message h content = encode_header h ++ content

-- The numbers fit the header's fields, and its length is that of the whole message.
pub record Fits (h : NlMsghdr) (content : Bytes) : Type 0 where
  pub fit_len : h.len ≡ length content + 16
  pub fit_size : h.len < 2 ^ 32
  pub fit_type : h.type < 2 ^ 16
  pub fit_flags : h.flags < 2 ^ 16
  pub fit_seq : h.seq < 2 ^ 32
  pub fit_pid : h.pid < 2 ^ 32

number_read : (n v : ℕ) (rest : Bytes) → v < 256 ^ n → le_value (take n (to_le n v ++ rest)) ≡ v
number_read n v rest h =
    rw (take-append_of n (to_le n v) rest (length-to_le n v)) (le_value-to_le n v h)

header_at-encode_header :
    (h : NlMsghdr) (content : Bytes) → Fits h content → header_at (encode_header h) ≡ h
unfolding header_at encode_header to_le
header_at-encode_header h content f = rw (
  le_value-to_le 4 h.len (omega (arith, f.fit_size)),
  le_value-to_le 2 h.type (omega (arith, f.fit_type)),
  le_value-to_le 2 h.flags (omega (arith, f.fit_flags)),
  le_value-to_le 4 h.seq (omega (arith, f.fit_seq)),
  le_value-to_le 4 h.pid (omega (arith, f.fit_pid)),
)

length-encode_header : (h : NlMsghdr) → length (encode_header h) ≡ 16
unfolding encode_header to_le
length-encode_header h = refl

read_full-append :
    (n : ℕ) (front rest : Bytes) → length front ≡ n → read_full n (front ++ rest) ≡ ok (front, rest)
unfolding read_full
read_full-append n [] rest h = ground arith
read_full-append n (x ∷ front) rest h = ground (
  arith,
  length-append (x ∷ front) rest,
  take-append_of n (x ∷ front) rest h,
  drop-append_of n (x ∷ front) rest h,
)

-- A message that was written, whose length field says so and whose numbers fit their fields, is
-- read back, and the reader goes on right behind it.
pub load_raw_netlink_message-encode :
    (h : NlMsghdr) (content rest : Bytes)
    → Fits h content
    → load_raw_netlink_message (encode_message h content ++ rest)
      ≡ ok (record { header = h; body = slice_of content }, rest)
unfolding load_raw_netlink_message
load_raw_netlink_message-encode h content rest f =
    let size : data_len h ≡ length content = omega (arith, f.fit_len, f.fit_size) in
    rw (
      append_assoc (encode_header h) content rest,
      read_full-append 16 (encode_header h) (content ++ rest) (length-encode_header h),
      header_at-encode_header h content f,
      size,
      read_full-append (length content) content rest refl,
    )
