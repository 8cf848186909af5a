-- ===== src/Inetdiag/Ip.antt =====
-- inetdiag/structs.go `ip`, `isIpv6`, `ipv4`, `ipv6`; what the program calls of Go's `net.IP`; and
-- `isLocal` of netlink/archival-record.go.
use Prim.Native.Nat.{bit_and}
use tcp_info.Base.{
  Bool, false, not, ◌&&◌, ◌||◌, [], ◌∷◌, ◌++◌, Option, none, some, ◌==◌, if◌then◌else◌, length,
  take, drop, get_or, replicate,
}
use tcp_info.Bytes.{Bytes, equal}

-- The loop of `isIpv6`, over the bytes from index 4 on.
unfoldable pub any_nonzero : Bytes → Bool
any_nonzero [] = false
any_nonzero (x ∷ xs) = not (x == 0) || any_nonzero xs

unfoldable pub is_ipv6 : Bytes → Bool
unfolding any_nonzero
is_ipv6 original = any_nonzero (drop 4 original)

-- `net.IPv4(a, b, c, d).To4()`: four bytes.
abbrev pub ipv4 : Bytes → Bytes
ipv4 original = take 4 original

abbrev pub ipv6 : Bytes → Bytes
ipv6 original = original

-- `ip`, also `SrcIP` and `DstIP`.
unfoldable pub ip : Bytes → Bytes
unfolding is_ipv6
ip bytes = if is_ipv6 bytes then ipv6 bytes else ipv4 bytes

-- The twelve bytes in front of an IPv4 address in its 16-byte form.
abbrev pub v4_prefix : Bytes
v4_prefix = replicate 10 0 ++ 0xff ∷ 0xff ∷ []

-- `net.IP.To4`.
unfoldable pub to4 : Bytes → Option Bytes
unfolding equal
to4 a =
    if length a == 4
    then some a
    else if length a == 16 && equal (take 12 a) v4_prefix
    then some (drop 12 a)
    else none

-- `net.IP.Equal`: a 4-byte address equals its 16-byte form.
unfoldable pub ip_equal : Bytes → Bytes → Bool
unfolding equal
ip_equal a b =
    if length a == length b
    then equal a b
    else if length a == 4 && length b == 16
    then equal (take 12 b) v4_prefix && equal a (drop 12 b)
    else if length a == 16 && length b == 4
    then equal (take 12 a) v4_prefix && equal (drop 12 a) b
    else false

-- `net.IPv4zero` is kept in its 16-byte form.
abbrev pub ipv4_zero : Bytes
ipv4_zero = v4_prefix ++ replicate 4 0

abbrev pub ipv6_unspecified : Bytes
ipv6_unspecified = replicate 16 0

abbrev pub ipv6_loopback : Bytes
ipv6_loopback = replicate 15 0 ++ 1 ∷ []

unfoldable pub is_unspecified : Bytes → Bool
unfolding ip_equal
is_unspecified a = ip_equal a ipv4_zero || ip_equal a ipv6_unspecified

unfoldable pub is_loopback : Bytes → Bool
unfolding to4 ip_equal
is_loopback a = elim (to4 a) [ some a4 ↦ get_or a4 0 0 == 127 | none ↦ ip_equal a ipv6_loopback ]

unfoldable pub is_multicast : Bytes → Bool
unfolding to4
is_multicast a = elim (to4 a) [
  | some a4 ↦ bit_and (get_or a4 0 0) 0xf0 == 0xe0
  | none ↦ length a == 16 && get_or a 0 0 == 0xff
]

unfoldable pub is_link_local_unicast : Bytes → Bool
unfolding to4
is_link_local_unicast a = elim (to4 a) [
  | some a4 ↦ get_or a4 0 0 == 169 && get_or a4 1 0 == 254
  | none ↦ length a == 16 && get_or a 0 0 == 0xfe && bit_and (get_or a 1 0) 0xc0 == 0x80
]

-- netlink/archival-record.go `isLocal`.
unfoldable pub is_local : Bytes → Bool
unfolding is_loopback is_link_local_unicast is_multicast is_unspecified
is_local addr =
    is_loopback addr || is_link_local_unicast addr || is_multicast addr || is_unspecified addr
