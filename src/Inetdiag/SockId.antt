-- ===== src/Inetdiag/SockId.antt =====
-- inetdiag/structs.go: the accessors of LinuxSockID, `GetSockID` and `CookieUint64`, with Go's
-- `net.IP.String`.
use tcp_info.Base.{
  ℕ, zero, suc, ◌+◌, ◌-◌, ◌*◌, ◌/◌, ◌%◌, Bool, true, false, List, [], ◌∷◌, ◌++◌, some, none, ◌==◌,
  ltb, if◌then◌else◌, get_or,
}
use tcp_info.Base.Int64.{ℤ, int64, uint64}
use tcp_info.Bytes.{Bytes, le_value, be_value}
use tcp_info.Inetdiag.Ip.{ip, to4}
use tcp_info.Inetdiag.{LinuxSockId}

abbrev pub cookie_of : LinuxSockId → ℕ
cookie_of id = le_value id.cookie

abbrev pub sport_of : LinuxSockId → ℕ
sport_of id = be_value id.sport

abbrev pub dport_of : LinuxSockId → ℕ
dport_of id = be_value id.dport

abbrev pub interface_of : LinuxSockId → ℕ
interface_of id = be_value id.iface

abbrev pub src_ip : LinuxSockId → Bytes
src_ip id = ip id.src

abbrev pub dst_ip : LinuxSockId → Bytes
dst_ip id = ip id.dst

-- A byte in decimal, and a digit and a 16-bit group in hexadecimal, with no leading zeros.
decimal : ℕ → Bytes
decimal n =
    if ltb n 10
    then (b'0' + n) ∷ []
    else if ltb n 100
    then (b'0' + n / 10) ∷ (b'0' + n % 10) ∷ []
    else (b'0' + n / 100) ∷ (b'0' + n / 10 % 10) ∷ (b'0' + n % 10) ∷ []

hex_digit : ℕ → ℕ
hex_digit d = if ltb d 10 then b'0' + d else b'a' + (d - 10)

hex : ℕ → Bytes
unfolding hex_digit
hex n =
    if ltb n 16
    then hex_digit n ∷ []
    else if ltb n 256
    then hex_digit (n / 16) ∷ hex_digit (n % 16) ∷ []
    else if ltb n 4096
    then hex_digit (n / 256) ∷ hex_digit (n / 16 % 16) ∷ hex_digit (n % 16) ∷ []
    else hex_digit (n / 4096)
      ∷ hex_digit (n / 256 % 16)
      ∷ hex_digit (n / 16 % 16)
      ∷ hex_digit (n % 16)
      ∷ []

groups : Bytes → List ℕ
groups (hi ∷ lo ∷ rest) = (256 * hi + lo) ∷ groups rest
groups _ = []

-- The zero groups in front.
zero_run : List ℕ → ℕ
zero_run [] = 0
zero_run (g ∷ gs) = if g == 0 then suc (zero_run gs) else 0

-- The first longest run of zero groups: its index and its length.
longest : ℕ → ℕ → ℕ → List ℕ → ℕ × ℕ
unfolding zero_run
longest i at len [] = (at, len)
longest i at len (g ∷ gs) =
    let r = zero_run (g ∷ gs) in
    longest (suc i) (if ltb len r then i else at) (if ltb len r then r else len) gs

-- The groups from index `i` on; `skip` of them belong to the run that "::" has just replaced, and
-- `bare` says that no colon stands in front of the next one.
groups_string : ℕ × ℕ → ℕ → ℕ → Bool → List ℕ → Bytes
unfolding hex
groups_string run i skip bare [] = []
groups_string run i (suc skip) bare (g ∷ gs) = groups_string run (suc i) skip bare gs
groups_string (at, len) i zero bare (g ∷ gs) =
    let shown = hex g ++ groups_string (at, len) (suc i) 0 false gs in
    let gap = b':' ∷ b':' ∷ groups_string (at, len) (suc i) (len - 1) true gs in
    if ltb 1 len
    then (if i == at then gap else (if bare then shown else b':' ∷ shown))
    else (if bare then shown else b':' ∷ shown)

-- `net.IP.String` of a 4-byte or 16-byte address.
unfoldable pub ip_string : Bytes → Bytes
unfolding decimal groups longest groups_string to4
ip_string a = elim (to4 a) [
  | some a4 ↦
      decimal (get_or a4 0 0)
      ++ (b'.'
          ∷ (decimal (get_or a4 1 0)
              ++ (b'.' ∷ (decimal (get_or a4 2 0) ++ (b'.' ∷ decimal (get_or a4 3 0))))))
  | none ↦ groups_string (longest 0 0 0 (groups a)) 0 0 true (groups a)
]

-- `SockID`.
pub record SockId : Type 0 where
  pub sport : ℕ
  pub dport : ℕ
  pub src_ip : Bytes
  pub dst_ip : Bytes
  pub interface : ℕ
  pub cookie : ℤ

-- `GetSockID`.
unfoldable pub get_sock_id : LinuxSockId → SockId
get_sock_id id = record {
  src_ip = ip_string (src_ip id);
  sport = sport_of id;
  dst_ip = ip_string (dst_ip id);
  dport = dport_of id;
  interface = interface_of id;
  cookie = int64 (cookie_of id);
}

-- `SockID.CookieUint64`.
abbrev pub cookie_uint64 : SockId → ℕ
cookie_uint64 sid = uint64 sid.cookie
