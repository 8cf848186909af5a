-- ===== src/Collector/Request.antt =====
-- collector/socket-monitor_linux.go `makeReq`, and the request struct of inetdiag/structs.go.
--
-- `nl.NewNetlinkRequest` is a parameter, the header that it makes of a type and of flags. The payload
-- is what `Serialize` gives of the struct when the request is sent.
use tcp_info.Base.Bits.{
  set_bit, clear_bit, test_bit, test_bit-zero, test_bit-set_bit, test_bit-clear_bit,
}
use tcp_info.Base.{
  ℕ, ◌<◌, ◌≡◌, refl, Bool, not, ◌&&◌, ◌||◌, [], ◌++◌, arith, ltb, ◌==◌, length, replicate,
}
use tcp_info.Bytes.{Bytes, field, le_value, to_le}
use tcp_info.Inetdiag.Layout.{sock_id_bytes}
use tcp_info.Inetdiag.{LinuxSockId}
use tcp_info.Netlink.{NlMsghdr}

-- `ReqV2`.
pub record ReqV2 : Type 0 where
  pub family : ℕ
  pub protocol : ℕ
  pub ext : ℕ
  pub pad : ℕ
  pub states : ℕ
  pub id : LinuxSockId

-- `LinuxSockID{}`.
abbrev pub no_sock_id : LinuxSockId
no_sock_id = record {
  sport = replicate 2 0;
  dport = replicate 2 0;
  src = replicate 16 0;
  dst = replicate 16 0;
  iface = replicate 4 0;
  cookie = replicate 8 0;
}

-- `Serialize`: the struct's bytes.
unfoldable pub serialize_req : ReqV2 → Bytes
serialize_req r =
    to_le 1 r.family
    ++ (to_le 1 r.protocol
        ++ (to_le 1 r.ext ++ (to_le 1 r.pad ++ (to_le 4 r.states ++ sock_id_bytes r.id []))))

-- `NewReqV2`.
abbrev pub new_req_v2 : ℕ → ℕ → ℕ → ReqV2
new_req_v2 family protocol states = record {
  family = family;
  protocol = protocol;
  ext = 0;
  pad = 0;
  states = states;
  id = no_sock_id;
}

-- `tcp.AllFlags`, without SYN_RECV, TIME_WAIT and CLOSE.
abbrev pub all_flags : ℕ
all_flags = 0xfff

abbrev pub asked_states : ℕ
asked_states = clear_bit 7 (clear_bit 6 (clear_bit 3 all_flags))

-- `msg.IDiagExt`, bit by bit: MEMINFO, INFO, VEGASINFO, CONG, TCLASS, TOS, SKMEMINFO, SHUTDOWN.
abbrev pub asked_ext : ℕ
asked_ext =
    set_bit 7 (set_bit 6 (set_bit 4 (set_bit 5 (set_bit 3 (set_bit 2 (set_bit 1 (set_bit 0 0)))))))

-- `NetlinkRequest`, with its payload.
pub record NetlinkRequest : Type 0 where
  pub header : NlMsghdr
  pub payload : Bytes

-- `syscall.NLM_F_DUMP | syscall.NLM_F_REQUEST`, in bits that are already there.
abbrev pub with_dump_request : ℕ → ℕ
with_dump_request flags = set_bit 0 (set_bit 8 (set_bit 9 flags))

-- `makeReq`.
unfoldable pub make_req : (ℕ → ℕ → NlMsghdr) → ℕ → NetlinkRequest
make_req new_netlink_request inet_type =
    let made = new_netlink_request 20 (with_dump_request 0) in
    let msg = record (new_req_v2 inet_type 6 asked_states) { ext = asked_ext } in
    record {
      header = record made { type = 20; flags = with_dump_request made.flags };
      payload = serialize_req msg;
    }

all_flags-bits :
    all_flags
    ≡ set_bit 11 (
        set_bit 10 (
          set_bit 9 (
            set_bit 8 (
              set_bit 7 (
                set_bit 6
                  (set_bit 5 (set_bit 4 (set_bit 3 (set_bit 2 (set_bit 1 (set_bit 0 0)))))))))))
unfolding set_bit
all_flags-bits = refl

all_flags-test_bit : (n : ℕ) → test_bit n all_flags ≡ ltb n 12
all_flags-test_bit n = rw all_flags-bits (grind (arith, test_bit-set_bit, test_bit-zero))

abbrev pub wanted_state : ℕ → Bool
wanted_state n = ltb n 12 && not (n == 3) && not (n == 6) && not (n == 7)

asked_states-test_bit : (n : ℕ) → test_bit n asked_states ≡ wanted_state n
asked_states-test_bit n = grind (arith, test_bit-clear_bit, all_flags-test_bit n)

asked_ext-test_bit : (n : ℕ) → test_bit n asked_ext ≡ ltb n 8
asked_ext-test_bit n = grind (arith, test_bit-set_bit, test_bit-zero)

with_dump_request-test_bit :
    (n flags : ℕ)
    → test_bit n (with_dump_request flags) ≡ (n == 0 || n == 8 || n == 9 || test_bit n flags)
with_dump_request-test_bit n flags = grind (arith, test_bit-set_bit)

-- What the kernel reads of the bytes that `makeReq` sends: inet_diag_req_v2 has the family at 0, the
-- protocol at 1, the extensions at 2 and the states in the four bytes from 4 on.
pub make_req_lem :
    (new_netlink_request : ℕ → ℕ → NlMsghdr) (inet_type n : ℕ)
    → inet_type < 256
    → let r = make_req new_netlink_request inet_type in
      (length r.payload ≡ 56)
      × (le_value (field 0 1 r.payload) ≡ inet_type)
      × (le_value (field 1 1 r.payload) ≡ 6)
      × (test_bit n (le_value (field 2 1 r.payload)) ≡ ltb n 8)
      × (test_bit n (le_value (field 4 4 r.payload)) ≡ wanted_state n)
      × (r.header.type ≡ 20)
      × (test_bit n r.header.flags
          ≡ (n == 0 || n == 8 || n == 9 || test_bit n (new_netlink_request 20 0x301).flags))
unfolding make_req serialize_req to_le le_value set_bit clear_bit
make_req_lem new_netlink_request inet_type n h = (
  refl,
  omega arith,
  refl,
  asked_ext-test_bit n,
  asked_states-test_bit n,
  refl,
  with_dump_request-test_bit n (new_netlink_request 20 0x301).flags,
)
