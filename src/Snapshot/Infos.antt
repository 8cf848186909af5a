-- ===== src/Snapshot/Infos.antt =====
-- inetdiag/structs.go: the smaller structs that attributes carry.
use tcp_info.Base.Int64.{ℤ, int64}
use tcp_info.Base.{ℕ}
use tcp_info.Bytes.{Bytes, le_value, field}

-- `MemInfo`.
pub record MemInfo : Type 0 where
  pub rmem : ℕ
  pub wmem : ℕ
  pub fmem : ℕ
  pub tmem : ℕ

abbrev pub sizeof_mem_info : ℕ
sizeof_mem_info = 16

unfoldable pub mem_info_at : Bytes → MemInfo
mem_info_at raw = record {
  rmem = le_value (field 0 4 raw);
  wmem = le_value (field 4 4 raw);
  fmem = le_value (field 8 4 raw);
  tmem = le_value (field 12 4 raw);
}

-- `SocketMemInfo`.
pub record SocketMemInfo : Type 0 where
  pub rmem_alloc : ℕ
  pub rcvbuf : ℕ
  pub wmem_alloc : ℕ
  pub sndbuf : ℕ
  pub fwd_alloc : ℕ
  pub wmem_queued : ℕ
  pub optmem : ℕ
  pub backlog : ℕ
  pub drops : ℕ

abbrev pub sizeof_socket_mem_info : ℕ
sizeof_socket_mem_info = 36

unfoldable pub socket_mem_info_at : Bytes → SocketMemInfo
socket_mem_info_at raw = record {
  rmem_alloc = le_value (field 0 4 raw);
  rcvbuf = le_value (field 4 4 raw);
  wmem_alloc = le_value (field 8 4 raw);
  sndbuf = le_value (field 12 4 raw);
  fwd_alloc = le_value (field 16 4 raw);
  wmem_queued = le_value (field 20 4 raw);
  optmem = le_value (field 24 4 raw);
  backlog = le_value (field 28 4 raw);
  drops = le_value (field 32 4 raw);
}

-- `VegasInfo`.
pub record VegasInfo : Type 0 where
  pub enabled : ℕ
  pub rtt_count : ℕ
  pub rtt : ℕ
  pub min_rtt : ℕ

abbrev pub sizeof_vegas_info : ℕ
sizeof_vegas_info = 16

unfoldable pub vegas_info_at : Bytes → VegasInfo
vegas_info_at raw = record {
  enabled = le_value (field 0 4 raw);
  rtt_count = le_value (field 4 4 raw);
  rtt = le_value (field 8 4 raw);
  min_rtt = le_value (field 12 4 raw);
}

-- `DCTCPInfo`.
pub record DctcpInfo : Type 0 where
  pub enabled : ℕ
  pub ce_state : ℕ
  pub alpha : ℕ
  pub ab_ecn : ℕ
  pub ab_tot : ℕ

abbrev pub sizeof_dctcp_info : ℕ
sizeof_dctcp_info = 16

unfoldable pub dctcp_info_at : Bytes → DctcpInfo
dctcp_info_at raw = record {
  enabled = le_value (field 0 2 raw);
  ce_state = le_value (field 2 2 raw);
  alpha = le_value (field 4 4 raw);
  ab_ecn = le_value (field 8 4 raw);
  ab_tot = le_value (field 12 4 raw);
}

-- `BBRInfo`.
pub record BbrInfo : Type 0 where
  pub bw : ℤ
  pub min_rtt : ℕ
  pub pacing_gain : ℕ
  pub cwnd_gain : ℕ

abbrev pub sizeof_bbr_info : ℕ
sizeof_bbr_info = 24

unfoldable pub bbr_info_at : Bytes → BbrInfo
bbr_info_at raw = record {
  bw = int64 (le_value (field 0 8 raw));
  min_rtt = le_value (field 8 4 raw);
  pacing_gain = le_value (field 12 4 raw);
  cwnd_gain = le_value (field 16 4 raw);
}
