-- ===== src/Snapshot/TcpInfo.antt =====
-- tcp/tcpinfo.go `LinuxTCPInfo`: the kernel's struct tcp_info as the program reads it.
use tcp_info.Base.Int64.{ℤ, int64, int32}
use tcp_info.Base.{ℕ}
use tcp_info.Bytes.{Bytes, le_value, field}

-- `LinuxTCPInfo`.
pub record LinuxTcpInfo : Type 0 where
  pub state : ℕ
  pub ca_state : ℕ
  pub retransmits : ℕ
  pub probes : ℕ
  pub backoff : ℕ
  pub options : ℕ
  pub wscale : ℕ
  pub app_limited : ℕ
  pub rto : ℕ
  pub ato : ℕ
  pub snd_mss : ℕ
  pub rcv_mss : ℕ
  pub unacked : ℕ
  pub sacked : ℕ
  pub lost : ℕ
  pub retrans : ℕ
  pub fackets : ℕ
  pub last_data_sent : ℕ
  pub last_ack_sent : ℕ
  pub last_data_recv : ℕ
  pub last_ack_recv : ℕ
  pub pmtu : ℕ
  pub rcv_ss_thresh : ℕ
  pub rtt : ℕ
  pub rttvar : ℕ
  pub snd_ss_thresh : ℕ
  pub snd_cwnd : ℕ
  pub adv_mss : ℕ
  pub reordering : ℕ
  pub rcv_rtt : ℕ
  pub rcv_space : ℕ
  pub total_retrans : ℕ
  pub pacing_rate : ℤ
  pub max_pacing_rate : ℤ
  pub bytes_acked : ℤ
  pub bytes_received : ℤ
  pub segs_out : ℤ
  pub segs_in : ℤ
  pub notsent_bytes : ℕ
  pub min_rtt : ℕ
  pub data_segs_in : ℕ
  pub data_segs_out : ℕ
  pub delivery_rate : ℤ
  pub busy_time : ℤ
  pub rwnd_limited : ℤ
  pub snd_buf_limited : ℤ
  pub delivered : ℕ
  pub delivered_ce : ℕ
  pub bytes_sent : ℤ
  pub bytes_retrans : ℤ
  pub dsack_dups : ℕ
  pub reord_seen : ℕ
  pub rcv_ooo_pack : ℕ
  pub snd_wnd : ℕ

-- `unsafe.Sizeof(tcp.LinuxTCPInfo{})`.
abbrev pub sizeof_tcp_info : ℕ
sizeof_tcp_info = 232

-- `(*tcp.LinuxTCPInfo)(data)`.
unfoldable pub tcp_info_at : Bytes → LinuxTcpInfo
tcp_info_at raw = record {
  state = le_value (field 0 1 raw);
  ca_state = le_value (field 1 1 raw);
  retransmits = le_value (field 2 1 raw);
  probes = le_value (field 3 1 raw);
  backoff = le_value (field 4 1 raw);
  options = le_value (field 5 1 raw);
  wscale = le_value (field 6 1 raw);
  app_limited = le_value (field 7 1 raw);
  rto = le_value (field 8 4 raw);
  ato = le_value (field 12 4 raw);
  snd_mss = le_value (field 16 4 raw);
  rcv_mss = le_value (field 20 4 raw);
  unacked = le_value (field 24 4 raw);
  sacked = le_value (field 28 4 raw);
  lost = le_value (field 32 4 raw);
  retrans = le_value (field 36 4 raw);
  fackets = le_value (field 40 4 raw);
  last_data_sent = le_value (field 44 4 raw);
  last_ack_sent = le_value (field 48 4 raw);
  last_data_recv = le_value (field 52 4 raw);
  last_ack_recv = le_value (field 56 4 raw);
  pmtu = le_value (field 60 4 raw);
  rcv_ss_thresh = le_value (field 64 4 raw);
  rtt = le_value (field 68 4 raw);
  rttvar = le_value (field 72 4 raw);
  snd_ss_thresh = le_value (field 76 4 raw);
  snd_cwnd = le_value (field 80 4 raw);
  adv_mss = le_value (field 84 4 raw);
  reordering = le_value (field 88 4 raw);
  rcv_rtt = le_value (field 92 4 raw);
  rcv_space = le_value (field 96 4 raw);
  total_retrans = le_value (field 100 4 raw);
  pacing_rate = int64 (le_value (field 104 8 raw));
  max_pacing_rate = int64 (le_value (field 112 8 raw));
  bytes_acked = int64 (le_value (field 120 8 raw));
  bytes_received = int64 (le_value (field 128 8 raw));
  segs_out = int32 (le_value (field 136 4 raw));
  segs_in = int32 (le_value (field 140 4 raw));
  notsent_bytes = le_value (field 144 4 raw);
  min_rtt = le_value (field 148 4 raw);
  data_segs_in = le_value (field 152 4 raw);
  data_segs_out = le_value (field 156 4 raw);
  delivery_rate = int64 (le_value (field 160 8 raw));
  busy_time = int64 (le_value (field 168 8 raw));
  rwnd_limited = int64 (le_value (field 176 8 raw));
  snd_buf_limited = int64 (le_value (field 184 8 raw));
  delivered = le_value (field 192 4 raw);
  delivered_ce = le_value (field 196 4 raw);
  bytes_sent = int64 (le_value (field 200 8 raw));
  bytes_retrans = int64 (le_value (field 208 8 raw));
  dsack_dups = le_value (field 216 4 raw);
  reord_seen = le_value (field 220 4 raw);
  rcv_ooo_pack = le_value (field 224 4 raw);
  snd_wnd = le_value (field 228 4 raw);
}
