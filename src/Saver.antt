-- ===== src/Saver.antt =====
-- saver/saver.go: the state of the saver. The operations are in the children.
--
-- Channels, files and events are kept as what was sent, in order: a marshaller's channel is the list
-- of its tasks, and `opened` lists the writers with the header that each file begins with. What the
-- operating system decides (the clock, whether a directory or a file can be made, the order in which
-- Go walks a map) is the parameter `Os`, read at a counter that each reading advances.
pub mod Queue
pub mod Swap
pub mod Rounds
pub mod Marshal
pub mod Archive
pub mod Files
use tcp_info.Base.{ℕ, ◌+◌, ◌-◌, ◌%◌, ◌^◌, Bool, List, [], Option, none, replicate}
use tcp_info.Bytes.{Bytes}
use tcp_info.Cache.{Cache, Records, new_cache}
use tcp_info.EventSocket.{FlowEvent}
use tcp_info.Inetdiag.SockId.{SockId}
use tcp_info.Netlink.{ArchivalRecord, Metadata}

pub record Os : Type 0 where
  -- `time.Now()`
  pub now : ℕ → ℕ
  -- `os.MkdirAll` and `zstd.NewWriter` succeed
  pub mkdir_works : ℕ → Bool
  pub create_works : ℕ → Bool
  -- the order of `range` over a map
  pub order : ℕ → Records → Records
  pub key_order : ℕ → List ℕ → List ℕ
  -- `uuid.FromCookie`
  pub from_cookie : ℕ → Bytes

-- The name "%s/%s.%05d.jsonl.zst" of an output file; the date is the day that "2006/01/02" shows.
pub record FileName : Type 0 where
  pub date : ℕ
  pub uuid : Bytes
  pub sequence : ℕ

-- An open `io.WriteCloser`. `serial` tells apart two writers of one file name.
pub record Writer : Type 0 where
  pub file : FileName
  pub serial : ℕ

-- `Task`: no message means that the writer is to be closed.
pub record Task : Type 0 where
  pub message : Option ArchivalRecord
  pub writer : Option Writer

-- `Connection`.
pub record Connection : Type 0 where
  pub inode : ℕ
  pub id : SockId
  pub uid : ℕ
  pub slice : Bytes
  pub start_time : ℕ
  pub sequence : ℕ
  pub expiration : ℕ
  pub writer : Option Writer

-- `stats`: four counters.
pub record Stats : Type 0 where
  pub total_count : ℕ
  pub new_count : ℕ
  pub diff_count : ℕ
  pub expired_count : ℕ

-- `TcpStats`.
pub record TcpStats : Type 0 where
  pub sent : ℕ
  pub received : ℕ

-- `Saver`.
pub record Saver : Type 0 where
  pub marshal_chans : List (List Task)
  pub connections : List (ℕ × Connection)
  pub closing_stats : List (ℕ × TcpStats)
  pub closing_totals : TcpStats
  pub cache : Cache
  pub stats : Stats
  pub events : List FlowEvent
  pub opened : List (Writer × Metadata)
  pub tick : ℕ

-- `NewSaver`, with the number of marshallers.
abbrev pub new_saver : ℕ → Saver
new_saver num_marshaller = record {
  marshal_chans = replicate num_marshaller [];
  connections = [];
  closing_stats = [];
  closing_totals = record { sent = 0; received = 0 };
  cache = new_cache;
  stats = record { total_count = 0; new_count = 0; diff_count = 0; expired_count = 0 };
  events = [];
  opened = [];
  tick = 0;
}

-- `uint64` addition and subtraction; what is subtracted is a `uint64`.
unfoldable pub add64 : ℕ → ℕ → ℕ
add64 a b = (a + b) % 2 ^ 64

unfoldable pub sub64 : ℕ → ℕ → ℕ
sub64 a b = (a + 2 ^ 64 - b % 2 ^ 64) % 2 ^ 64

-- The day of a time; ten minutes.
abbrev pub day : ℕ
day = 86_400_000_000_000

abbrev pub ten_minutes : ℕ
ten_minutes = 600_000_000_000
