-- ===== src/Collector.antt =====
-- collector/: the requests to the kernel, its replies, and the loop that hands them to the saver.
--
-- The socket (github.com/vishvananda/netlink/nl) is a parameter: what `Subscribe`, `Send` and `GetPid`
-- come to, and what `Receive` gives, call by call. A list of batches that ends without a message
-- that ends the dump is a kernel that does not answer: the call does not return.
pub mod Request
pub mod Reply
pub mod Run
use tcp_info.Base.{
  ℕ, ◌/◌, ◌%◌, Bool, true, false, List, [], ◌∷◌, ◌++◌, map, Option, none, some, Error, Result, ok,
  err, panic, bad_sequence, bad_pid, bad_msg_data, ◌>>=◌, ltb, ◌==◌, not, if◌then◌else◌, length,
  take,
}
use tcp_info.Bytes.{visible, le_value}
use tcp_info.Netlink.{NetlinkMessage, MessageBlock}

abbrev pub nlmsg_error : ℕ
nlmsg_error = 2

abbrev pub nlmsg_done : ℕ
nlmsg_done = 3

-- `m.Header.Flags & unix.NLM_F_MULTI`, the bit of value 2, is not 0.
abbrev pub is_multi : NetlinkMessage → Bool
is_multi m = m.header.flags / 2 % 2 == 1

-- What is left of `processSingleMessage` for a message that ends nothing by its type.
abbrev pub keep_message : NetlinkMessage → Result (Option NetlinkMessage × Bool)
keep_message m = ok (some m, is_multi m)

-- `processSingleMessage`: the message to keep, and whether to go on. An error number that is not 0
-- is logged only.
unfoldable pub process_single_message :
    NetlinkMessage → ℕ → ℕ → Result (Option NetlinkMessage × Bool)
process_single_message m seq pid =
    if not (m.header.seq == seq)
    then err bad_sequence
    else if not (m.header.pid == pid)
    then err bad_pid
    else if m.header.type == nlmsg_done
    then ok (none, false)
    else if m.header.type == nlmsg_error
    then (if ltb (length (visible m.body)) 4
        then err bad_msg_data
        else if le_value (take 4 (visible m.body)) == 0
        then ok (none, false)
        else keep_message m)
    else keep_message m

-- `append(res, m)`, if there is a message.
abbrev pub append_message : List NetlinkMessage → Option NetlinkMessage → List NetlinkMessage
append_message res none = res
append_message res (some m) = res ++ m ∷ []

-- What the inner loop comes to: it goes on to the next batch, or `OneType` returns.
pub data Scan : Type 0 where
  more : List NetlinkMessage → Scan
  returned : List NetlinkMessage → Option Error → Scan

-- The loop over one batch.
unfoldable pub scan_batch : ℕ → ℕ → List NetlinkMessage → List NetlinkMessage → Scan
scan_batch seq pid res [] = more res
scan_batch seq pid res (m ∷ msgs) = elim (process_single_message m seq pid) [
  | ok (kept, goes_on) ↦
      let rest = scan_batch seq pid (append_message res kept) msgs in
      if goes_on then rest else returned (append_message res kept) none
  | err e ↦ returned res (some e)
  | panic ↦ returned res none
]

-- The loop over what `Receive` gives; `none` while it is waited for.
unfoldable pub receive_all :
    ℕ
    → ℕ
    → List NetlinkMessage
    → List (Result (List NetlinkMessage))
    → Option (List NetlinkMessage × Option Error)
receive_all seq pid res [] = none
receive_all seq pid res (err e ∷ batches) = some ([], some e)
receive_all seq pid res (panic ∷ batches) = none
receive_all seq pid res (ok msgs ∷ batches) = elim (scan_batch seq pid res msgs) [
  | more res' ↦ receive_all seq pid res' batches
  | returned res' e ↦ some (res', e)
]

-- The netlink socket of one call: what subscribing and sending come to, the process's id, the
-- sequence number of the request, and the replies.
pub record Socket : Type 0 where
  pub subscribed : Option Error
  pub sent : Option Error
  pub pid : Result ℕ
  pub seq : ℕ
  pub replies : List (Result (List NetlinkMessage))

-- `OneType`, on a socket.
unfoldable pub one_type : Socket → Option (List NetlinkMessage × Option Error)
one_type s = elim (s.subscribed) [
  | some e ↦ some ([], some e)
  | none ↦ elim (s.sent) [
    | some e ↦ some ([], some e)
    | none ↦ elim (s.pid) [
      | ok pid ↦ receive_all s.seq pid [] s.replies
      | err e ↦ some ([], some e)
      | panic ↦ none
    ]
  ]
]
