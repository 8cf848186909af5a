-- ===== src/Collector/Reply.antt =====
-- What `OneType` makes of a reply, in whatever batches it comes.
use tcp_info.Base.{
  ℕ, ◌≤◌, ◌≡◌, ◌≢◌, sym, ap, ◌∙◌, ◌⊎◌, inl, inr, ℕ_discrete, true, false, List, [], ◌∷◌, ◌++◌, map,
  Option, none, some, Error, Result, ok, err, bad_sequence, bad_pid, arith, length, take,
}
use mathlib.Core.List.{append_assoc, append-nil}
use tcp_info.Bytes.{visible, le_value}
use tcp_info.Collector.{
  is_multi, process_single_message, append_message, more, returned, scan_batch, receive_all, Socket,
  one_type,
}
use tcp_info.Netlink.{NetlinkMessage}

-- A message of the dump: of this request, neither an error nor the end, one of several.
pub record IsPart (seq pid : ℕ) (m : NetlinkMessage) : Type 0 where
  pub part_seq : m.header.seq ≡ seq
  pub part_pid : m.header.pid ≡ pid
  pub no_error : m.header.type ≢ 2
  pub no_done : m.header.type ≢ 3
  pub multi : is_multi m ≡ true

abbrev pub AllParts : ℕ → ℕ → List NetlinkMessage → Type 0
AllParts seq pid [] = Unit {0}
AllParts seq pid (m ∷ msgs) = IsPart seq pid m × AllParts seq pid msgs

abbrev pub AllBatches : ℕ → ℕ → List (List NetlinkMessage) → Type 0
AllBatches seq pid [] = Unit {0}
AllBatches seq pid (msgs ∷ batches) = AllParts seq pid msgs × AllBatches seq pid batches

abbrev pub joined : List (List NetlinkMessage) → List NetlinkMessage
joined [] = []
joined (msgs ∷ batches) = msgs ++ joined batches

part_kept :
    (seq pid : ℕ) (m : NetlinkMessage)
    → IsPart seq pid m
    → process_single_message m seq pid ≡ ok (some m, true)
unfolding process_single_message
part_kept seq pid m h = ground arith

scan_batch-cons :
    (seq pid : ℕ) (res msgs : List NetlinkMessage) (m : NetlinkMessage)
    → IsPart seq pid m
    → scan_batch seq pid res (m ∷ msgs) ≡ scan_batch seq pid (res ++ m ∷ []) msgs
unfolding scan_batch
scan_batch-cons seq pid res msgs m h = rw (scan_batch, part_kept seq pid m h)

scan_batch-append :
    (seq pid : ℕ) (res good rest : List NetlinkMessage)
    → AllParts seq pid good
    → scan_batch seq pid res (good ++ rest) ≡ scan_batch seq pid (res ++ good) rest
scan_batch-append seq pid res [] rest h = rw (append-nil res)
scan_batch-append seq pid res (m ∷ good) rest h =
    scan_batch-cons seq pid res (good ++ rest) m h.0
    ∙ scan_batch-append seq pid (res ++ m ∷ []) good rest h.1
    ∙ rw (append_assoc res (m ∷ []) good)

scan_batch-parts :
    (seq pid : ℕ) (res good : List NetlinkMessage)
    → AllParts seq pid good
    → scan_batch seq pid res good ≡ more (res ++ good)
unfolding scan_batch
scan_batch-parts seq pid res good h =
    ap (scan_batch seq pid res) (sym (append-nil good)) ∙ scan_batch-append seq pid res good [] h

receive_all-append :
    (seq pid : ℕ) (res : List NetlinkMessage) (batches : List (List NetlinkMessage))
    (replies : List (Result (List NetlinkMessage)))
    → AllBatches seq pid batches
    → receive_all seq pid res (map ok batches ++ replies)
      ≡ receive_all seq pid (res ++ joined batches) replies
unfolding receive_all
receive_all-append seq pid res [] replies h = rw (append-nil res)
receive_all-append seq pid res (msgs ∷ batches) replies h =
    rw (receive_all, scan_batch-parts seq pid res msgs h.0)
      (receive_all-append seq pid (res ++ msgs) batches replies h.1
        ∙ rw (append_assoc res msgs (joined batches)))

-- A socket that works, and whose replies are some batches, then one with the message `m` behind
-- `front`.
pub record Answers (s : Socket) (p : ℕ) (batches : List (List NetlinkMessage))
    (front : List NetlinkMessage) (m : NetlinkMessage) : Type 0 where
  pub no_subscribe_error : s.subscribed ≡ none
  pub no_send_error : s.sent ≡ none
  pub has_pid : s.pid ≡ ok p
  pub behind : List NetlinkMessage
  pub later : List (Result (List NetlinkMessage))
  pub are : s.replies ≡ map ok batches ++ ok (front ++ m ∷ behind) ∷ later
  pub all_batches : AllBatches s.seq p batches
  pub all_front : AllParts s.seq p front

scan_batch-stop :
    (seq pid : ℕ) (res behind : List NetlinkMessage) (m : NetlinkMessage)
    (kept : Option NetlinkMessage)
    → process_single_message m seq pid ≡ ok (kept, false)
    → scan_batch seq pid res (m ∷ behind) ≡ returned (append_message res kept) none
unfolding scan_batch
scan_batch-stop seq pid res behind m kept h = rw (scan_batch, h)

scan_batch-err :
    (seq pid : ℕ) (res behind : List NetlinkMessage) (m : NetlinkMessage) (e : Error)
    → process_single_message m seq pid ≡ err e
    → scan_batch seq pid res (m ∷ behind) ≡ returned res (some e)
unfolding scan_batch
scan_batch-err seq pid res behind m e h = rw (scan_batch, h)

module _ (s : Socket) (p : ℕ) (batches : List (List NetlinkMessage)) (front : List NetlinkMessage)
    (m : NetlinkMessage) (a : Answers s p batches front m) where
  parts : List NetlinkMessage
  parts = joined batches ++ front

  one_type-parts :
      (res : List NetlinkMessage) (e : Option Error)
      → scan_batch s.seq p parts (m ∷ a.behind) ≡ returned res e
      → one_type s ≡ some (res, e)
  unfolding one_type receive_all parts
  one_type-parts res e h =
      rw (one_type, a.no_subscribe_error, a.no_send_error, a.has_pid, a.are)
        (receive_all-append s.seq p [] batches (ok (front ++ m ∷ a.behind) ∷ a.later) a.all_batches
          ∙ rw (
            receive_all,
            scan_batch-append s.seq p (joined batches) front (m ∷ a.behind) a.all_front,
            h,
          ))

  -- `OneType` gives every message of the dump, in order and whatever batches they come in, when the
  -- kernel ends it with NLMSG_DONE or with an error number of 0.
  pub one_type_dump :
      m.header.seq ≡ s.seq
      → m.header.pid ≡ p
      → (m.header.type ≡ 3)
        ⊎ ((m.header.type ≡ 2)
            × (4 ≤ length (visible m.body))
            × (le_value (take 4 (visible m.body)) ≡ 0))
      → one_type s ≡ some (joined batches ++ front, none)
  unfolding parts
  one_type_dump same_seq same_pid ends = one_type-parts (joined batches ++ front) none (
      scan_batch-stop s.seq p (joined batches ++ front) a.behind m none
        (unfold process_single_message in ground (arith, same_seq, same_pid, ends)))

  -- A message of another request or of another process ends the call with its error, and with the
  -- messages before it.
  pub one_type_foreign :
      (m.header.seq ≢ s.seq) ⊎ (m.header.pid ≢ p)
      → ((m.header.seq ≢ s.seq) × (one_type s ≡ some (joined batches ++ front, some bad_sequence)))
        ⊎ ((m.header.seq ≡ s.seq) × (one_type s ≡ some (joined batches ++ front, some bad_pid)))
  unfolding parts
  one_type_foreign differs = elim (ℕ_discrete m.header.seq s.seq) [
    | no other ↦ inl (
      other,
      one_type-parts (joined batches ++ front) (some bad_sequence) (
          scan_batch-err s.seq p (joined batches ++ front) a.behind m bad_sequence
            (unfold process_single_message in ground (arith, other))),
    )
    | yes same ↦ inr (
      same,
      one_type-parts (joined batches ++ front) (some bad_pid) (
          scan_batch-err s.seq p (joined batches ++ front) a.behind m bad_pid
            (unfold process_single_message in ground (arith, same, differs))),
    )
  ]

  -- An error that the kernel reports for the request, with a number that is not 0, is no error of
  -- `OneType`: the error's message is given as if it were a socket's, and the error is nil.
  pub one_type_kernel_error :
      m.header.seq ≡ s.seq
      → m.header.pid ≡ p
      → m.header.type ≡ 2
      → is_multi m ≡ false
      → 4 ≤ length (visible m.body)
      → le_value (take 4 (visible m.body)) ≢ 0
      → one_type s ≡ some ((joined batches ++ front) ++ m ∷ [], none)
  unfolding parts
  one_type_kernel_error same_seq same_pid ty single long fails =
      one_type-parts ((joined batches ++ front) ++ m ∷ []) none (
        scan_batch-stop s.seq p (joined batches ++ front) a.behind m (some m) (
          unfold process_single_message in
          ground (arith, same_seq, same_pid, ty, single, long, fails)))
