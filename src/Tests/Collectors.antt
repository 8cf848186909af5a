-- ===== src/Tests/Collectors.antt =====
-- The collector, and the program as a whole.
use tcp_info.Base.{
  ℕ, ◌*◌, ◌≤◌, ◌≡◌, ◌≢◌, refl, ◌⊎◌, inl, inr, false, ◌||◌, List, [], ◌∷◌, ◌++◌, none, some, ok,
  bad_sequence, bad_pid, socket_failed, arith, ltb, ◌==◌, length, subst, replicate,
}
use tcp_info.Base.Bits.{test_bit}
use tcp_info.Bytes.{Bytes, slice_of, le_value, field}
use tcp_info.Collector.Reply.{
  IsPart, Answers, one_type_dump, one_type_foreign, one_type_kernel_error,
}
use tcp_info.Collector.Request.{make_req, make_req_lem, wanted_state}
use tcp_info.Collector.Run.{World, Progress, collect_default_namespace, run, run_ends, Answered}
use tcp_info.Collector.{Socket, one_type, receive_all, scan_batch, process_single_message}
use tcp_info.Netlink.{NlMsghdr, NetlinkMessage, MessageBlock}
use tcp_info.Netlink.Record.Formed.{AllHandled}
use tcp_info.Pipeline.{FormedRounds, pipeline, pipeline_ends}
use tcp_info.Saver.{Saver}
use tcp_info.Saver.Marshal.{Output}
use tcp_info.Netlink.{ArchivalRecord}
use tcp_info.Tests.Data.{zeros, calm, hex_idm, message}
use tcp_info.Tests.Rounds.{info_attr, info_message-IsFormed}

abbrev info_message : NetlinkMessage
info_message = message (hex_idm ++ info_attr)

-- A message with no flags, of a type and with a body.
abbrev ending : ℕ → ℕ → Bytes → NetlinkMessage
ending seq type b = record {
  header = record { len = 16; type = type; flags = 0; seq = seq; pid = 7 };
  body = slice_of b;
}

abbrev answering : NetlinkMessage → Socket
answering m = record {
  subscribed = none;
  sent = none;
  pid = ok 7;
  seq = 1;
  replies = ok (info_message ∷ []) ∷ ok (info_message ∷ m ∷ info_message ∷ []) ∷ [];
}

info_message-IsPart : IsPart 1 7 info_message
info_message-IsPart = record {
  part_seq = refl;
  part_pid = refl;
  no_error = λ h. omega (arith, h);
  no_done = λ h. omega (arith, h);
  multi = refl;
}

answering-Answers :
    (m : NetlinkMessage) → Answers (answering m) 7 ((info_message ∷ []) ∷ []) (info_message ∷ []) m
answering-Answers m = record {
  no_subscribe_error = refl;
  no_send_error = refl;
  has_pid = refl;
  behind = info_message ∷ [];
  later = [];
  are = refl;
  all_batches = ((info_message-IsPart, tt), tt);
  all_front = (info_message-IsPart, tt);
}

abbrev two : List NetlinkMessage
two = info_message ∷ info_message ∷ []

one_type_dump_example : one_type (answering (ending 1 3 [])) ≡ some (two, none)
one_type_dump_example =
    one_type_dump (answering (ending 1 3 [])) 7 ((info_message ∷ []) ∷ []) (info_message ∷ [])
      (ending 1 3 []) (answering-Answers (ending 1 3 [])) refl refl (inl refl)

abbrev foreign : Socket
foreign = answering (ending 2 20 [])

one_type_foreign_example :
    (((ending 2 20 []).header.seq ≢ foreign.seq)
      × (one_type foreign ≡ some (two, some bad_sequence)))
    ⊎ (((ending 2 20 []).header.seq ≡ foreign.seq) × (one_type foreign ≡ some (two, some bad_pid)))
one_type_foreign_example =
    one_type_foreign foreign 7 ((info_message ∷ []) ∷ []) (info_message ∷ []) (ending 2 20 [])
      (answering-Answers (ending 2 20 [])) (inl λ h. omega (arith, h))

-- -1 (EPERM), in two's complement.
abbrev denied : NetlinkMessage
denied = ending 1 2 (replicate 4 255)

one_type_kernel_error_example : one_type (answering denied) ≡ some (two ++ denied ∷ [], none)
one_type_kernel_error_example =
    one_type_kernel_error (answering denied) 7 ((info_message ∷ []) ∷ []) (info_message ∷ []) denied
      (answering-Answers denied) refl refl refl refl (omega arith)
      (λ h. unfold le_value in omega (arith, h))

abbrev plain_request : ℕ → ℕ → NlMsghdr
plain_request type flags = record { len = 16; type = type; flags = flags; seq = 1; pid = 0 }

make_req_lem_example :
    (length (make_req plain_request 10).payload ≡ 56)
    × (le_value (field 0 1 (make_req plain_request 10).payload) ≡ 10)
    × (le_value (field 1 1 (make_req plain_request 10).payload) ≡ 6)
    × (test_bit 2 (le_value (field 2 1 (make_req plain_request 10).payload)) ≡ ltb 2 8)
    × (test_bit 2 (le_value (field 4 4 (make_req plain_request 10).payload)) ≡ wanted_state 2)
    × ((make_req plain_request 10).header.type ≡ 20)
    × (test_bit 2 (make_req plain_request 10).header.flags
        ≡ (2 == 0 || 2 == 8 || 2 == 9 || test_bit 2 0x301))
make_req_lem_example = make_req_lem plain_request 10 2 (omega arith)

-- IPv6 answers; for IPv4 the request cannot be sent.
abbrev half : World
half = record {
  inet6 = λ n. answering (ending 1 3 []);
  inet = λ n. record {
    subscribed = none;
    sent = some socket_failed;
    pid = ok 7;
    seq = 2;
    replies = [];
  };
  time6 = λ n. 1_000_000_000 * n;
  time4 = λ n. 1_000_000_000 * n;
  cancelled = λ n. false;
}

abbrev half_round : ℕ → MessageBlock × ℕ
half_round n = (
  record {
    v4_time = 1_000_000_000 * n;
    v4_messages = [];
    v6_time = 1_000_000_000 * n;
    v6_messages = some info_message ∷ some info_message ∷ [];
  },
  2,
)

half-collects : (n : ℕ) → collect_default_namespace half n ≡ some (half_round n)
unfolding collect_default_namespace one_type receive_all scan_batch process_single_message
half-collects n = refl

half-Answered : Answered half 3
half-Answered n h = (half_round n, half-collects n)

run_ends_example :
    (q : Progress) × (run 4 half 2 ≡ some q) × (q.loops ≤ 3) × (length q.sent ≡ q.loops)
run_ends_example = run_ends half 2 3 half-Answered (inl (omega arith, omega arith))

half-FormedRounds : FormedRounds half
half-FormedRounds n round h =
    let same : half_round n ≡ round = ground (arith, half-collects n, h) in
    subst (λ (r : MessageBlock × ℕ). AllHandled r.0.v4_messages × AllHandled r.0.v6_messages) same
      (tt, (inr info_message-IsFormed, (inr info_message-IsFormed, tt)))

abbrev no_text : ArchivalRecord → Bytes
no_text r = []

pipeline_ends_example :
    (done : Saver × List (List Output)) × (pipeline 4 half calm zeros no_text 2 ≡ some (ok done))
pipeline_ends_example =
    pipeline_ends half calm zeros no_text 2 3 half-Answered half-FormedRounds
      (inl (omega arith, omega arith))
