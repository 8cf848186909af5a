-- ===== src/Saver/Files/Loop.antt =====
-- saver/saver.go, the whole of the saver with its marshallers: what reaches the files.
use tcp_info.Base.Assoc.{lookup}
use tcp_info.Base.{
  ℕ, zero, suc, subst, ◌≡◌, refl, ap, ◌∙◌, sym, List, [], ◌∷◌, ◌++◌, Option, none, some, ok, length,
  replicate, inl, inr,
}
use tcp_info.Bytes.{Bytes}
use tcp_info.Cache.Keys.{key-parse}
use tcp_info.Inetdiag.Anon.{hide, anonymize-hide}
use tcp_info.Inetdiag.Layout.{parse_long}
use tcp_info.Inetdiag.SockId.{cookie_of}
use tcp_info.Inetdiag.{InetDiagMsg, parse, view}
use tcp_info.Netlink.{ArchivalRecord, MessageBlock, idm_bytes}
use tcp_info.Saver.Files.Queued.{queue-IsFiled, end_conn-IsFiled}
use tcp_info.Saver.Files.{uuid_of, Filed, AllFiled, IsFiled}
use tcp_info.Saver.Marshal.{
  Output, wrote, closed, newline, All, All-append, marshal_message, marshal_task, run_marshaller,
}
use tcp_info.Saver.Rounds.Keeps.{Same, message_saver_loop-keeps}
use tcp_info.Saver.Rounds.Loop.{AllBlocks}
use tcp_info.Saver.Rounds.{message_saver_loop}
use tcp_info.Saver.{Os, Writer, Task, Saver, new_saver}

-- An output that gives no address away and stands in the file of its connection.
pub data InPlace (os : Os) (anon : Bytes → Bytes) (json : ArchivalRecord → Bytes)
    : Output → Type 0 where
  line_end : {w : Writer} → InPlace os anon json (wrote w newline)
  file_end : {w : Writer} → InPlace os anon json (closed w)
  hidden_record :
      {w : Writer} (r : ArchivalRecord) (m : InetDiagMsg)
      → parse (idm_bytes r) ≡ ok (hide anon m)
      → w.file.uuid ≡ uuid_of os (cookie_of m.id)
      → InPlace os anon json (wrote w (json r))

-- A marshaller does all of its tasks, and all that it writes is in place.
abbrev pub Marshals :
    (os : Os) (anon : Bytes → Bytes) (json : ArchivalRecord → Bytes) → List Task → Type 0
Marshals os anon json tasks =
    (out : List Output) × (run_marshaller anon json tasks ≡ ok out) × All (InPlace os anon json) out

module _ (os : Os) where
  still-IsFiled : (a b : Saver) → Same a b → IsFiled os a → IsFiled os b
  still-IsFiled a b s h = record {
    chans = subst (AllFiled os) (sym s.same_chans) h.chans;
    conns = λ k conn at. h.conns k conn (ap (lookup k) (sym s.same_conns) ∙ at);
  }

  new_saver-IsFiled : (n : ℕ) → IsFiled os (new_saver n)
  unfolding lookup
  new_saver-IsFiled n = record { chans = idle n; conns = λ k conn at. absurd (cc at) }
    where
      idle : (n : ℕ) → AllFiled os (replicate n [])
      idle zero = tt
      idle (suc n) = (tt, idle n)

  pub message_saver_loop-IsFiled :
      (n : ℕ) (blocks : List MessageBlock)
      → AllBlocks blocks
      → (svr : Saver) × (message_saver_loop os blocks (new_saver (suc n)) ≡ ok svr) × IsFiled os svr
  message_saver_loop-IsFiled n blocks h =
      let (svr, done, filed, _, _) =
        message_saver_loop-keeps os (IsFiled os) still-IsFiled (queue-IsFiled os)
          (end_conn-IsFiled os) n blocks h (new_saver-IsFiled (suc n)) in
      (svr, done, filed)

module _ (os : Os) (anon : Bytes → Bytes) (json : ArchivalRecord → Bytes)
    (keeps : (a : Bytes) → length (anon a) ≡ length a) where
  marshal_message-InPlace :
      (msg : ArchivalRecord) (w : Writer)
      → Filed os (some msg) (some w)
      → All (InPlace os anon json) (marshal_message anon json msg w)
  unfolding marshal_message
  marshal_message-InPlace msg w filed = elim (anonymize-hide anon keeps (idm_bytes msg)) [
    | inl (long, known, (raw', done, same, parsed)) ↦
        let m = view (idm_bytes msg) in
        let named = filed (cookie_of m.id) (key-parse msg m (parse_long (idm_bytes msg) long)) in
        rw (done, marshal_message)
          (hidden_record (record msg { raw_idm = some raw' }) m parsed named, (line_end, tt))
    | inr (inl (long, n6, n4, failed)) ↦ rw (failed, marshal_message) tt
    | inr (inr (less, failed)) ↦ rw (failed, marshal_message) tt
  ]

  marshal_task-InPlace :
      (m : Option ArchivalRecord) (w : Option Writer)
      → Filed os m w
      → (out : List Output) × (marshal_task anon json m w ≡ ok out) × All (InPlace os anon json) out
  unfolding marshal_task
  marshal_task-InPlace m none filed = elim filed [ ]
  marshal_task-InPlace none (some w) filed = (closed w ∷ [], refl, (file_end, tt))
  marshal_task-InPlace (some m) (some w) filed =
      (marshal_message anon json m w, refl, marshal_message-InPlace m w filed)

  run_marshaller-Marshals :
      (tasks : List Task)
      → All (λ (t : Task). Filed os t.message t.writer) tasks
      → Marshals os anon json tasks
  unfolding run_marshaller
  run_marshaller-Marshals [] h = ([], refl, tt)
  run_marshaller-Marshals (t ∷ tasks) h =
      let (first, now, in_place) = marshal_task-InPlace t.message t.writer h.0 in
      let (out, then, rest) = run_marshaller-Marshals tasks h.1 in
      (first ++ out, rw (run_marshaller, now, then) refl, All-append _ first out in_place rest)

  AllFiled-Marshals :
      (chans : List (List Task)) → AllFiled os chans → All (Marshals os anon json) chans
  AllFiled-Marshals [] h = tt
  AllFiled-Marshals (tasks ∷ chans) h =
      (run_marshaller-Marshals tasks h.0, AllFiled-Marshals chans h.1)

  -- From a new saver with a marshaller at least, over any sequence of blocks as the kernel sends them
  -- and through the close, the loop ends. Each marshaller then does every task on its channel. What
  -- it writes is newlines and records: each record has both addresses anonymized, and stands in a
  -- file whose name has the UUID of that record's own cookie.
  pub message_saver_loop-Marshals :
      (n : ℕ) (blocks : List MessageBlock)
      → AllBlocks blocks
      → (svr : Saver) × (message_saver_loop os blocks (new_saver (suc n)) ≡ ok svr)
        × All (Marshals os anon json) svr.marshal_chans
  message_saver_loop-Marshals n blocks h =
      let (svr, done, filed) = message_saver_loop-IsFiled os n blocks h in
      (svr, done, AllFiled-Marshals svr.marshal_chans filed.chans)
