-- ===== src/Saver/Marshal.antt =====
-- saver/saver.go `runMarshaller`: one goroutine, as the list of its tasks in the order of its channel.
--
-- The anonymizer (github.com/m-lab/go/anonymize) and the JSON text of a record are parameters. The
-- errors of `Write` and `Close` are dropped by the source, and are not part of the model.
pub mod ReadBack
use tcp_info.Base.{
  ◌≡◌, refl, List, [], ◌∷◌, ◌++◌, Option, none, some, Result, ok, err, panic, ◌>>=◌, >>=-eq-ok,
  ok-injective, subst, length, inl, inr,
}
use tcp_info.Bytes.{Bytes}
use tcp_info.Inetdiag.Anon.{anonymize, hide, anonymize-hide}
use tcp_info.Inetdiag.{InetDiagMsg, parse}
use tcp_info.Netlink.{ArchivalRecord, idm_bytes}
use tcp_info.Saver.{Task, Writer}

-- What reaches a file.
pub data Output : Type 0 where
  wrote : Writer → Bytes → Output
  closed : Writer → Output

abbrev pub newline : Bytes
newline = b'\n' ∷ []

module _ (anon : Bytes → Bytes) (json : ArchivalRecord → Bytes) where
  -- A message: anonymized in place and written, or dropped if that fails.
  unfoldable pub marshal_message : ArchivalRecord → Writer → List Output
  marshal_message msg w = elim (anonymize anon (idm_bytes msg)) [
    | ok raw ↦ wrote w (json (record msg { raw_idm = some raw })) ∷ wrote w newline ∷ []
    | err e ↦ []
    | panic ↦ []
  ]

  -- One task. `task.Writer.Close()` on nil panics; a message with a nil writer is `log.Fatal`.
  unfoldable pub marshal_task : Option ArchivalRecord → Option Writer → Result (List Output)
  marshal_task none (some w) = ok (closed w ∷ [])
  marshal_task none none = panic
  marshal_task (some msg) none = panic
  marshal_task (some msg) (some w) = ok (marshal_message msg w)

  -- `runMarshaller`.
  unfoldable pub run_marshaller : List Task → Result (List Output)
  run_marshaller [] = ok []
  run_marshaller (task ∷ tasks) = do
    first ← marshal_task task.message task.writer
    rest ← run_marshaller tasks
    ok (first ++ rest)

  -- All marshallers, each on its channel, up to the end of the last.
  unfoldable pub run_marshallers : List (List Task) → Result (List (List Output))
  run_marshallers [] = ok []
  run_marshallers (tasks ∷ chans) = do
    out ← run_marshaller tasks
    outs ← run_marshallers chans
    ok (out ∷ outs)

-- An output that gives no address away: a newline, the end of a file, or the text of a record whose
-- message is some message with its addresses hidden.
pub data IsAnonymous (anon : Bytes → Bytes) (json : ArchivalRecord → Bytes) : Output → Type 0 where
  line_end : {w : Writer} → IsAnonymous anon json (wrote w newline)
  file_end : {w : Writer} → IsAnonymous anon json (closed w)
  hidden_record :
      {w : Writer} (r : ArchivalRecord) (m : InetDiagMsg)
      → parse (idm_bytes r) ≡ ok (hide anon m)
      → IsAnonymous anon json (wrote w (json r))

abbrev pub All {ℓ κ} : {A : Type ℓ} → (A → Type κ) → List A → Type κ
All Q (o ∷ os) = Q o × All Q os
All Q [] = Unit

abbrev pub HasWriter : Option Writer → Type 0
HasWriter none = ⊥
HasWriter (some w) = Unit {0}

pub All-append {ℓ κ} :
    {A : Type ℓ} (Q : A → Type κ) (front behind : List A)
    → All Q front
    → All Q behind
    → All Q (front ++ behind)
All-append Q [] behind h k = k
All-append Q (o ∷ front) behind h k = (h.0, All-append Q front behind h.1 k)

module _ (anon : Bytes → Bytes) (json : ArchivalRecord → Bytes) where
  marshal_task_total :
      (msg : Option ArchivalRecord) (w : Option Writer)
      → HasWriter w
      → (out : List Output) × (marshal_task anon json msg w ≡ ok out)
  unfolding marshal_task
  marshal_task_total none (some w) h = (closed w ∷ [], refl)
  marshal_task_total (some msg) (some w) h = (marshal_message anon json msg w, refl)
  marshal_task_total msg none h = elim h [ ]

  pub run_marshaller_total :
      (tasks : List Task)
      → All (λ task. HasWriter task.writer) tasks
      → (out : List Output) × (run_marshaller anon json tasks ≡ ok out)
  unfolding run_marshaller
  run_marshaller_total [] h = ([], refl)
  run_marshaller_total (task ∷ tasks) h =
      let (first, e) = marshal_task_total task.message task.writer h.0 in
      let (rest, f) = run_marshaller_total tasks h.1 in (first ++ rest, rw (e, f))

  pub run_marshallers_total :
      (chans : List (List Task))
      → All (λ tasks. All (λ task. HasWriter task.writer) tasks) chans
      → (outs : List (List Output)) × (run_marshallers anon json chans ≡ ok outs)
  unfolding run_marshallers
  run_marshallers_total [] h = ([], refl)
  run_marshallers_total (tasks ∷ chans) h =
      let (out, e) = run_marshaller_total tasks h.0 in
      let (outs, f) = run_marshallers_total chans h.1 in (out ∷ outs, rw (e, f) refl)

module _ (anon : Bytes → Bytes) (json : ArchivalRecord → Bytes)
    (keeps : (a : Bytes) → length (anon a) ≡ length a) where
  marshal_message-IsAnonymous :
      (msg : ArchivalRecord) (w : Writer)
      → All (IsAnonymous anon json) (marshal_message anon json msg w)
  unfolding marshal_message
  marshal_message-IsAnonymous msg w = elim (anonymize-hide anon keeps (idm_bytes msg)) [
    | inl (long, known, (raw', done, same, parsed)) ↦
        rw (done, marshal_message)
          (hidden_record (record msg { raw_idm = some raw' }) _ parsed, (line_end, tt))
    | inr (inl (long, n6, n4, failed)) ↦ rw (failed, marshal_message) tt
    | inr (inr (less, failed)) ↦ rw (failed, marshal_message) tt
  ]

  marshal_task-IsAnonymous :
      (msg : Option ArchivalRecord) (w : Option Writer) (out : List Output)
      → marshal_task anon json msg w ≡ ok out
      → All (IsAnonymous anon json) out
  unfolding marshal_task
  marshal_task-IsAnonymous none (some w) out h =
      subst (All (IsAnonymous anon json)) (ok-injective h) (file_end, tt)
  marshal_task-IsAnonymous none none out h = cc h
  marshal_task-IsAnonymous (some msg) none out h = cc h
  marshal_task-IsAnonymous (some msg) (some w) out h =
      subst (All (IsAnonymous anon json)) (ok-injective h) (marshal_message-IsAnonymous msg w)

  IsAnonymous-done :
      (tasks : List Task) (out : List Output)
      → run_marshaller anon json tasks ≡ ok out
      → All (IsAnonymous anon json) out
  unfolding run_marshaller
  IsAnonymous-done [] out h = subst (All (IsAnonymous anon json)) (ok-injective h) tt
  IsAnonymous-done (task ∷ tasks) out h =
      let (first, e, h1) = >>=-eq-ok (marshal_task anon json task.message task.writer) _ h in
      let (rest, f, last) = >>=-eq-ok (run_marshaller anon json tasks) _ h1 in
      subst (All (IsAnonymous anon json)) (ok-injective last) (
        All-append _ first rest (marshal_task-IsAnonymous task.message task.writer first e)
          (IsAnonymous-done tasks rest f))

  -- A marshaller whose tasks all have a writer does all of them, and each record that it writes has
  -- both addresses anonymized.
  run_marshaller-IsAnonymous :
      (tasks : List Task)
      → All (λ task. HasWriter task.writer) tasks
      → (out : List Output) × (run_marshaller anon json tasks ≡ ok out)
        × All (IsAnonymous anon json) out
  run_marshaller-IsAnonymous tasks h =
      let (out, done) = run_marshaller_total anon json tasks h in
      (out, done, IsAnonymous-done tasks out done)
