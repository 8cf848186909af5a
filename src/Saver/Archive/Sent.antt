-- ===== src/Saver/Archive/Sent.antt =====
-- saver/saver.go: the messages of one connection on its channel.
use tcp_info.Base.{
  ℕ, zero, suc, ◌%◌, ◌<◌, ◌≡◌, ◌≢◌, refl, sym, ap, ◌∙◌, false, List, [], ◌∷◌, ◌++◌, Option, none,
  some, arith, length, get_or, if◌then◌else◌, ℕ_discrete,
}
use mathlib.Core.List.{append-nil, append_assoc}
use native.Mathlib.Nat.{mod-lt}
use tcp_info.Cache.Rounds.{key, has_key}
use tcp_info.Netlink.{ArchivalRecord}
use tcp_info.Saver.Queue.Frame.{length-send_on}
use tcp_info.Saver.Queue.{send_on, close_task, message_task}
use tcp_info.Saver.{Writer, Task}

-- The record of a task, if it has the key.
abbrev pub message_of : ℕ → Task → List ArchivalRecord
message_of k t = elim (t.message) [ some m ↦ if has_key k m then m ∷ [] else [] | none ↦ [] ]

abbrev pub messages : ℕ → List Task → List ArchivalRecord
messages k [] = []
messages k (t ∷ ts) = message_of k t ++ messages k ts

-- What was sent for a cookie: the channel has the index `cookie % len(svr.MarshalChans)`.
abbrev pub sent : ℕ → List (List Task) → List ArchivalRecord
sent k chans = messages k (get_or chans (k % length chans) [])

messages-snoc :
    (k : ℕ) (ts : List Task) (t : Task)
    → messages k (ts ++ t ∷ []) ≡ messages k ts ++ message_of k t
messages-snoc k [] t = append-nil (message_of k t)
messages-snoc k (u ∷ ts) t =
    ap (λ l. message_of k u ++ l) (messages-snoc k ts t)
    ∙ sym (append_assoc (message_of k u) (messages k ts) (message_of k t))

get_or-send_on :
    (q : ℕ) (t : Task) (cs : List (List Task))
    → q < length cs
    → get_or (send_on q t cs) q [] ≡ get_or cs q [] ++ t ∷ []
unfolding send_on
get_or-send_on q t [] h = absurd (omega (arith, h))
get_or-send_on zero t (c ∷ cs) h = refl
get_or-send_on (suc q) t (c ∷ cs) h = get_or-send_on q t cs (omega (arith, h))

get_or-send_on_other :
    (i q : ℕ) (t : Task) (cs : List (List Task))
    → i ≢ q
    → get_or (send_on q t cs) i [] ≡ get_or cs i []
unfolding send_on
get_or-send_on_other i q t [] h = refl
get_or-send_on_other zero zero t (c ∷ cs) h = absurd (h refl)
get_or-send_on_other (suc i) zero t (c ∷ cs) h = refl
get_or-send_on_other zero (suc q) t (c ∷ cs) h = refl
get_or-send_on_other (suc i) (suc q) t (c ∷ cs) h =
    get_or-send_on_other i q t cs (λ same. h (ap suc same))

-- A task for the channel of the cookie, or for another.
sent-same :
    (k : ℕ) (t : Task) (cs : List (List Task))
    → 0 < length cs
    → sent k (send_on (k % length cs) t cs) ≡ sent k cs ++ message_of k t
sent-same k t cs h =
    ap (λ n. messages k (get_or (send_on (k % length cs) t cs) (k % n) []))
      (length-send_on (k % length cs) t cs)
    ∙ ap (messages k) (get_or-send_on (k % length cs) t cs (mod-lt k h))
    ∙ messages-snoc k (get_or cs (k % length cs) []) t

sent-other :
    (k q : ℕ) (t : Task) (cs : List (List Task))
    → k % length cs ≢ q
    → sent k (send_on q t cs) ≡ sent k cs
sent-other k q t cs h =
    ap (λ n. messages k (get_or (send_on q t cs) (k % n) [])) (length-send_on q t cs)
    ∙ ap (messages k) (get_or-send_on_other (k % length cs) q t cs h)

-- A task that has nothing of the cookie.
sent-without :
    (k q : ℕ) (t : Task) (cs : List (List Task))
    → 0 < length cs
    → message_of k t ≡ []
    → sent k (send_on q t cs) ≡ sent k cs
sent-without k q t cs h empty = elim (ℕ_discrete (k % length cs) q) [
  | no other ↦ sent-other k q t cs other
  | yes same ↦
      ap (λ i. sent k (send_on i t cs)) (sym same)
      ∙ sent-same k t cs h
      ∙ ap (λ l. sent k cs ++ l) empty
      ∙ append-nil (sent k cs)
]

pub sent-close :
    (k q : ℕ) (w : Writer) (cs : List (List Task))
    → 0 < length cs
    → sent k (send_on q (close_task w) cs) ≡ sent k cs
sent-close k q w cs h = sent-without k q (close_task w) cs h refl

-- A message goes to the channel of its own cookie.
pub sent-message :
    (k j : ℕ) (m : ArchivalRecord) (w : Option Writer) (cs : List (List Task))
    → 0 < length cs
    → key m ≡ some j
    → sent k (send_on (j % length cs) (message_task m w) cs)
      ≡ sent k cs ++ (if has_key k m then m ∷ [] else [])
sent-message k j m w cs h is = elim (ℕ_discrete j k) [
  | yes same ↦
      ap (λ i. sent k (send_on (i % length cs) (message_task m w) cs)) same
      ∙ sent-same k (message_task m w) cs h
  | no differs ↦
      let lacks : has_key k m ≡ false = ground (arith, is, differs) in
      sent-without k (j % length cs) (message_task m w) cs h (rw lacks refl)
      ∙ rw lacks (sym (append-nil (sent k cs)))
]
