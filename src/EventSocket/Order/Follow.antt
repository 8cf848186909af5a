-- ===== src/EventSocket/Order/Follow.antt =====
-- eventsocket/server.go: the lines of some events, and what a write to all clients does to theirs.
use tcp_info.Base.{
  ℕ, zero, suc, ◌≤◌, ◌≡◌, refl, sym, ap, ◌∙◌, inl, inr, Bool, Bool-cases, ◌==◌, List, [], ◌∷◌, ◌++◌,
  length, length-append, drop, Option, none, some, Option-cases, arith,
}
use mathlib.Core.List.{append-nil}
use tcp_info.Bytes.{Bytes}
use tcp_info.EventSocket.Goroutines.{event_cap, without, write_lines}
use tcp_info.EventSocket.{FlowEvent, Client, Server, Notifier, holding}

-- The event that the notifier holds.
abbrev pub held : Notifier → List FlowEvent
held (holding (some event)) = event ∷ []
held _ = []

pub drop-append {ℓ} :
    {A : Type ℓ} (n : ℕ) (xs ys : List A) → n ≤ length xs → drop n (xs ++ ys) ≡ drop n xs ++ ys
drop-append zero xs ys h = refl
drop-append (suc n) [] ys h = absurd (omega (arith, h))
drop-append (suc n) (x ∷ xs) ys h = drop-append n xs ys (omega (arith, h))

pub drop-length {ℓ} : {A : Type ℓ} (xs : List A) → drop (length xs) xs ≡ []
drop-length [] = refl
drop-length (x ∷ xs) = drop-length xs

module _ (marshal : FlowEvent → Option Bytes) where
  -- The lines of some events: one for each that `json.Marshal` takes.
  abbrev pub lines : List FlowEvent → List Bytes
  lines [] = []
  lines (e ∷ es) = let rest = lines es in elim (marshal e) [ some text ↦ text ∷ rest | none ↦ rest ]

  -- A client that no write has failed on has the lines of the events handled since it was added.
  abbrev pub Follows : List FlowEvent → Client → Type 0
  Follows handled c =
      (c.since ≤ length handled) × (c.errors ≡ 0 → c.received ≡ lines (drop c.since handled))

  abbrev pub AllFollow : List FlowEvent → List Client → Type 0
  AllFollow handled [] = Unit {0}
  AllFollow handled (c ∷ cs) = Follows handled c × AllFollow handled cs

  -- Every event sent is handled, held or in the channel, in this order.
  pub record Ordered (sent handled holds event_c : List FlowEvent) (clients : List Client)
      : Type 0 where
    pub accounted : sent ≡ handled ++ holds ++ event_c
    pub capped : length event_c ≤ event_cap
    pub follow : AllFollow handled clients

  abbrev pub IsOrdered : Server → Type 0
  IsOrdered s = Ordered s.sent s.handled (held s.notifier) s.event_c s.clients

  lines-append : (xs ys : List FlowEvent) → lines (xs ++ ys) ≡ lines xs ++ lines ys
  lines-append [] ys = refl
  lines-append (x ∷ xs) ys = elim (Option-cases (marshal x)) [
    | inl bad ↦ rw (lines, bad, lines-append xs ys) refl
    | inr (text, is) ↦ rw (lines, is, lines-append xs ys) refl
  ]

  pub AllFollow-without :
      (handled : List FlowEvent) (conn : ℕ) (cs : List Client)
      → AllFollow handled cs
      → AllFollow handled (without conn cs)
  AllFollow-without handled conn [] h = tt
  AllFollow-without handled conn (c ∷ cs) h = elim (Bool-cases (c.conn == conn)) [
    | inl same ↦ rw same (AllFollow-without handled conn cs h.1)
    | inr other ↦ rw other (h.0, AllFollow-without handled conn cs h.1)
  ]

  pub AllFollow-at :
      (handled : List FlowEvent) (front back : List Client) (c : Client)
      → AllFollow handled (front ++ c ∷ back)
      → Follows handled c
  AllFollow-at handled [] back c h = h.0
  AllFollow-at handled (d ∷ front) back c h = AllFollow-at handled front back c h.1

  Follows-more :
      (handled : List FlowEvent) (e : FlowEvent) (c : Client) (written : List Bytes)
      → lines (e ∷ []) ≡ written
      → Follows handled c
      → Follows (handled ++ e ∷ []) (record c { received = c.received ++ written })
  Follows-more handled e c written is h = (
    omega (arith, h.0, length-append handled (e ∷ [])),
    λ good.
        ap (λ l. l ++ written) (h.1 good)
        ∙ ap (λ l. lines (drop c.since handled) ++ l) (sym is)
        ∙ sym (lines-append (drop c.since handled) (e ∷ []))
        ∙ ap lines (sym (drop-append c.since handled (e ∷ []) h.0)),
  )

  pub AllFollow-write_lines :
      (handled : List FlowEvent) (e : FlowEvent) (text : Bytes) (fails : ℕ → Bool)
      (cs : List Client)
      → marshal e ≡ some text
      → AllFollow handled cs
      → AllFollow (handled ++ e ∷ []) (write_lines fails text cs)
  AllFollow-write_lines handled e text fails [] is h = tt
  AllFollow-write_lines handled e text fails (c ∷ cs) is h = elim (Bool-cases (fails c.conn)) [
    | inl bad ↦ rw bad (
      (
        omega (arith, h.0.0, length-append handled (e ∷ [])),
        λ none_failed. absurd (omega (arith, none_failed)),
      ),
      AllFollow-write_lines handled e text fails cs is h.1,
    )
    | inr good ↦ rw good (
      Follows-more handled e c (text ∷ []) (rw (lines, is) refl) h.0,
      AllFollow-write_lines handled e text fails cs is h.1,
    )
  ]

  pub AllFollow-skip :
      (handled : List FlowEvent) (e : FlowEvent) (cs : List Client)
      → marshal e ≡ none
      → AllFollow handled cs
      → AllFollow (handled ++ e ∷ []) cs
  AllFollow-skip handled e [] is h = tt
  AllFollow-skip handled e (c ∷ cs) is h = (
    (
      omega (arith, h.0.0, length-append handled (e ∷ [])),
      λ good.
          sym (append-nil c.received)
          ∙ (Follows-more handled e c [] (rw (lines, is) refl) h.0).1 good,
    ),
    AllFollow-skip handled e cs is h.1,
  )
