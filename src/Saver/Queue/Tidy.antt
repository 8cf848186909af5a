-- ===== src/Saver/Queue/Tidy.antt =====
-- saver/saver.go, the tasks on the channels: which writers have been closed, and which may be used.
use tcp_info.Base.{
  ℕ, zero, suc, ◌<◌, ◌≡◌, refl, Bool, true, false, ◌||◌, ◌==◌, Bool-cases, ◌⊎◌, inl, inr, List, [],
  ◌∷◌, ◌++◌, Option, none, some, arith, length,
}
use tcp_info.Netlink.{Metadata}
use tcp_info.Saver.Queue.{send_on, close_task}
use tcp_info.Saver.{Writer, Task}

-- The task is of the writer with this serial number; it closes it.
abbrev pub uses : ℕ → Option Writer → Bool
uses s none = false
uses s (some w) = w.serial == s

abbrev pub closes : ℕ → Task → Bool
closes s t = elim (t.message) [ some m ↦ false | none ↦ uses s t.writer ]

abbrev pub closed_in : ℕ → List Task → Bool
closed_in s [] = false
closed_in s (t ∷ ts) = closes s t || closed_in s ts

abbrev pub closed : ℕ → List (List Task) → Bool
closed s [] = false
closed s (c ∷ cs) = closed_in s c || closed s cs

-- No task of the writer.
abbrev pub Spares : ℕ → List Task → Type 0
Spares s [] = Unit {0}
Spares s (t ∷ ts) = (uses s t.writer ≡ false) × Spares s ts

-- Behind the task that closes a writer there is no other task of it.
abbrev pub IsTidy : List Task → Type 0
IsTidy [] = Unit {0}
IsTidy (t ∷ ts) = ((s : ℕ) → closes s t ≡ true → Spares s ts) × IsTidy ts

abbrev pub AllTidy : List (List Task) → Type 0
AllTidy [] = Unit {0}
AllTidy (c ∷ cs) = IsTidy c × AllTidy cs

Spares-snoc :
    (s : ℕ) (ts : List Task) (t : Task)
    → Spares s ts
    → uses s t.writer ≡ false
    → Spares s (ts ++ t ∷ [])
Spares-snoc s [] t h no_use = (no_use, tt)
Spares-snoc s (u ∷ ts) t h no_use = (h.0, Spares-snoc s ts t h.1 no_use)

-- The writer of the last task has not been closed.
IsTidy-snoc :
    (ts : List Task) (t : Task)
    → ((s : ℕ) → uses s t.writer ≡ true → closed_in s ts ≡ false)
    → IsTidy ts
    → IsTidy (ts ++ t ∷ [])
IsTidy-snoc [] t free h = (λ s c. tt, tt)
IsTidy-snoc (u ∷ ts) t free h = (
  λ s c. Spares-snoc s ts t (h.0 s c) (elim (Bool-cases (uses s t.writer)) [
    | inl used ↦ absurd (ground (arith, free s used, c))
    | inr unused ↦ unused
  ]),
  IsTidy-snoc ts t (λ s used. ground (arith, free s used)) h.1,
)

pub AllTidy-send_on :
    (q : ℕ) (t : Task) (chans : List (List Task))
    → ((s : ℕ) → uses s t.writer ≡ true → closed s chans ≡ false)
    → AllTidy chans
    → AllTidy (send_on q t chans)
unfolding send_on
AllTidy-send_on q t [] free h = tt
AllTidy-send_on zero t (c ∷ cs) free h =
    (IsTidy-snoc c t (λ s used. ground (arith, free s used)) h.0, h.1)
AllTidy-send_on (suc q) t (c ∷ cs) free h =
    (h.0, AllTidy-send_on q t cs (λ s used. ground (arith, free s used)) h.1)

closed_in-snoc :
    (s : ℕ) (ts : List Task) (t : Task)
    → closes s t ≡ false
    → closed_in s (ts ++ t ∷ []) ≡ closed_in s ts
closed_in-snoc s [] t h = ground (arith, h)
closed_in-snoc s (u ∷ ts) t h = ground (arith, closed_in-snoc s ts t h)

pub closed-send_on :
    (s q : ℕ) (t : Task) (chans : List (List Task))
    → closes s t ≡ false
    → closed s (send_on q t chans) ≡ closed s chans
unfolding send_on
closed-send_on s q t [] h = refl
closed-send_on s zero t (c ∷ cs) h = ground (arith, closed_in-snoc s c t h)
closed-send_on s (suc q) t (c ∷ cs) h = ground (arith, closed-send_on s q t cs h)

closed_in_snoc :
    (s : ℕ) (ts : List Task) (t : Task)
    → closed_in s (ts ++ t ∷ []) ≡ (closed_in s ts || closes s t)
closed_in_snoc s [] t = ground arith
closed_in_snoc s (u ∷ ts) t = ground (arith, closed_in_snoc s ts t)

-- What is closed stays closed.
pub closed_mono :
    (s q : ℕ) (t : Task) (chans : List (List Task))
    → closed s chans ≡ true
    → closed s (send_on q t chans) ≡ true
unfolding send_on
closed_mono s q t [] h = h
closed_mono s zero t (c ∷ cs) h = ground (arith, closed_in_snoc s c t, h)
closed_mono s (suc q) t (c ∷ cs) h = elim (Bool-cases (closed_in s c)) [
  | inl now ↦ ground (arith, now)
  | inr later ↦ ground (arith, later, closed_mono s q t cs (ground (arith, h, later)))
]

pub closed_close :
    (q : ℕ) (w : Writer) (chans : List (List Task))
    → q < length chans
    → closed w.serial (send_on q (close_task w) chans) ≡ true
unfolding send_on
closed_close q w [] h = absurd (omega (arith, h))
closed_close zero w (c ∷ cs) h = ground (arith, closed_in_snoc w.serial c (close_task w))
closed_close (suc q) w (c ∷ cs) h =
    let rest = closed_close q w cs (omega (arith, h)) in
    elim (Bool-cases (closed_in w.serial c)) [
      | inl now ↦ ground (arith, now)
      | inr later ↦ ground (arith, later, rest)
    ]

-- A writer has been closed, or a cookie has it open.
abbrev pub IsOwned : List (List Task) → (ℕ → Option Writer) → Writer → Type 0
IsOwned chans f w = (closed w.serial chans ≡ true) ⊎ ((k : ℕ) × (f k ≡ some w))

abbrev pub AllOwned : List (List Task) → (ℕ → Option Writer) → List (Writer × Metadata) → Type 0
AllOwned chans f [] = Unit {0}
AllOwned chans f ((w, header) ∷ rest) = IsOwned chans f w × AllOwned chans f rest

pub AllOwned-mono :
    (chans chans' : List (List Task)) (f g : ℕ → Option Writer) (opened : List (Writer × Metadata))
    → ((w : Writer) → IsOwned chans f w → IsOwned chans' g w)
    → AllOwned chans f opened
    → AllOwned chans' g opened
AllOwned-mono chans chans' f g [] h o = tt
AllOwned-mono chans chans' f g ((w, header) ∷ rest) h o =
    (h w o.0, AllOwned-mono chans chans' f g rest h o.1)

pub AllOwned-snoc :
    (chans : List (List Task)) (f : ℕ → Option Writer) (opened : List (Writer × Metadata))
    (w : Writer) (header : Metadata)
    → AllOwned chans f opened
    → IsOwned chans f w
    → AllOwned chans f (opened ++ (w, header) ∷ [])
AllOwned-snoc chans f [] w header o h = (h, tt)
AllOwned-snoc chans f (e ∷ rest) w header o h = (o.0, AllOwned-snoc chans f rest w header o.1 h)
