-- ===== src/Saver/Files/Home.antt =====
-- saver/saver.go `queue` and `endConn`: a file has one header, and its tasks on one channel only.
use tcp_info.Base.Assoc.{lookup, lookup-insert}
use tcp_info.Base.{
  refl, ◌⊎◌, ℕ, zero, suc, ◌%◌, ◌<◌, ◌≤◌, ◌≡◌, sym, ap, ◌∙◌, subst, true, false, ◌==◌, Bool-cases,
  inl, inr, List, [], ◌∷◌, ◌++◌, some, arith, length,
}
use mathlib.Core.List.{append-nil}
use tcp_info.Netlink.{Metadata}
use tcp_info.Saver.Marshal.ReadBack.{header_record, header_records}
use tcp_info.Saver.Queue.Frame.{length-send_on}
use tcp_info.Saver.Queue.Tidy.{uses, Spares}
use tcp_info.Saver.Queue.{keep, send_on, ticked}
use tcp_info.Saver.{Writer, Os, Task, Connection, Saver}

-- No task of the writer on any channel; on any channel but one.
abbrev pub AllSpare : ℕ → List (List Task) → Type 0
AllSpare s [] = Unit {0}
AllSpare s (c ∷ cs) = Spares s c × AllSpare s cs

abbrev pub OnlyOn : ℕ → ℕ → List (List Task) → Type 0
OnlyOn s q [] = Unit {0}
OnlyOn s zero (c ∷ cs) = AllSpare s cs
OnlyOn s (suc q) (c ∷ cs) = Spares s c × OnlyOn s q cs

pub AllSpare-OnlyOn : (s q : ℕ) (cs : List (List Task)) → AllSpare s cs → OnlyOn s q cs
AllSpare-OnlyOn s q [] h = tt
AllSpare-OnlyOn s zero (c ∷ cs) h = h.1
AllSpare-OnlyOn s (suc q) (c ∷ cs) h = (h.0, AllSpare-OnlyOn s q cs h.1)

Spares-snoc :
    (s : ℕ) (ts : List Task) (t : Task)
    → Spares s ts
    → uses s t.writer ≡ false
    → Spares s (ts ++ t ∷ [])
Spares-snoc s [] t h unused = (unused, tt)
Spares-snoc s (u ∷ ts) t h unused = (h.0, Spares-snoc s ts t h.1 unused)

AllSpare-send_on :
    (s q : ℕ) (t : Task) (cs : List (List Task))
    → uses s t.writer ≡ false
    → AllSpare s cs
    → AllSpare s (send_on q t cs)
unfolding send_on
AllSpare-send_on s q t [] unused h = tt
AllSpare-send_on s zero t (c ∷ cs) unused h = (Spares-snoc s c t h.0 unused, h.1)
AllSpare-send_on s (suc q) t (c ∷ cs) unused h = (h.0, AllSpare-send_on s q t cs unused h.1)

OnlyOn-send_other :
    (s q p : ℕ) (t : Task) (cs : List (List Task))
    → uses s t.writer ≡ false
    → OnlyOn s q cs
    → OnlyOn s q (send_on p t cs)
unfolding send_on
OnlyOn-send_other s q p t [] unused h = tt
OnlyOn-send_other s zero zero t (c ∷ cs) unused h = h
OnlyOn-send_other s zero (suc p) t (c ∷ cs) unused h = AllSpare-send_on s p t cs unused h
OnlyOn-send_other s (suc q) zero t (c ∷ cs) unused h = (Spares-snoc s c t h.0 unused, h.1)
OnlyOn-send_other s (suc q) (suc p) t (c ∷ cs) unused h =
    (h.0, OnlyOn-send_other s q p t cs unused h.1)

OnlyOn-send_same :
    (s q : ℕ) (t : Task) (cs : List (List Task)) → OnlyOn s q cs → OnlyOn s q (send_on q t cs)
unfolding send_on
OnlyOn-send_same s q t [] h = tt
OnlyOn-send_same s zero t (c ∷ cs) h = h
OnlyOn-send_same s (suc q) t (c ∷ cs) h = (h.0, OnlyOn-send_same s q t cs h.1)

OnlyOn-send_on :
    (s q p : ℕ) (t : Task) (cs : List (List Task))
    → (uses s t.writer ≡ true → p ≡ q)
    → OnlyOn s q cs
    → OnlyOn s q (send_on p t cs)
OnlyOn-send_on s q p t cs at h = elim (Bool-cases (uses s t.writer)) [
  | inl used ↦
      subst (λ (i : ℕ). OnlyOn s q (send_on i t cs)) (sym (at used)) (OnlyOn-send_same s q t cs h)
  | inr unused ↦ OnlyOn-send_other s q p t cs unused h
]

-- The file has its header, once.
abbrev pub Begun : ℕ → List (Writer × Metadata) → Type 0
Begun s opened = (m : Metadata) × (header_records s opened ≡ header_record m ∷ [])

header_records-append :
    (s : ℕ) (a b : List (Writer × Metadata))
    → header_records s (a ++ b) ≡ header_records s a ++ header_records s b
header_records-append s [] b = refl
header_records-append s ((w, header) ∷ a) b = elim (Bool-cases (w.serial == s)) [
  | inl this ↦ rw (this) (ap (◌∷◌ (header_record header)) (header_records-append s a b))
  | inr other ↦ rw (other) (header_records-append s a b)
]

pub header_records-first :
    (s : ℕ) (opened : List (Writer × Metadata)) (w : Writer) (header : Metadata)
    → header_records s opened ≡ []
    → (w.serial == s) ≡ true
    → Begun s (opened ++ (w, header) ∷ [])
header_records-first s opened w header none_yet this =
    (header, header_records-append s opened ((w, header) ∷ []) ∙ rw (none_yet, this) refl)

pub header_records-other :
    (s : ℕ) (opened : List (Writer × Metadata)) (w : Writer) (header : Metadata)
    → (w.serial == s) ≡ false
    → header_records s (opened ++ (w, header) ∷ []) ≡ header_records s opened
header_records-other s opened w header other =
    header_records-append s opened ((w, header) ∷ [])
    ∙ rw (other) (append-nil (header_records s opened))

module _ (os : Os) (s n : ℕ) where
  -- The file with the serial number s has its tasks on the channel q, and while the number has not
  -- come it has none.
  pub record Homed (q : ℕ) (svr : Saver) : Type 0 where
    pub count : length svr.marshal_chans ≡ n
    pub only : OnlyOn s q svr.marshal_chans
    pub home :
        (k : ℕ) (conn : Connection)
        → lookup k svr.connections ≡ some conn
        → uses s conn.writer ≡ true
        → (k % n ≡ q) × (s < svr.tick) × Begun s svr.opened
    pub begun : AllSpare s svr.marshal_chans ⊎ Begun s svr.opened
    pub fresh : svr.tick ≤ s → AllSpare s svr.marshal_chans × (header_records s svr.opened ≡ [])

  abbrev pub HasHome : Saver → Type 0
  HasHome svr = (q : ℕ) × Homed q svr

  -- A saver and the connection of a cookie that is taken out of it.
  abbrev pub With : ℕ → Saver → Connection → Type 0
  With cookie svr conn =
      (q : ℕ) × Homed q svr
      × (uses s conn.writer ≡ true → (cookie % n ≡ q) × (s < svr.tick) × Begun s svr.opened)

  pub ticked-Homed : (q : ℕ) (svr : Saver) → Homed q svr → Homed q (ticked svr)
  ticked-Homed q svr h = record {
    count = h.count;
    only = h.only;
    home = λ k conn at used.
        let (here, past, headed) = h.home k conn at used in (here, omega (arith, past), headed);
    begun = h.begun;
    fresh = λ early. h.fresh (omega (arith, early));
  }

  pub keep-Homed :
      (q cookie : ℕ) (svr : Saver) (conn : Connection)
      → Homed q svr
      → (uses s conn.writer ≡ true → (cookie % n ≡ q) × (s < svr.tick) × Begun s svr.opened)
      → Homed q (keep cookie conn svr)
  keep-Homed q cookie svr conn h mine = record {
    count = h.count;
    only = h.only;
    home = λ k c found used. elim (Bool-cases (cookie == k)) [
      | inl same ↦
          let at : cookie ≡ k = ground (arith, same) in
          let is : conn ≡ c =
            ground (arith, lookup-insert cookie k conn svr.connections, same, found) in
          subst (λ (i : ℕ). (i % n ≡ q) × (s < svr.tick) × Begun s svr.opened) at
            (mine (ap (λ (d : Connection). uses s d.writer) is ∙ used))
      | inr other ↦
          h.home k c (ground (arith, lookup-insert cookie k conn svr.connections, other, found))
            used
    ];
    begun = h.begun;
    fresh = h.fresh;
  }

  pub send-Homed :
      (q p : ℕ) (t : Task) (svr : Saver)
      → Homed q svr
      → (uses s t.writer ≡ true → (p ≡ q) × (s < svr.tick) × Begun s svr.opened)
      → Homed q (record svr { marshal_chans = send_on p t svr.marshal_chans })
  send-Homed q p t svr h at = record {
    count = length-send_on p t svr.marshal_chans ∙ h.count;
    only = OnlyOn-send_on s q p t svr.marshal_chans (λ used. (at used).0) h.only;
    home = h.home;
    begun = elim (Bool-cases (uses s t.writer)) [
      | inl used ↦ inr (at used).2
      | inr unused ↦ elim (h.begun) [
        | inl spare ↦ inl (AllSpare-send_on s p t svr.marshal_chans unused spare)
        | inr headed ↦ inr headed
      ]
    ];
    fresh = λ early. elim (Bool-cases (uses s t.writer)) [
      | inl used ↦ absurd (omega (arith, (at used).1, early))
      | inr unused ↦
          (AllSpare-send_on s p t svr.marshal_chans unused (h.fresh early).0, (h.fresh early).1)
    ];
  }
