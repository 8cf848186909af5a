-- ===== src/Netlink/Compare/Significant.antt =====
-- When `Compare` sees no change: what it looks at, and what it does not.
use tcp_info.Base.{
  ℕ, zero, suc, ◌+◌, ◌-◌, ◌≤◌, ◌≡◌, ◌≢◌, ◌↔◌, refl, ap, List, [], ◌∷◌, Option, none, some, arith,
  ok, ℕ_discrete, length, get_elem?, inl, inr, ◌⊎◌, false,
}
use tcp_info.Bytes.Laws.{equal_iff}
use tcp_info.Bytes.{Bytes, Slice, visible, field, reslice}
use tcp_info.Inetdiag.{InetDiagMsg, parse}
use tcp_info.Netlink.Compare.{
  no_major_change, compare_entry, compare_attributes, parts_differ, counters_differ, state_differs,
  compare_lengths, compare_info,
}
use tcp_info.Netlink.Record.{diag_info}
use tcp_info.Netlink.{ArchivalRecord, idm_bytes}

-- An entry of the table as a comparison sees it: nil, or the visible bytes.
abbrev pub entry_shown : Option Slice → Option Bytes
entry_shown none = none
entry_shown (some s) = some (visible s)

-- Its value at a type, if the table has the type at all.
abbrev pub shown_at : List (Option Slice) → ℕ → Option (Option Bytes)
shown_at table t = elim (get_elem? table t) [ none ↦ none | some e ↦ some (entry_shown e) ]

pub shown_at-get :
    (table : List (Option Slice)) (t : ℕ) (e : Option Slice)
    → get_elem? table t ≡ some e
    → shown_at table t ≡ some (entry_shown e)
shown_at-get table t e h = rw (h, shown_at)

compare_entry_iff :
    (a b : Option Slice) → (compare_entry a b ≡ none) ↔ (entry_shown a ≡ entry_shown b)
unfolding compare_entry
compare_entry_iff none none = ground arith
compare_entry_iff none (some b) = ground arith
compare_entry_iff (some a) none = ground arith
compare_entry_iff (some a) (some b) = ground (arith, equal_iff (visible a) (visible b))

abbrev pub SamePart : ℕ → ℕ → Slice → Slice → Type 0
SamePart lo hi a b =
    (hi ≤ length a.back)
    × (hi ≤ length b.back)
    × (field lo (hi - lo) a.back ≡ field lo (hi - lo) b.back)

pub parts_differ_iff :
    (lo hi : ℕ) (a b : Slice) → lo ≤ hi → (parts_differ lo hi a b ≡ ok false) ↔ SamePart lo hi a b
unfolding parts_differ reslice
parts_differ_iff lo hi a b h =
    ground (arith, equal_iff (field lo (hi - lo) a.back) (field lo (hi - lo) b.back))

pub compare_info-quiet :
    (a b : Slice) (earlier later : List (Option Slice))
    → (compare_info (some a) (some b) earlier later ≡ ok no_major_change) ↔ (
        (counters_differ a b ≡ ok false)
        × (state_differs a b ≡ ok false)
        × (compare_lengths earlier later ≡ no_major_change))
unfolding compare_info
compare_info-quiet a b earlier later = ground arith

-- One step of the loop, on the pointwise condition.
abbrev pub AgreeFrom : ℕ → List (Option Slice) → List (Option Slice) → Type 0
AgreeFrom tp earlier later = (t : ℕ) → tp + t ≢ 2 → shown_at earlier t ≡ shown_at later t

AgreeFrom-cons :
    (tp : ℕ) (a b : Option Slice) (earlier later : List (Option Slice))
    → AgreeFrom tp (a ∷ earlier) (b ∷ later)
      ↔ (((tp ≡ 2) ⊎ (compare_entry a b ≡ none)) × AgreeFrom (suc tp) earlier later)
AgreeFrom-cons tp a b earlier later = (split, join)
  where
    split :
        AgreeFrom tp (a ∷ earlier) (b ∷ later)
        → ((tp ≡ 2) ⊎ (compare_entry a b ≡ none)) × AgreeFrom (suc tp) earlier later
    split all = (
      elim (ℕ_discrete tp 2) [
        | yes e ↦ inl e
        | no n ↦ inr ((compare_entry_iff a b).1 (some_eq (all 0 (omega arith))))
      ],
      λ t n. all (suc t) (omega arith),
    )
      where
        some_eq : some (entry_shown a) ≡ some (entry_shown b) → entry_shown a ≡ entry_shown b
        some_eq e = cc e

    join :
        ((tp ≡ 2) ⊎ (compare_entry a b ≡ none)) × AgreeFrom (suc tp) earlier later
        → AgreeFrom tp (a ∷ earlier) (b ∷ later)
    join (inl e, rest) zero n = absurd (n (omega arith))
    join (inr e, rest) zero n = ap some ((compare_entry_iff a b).0 e)
    join (e, rest) (suc t) n = rest t (omega arith)

compare_entry-ne : (a b : Option Slice) → compare_entry a b ≢ some no_major_change
unfolding compare_entry
compare_entry-ne none none = ground arith
compare_entry-ne none (some b) = ground arith
compare_entry-ne (some a) none = ground arith
compare_entry-ne (some a) (some b) = ground arith

compare_attributes-cons :
    (tp : ℕ) (a b : Option Slice) (earlier later : List (Option Slice))
    → (compare_attributes tp (a ∷ earlier) (b ∷ later) ≡ no_major_change) ↔ (
        ((tp ≡ 2) ⊎ (compare_entry a b ≡ none))
        × (compare_attributes (suc tp) earlier later ≡ no_major_change))
unfolding compare_attributes
compare_attributes-cons tp a b earlier later = ground (arith, compare_entry-ne a b)

pub compare_attributes_iff :
    (tp : ℕ) (earlier later : List (Option Slice))
    → length earlier ≡ length later
    → (compare_attributes tp earlier later ≡ no_major_change) ↔ AgreeFrom tp earlier later
unfolding compare_attributes
compare_attributes_iff tp [] [] h = (λ e t n. refl, λ all. refl)
compare_attributes_iff tp [] (b ∷ later) h = absurd (omega arith)
compare_attributes_iff tp (a ∷ earlier) [] h = absurd (omega arith)
compare_attributes_iff tp (a ∷ earlier) (b ∷ later) h =
    let ih = compare_attributes_iff (suc tp) earlier later (omega arith) in
    let here = AgreeFrom-cons tp a b earlier later in
    let step = compare_attributes-cons tp a b earlier later in
    (
      λ e. here.1 ((step.0 e).0, ih.0 (step.0 e).1),
      λ all. step.1 ((here.0 all).0, ih.1 (here.0 all).1),
    )

pub compare_lengths_iff :
    (earlier later : List (Option Slice))
    → (compare_lengths earlier later ≡ no_major_change)
      ↔ ((length earlier ≡ length later) × (compare_attributes 0 earlier later ≡ no_major_change))
unfolding compare_lengths
compare_lengths_iff earlier later = ground arith

-- What a save is not worth: between the two records nothing has changed that counts.
pub record Unchanged (previous pm : ArchivalRecord) : Type 0 where
  pub prev_idm : InetDiagMsg
  pub pm_idm : InetDiagMsg
  pub prev_parsed : parse (idm_bytes previous) ≡ ok prev_idm
  pub pm_parsed : parse (idm_bytes pm) ≡ ok pm_idm
  pub same_state : prev_idm.state ≡ pm_idm.state
  pub prev_info : Slice
  pub pm_info : Slice
  pub prev_has : diag_info previous ≡ some prev_info
  pub pm_has : diag_info pm ≡ some pm_info
  -- TCP_INFO from PMTU up to BusyTime, and up to LastDataSent
  pub same_counters : SamePart 60 168 prev_info pm_info
  pub same_head : SamePart 0 44 prev_info pm_info
  -- every other attribute, and the types that the tables reach
  pub same_length : length previous.attributes ≡ length pm.attributes
  pub same_others : AgreeFrom 0 previous.attributes pm.attributes
