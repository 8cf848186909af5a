-- ===== src/Netlink/Record/Info.antt =====
-- `HasDiagInfo` and `GetStats` on the records that are made from messages.
use tcp_info.Base.{
  ℕ, ◌≤◌, ◌<◌, ◌≡◌, ◌≢◌, refl, ◌∙◌, true, List, [], ◌∷◌, Option, none, some, arith, ◌↔◌,
}
use tcp_info.Bytes.{Bytes}
use tcp_info.Netlink.Compare.Significant.{shown_at}
use tcp_info.Netlink.Record.Wire.{last_item, largest_item, Holds}
use tcp_info.Netlink.Record.{has_diag_info, diag_info, get_stats}
use tcp_info.Netlink.{ArchivalRecord}

-- No attribute has the type.
abbrev pub Lacks : ℕ → List (ℕ × Bytes) → Type 0
Lacks t [] = Unit {0}
Lacks t ((u, v) ∷ items) = (u ≢ t) × Lacks t items

last_item-Lacks :
    (t : ℕ) (before : Option Bytes) (items : List (ℕ × Bytes))
    → Lacks t items
    → last_item t before items ≡ before
unfolding last_item
last_item-Lacks t before [] h = refl
last_item-Lacks t before ((u, v) ∷ items) h = ground (arith, last_item-Lacks t before items h.1)

module _ (raw : Bytes) (items : List (ℕ × Bytes)) (r : ArchivalRecord)
    (made : Holds raw items r) where
  -- `HasDiagInfo` asks for the length of the table: it holds exactly if some attribute has the type of
  -- TCP_INFO or a larger one.
  pub has_diag_info_iff : (has_diag_info r ≡ true) ↔ (2 ≤ largest_item items)
  has_diag_info_iff = ground (arith, made.has_size)

  -- So a message with a larger type and no TCP_INFO passes for one that has it: the slot is nil and
  -- the statistics read from it are zeros.
  pub has_diag_info_absent :
      2 < largest_item items
      → Lacks 2 items
      → (has_diag_info r ≡ true) × (diag_info r ≡ none) × (get_stats r ≡ (0, 0))
  has_diag_info_absent large lacks = (has_diag_info_iff.1 (omega arith), empty, zeros)
    where
      slot : shown_at r.attributes 2 ≡ some none
      slot = made.has_items 2 (omega arith) ∙ rw (last_item-Lacks 2 none items lacks)

      empty : diag_info r ≡ none
      empty = ground (arith, slot)

      zeros : get_stats r ≡ (0, 0)
      zeros = unfold get_stats in rw empty (ground arith)
