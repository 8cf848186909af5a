-- ===== src/Netlink/Record/Slots.antt =====
-- Where each attribute of a message ends up.
use Prim.Native.Nat.{max}
use tcp_info.Base.{
  ℕ, zero, suc, ◌≤◌, ◌<◌, ◌≡◌, refl, ◌∙◌, List, [], ◌∷◌, Option, none, some, arith, ltb, leb, false,
  get_elem?-beyond, ◌==◌, if◌then◌else◌, length, get_elem?, set, replicate, length-set,
  length-replicate, get_elem?-set_self, get_elem?-set_ne, ==_iff, Bool-cases, inl, inr, ltb→lt,
  ℕ_discrete, min,
}
use tcp_info.Bytes.{Slice}
use tcp_info.Netlink.Record.{max_attr_type, capped, fill, attribute_table}
use tcp_info.Netlink.{NetlinkRouteAttr}

-- The last value with type `t`, or `before` if there is none.
unfoldable pub last_value : ℕ → Option Slice → List NetlinkRouteAttr → Option Slice
last_value t before [] = before
last_value t before (a ∷ attrs) =
    last_value t (if a.attr.type == t then some a.value else before) attrs

-- The largest type of the attributes, 0 with none.
unfoldable pub largest : List NetlinkRouteAttr → ℕ
largest [] = 0
largest (a ∷ attrs) = max a.attr.type (largest attrs)

-- One round of the loop, on the table alone.
abbrev place : ℕ → NetlinkRouteAttr → List (Option Slice) → List (Option Slice)
place m a table = if ltb m a.attr.type then table else set table a.attr.type (some a.value)

length-place :
    (m : ℕ) (a : NetlinkRouteAttr) (table : List (Option Slice))
    → length (place m a table) ≡ length table
length-place m a table = elim (Bool-cases (ltb m a.attr.type)) [
  | inl large ↦ rw large
  | inr small ↦ rw small (length-set table a.attr.type (some a.value))
]

place-slot :
    (m t : ℕ) (a : NetlinkRouteAttr) (table : List (Option Slice)) (before : Option Slice)
    → t ≤ m
    → m < length table
    → get_elem? table t ≡ some before
    → get_elem? (place m a table) t ≡ some (if a.attr.type == t then some a.value else before)
place-slot m t a table before h k e = elim (Bool-cases (ltb m a.attr.type)) [
  | inl large ↦ rw large (ground (arith, ltb→lt m a.attr.type large))
  | inr small ↦ rw small (elim (ℕ_discrete a.attr.type t) [
    | yes same ↦
        rw (same, (==_iff t t).1 refl) (get_elem?-set_self table t (some a.value) (omega arith))
    | no other ↦ get_elem?-set_ne table a.attr.type t (some a.value) other ∙ ground arith
  ])
]

fill-slot :
    (attrs : List NetlinkRouteAttr) (m t : ℕ) (table : List (Option Slice)) (before : Option Slice)
    → t ≤ m
    → m < length table
    → get_elem? table t ≡ some before
    → get_elem? (fill m table attrs) t ≡ some (last_value t before attrs)
unfolding fill last_value
fill-slot [] m t table before h k e = e
fill-slot (a ∷ attrs) m t table before h k e =
    fill-slot attrs m t (place m a table) (if a.attr.type == t then some a.value else before) h
      (omega (arith, length-place m a table)) (place-slot m t a table before h k e)

length-fill :
    (attrs : List NetlinkRouteAttr) (m : ℕ) (table : List (Option Slice))
    → length (fill m table attrs) ≡ length table
unfolding fill
length-fill [] m table = refl
length-fill (a ∷ attrs) m table = length-fill attrs m (place m a table) ∙ length-place m a table

max_attr_type-largest :
    (m : ℕ) (attrs : List NetlinkRouteAttr) → max_attr_type m attrs ≡ max m (largest attrs)
unfolding max_attr_type largest
max_attr_type-largest m [] = omega arith
max_attr_type-largest m (a ∷ attrs) =
    max_attr_type-largest (if ltb m a.attr.type then a.attr.type else m) attrs ∙ ground arith

get_elem?-replicate : (n t : ℕ) (a : Option Slice) → t < n → get_elem? (replicate n a) t ≡ some a
get_elem?-replicate zero t a h = elim h [ ]
get_elem?-replicate (suc n) zero a h = refl
get_elem?-replicate (suc n) (suc t) a h = get_elem?-replicate n t a (omega arith)

pub attribute_table-slots :
    (attrs : List NetlinkRouteAttr)
    → (length (attribute_table attrs) ≡ suc (min (largest attrs) 38))
      × ((t : ℕ)
          → t ≤ min (largest attrs) 38
          → get_elem? (attribute_table attrs) t ≡ some (last_value t none attrs))
unfolding attribute_table capped
attribute_table-slots attrs =
    let top : capped (max_attr_type 0 attrs) ≡ min (largest attrs) 38 =
      rw (max_attr_type-largest 0 attrs) (ground arith) in
    let blank : List (Option Slice) = replicate (suc (min (largest attrs) 38)) none in
    let size : length blank ≡ suc (min (largest attrs) 38) = length-replicate _ none in
    rw top (
      length-fill attrs _ blank ∙ size,
      λ t h.
          fill-slot attrs _ t blank none h (omega arith)
            (get_elem?-replicate (suc (min (largest attrs) 38)) t none (omega arith)),
    )

-- The table of attributes has a slot for each type up to the largest, or up to 38 (2 * INET_DIAG_MAX)
-- if that is less, and no other; the slot holds the last value of its type, or nil if the message has
-- none. Larger types are dropped.
attribute_table_lem :
    (attrs : List NetlinkRouteAttr) (t : ℕ)
    → get_elem? (attribute_table attrs) t
      ≡ (if leb t (min (largest attrs) 38) then some (last_value t none attrs) else none)
attribute_table_lem attrs t =
    let (size, slots) = attribute_table-slots attrs in
    elim (Bool-cases (leb t (min (largest attrs) 38))) [
      | inl inside ↦ rw inside (slots t (ground arith))
      | inr outside ↦
          rw outside
            (get_elem?-beyond (attribute_table attrs) t (omega (arith, size, beyond outside)))
    ]
  where
    beyond : leb t (min (largest attrs) 38) ≡ false → min (largest attrs) 38 < t
    beyond h = ground arith
