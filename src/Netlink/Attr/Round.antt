-- ===== src/Netlink/Attr/Round.antt =====
-- The attributes as the kernel lays them out, and one round of `ParseRouteAttr` on each outcome.
use tcp_info.Base.{
  ℕ, suc, ◌+◌, ◌-◌, ◌≤◌, ◌<◌, ◌≡◌, ap, ◌∙◌, List, [], ◌∷◌, ◌++◌, arith, ok, err, panic, einval, ◌⊎◌,
  take-append, length, drop, replicate, length-append, length-drop, length-replicate,
}
use mathlib.Core.List.{append_assoc}
use tcp_info.Bytes.Laws.{drop-append_of}
use tcp_info.Bytes.{Bytes, Slice, IsSlice, visible, reslice, le_value, to_le}
use tcp_info.Inetdiag.{rta_align_of}
use tcp_info.Netlink.Attr.Loop.{rta_align_of_le}
use tcp_info.Netlink.Attr.{rt_attr_at, route_attr_and_value, next_attr}
use tcp_info.Netlink.{NetlinkRouteAttr}

-- The attribute in front of `b`, by its header.
abbrev pub front : Slice → NetlinkRouteAttr
front b = record {
  attr = rt_attr_at b;
  value = record { back = drop 4 b.back; len = (rt_attr_at b).len - 4 };
}

abbrev pub behind : Slice → Slice
behind b =
    let n = rta_align_of (rt_attr_at b).len in record { back = drop n b.back; len = b.len - n }

module _ (b : Slice) (fits : IsSlice b) where
  pub next_attr_ok :
      4 ≤ (rt_attr_at b).len
      → rta_align_of (rt_attr_at b).len ≤ b.len
      → next_attr b ≡ ok (front b, behind b)
  unfolding next_attr route_attr_and_value reslice
  next_attr_ok h k = ground (arith, rta_align_of_le ((rt_attr_at b).len), length-drop 4 b.back)

  pub next_attr_panic :
      4 ≤ (rt_attr_at b).len
      → (rt_attr_at b).len ≤ b.len
      → b.len < rta_align_of (rt_attr_at b).len
      → next_attr b ≡ panic
  unfolding next_attr route_attr_and_value reslice
  next_attr_panic h k m = ground (arith, length-drop 4 b.back)

  pub next_attr_einval :
      ((rt_attr_at b).len < 4) ⊎ (b.len < (rt_attr_at b).len) → next_attr b ≡ err einval
  unfolding next_attr route_attr_and_value reslice
  next_attr_einval h = ground arith

abbrev pub padding : ℕ → Bytes
padding n = replicate (rta_align_of n - n) 0

-- An attribute as a type and a value; its bytes: header, value, zeros up to a multiple of four.
unfoldable pub encode_attr : ℕ → Bytes → Bytes
encode_attr t v = to_le 2 (length v + 4) ++ (to_le 2 t ++ (v ++ padding (length v + 4)))

unfoldable pub encode_attrs : List (ℕ × Bytes) → Bytes
unfolding encode_attr
encode_attrs [] = []
encode_attrs ((t, v) ∷ items) = encode_attr t v ++ encode_attrs items

-- The type and the length with the header fit 16 bits.
abbrev pub AttrFits : ℕ → Bytes → Type 0
AttrFits t v = (t < 65536) × (length v + 4 < 65536)

abbrev pub AllFit : List (ℕ × Bytes) → Type 0
AllFit [] = Unit {0}
AllFit ((t, v) ∷ items) = AttrFits t v × AllFit items

-- What a parsed attribute shows: its type and its value's bytes.
abbrev pub shown : NetlinkRouteAttr → ℕ × Bytes
shown ra = (ra.attr.type, visible ra.value)

pub length-encode_attr :
    (t : ℕ) (v : Bytes) → length (encode_attr t v) ≡ rta_align_of (length v + 4)
unfolding encode_attr to_le
length-encode_attr t v = omega (
  arith,
  length-append v (padding (length v + 4)),
  length-replicate {A = ℕ} (rta_align_of (length v + 4) - (length v + 4)) 0,
  rta_align_of_le (length v + 4),
)

pub rt_attr_at-header :
    (n t : ℕ) (rest : Bytes) (b : Slice)
    → n < 65536
    → t < 65536
    → b.back ≡ to_le 2 n ++ (to_le 2 t ++ rest)
    → 4 ≤ b.len
    → rt_attr_at b ≡ record { len = n; type = t }
unfolding rt_attr_at to_le le_value
rt_attr_at-header n t rest b fits fits' e h =
    let four : b.len ≡ suc (suc (suc (suc (b.len - 4)))) = omega arith in
    rw (e, four) (ground arith)

rt_attr_at-encode :
    (t : ℕ) (v rest : Bytes) (b : Slice)
    → AttrFits t v
    → b.back ≡ encode_attr t v ++ rest
    → 4 ≤ b.len
    → rt_attr_at b ≡ record { len = length v + 4; type = t }
unfolding encode_attr to_le
rt_attr_at-encode t v rest b fits e =
    rt_attr_at-header (length v + 4) t ((v ++ padding (length v + 4)) ++ rest) b fits.1 fits.0 e

drop-encode_attr :
    (t : ℕ) (v rest : Bytes)
    → drop 4 (encode_attr t v ++ rest) ≡ v ++ (padding (length v + 4) ++ rest)
unfolding encode_attr to_le
drop-encode_attr t v rest = append_assoc v _ rest

-- One round, on an attribute that is followed by `more` visible bytes.
pub next_attr-encode :
    (t : ℕ) (v rest : Bytes) (more : ℕ) (b : Slice)
    → AttrFits t v
    → b.back ≡ encode_attr t v ++ rest
    → b.len ≡ rta_align_of (length v + 4) + more
    → more ≤ length rest
    → (ra : NetlinkRouteAttr) × (next_attr b ≡ ok (ra, record { back = rest; len = more }))
      × (shown ra ≡ (t, v))
next_attr-encode t v rest more b fits e l h =
    let wide : 4 ≤ b.len = omega (arith, rta_align_of_le (length v + 4)) in
    let head : rt_attr_at b ≡ record { len = length v + 4; type = t } =
      rt_attr_at-encode t v rest b fits e wide in
    let whole : length (encode_attr t v ++ rest) ≡ rta_align_of (length v + 4) + length rest =
      omega (arith, length-append (encode_attr t v) rest, length-encode_attr t v) in
    let size : length b.back ≡ rta_align_of (length v + 4) + length rest = ap length e ∙ whole in
    let tail : drop (rta_align_of (length v + 4)) b.back ≡ rest =
      rw e (drop-append_of _ (encode_attr t v) rest (length-encode_attr t v)) in
    let left : b.len - rta_align_of (length v + 4) ≡ more = omega arith in
    let exact : length v + 4 - 4 ≡ length v = omega arith in
    (
      front b,
      next_attr_ok b (omega arith) (rw head (omega arith)) (rw head (omega arith))
          ∙ rw (head, tail, left),
      rw (head, exact, e, drop-encode_attr t v rest)
          (ap (λ (w : Bytes). (t, w)) (take-append v (padding (length v + 4) ++ rest))),
    )
