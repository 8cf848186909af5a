-- ===== src/Netlink/Attr/Loop.antt =====
-- The fuel of `ParseRouteAttr` is enough: the loop is its own unfolding.
use tcp_info.Base.{
  ℕ, zero, suc, ◌+◌, ◌≤◌, ◌≡◌, refl, List, [], ◌∷◌, arith, Result, ok, err, panic, ◌>>=◌, ltb,
  if◌then◌else◌, lt→ltb, ap, ◌∙◌, ◌∙◌,
}
use tcp_info.Bytes.{Slice, reslice}
use tcp_info.Inetdiag.{rta_align_of}
use tcp_info.Netlink.Attr.{
  sizeof_rt_attr, rt_attr_at, route_attr_and_value, next_attr, parse_attrs, parse_route_attr,
}
use tcp_info.Netlink.{NetlinkRouteAttr}

pub rta_align_of_le : (n : ℕ) → n ≤ rta_align_of n
unfolding rta_align_of
rta_align_of_le n = omega arith

-- Every round takes at least the four bytes of the header.
pub next_attr_shrinks :
    (b : Slice) {ra : NetlinkRouteAttr} {rest : Slice}
    → next_attr b ≡ ok (ra, rest)
    → rest.len + 4 ≤ b.len
unfolding next_attr route_attr_and_value reslice
next_attr_shrinks b h = ground (arith, rta_align_of_le ((rt_attr_at b).len))

-- The rest of a round: the loop goes on with what is left.
abbrev pub goes_on :
    Result (NetlinkRouteAttr × Slice)
    → (Slice → Result (List NetlinkRouteAttr))
    → Result (List NetlinkRouteAttr)
goes_on r loop = do (ra, rest) ← r; attrs ← loop rest; ok (ra ∷ attrs)

goes_on_same :
    (r : Result (NetlinkRouteAttr × Slice)) (f g : Slice → Result (List NetlinkRouteAttr))
    → ((ra : NetlinkRouteAttr) (rest : Slice) → r ≡ ok (ra, rest) → f rest ≡ g rest)
    → goes_on r f ≡ goes_on r g
goes_on_same (ok (ra, rest)) f g h = rw (h ra rest refl)
goes_on_same (err e) f g h = refl
goes_on_same panic f g h = refl

parse_attrs-fuel : (f g : ℕ) (b : Slice) → b.len ≤ f → b.len ≤ g → parse_attrs f b ≡ parse_attrs g b
unfolding parse_attrs
parse_attrs-fuel zero zero b h k = refl
parse_attrs-fuel zero (suc g) b h k = rw (lt→ltb b.len 4 (omega arith))
parse_attrs-fuel (suc f) zero b h k = rw (lt→ltb b.len 4 (omega arith))
parse_attrs-fuel (suc f) (suc g) b h k =
    ap (λ more. if ltb b.len 4 then ok [] else more)
      (goes_on_same (next_attr b) (parse_attrs f) (parse_attrs g) λ ra rest e.
        parse_attrs-fuel f g rest (omega (arith, next_attr_shrinks b e))
          (omega (arith, next_attr_shrinks b e)))

-- `ParseRouteAttr` is the loop of the source: it ends when fewer than four bytes are left, and
-- otherwise takes one attribute, or its error or panic, and goes on with the rest.
pub parse_route_attr_lem :
    (b : Slice)
    → parse_route_attr b
      ≡ (if ltb b.len sizeof_rt_attr then ok [] else goes_on (next_attr b) parse_route_attr)
unfolding parse_route_attr parse_attrs
parse_route_attr_lem b =
    parse_attrs-fuel b.len (suc b.len) b (omega arith) (omega arith)
    ∙ ap (λ more. if ltb b.len sizeof_rt_attr then ok [] else more)
        (goes_on_same (next_attr b) (parse_attrs b.len) parse_route_attr λ ra rest e.
          parse_attrs-fuel b.len rest.len rest (omega (arith, next_attr_shrinks b e)) (omega arith))
