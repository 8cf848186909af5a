-- ===== src/Netlink/Attr/RoundTrip.antt =====
-- What `ParseRouteAttr` makes of attributes as the kernel lays them out.
use tcp_info.Base.{
  ℕ, ◌+◌, ◌≤◌, ◌≡◌, refl, ap, ◌∙◌, List, [], ◌∷◌, ◌++◌, map, arith, Result, ok, panic, ◌>>=◌, ◌≢◌,
  ◌%◌, ge→ltb, length, length-append,
}
use mathlib.Core.List.{append_assoc, append-nil}
use tcp_info.Bytes.{Bytes, Slice, IsSlice, to_le}
use tcp_info.Inetdiag.{rta_align_of}
use tcp_info.Netlink.Attr.Round.{
  next_attr_panic, encode_attr, encode_attrs, AttrFits, AllFit, shown, length-encode_attr,
  rt_attr_at-header, next_attr-encode,
}
use tcp_info.Netlink.Attr.Loop.{rta_align_of_le, parse_route_attr_lem}
use tcp_info.Netlink.Attr.{next_attr, parse_route_attr}
use tcp_info.Netlink.{NetlinkRouteAttr}

-- The loop after a well-formed part: its attributes, then whatever comes of the rest.
pub then_parse :
    List NetlinkRouteAttr → Result (List NetlinkRouteAttr) → Result (List NetlinkRouteAttr)
then_parse attrs r = do later ← r; ok (attrs ++ later)

then_parse-cons :
    (ra : NetlinkRouteAttr) (attrs : List NetlinkRouteAttr) (r : Result (List NetlinkRouteAttr))
    → (then_parse attrs r >>= λ xs. ok (ra ∷ xs)) ≡ then_parse (ra ∷ attrs) r
unfolding then_parse
then_parse-cons ra attrs r = ground arith

then_parse-nil : (r : Result (List NetlinkRouteAttr)) → then_parse [] r ≡ r
unfolding then_parse
then_parse-nil r = ground arith

parse_route_attr-append :
    (items : List (ℕ × Bytes)) (rest : Bytes) (more : ℕ) (b : Slice)
    → AllFit items
    → b.back ≡ encode_attrs items ++ rest
    → b.len ≡ length (encode_attrs items) + more
    → more ≤ length rest
    → (attrs : List NetlinkRouteAttr) × (parse_route_attr b
        ≡ then_parse attrs (parse_route_attr (record { back = rest; len = more })))
      × (map shown attrs ≡ items)
unfolding encode_attrs
parse_route_attr-append [] rest more b fits e l h =
    let same : b.len ≡ more = omega arith in ([], rw (then_parse-nil, ← e, ← same), refl)
parse_route_attr-append ((t, v) ∷ items) rest more b fits e l h =
    let again = encode_attrs items ++ rest in
    let next = length (encode_attrs items) + more in
    let room : next ≤ length again = omega (arith, length-append (encode_attrs items) rest) in
    let total : b.len ≡ rta_align_of (length v + 4) + next =
      omega (arith, length-append (encode_attr t v) (encode_attrs items), length-encode_attr t v) in
    let (ra, took, is) =
      next_attr-encode t v again next b fits.0
        (e ∙ append_assoc (encode_attr t v) (encode_attrs items) rest) total room in
    let (attrs, parsed, are) =
      parse_route_attr-append items rest more (record { back = again; len = next }) fits.1 refl refl
        h in
    let long : 4 ≤ b.len = omega (arith, rta_align_of_le (length v + 4)) in
    (
      ra ∷ attrs,
      parse_route_attr_lem b ∙ rw (ge→ltb b.len 4 long, took, parsed) (then_parse-cons ra attrs _),
      rw (is, are),
    )

-- `ParseRouteAttr` reads back every sequence of attributes, in order, each with its type and exactly
-- the bytes of its value, whatever lies behind the message in the receive buffer.
pub parse_route_attr-encode :
    (items : List (ℕ × Bytes)) (spare : Bytes) (b : Slice)
    → AllFit items
    → b.back ≡ encode_attrs items ++ spare
    → b.len ≡ length (encode_attrs items)
    → (attrs : List NetlinkRouteAttr) × (parse_route_attr b ≡ ok attrs) × (map shown attrs ≡ items)
unfolding then_parse
parse_route_attr-encode items spare b fits e l =
    let (attrs, parsed, are) =
      parse_route_attr-append items spare 0 b fits e (omega arith) (omega arith) in
    (attrs, parsed ∙ rw parse_route_attr_lem (ap ok (append-nil attrs)), are)

-- An attribute that ends with the message, and not at a multiple of four.
unpadded_panics :
    (t : ℕ) (v spare : Bytes) (b : Slice)
    → AttrFits t v
    → length v % 4 ≢ 0
    → b.back ≡ to_le 2 (length v + 4) ++ (to_le 2 t ++ (v ++ spare))
    → b.len ≡ length v + 4
    → IsSlice b
    → parse_route_attr b ≡ panic
unfolding rta_align_of
unpadded_panics t v spare b fits odd e l sound =
    let long : 4 ≤ b.len = omega arith in
    let head = rt_attr_at-header (length v + 4) t (v ++ spare) b fits.1 fits.0 e long in
    let stops : next_attr b ≡ panic =
      next_attr_panic b sound (rw head (omega arith)) (rw head (omega arith))
        (rw head (omega arith)) in
    parse_route_attr_lem b ∙ rw (ge→ltb b.len 4 long, stops)

-- A last attribute whose value is no multiple of four bytes long, in a message that ends with that
-- value and no padding, makes `ParseRouteAttr` panic: `b[alen:]` is cut past the end. This is so
-- after any well-formed attributes.
pub parse_route_attr_unpadded :
    (items : List (ℕ × Bytes)) (t : ℕ) (v spare : Bytes) (b : Slice)
    → AllFit items
    → AttrFits t v
    → length v % 4 ≢ 0
    → b.back ≡ encode_attrs items ++ (to_le 2 (length v + 4) ++ (to_le 2 t ++ (v ++ spare)))
    → b.len ≡ length (encode_attrs items) + (length v + 4)
    → parse_route_attr b ≡ panic
unfolding then_parse
parse_route_attr_unpadded items t v spare b fits last odd e l =
    let final = to_le 2 (length v + 4) ++ (to_le 2 t ++ (v ++ spare)) in
    let room : length v + 4 ≤ length final = unfold to_le in omega (arith, length-append v spare) in
    let (attrs, parsed, are) = parse_route_attr-append items final (length v + 4) b fits e l room in
    let stops =
      unpadded_panics t v spare (record { back = final; len = length v + 4 }) last odd refl refl
        room in
    parsed ∙ rw stops
