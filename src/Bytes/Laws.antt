-- ===== src/Bytes/Laws.antt =====
-- Laws of byte fields and of the integers that they hold.
use native.Mathlib.Nat.{pow-suc}
use tcp_info.Base.{
  ◌≤◌, ℕ, zero, suc, ◌+◌, ◌*◌, ◌/◌, ◌%◌, ◌^◌, ◌<◌, ◌≡◌, refl, ap, ◌↔◌, true, [], ◌∷◌, ◌++◌, arith,
  length, take, drop,
}
use tcp_info.Bytes.{Bytes, equal, le_value, to_le, IsBytes}

pub equal_iff : (earlier later : Bytes) → (equal earlier later ≡ true) ↔ (earlier ≡ later)
unfolding equal
equal_iff (x ∷ earlier) (y ∷ later) = ground (arith, equal_iff earlier later)
equal_iff _ _ = ground arith

pub length-to_le : (n v : ℕ) → length (to_le n v) ≡ n
unfolding to_le
length-to_le zero v = refl
length-to_le (suc n) v = ap suc (length-to_le n (v / 256))

pub to_le-IsBytes : (n v : ℕ) → IsBytes (to_le n v)
unfolding to_le
to_le-IsBytes zero v = tt
to_le-IsBytes (suc n) v = (omega arith, to_le-IsBytes n (v / 256))

-- A stored number is read back, if it fits.
pub le_value-to_le : (n v : ℕ) → v < 256 ^ n → le_value (to_le n v) ≡ v
unfolding le_value to_le
le_value-to_le zero v h = omega arith
le_value-to_le (suc n) v h =
    omega (arith, le_value-to_le n (v / 256) (omega (arith, pow-suc 256 n)))

pub le_value-lt : (b : Bytes) → IsBytes b → le_value b < 256 ^ length b
unfolding le_value
le_value-lt [] h = omega arith
le_value-lt (x ∷ xs) h = omega (arith, le_value-lt xs h.1, pow-suc 256 (length xs))

-- What is read is stored back as the same bytes.
pub to_le-le_value : (b : Bytes) → IsBytes b → to_le (length b) (le_value b) ≡ b
unfolding le_value to_le
to_le-le_value [] h = refl
to_le-le_value (x ∷ xs) h =
    let low : (x + 256 * le_value xs) % 256 ≡ x = omega arith in
    let high : (x + 256 * le_value xs) / 256 ≡ le_value xs = omega arith in
    rw (low, high, to_le-le_value xs h.1)

-- A field in front, and a field behind a part of known length.
pub take-append_of : (n : ℕ) (xs ys : Bytes) → length xs ≡ n → take n (xs ++ ys) ≡ xs
take-append_of zero [] ys h = refl
take-append_of zero (x ∷ xs) ys h = absurd (omega arith)
take-append_of (suc n) [] ys h = absurd (omega arith)
take-append_of (suc n) (x ∷ xs) ys h = ap (◌∷◌ x) (take-append_of n xs ys (omega arith))

pub drop-append_of : (n : ℕ) (xs ys : Bytes) → length xs ≡ n → drop n (xs ++ ys) ≡ ys
drop-append_of zero [] ys h = refl
drop-append_of zero (x ∷ xs) ys h = absurd (omega arith)
drop-append_of (suc n) [] ys h = absurd (omega arith)
drop-append_of (suc n) (x ∷ xs) ys h = drop-append_of n xs ys (omega arith)

pub take-take : (k n : ℕ) (b : Bytes) → k ≤ n → take k (take n b) ≡ take k b
take-take zero n b h = refl
take-take (suc k) zero b h = absurd (omega arith)
take-take (suc k) (suc n) [] h = refl
take-take (suc k) (suc n) (x ∷ b) h = ap (◌∷◌ x) (take-take k n b (omega arith))
