-- ===== src/Bytes.antt =====
-- Byte sequences, Go slices of bytes, and integers read from and written to them.
--
-- A Go slice shows `len` bytes of a backing array and may be resliced up to its capacity, so what
-- stands behind the visible bytes matters: `back` is the array from the slice's first byte to its
-- last reachable one.
pub mod Laws
pub mod Write
use tcp_info.Base.{
  ℕ, zero, suc, ◌+◌, ◌-◌, ◌*◌, ◌/◌, ◌%◌, ◌<◌, ◌≤◌, Bool, true, false, ◌&&◌, List, [], ◌∷◌, ◌++◌,
  Result, ok, panic, leb, ◌==◌, if◌then◌else◌, length, take, drop,
}

abbrev pub Bytes : Type 0
Bytes = List ℕ

pub record Slice : Type 0 where
  pub back : Bytes
  pub len : ℕ

-- The visible bytes.
abbrev pub visible : Slice → Bytes
visible s = take s.len s.back

-- `len(s) <= cap(s)`.
abbrev pub IsSlice : Slice → Type 0
IsSlice s = s.len ≤ length s.back

-- A slice with no spare capacity.
abbrev pub slice_of : Bytes → Slice
slice_of b = record { back = b; len = length b }

-- `s[lo:hi]`: the bound is the capacity, not the length.
unfoldable pub reslice : Slice → ℕ → ℕ → Result Slice
reslice s lo hi =
    if leb lo hi && leb hi (length s.back)
    then ok (record { back = drop lo s.back; len = hi - lo })
    else panic

-- `s[lo:]` and `s[:hi]`.
abbrev pub slice_from : Slice → ℕ → Result Slice
slice_from s lo = reslice s lo s.len

abbrev pub slice_to : Slice → ℕ → Result Slice
slice_to s hi = reslice s 0 hi

-- `bytes.Compare(a, b) == 0`, `bytes.Equal`.
unfoldable pub equal : Bytes → Bytes → Bool
equal [] [] = true
equal (x ∷ xs) (y ∷ ys) = x == y && equal xs ys
equal _ _ = false

-- `binary.LittleEndian.Uint…`, and a load through a pointer on a little-endian machine.
unfoldable pub le_value : Bytes → ℕ
le_value [] = 0
le_value (x ∷ xs) = x + 256 * le_value xs

-- `binary.BigEndian.Uint…`, with the value of the bytes before.
unfoldable pub be_from : ℕ → Bytes → ℕ
be_from acc [] = acc
be_from acc (x ∷ xs) = be_from (256 * acc + x) xs

abbrev pub be_value : Bytes → ℕ
be_value = be_from 0

-- The bytes of a field: `n` from offset `off`.
abbrev pub field : ℕ → ℕ → Bytes → Bytes
field off n b = take n (drop off b)

-- The `n` low bytes of a number, least significant first: a store through a pointer.
unfoldable pub to_le : ℕ → ℕ → Bytes
to_le zero v = []
to_le (suc n) v = (v % 256) ∷ to_le n (v / 256)

-- Every element is a byte.
abbrev pub IsBytes : Bytes → Type 0
IsBytes [] = Unit {0}
IsBytes (x ∷ xs) = (x < 256) × IsBytes xs
