-- ===== src/Base/Int64.antt =====
-- Go's `int64` and its conversions from and to `uint64`, which keep the bits.
use tcp_info.Base.Bools.{ltb, if◌then◌else◌}
use Prim.Native.Nat.{ℕ, suc, ◌-◌, ◌^◌, ◌<◌}
use mathlib.Core.Path.{◌≡◌}
use native.Mathlib.Omega.{arith}

-- `negsuc n` is -(n + 1).
pub data ℤ : Type 0 where
  pos : ℕ → ℤ
  negsuc : ℕ → ℤ

abbrev pub int64 : ℕ → ℤ
int64 v = if ltb v (2 ^ 63) then pos v else negsuc (2 ^ 64 - suc v)

abbrev pub int32 : ℕ → ℤ
int32 v = if ltb v (2 ^ 31) then pos v else negsuc (2 ^ 32 - suc v)

abbrev pub uint64 : ℤ → ℕ
uint64 (pos n) = n
uint64 (negsuc n) = 2 ^ 64 - suc n

pub uint64-int64 : (v : ℕ) → v < 2 ^ 64 → uint64 (int64 v) ≡ v
uint64-int64 v h = ground arith
