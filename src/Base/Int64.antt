-- ===== src/Base/Int64.antt =====
-- Go's int64 and int. An identifier is kept as its 64-bit pattern, so that `id++` wraps as it does
-- in the source; a signed quantity that the code compares with zero is a `ℤ`.
use Prim.Native.Nat.{ℕ, ◌+◌, ◌%◌, ◌^◌, ◌<◌}
use mathlib.Core.Path.{◌≡◌}
use native.Mathlib.Omega.{arith}

-- `n++` on an int64.
unfoldable pub incr64 : ℕ → ℕ
incr64 n = (n + 1) % 2 ^ 64

-- As long as the pattern has room, the counter grows by one.
pub incr64_room : (n : ℕ) → n + 1 < 2 ^ 64 → incr64 n ≡ n + 1
unfolding incr64
incr64_room n h = omega arith

pub data ℤ : Type 0 where
  pos : ℕ → ℤ
  -- `negsuc n` is -(n + 1).
  negsuc : ℕ → ℤ
