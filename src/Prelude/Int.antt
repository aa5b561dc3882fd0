-- ===== src/Prelude/Int.antt =====
-- Signed machine integers (`time_t`, `c_long`) over the native numbers.
use Prim.Native.Nat.{ℕ}
use mathlib.Core.Option.{Option, none, some}

-- `negsuc n` is -(n + 1).
pub data ℤ : Type 0 where
  pos : ℕ → ℤ
  negsuc : ℕ → ℤ

-- `u64::try_from` of an `i64`: every nonnegative `i64` fits.
abbrev pub nonnegative : ℤ → Option ℕ
nonnegative (pos n) = some n
nonnegative (negsuc n) = none
