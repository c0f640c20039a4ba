-- ===== src/Prelude/Table.antt =====
-- A table that is checked entry by entry, for all indices below its size.
use Prim.Native.Nat.{ℕ, zero, suc, ◌<◌}
use mathlib.Core.Path.{◌≡◌}
use mathlib.Core.Bool.{Bool, true, ◌&&◌}
use native.Mathlib.Omega.{arith}

unfoldable pub is_table : (ℕ → Bool) → ℕ → Bool
is_table test zero = true
is_table test (suc size) = is_table test size && test size

pub is_table_entry :
    (test : ℕ → Bool) (size index : ℕ)
    → index < size
    → is_table test size ≡ true
    → test index ≡ true
unfolding is_table
is_table_entry test zero index inside whole = absurd (omega arith)
is_table_entry test (suc size) index inside whole = ground (arith, is_table_entry test size index)
