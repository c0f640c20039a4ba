-- ===== src/Prelude/Decimal.antt =====
-- The conversions %u, %0wu and %d of printf.
use Prim.Native.Nat.{ℕ, zero, suc, ◌+◌, ◌-◌, ◌/◌, ◌%◌}
use mathlib.Core.List.{[], ◌∷◌, ◌++◌}
use xml_rpc.Prelude.Lists.{Bytes, length}
use xml_rpc.Prelude.Int.{ℤ, pos, negsuc}
use xml_rpc.Prelude.Tests.{ltb, if◌then◌else◌}

-- A round per digit; a number has fewer digits than it counts.
unfoldable pub digits_of : ℕ → ℕ → Bytes
digits_of zero n = []
digits_of (suc fuel) n =
    let high = digits_of fuel (n / 10) in
    let low = (b'0' + n % 10) ∷ [] in if ltb n 10 then low else high ++ low

unfoldable pub decimal : ℕ → Bytes
unfolding digits_of
decimal n = digits_of (suc n) n

unfoldable pub zeros : ℕ → Bytes
zeros zero = []
zeros (suc n) = b'0' ∷ zeros n

unfoldable pub zero_pad : ℕ → Bytes → Bytes
unfolding zeros
zero_pad w digits = zeros (w - length digits) ++ digits

unfoldable pub decimal_z : ℤ → Bytes
unfolding decimal
decimal_z (pos n) = decimal n
decimal_z (negsuc n) = b'-' ∷ decimal (suc n)
