-- ===== src/Common/Words.antt =====
-- Machine-width unsigned integers as native numbers, with the saturating and checked operations.
use Prim.Native.Nat.{ℕ, zero, suc, ◌+◌, ◌*◌, ◌/◌, ◌%◌, ◌^◌, ◌<◌, min}
use mathlib.Core.Path.{◌≡◌}
use mathlib.Core.List.{List, [], ◌∷◌}
use native.Mathlib.Omega.{arith}
use mathlib.Core.Option.{Option, none, some}
use stroemnet.Common.Tests.{ltb, nat_beq, if◌then◌else◌}

abbrev pub u32_max : ℕ
u32_max = 4294967295

abbrev pub u64_max : ℕ
u64_max = 18446744073709551615

abbrev pub u64_mod : ℕ
u64_mod = 2 ^ 64

abbrev pub u256_mod : ℕ
u256_mod = 2 ^ 256

-- u64::saturating_add. (u64::saturating_sub is the truncated `-` of ℕ.)
abbrev pub sat_add64 : ℕ → ℕ → ℕ
sat_add64 a b = min (a + b) u64_max

-- u64::saturating_mul.
abbrev pub sat_mul64 : ℕ → ℕ → ℕ
sat_mul64 a b = min (a * b) u64_max

-- U256::checked_mul and U256::checked_div.
abbrev pub checked_mul256 : ℕ → ℕ → Option ℕ
checked_mul256 a b = if ltb (a * b) u256_mod then some (a * b) else none

abbrev pub checked_div256 : ℕ → ℕ → Option ℕ
checked_div256 a b = if nat_beq b 0 then none else some (a / b)

-- u64::from_le_bytes, and the `count` lowest bytes of `to_le_bytes`.
abbrev pub le_value : List ℕ → ℕ
le_value [] = 0
le_value (b ∷ bs) = b + 256 * le_value bs

abbrev pub le_bytes : ℕ → ℕ → List ℕ
le_bytes zero n = []
le_bytes (suc count) n = n % 256 ∷ le_bytes count (n / 256)

-- The numbers of `count` bytes are below this.
abbrev pub byte_limit : ℕ → ℕ
byte_limit zero = 1
byte_limit (suc count) = 256 * byte_limit count

pub le_value-le_bytes : (count n : ℕ) → n < byte_limit count → le_value (le_bytes count n) ≡ n
le_value-le_bytes zero n h = omega arith
le_value-le_bytes (suc count) n h = omega (arith, le_value-le_bytes count (n / 256))
