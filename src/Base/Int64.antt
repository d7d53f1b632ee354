-- ===== src/Base/Int64.antt =====
-- Go's int64: sums and negation wrap around at 64 bits.
use Prim.Native.Nat.{ℕ, ◌+◌, ◌-◌, ◌%◌, ◌^◌, ◌≤◌, ◌<◌}
use mathlib.Core.Path.{◌≡◌}
use native.Mathlib.Omega.{arith}
use cloudfuse.Base.Tests.{ltb, if◌then◌else◌}
use cloudfuse.Base.Int.{ℤ, pos, negsuc, pos_part, neg_part, ◌+ℤ◌, ◌-ℤ◌}

abbrev pub IsInt64 : ℤ → Type 0
IsInt64 z = (pos_part z < 2 ^ 63) × (neg_part z ≤ 2 ^ 63)

-- The bit pattern of an integer that lies within 64 bits of zero, and the integer of a pattern.
abbrev pub bits64 : ℤ → ℕ
bits64 z = (pos_part z + 2 ^ 64 - neg_part z) % 2 ^ 64

abbrev pub signed64 : ℕ → ℤ
signed64 u = if ltb u (2 ^ 63) then pos u else negsuc (2 ^ 64 - 1 - u)

unfoldable pub add_i64 : ℤ → ℤ → ℤ
add_i64 a b = signed64 (bits64 (a +ℤ b))

unfoldable pub sub_i64 : ℤ → ℤ → ℤ
sub_i64 a b = signed64 (bits64 (a -ℤ b))

pub signed-bits : (z : ℤ) → IsInt64 z → signed64 (bits64 z) ≡ z
signed-bits (pos n) h = ground arith
signed-bits (negsuc n) h = ground arith

pub add_i64_exact : (a b : ℤ) → IsInt64 (a +ℤ b) → add_i64 a b ≡ a +ℤ b
unfolding add_i64
add_i64_exact a b h = signed-bits (a +ℤ b) h

pub sub_i64_exact : (a b : ℤ) → IsInt64 (a -ℤ b) → sub_i64 a b ≡ a -ℤ b
unfolding sub_i64
sub_i64_exact a b h = signed-bits (a -ℤ b) h

pub signed64-IsInt64 : (u : ℕ) → u < 2 ^ 64 → IsInt64 (signed64 u)
signed64-IsInt64 u h = ground arith
