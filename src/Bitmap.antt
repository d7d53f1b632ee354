-- ===== src/Bitmap.antt =====
-- common/util.go: `BitMap64`, the flag word of blocks, cache items and object attributes.
-- A compare-and-swap loop is one atomic update: a retry starts again from the value that is there.
mod Digits
pub mod Laws
mod Tests
use Prim.Native.Nat.{bit_and, bit_or}
use cloudfuse.Base.{ℕ, ◌-◌, ◌^◌, Bool, true, false, not, ◌==◌, if◌then◌else◌}

-- `1 << bit`, for the flags of the program, which are all below 64.
abbrev pub mask : ℕ → ℕ
mask bit = 2 ^ bit

-- Go's `a &^ b`: the bits of `a` that are not in `b`.
abbrev pub and_not : ℕ → ℕ → ℕ
and_not a b = a - bit_and a b

unfoldable pub is_set : ℕ → ℕ → Bool
is_set bm bit = not (bit_and bm (mask bit) == 0)

-- The new word, and whether this call set the bit.
unfoldable pub set : ℕ → ℕ → record { word : ℕ; changed : Bool }
set bm bit =
    if not (bit_and bm (mask bit) == 0)
    then record { word = bm; changed = false }
    else record { word = bit_or bm (mask bit); changed = true }

unfoldable pub clear : ℕ → ℕ → record { word : ℕ; changed : Bool }
clear bm bit =
    if bit_and bm (mask bit) == 0
    then record { word = bm; changed = false }
    else record { word = and_not bm (mask bit); changed = true }

unfoldable pub reset : ℕ → record { word : ℕ; changed : Bool }
reset bm =
    if bm == 0 then record { word = bm; changed = false } else record { word = 0; changed = true }
