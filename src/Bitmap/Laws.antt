-- ===== src/Bitmap/Laws.antt =====
-- The flag operations act on one bit and leave the others alone.
use Prim.Native.Nat.{bit_and}
use cloudfuse.Base.{
  ℕ, zero, suc, ◌+◌, ◌-◌, ◌^◌, ◌≤◌, ◌≡◌, refl, false, not, ◌==◌, ◌⊎◌, inl, inr, ◌&&◌, ◌||◌,
  if◌then◌else◌, arith,
}
use native.Mathlib.Decide.{ℕ_discrete}
use cloudfuse.Bitmap.{is_set, set, clear, reset}
use cloudfuse.Bitmap.Digits.{
  digit, and-pow, or-pow, digit_cases, pow_pos, digit-add_self, digit-add_ne, digit_split,
}

zero_or_one : (d : ℕ) → d ≤ 1 → (d ≡ 0) ⊎ (d ≡ 1)
zero_or_one d h = omega arith

mask_test : (x k : ℕ) → (bit_and x (2 ^ k) == 0) ≡ (digit x k == 0)
mask_test x k = elim (zero_or_one (digit x k) (digit_cases k x)) [
  | inl e ↦ ground (arith, and-pow k x, e)
  | inr e ↦ ground (arith, and-pow k x, e, pow_pos k)
]

pub is_set-digit : (x k : ℕ) → is_set x k ≡ (digit x k == 1)
unfolding is_set
is_set-digit x k = ground (arith, mask_test x k, digit_cases k x)

set-word : (x k : ℕ) → (set x k).word ≡ (if digit x k == 0 then x + 2 ^ k else x)
unfolding set
set-word x k = ground (arith, mask_test x k, or-pow k x)

clear-word : (x k : ℕ) → (clear x k).word ≡ (if digit x k == 0 then x else x - 2 ^ k)
unfolding clear
clear-word x k = ground (arith, mask_test x k, and-pow k x, digit_cases k x)

-- Setting one flag turns that flag on and leaves every other flag alone; the call reports
-- whether the flag was off.
pub is_set-set :
    (x k j : ℕ)
    → (is_set (set x k).word j ≡ (j == k || is_set x j)) × ((set x k).changed ≡ not (is_set x k))
is_set-set x k j = elim (ℕ_discrete j k) [
  | yes p ↦ rw p (
      ground (
        arith,
        set-word x k,
        is_set-digit (set x k).word k,
        is_set-digit x k,
        digit-add_self k x,
        digit_cases k x,
        changed,
      ))
  | no p ↦ ground (
    arith,
    set-word x k,
    is_set-digit (set x k).word j,
    is_set-digit x k,
    is_set-digit x j,
    digit-add_ne k j x,
    digit_cases k x,
    changed,
  )
]
  where
    changed : (set x k).changed ≡ not (is_set x k)
    changed = unfold set is_set in ground arith

-- Clearing one flag turns that flag off and leaves every other flag alone; the call reports
-- whether the flag was on.
pub is_set-clear :
    (x k j : ℕ)
    → (is_set (clear x k).word j ≡ (not (j == k) && is_set x j))
      × ((clear x k).changed ≡ is_set x k)
is_set-clear x k j = elim (ℕ_discrete j k) [
  | yes p ↦ rw p (
      ground (
        arith,
        clear-word x k,
        is_set-digit (clear x k).word k,
        is_set-digit x k,
        digit_split k x,
        digit_cases k x,
        changed,
      ))
  | no p ↦ ground (
    arith,
    clear-word x k,
    is_set-digit (clear x k).word j,
    is_set-digit x k,
    is_set-digit x j,
    digit_split k x,
    digit-add_ne k j (x - 2 ^ k),
    digit_cases k x,
    changed,
  )
]
  where
    changed : (clear x k).changed ≡ is_set x k
    changed = unfold clear is_set in ground arith

digit-zero : (k : ℕ) → digit 0 k ≡ 0
digit-zero zero = refl
digit-zero (suc k) = digit-zero k

-- After `Reset` no flag is set; the call reports whether any was.
pub is_set-reset :
    (x k : ℕ) → (is_set (reset x).word k ≡ false) × ((reset x).changed ≡ not (x == 0))
is_set-reset x k = (rw (cleared, is_set-digit, digit-zero), unfold reset in ground arith)
  where
    cleared : (reset x).word ≡ 0
    cleared = unfold reset in ground arith
