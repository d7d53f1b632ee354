-- ===== src/Bitmap/Digits.antt =====
-- The binary digits of a word, and what the native bit operations do to one of them.
use Prim.Native.Nat.{bit_and, bit_or, digits, bitwise, bit_and-bitwise, bit_or-bitwise}
use native.Mathlib.Nat.{le_refl, two-pow-succ}
use cloudfuse.Base.{
  ℕ, zero, suc, ◌+◌, ◌-◌, ◌*◌, ◌/◌, ◌%◌, ◌^◌, ◌≤◌, min, max, ◌≡◌, ◌≢◌, refl, ap, arith,
}

abbrev pub digit : ℕ → ℕ → ℕ
digit x zero = x % 2
digit x (suc k) = digit (x / 2) k

module _ (z : ℕ → ℕ) (f : ℕ → ℕ → ℕ) where
  fuel_irrelevant : (n m a b : ℕ) → a ≤ n → a ≤ m → digits z f n a b ≡ digits z f m a b
  fuel_irrelevant zero zero a b p q = refl
  fuel_irrelevant zero (suc m) zero b p q = refl
  fuel_irrelevant zero (suc m) (suc a) b p q = absurd (omega arith)
  fuel_irrelevant (suc n) zero zero b p q = refl
  fuel_irrelevant (suc n) zero (suc a) b p q = absurd (omega arith)
  fuel_irrelevant (suc n) (suc m) zero b p q = refl
  fuel_irrelevant (suc n) (suc m) (suc a) b p q =
      rw (fuel_irrelevant n m (suc a / 2) (b / 2) (omega arith) (omega arith))

  low_digit :
      (a b : ℕ)
      → bitwise z f (suc a) b ≡ bitwise z f (suc a / 2) (b / 2) * 2 + f (suc a % 2) (b % 2)
  low_digit a b =
      omega (arith, fuel_irrelevant a (suc a / 2) (suc a / 2) (b / 2) (omega arith) (le_refl _))

or_low_digit : (a b : ℕ) → bit_or a b ≡ bit_or (a / 2) (b / 2) * 2 + max (a % 2) (b % 2)
or_low_digit zero b = simp bit_or-bitwise (omega arith)
or_low_digit (suc a) b = simp bit_or-bitwise (low_digit (λ y. y) max a b)

and_low_digit : (a b : ℕ) → bit_and a b ≡ bit_and (a / 2) (b / 2) * 2 + min (a % 2) (b % 2)
and_low_digit zero b = simp bit_and-bitwise (omega arith)
and_low_digit (suc a) b = simp bit_and-bitwise (low_digit (λ y. 0) min a b)

and_zero : (n a : ℕ) → a ≤ n → bit_and a 0 ≡ 0
and_zero n zero h = refl
and_zero zero (suc a) h = absurd (omega arith)
and_zero (suc n) (suc a) h =
    omega (arith, and_low_digit (suc a) 0, and_zero n (suc a / 2) (omega arith))

or_zero : (n a : ℕ) → a ≤ n → bit_or a 0 ≡ a
or_zero n zero h = refl
or_zero zero (suc a) h = absurd (omega arith)
or_zero (suc n) (suc a) h =
    omega (arith, or_low_digit (suc a) 0, or_zero n (suc a / 2) (omega arith))

half_pow : (k : ℕ) → 2 ^ suc k / 2 ≡ 2 ^ k
half_pow k = omega (arith, two-pow-succ k)

-- `x & (1 << k)` is the k-th digit in its place.
pub and-pow : (k x : ℕ) → bit_and x (2 ^ k) ≡ digit x k * 2 ^ k
and-pow zero x = omega (arith, and_low_digit x 1, and_zero (x / 2) (x / 2) (le_refl _))
and-pow (suc k) x = omega (
  arith,
  two-pow-succ k,
  and_low_digit x (2 ^ suc k),
  and-pow k (x / 2),
  ap (λ t. digit (x / 2) k * t) (two-pow-succ k),
  ap (bit_and (x / 2)) (half_pow k),
)

-- `x | (1 << k)` adds the k-th digit if it is not there.
pub or-pow : (k x : ℕ) → digit x k ≡ 0 → bit_or x (2 ^ k) ≡ x + 2 ^ k
or-pow zero x h = omega (arith, or_low_digit x 1, or_zero (x / 2) (x / 2) (le_refl _))
or-pow (suc k) x h = omega (
  arith,
  two-pow-succ k,
  or_low_digit x (2 ^ suc k),
  or-pow k (x / 2) h,
  ap (bit_or (x / 2)) (half_pow k),
)

pub digit_cases : (k x : ℕ) → digit x k ≤ 1
digit_cases zero x = omega arith
digit_cases (suc k) x = digit_cases k (x / 2)

pub pow_pos : (k : ℕ) → 1 ≤ 2 ^ k
pow_pos zero = omega arith
pow_pos (suc k) = omega (arith, two-pow-succ k, pow_pos k)

half_add : (k x : ℕ) → (x + 2 ^ suc k) / 2 ≡ x / 2 + 2 ^ k
half_add k x = omega (arith, two-pow-succ k)

pub digit-add_self : (k x : ℕ) → digit x k ≡ 0 → digit (x + 2 ^ k) k ≡ 1
digit-add_self zero x h = omega arith
digit-add_self (suc k) x h = rw half_add (digit-add_self k (x / 2) h)

pub digit-add_ne : (k j x : ℕ) → digit x k ≡ 0 → k ≢ j → digit (x + 2 ^ k) j ≡ digit x j
digit-add_ne zero zero x h n = absurd (n refl)
digit-add_ne zero (suc j) x h n = ap (λ y. digit y j) (omega arith)
digit-add_ne (suc k) zero x h n = omega (arith, two-pow-succ k)
digit-add_ne (suc k) (suc j) x h n = rw half_add (digit-add_ne k j (x / 2) h (λ e. n (ap suc e)))

-- A word with the k-th digit is one without it, and that digit.
pub digit_split : (k x : ℕ) → digit x k ≡ 1 → (2 ^ k ≤ x) × (digit (x - 2 ^ k) k ≡ 0)
digit_split zero x h = (omega arith, omega arith)
digit_split (suc k) x h =
    let (below, gone) = digit_split k (x / 2) h in
    let half : (x - 2 ^ suc k) / 2 ≡ x / 2 - 2 ^ k = omega (arith, two-pow-succ k, below) in
    (omega (arith, two-pow-succ k, below), rw half gone)
