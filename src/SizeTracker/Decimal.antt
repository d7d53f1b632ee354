-- ===== src/SizeTracker/Decimal.antt =====
-- Go's `%d` of an unsigned number and `strconv.ParseUint(s, 10, 64)` (`parseUint64` of
-- component/size_tracker/journal.go), over the bytes of the text.
use native.Mathlib.Nat.{le_refl}
use cloudfuse.Base.{
  ℕ, zero, suc, ◌+◌, ◌-◌, ◌*◌, ◌/◌, ◌%◌, ◌≤◌, ◌<◌, ◌≡◌, refl, ◌&&◌, Option, none, some, List, [],
  ◌∷◌, ◌++◌, ltb, leb, if◌then◌else◌, All, All-append, Bool-cases, inl, inr, u64_mod, arith,
}

-- The digits of `n`; the fuel `n` is enough, since each round divides by ten.
digits_of : ℕ → ℕ → List ℕ
digits_of zero n = (48 + n) ∷ []
digits_of (suc fuel) n =
    let front = digits_of fuel (n / 10) in
    if ltb n 10 then (48 + n) ∷ [] else front ++ (48 + n % 10) ∷ []

pub print_uint : ℕ → List ℕ
unfolding digits_of
print_uint n = digits_of n n

-- One digit more: none if the byte is no digit, or the value leaves 64 bits.
add_digit : ℕ → ℕ → Option ℕ
add_digit n c =
    if leb 48 c && leb c 57
    then (if ltb (n * 10 + (c - 48)) u64_mod then some (n * 10 + (c - 48)) else none)
    else none

next_digit : Option ℕ → ℕ → Option ℕ
unfolding add_digit
next_digit none c = none
next_digit (some n) c = add_digit n c

parse_from : Option ℕ → List ℕ → Option ℕ
unfolding next_digit
parse_from n [] = n
parse_from n (c ∷ cs) = parse_from (next_digit n c) cs

pub parse_uint64 : List ℕ → Option ℕ
unfolding parse_from
parse_uint64 [] = none
parse_uint64 (c ∷ cs) = parse_from (some 0) (c ∷ cs)

parse_from-append :
    (n : Option ℕ) (xs ys : List ℕ) → parse_from n (xs ++ ys) ≡ parse_from (parse_from n xs) ys
unfolding parse_from
parse_from-append n [] ys = refl
parse_from-append n (x ∷ xs) ys = parse_from-append (next_digit n x) xs ys

add_digit_lem : (n : ℕ) → n < u64_mod → add_digit (n / 10) (48 + n % 10) ≡ some n
unfolding add_digit
add_digit_lem n h = ground arith

one_digit : (n : ℕ) → n < 10 → parse_from (some 0) ((48 + n) ∷ []) ≡ some n
unfolding parse_from
one_digit n h = ground arith

parse-digits_of :
    (fuel n : ℕ) → n ≤ fuel → n < u64_mod → parse_from (some 0) (digits_of fuel n) ≡ some n
unfolding digits_of
parse-digits_of zero n h b = one_digit n (omega arith)
parse-digits_of (suc fuel) n h b = elim (Bool-cases (ltb n 10)) [
  | inl small ↦ rw small (one_digit n (ground arith))
  | inr large ↦
      let ih = parse-digits_of fuel (n / 10) (ground arith) (omega arith) in
      rw (large, parse_from-append (some 0) (digits_of fuel (n / 10)), ih)
        (unfold parse_from in add_digit_lem n b)
]

abbrev pub IsDigit : ℕ → Type 0
IsDigit c = (48 ≤ c) × (c ≤ 57)

digits_of-IsDigit : (fuel n : ℕ) → n ≤ fuel → All IsDigit (digits_of fuel n)
unfolding digits_of
digits_of-IsDigit zero n h = omega arith
digits_of-IsDigit (suc fuel) n h = elim (Bool-cases (ltb n 10)) [
  | inl small ↦ rw small (ground arith)
  | inr large ↦ rw large (
      All-append IsDigit (digits_of fuel (n / 10)) _
        (digits_of-IsDigit fuel (n / 10) (ground arith)) (omega arith))
]

pub print_uint-IsDigit : (n : ℕ) → All IsDigit (print_uint n)
unfolding print_uint
print_uint-IsDigit n = digits_of-IsDigit n n (le_refl n)

parse-cons : (c : ℕ) (cs : List ℕ) → parse_uint64 (c ∷ cs) ≡ parse_from (some 0) (c ∷ cs)
unfolding parse_uint64
parse-cons c cs = refl

digits_of-cons : (fuel n : ℕ) → (c : ℕ) × (cs : List ℕ) × (digits_of fuel n ≡ c ∷ cs)
unfolding digits_of
digits_of-cons zero n = (48 + n, [], refl)
digits_of-cons (suc fuel) n = elim (Bool-cases (ltb n 10)) [
  | inl small ↦ (48 + n, [], rw small)
  | inr large ↦
      let (c, cs, e) = digits_of-cons fuel (n / 10) in (c, cs ++ (48 + n % 10) ∷ [], rw (large, e))
]

-- Printing a number of 64 bits and parsing the text gives the number back.
pub parse-print : (n : ℕ) → n < u64_mod → parse_uint64 (print_uint n) ≡ some n
unfolding print_uint
parse-print n h =
    let (c, cs, e) = digits_of-cons n n in
    let parsed : parse_from (some 0) (c ∷ cs) ≡ some n =
      rw e at (parse-digits_of n n (le_refl n) h) in
    rw (e, parse-cons) parsed
