-- ===== src/BlockCache/Handle/Lists.antt =====
-- How often a block stands in a list.
use cloudfuse.Base.{ℕ, ◌+◌, ◌-◌, ◌≡◌, Bool, List, [], ◌∷◌, ◌++◌, ◌==◌, if◌then◌else◌, arith}
use cloudfuse.BlockCache.Handle.{remove_first}

abbrev pub one_if : Bool → ℕ
one_if b = if b then 1 else 0

abbrev pub count : ℕ → List ℕ → ℕ
count a [] = 0
count a (x ∷ xs) = one_if (x == a) + count a xs

pub count-append : (a : ℕ) (xs ys : List ℕ) → count a (xs ++ ys) ≡ count a xs + count a ys
count-append a [] ys = omega arith
count-append a (x ∷ xs) ys = let rest = count-append a xs ys in omega (arith, rest)

pub count-remove_first :
    (a x : ℕ) (xs : List ℕ) → count a (remove_first x xs) ≡ count a xs - one_if (x == a)
count-remove_first a x [] = ground arith
count-remove_first a x (y ∷ ys) = let rest = count-remove_first a x ys in ground (arith, rest)
