-- ===== src/FileCache/LruPolicy/Expire.antt =====
-- `deleteExpiredNodes`: which nodes it takes, and the list that it leaves.
use Prim.Native.String.{String}
use cloudfuse.Base.{
  ℕ, zero, suc, ◌≡◌, refl, ap, inl, inr, Bool, List, [], ◌∷◌, ◌++◌, if◌then◌else◌, Bool-cases,
}
use cloudfuse.FileCache.LruPolicy.{LruPolicy}

-- The first `room` nodes with no pending upload, and what stands behind them.
abbrev pub expired : (ℕ → Bool) → ℕ → List ℕ → List ℕ
expired pending room [] = []
expired pending zero (n ∷ ns) = []
expired pending (suc room) (n ∷ ns) =
    let skipped = expired pending (suc room) ns in
    let rest = expired pending room ns in if pending n then skipped else n ∷ rest

abbrev pub left_over : (ℕ → Bool) → ℕ → List ℕ → List ℕ
left_over pending room [] = []
left_over pending zero (n ∷ ns) = n ∷ ns
left_over pending (suc room) (n ∷ ns) =
    let skipped = left_over pending (suc room) ns in
    let rest = left_over pending room ns in if pending n then skipped else rest

abbrev pub passed : (ℕ → Bool) → ℕ → List ℕ → List ℕ
passed pending room [] = []
passed pending zero (n ∷ ns) = []
passed pending (suc room) (n ∷ ns) =
    let skipped = passed pending (suc room) ns in
    let rest = passed pending room ns in n ∷ (if pending n then skipped else rest)

pub passed-left_over :
    (pending : ℕ → Bool) (room : ℕ) (ns : List ℕ)
    → ns ≡ passed pending room ns ++ left_over pending room ns
passed-left_over pending room [] = refl
passed-left_over pending zero (n ∷ ns) = refl
passed-left_over pending (suc room) (n ∷ ns) =
    let a = passed-left_over pending (suc room) ns in
    let b = passed-left_over pending room ns in
    elim (Bool-cases (pending n)) [
      | inl skip ↦ rw skip (ap (λ t. n ∷ t) a)
      | inr take ↦ rw take (ap (λ t. n ∷ t) b)
    ]
