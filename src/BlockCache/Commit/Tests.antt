-- ===== src/BlockCache/Commit/Tests.antt =====
-- A file of blocks of four bytes: block 0 is short, block 1 is missing and block 2 is the last.
use cloudfuse.Base.{
  ℕ, ◌+◌, ◌*◌, ◌≡◌, refl, ◌⊎◌, Bool, true, false, none, some, List, [], ◌∷◌, ◌==◌, if◌then◌else◌,
  length, get_or, arith,
}
use cloudfuse.BlockCache.Commit.{BlockInfo, Staging, Listed, get_block_id_list, committed_bytes}
use cloudfuse.BlockCache.Commit.Sparse.{sparse_byte, file_end}
use cloudfuse.BlockCache.Commit.Committed.{get_block_id_list-sparse}

abbrev from_hundred : ℕ → ℕ
from_hundred n = 100 + n

abbrev always : ℕ → Bool
always n = true

abbrev staged_before : Staging
staged_before = record { calls = 2; ids = 0; staged = (7, 1 ∷ 2 ∷ 3 ∷ []) ∷ (8, 5 ∷ 6 ∷ []) ∷ [] }

abbrev block_list : List (ℕ × BlockInfo)
block_list =
    (0, record { id = 7; committed = false; size = 3 })
    ∷ (2, record { id = 8; committed = false; size = 2 })
    ∷ []

abbrev data_of : ℕ → List ℕ
data_of id = if id == 7 then 1 ∷ 2 ∷ 3 ∷ [] else (if id == 8 then 5 ∷ 6 ∷ [] else [])

from_hundred_apart : (m n : ℕ) → from_hundred m ≡ from_hundred n → m ≡ n
from_hundred_apart m n e = omega (arith, e)

get_block_id_list-sparse_example :
    ((get_block_id_list from_hundred always 4 block_list staged_before ≡ none)
      × (n : ℕ) × (always n ≡ false))
    ⊎ ((r : Listed) × (get_block_id_list from_hundred always 4 block_list staged_before ≡ some r)
        × (get_or (committed_bytes r.staging.staged r.block_id_list) (2 * 4 + 1) 0
            ≡ sparse_byte data_of block_list 2 1)
        × (length (committed_bytes r.staging.staged r.block_id_list) ≡ file_end 4 0 block_list))
get_block_id_list-sparse_example =
    get_block_id_list-sparse from_hundred always 4 from_hundred_apart data_of block_list
      staged_before (omega arith, (omega arith, tt))
      (
        (refl, (λ n le e. absurd (omega (arith, e))), refl, omega arith),
        ((refl, (λ n le e. absurd (omega (arith, e))), refl, omega arith), tt),
      )
      2 1 (omega arith)

-- The IDs are block 0, its filler, the zero block and block 2; block 0 is listed for a restage.
get_block_id_list_test :
    get_block_id_list from_hundred always 4 block_list staged_before
    ≡ some (record {
      block_id_list = 7 ∷ 100 ∷ 101 ∷ 8 ∷ [];
      restage_id = 7 ∷ [];
      list_map =
          (0, record { id = 7; committed = false; size = 3 })
          ∷ (1, record { id = 101; committed = false; size = 4 })
          ∷ (2, record { id = 8; committed = false; size = 2 })
          ∷ [];
      staging = record {
        calls = 4;
        ids = 2;
        staged =
            (101, 0 ∷ 0 ∷ 0 ∷ 0 ∷ []) ∷ (100, 0 ∷ []) ∷ (7, 1 ∷ 2 ∷ 3 ∷ []) ∷ (8, 5 ∷ 6 ∷ []) ∷ [];
      };
    })
unfolding get_block_id_list
get_block_id_list_test = refl
