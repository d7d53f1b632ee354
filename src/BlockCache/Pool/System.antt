-- ===== src/BlockCache/Pool/System.antt =====
-- The pool together with the blocks that callers hold, the steps of its threads, and the invariants.
use cloudfuse.Base.{
  ℕ, suc, ◌+◌, ◌≤◌, ◌≡◌, ◌==◌, ltb, if◌then◌else◌, Option, none, some, List, [], ◌∷◌, ◌++◌, length,
  replicate, All,
}
use cloudfuse.BlockCache.Block.{Block}
use cloudfuse.BlockCache.Pool.{BlockPool, Source, must_get, try_get, release, reset_take, reset_put}

-- `in_use` are the blocks that callers hold, `resetting` is the one in the hands of the thread
-- `resetBlock`, and `freed` collects what was unmapped since the pool was built.
pub record System : Type 0 where
  pub pool : BlockPool
  pub in_use : List Block
  pub resetting : List Block
  pub freed : List Block

abbrev pub with_freed : Option Block → List Block → List Block
with_freed none freed = freed
with_freed (some b) freed = b ∷ freed

abbrev pub memory_size : Option (List ℕ) → Option ℕ
memory_size none = none
memory_size (some memory) = some (length memory)

abbrev pub HasSize : ℕ → Block → Type 0
HasSize size b = memory_size b.bytes ≡ some size

abbrev pub IsZeroed : ℕ → Block → Type 0
IsZeroed size b = b.bytes ≡ some (replicate size 0)

-- One step of any thread: a caller gets a block, writes into one, or releases one; or the reset
-- thread takes the next block or gives it back.
pub data Step (size : ℕ) (s t : System) : Type 0 where
  get :
      (from : Source) (p : BlockPool) (b : Block)
      → must_get from s.pool ≡ some (p, some b)
      → t ≡ record s { pool = p; in_use = b ∷ s.in_use }
      → Step size s t
  get_at_once :
      (p : BlockPool) (b : Block)
      → try_get s.pool ≡ (p, some b)
      → t ≡ record s { pool = p; in_use = b ∷ s.in_use }
      → Step size s t
  write :
      (before after : List Block) (b b' : Block)
      → s.in_use ≡ before ++ b ∷ after
      → HasSize size b'
      → b'.address ≡ b.address
      → t ≡ record s { in_use = before ++ b' ∷ after }
      → Step size s t
  give_back :
      (before after : List Block) (b : Block)
      → s.in_use ≡ before ++ b ∷ after
      → t ≡ record s {
        pool = (release b s.pool).0;
        in_use = before ++ after;
        freed = with_freed (release b s.pool).1 s.freed;
      }
      → Step size s t
  take :
      (p : BlockPool) (b : Block)
      → s.resetting ≡ []
      → reset_take s.pool ≡ some (p, b)
      → t ≡ record s { pool = p; resetting = b ∷ [] }
      → Step size s t
  put :
      (b : Block)
      → s.resetting ≡ b ∷ []
      → t ≡ record s {
        pool = (reset_put b s.pool).0;
        resetting = [];
        freed = with_freed (reset_put b s.pool).1 s.freed;
      }
      → Step size s t

pub data Reach (size : ℕ) (s : System) : System → Type 0 where
  here : Reach size s s
  next : {t u : System} → Reach size s t → Step size t u → Reach size s u

-- How often the block of an address stands in a list.
abbrev pub copies : ℕ → List Block → ℕ
copies a [] = 0
copies a (b ∷ bs) = let rest = copies a bs in if b.address == a then suc rest else rest

-- How often it stands anywhere: in a channel, in the hands of a caller or of the reset thread, as the
-- zero block, or among the blocks that were unmapped.
abbrev pub places : ℕ → System → ℕ
places a s =
    copies a s.pool.priority_ch
    + copies a s.pool.blocks_ch
    + copies a s.pool.reset_block_ch
    + copies a s.in_use
    + copies a s.resetting
    + copies a (with_freed s.pool.zero_block [])
    + copies a s.freed

-- One for the addresses below the number of blocks.
abbrev pub once : ℕ → ℕ → ℕ
once a count = if ltb a count then 1 else 0

-- The lengths add up to the number of blocks, no channel holds more than its capacity, and nothing
-- was unmapped.
pub record IsCounted (count : ℕ) (s : System) : Type 0 where
  pub all_there :
      length s.pool.priority_ch
        + length s.pool.blocks_ch
        + length s.pool.reset_block_ch
        + length s.in_use
        + length s.resetting
        + 1
      ≡ count
  pub caps : s.pool.priority_cap + s.pool.blocks_cap + 1 ≡ count
  pub reset_cap : s.pool.reset_cap + 1 ≡ count
  pub priority_fits : length s.pool.priority_ch ≤ s.pool.priority_cap
  pub blocks_fit : length s.pool.blocks_ch ≤ s.pool.blocks_cap
  pub max_blocks : s.pool.max_blocks ≡ count
  pub none_freed : s.freed ≡ []

-- Free blocks are zeroed, and every other block has its memory, of the size of the pool.
pub record IsClean (size : ℕ) (z : Block) (s : System) : Type 0 where
  pub zero_block : s.pool.zero_block ≡ some z
  pub zero_bytes : IsZeroed size z
  pub priority_zeroed : All (IsZeroed size) s.pool.priority_ch
  pub blocks_zeroed : All (IsZeroed size) s.pool.blocks_ch
  pub reset_sized : All (HasSize size) s.pool.reset_block_ch
  pub in_use_sized : All (HasSize size) s.in_use
  pub resetting_sized : All (HasSize size) s.resetting
