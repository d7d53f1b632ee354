-- ===== src/BlockCache/Pool.antt =====
-- component/block_cache/blockpool.go: the pool of blocks and its three channels.
-- A block has an address, the round of `NewBlockPool` that allocated it, by which a pointer to it is
-- told from others; a channel holds the blocks with what they hold at that time.
-- A channel is its queue of waiting values and its capacity. A send that finds no room waits, and in
-- `NewBlockPool` nobody receives yet: that is the outcome `stuck`.
pub mod System
mod Fill
mod Counted
mod Placed
mod Clean
pub mod Safety
mod Tests
use cloudfuse.Base.{
  ℕ, zero, suc, ◌+◌, ◌-◌, ◌/◌, ◌%◌, Bool, true, false, ◌||◌, Option, none, some, List, [], ◌∷◌,
  ◌++◌, map, ltb, ◌==◌, if◌then◌else◌, length, copy, u32_mod, mul32, sub32,
}
use cloudfuse.BlockCache.Block.{Block, allocate_block, delete, re_use}

pub record BlockPool : Type 0 where
  pub blocks_ch : List Block
  pub blocks_cap : ℕ
  pub priority_ch : List Block
  pub priority_cap : ℕ
  pub reset_block_ch : List Block
  pub reset_cap : ℕ
  pub zero_block : Option Block
  pub block_size : ℕ
  pub max_blocks : ℕ

-- What `NewBlockPool` does: it returns nil, waits for ever on a full channel, or returns a pool.
pub data Outcome : Type 0 where
  rejected : Outcome
  stuck : Outcome
  built : BlockPool → Outcome

abbrev pub has_room : List Block → ℕ → Bool
has_room ch cap = ltb (length ch) cap

-- The body of the loop after a block has been allocated; none is a send that never returns.
place : ℕ → ℕ → ℕ → Block → BlockPool → Option BlockPool
place block_count high_priority i b pool =
    if i == sub32 block_count 1
    then some (record pool { zero_block = some b })
    else if ltb i high_priority
    then if has_room pool.priority_ch pool.priority_cap
      then some (record pool { priority_ch = pool.priority_ch ++ b ∷ [] })
      else none
    else if has_room pool.blocks_ch pool.blocks_cap
    then some (record pool { blocks_ch = pool.blocks_ch ++ b ∷ [] })
    else none

-- `for i := range blockCount`, with `rounds` left. `mmap i` is what the i-th `mmap` answers,
-- and `i` is the address of the block of this round.
fill : (ℕ → Option (List ℕ)) → ℕ → ℕ → ℕ → ℕ → BlockPool → Outcome
fill mmap block_count high_priority zero i pool = built pool
fill mmap block_count high_priority (suc rounds) i pool =
    elim (allocate_block i pool.block_size (mmap i)) [
      | none ↦ rejected
      | some b ↦ elim (place block_count high_priority i b pool) [
        | none ↦ stuck
        | some pool' ↦ fill mmap block_count high_priority rounds (i + 1) pool'
      ]
    ]

high_priority_of : ℕ → ℕ
high_priority_of block_count = mul32 block_count 10 / 100

empty_pool : ℕ → ℕ → BlockPool
unfolding high_priority_of
empty_pool block_size block_count = record {
  blocks_ch = [];
  blocks_cap = sub32 (sub32 block_count (high_priority_of block_count)) 1;
  priority_ch = [];
  priority_cap = high_priority_of block_count;
  reset_block_ch = [];
  reset_cap = sub32 block_count 1;
  zero_block = none;
  block_size = block_size;
  max_blocks = block_count;
}

pub new_block_pool : (ℕ → Option (List ℕ)) → ℕ → ℕ → Outcome
unfolding fill empty_pool place
new_block_pool mmap block_size mem_size =
    let block_count = (mem_size / block_size) % u32_mod in
    if block_size == 0 || ltb mem_size block_size
    then rejected
    else fill mmap block_count (high_priority_of block_count) block_count 0
        (empty_pool block_size block_count)

-- `Usage`, in uint32 arithmetic.
pub usage : BlockPool → ℕ
usage pool =
    mul32
      (sub32 pool.max_blocks
        ((length pool.blocks_ch + length pool.priority_ch + length pool.reset_block_ch) % u32_mod))
      100
    / pool.max_blocks

-- Which case of the `select` in `MustGet` fires; Go picks any that is ready.
pub data Source : Type 0 where
  priority blocks timeout : Source

-- A receive from one of the channels, where it is not empty, and the block made ready for reuse.
pub receive : List Block → (List Block → BlockPool) → Option (BlockPool × Option Block)
receive [] rebuild = none
receive (b ∷ rest) rebuild = some (rebuild rest, some (re_use b))

-- The answer to the caller, where the chosen case is ready: a block, or the error.
pub must_get : Source → BlockPool → Option (BlockPool × Option Block)
unfolding receive
must_get priority pool = receive pool.priority_ch (λ rest. record pool { priority_ch = rest })
must_get blocks pool = receive pool.blocks_ch (λ rest. record pool { blocks_ch = rest })
must_get timeout pool = some (pool, none)

pub try_get : BlockPool → BlockPool × Option Block
unfolding receive
try_get pool = elim (receive pool.blocks_ch (λ rest. record pool { blocks_ch = rest })) [
  | none ↦ (pool, none)
  | some answer ↦ answer
]

-- The pool afterwards, and the block that was unmapped because there was no room for it.
pub release : Block → BlockPool → BlockPool × Option Block
release b pool =
    if has_room pool.reset_block_ch pool.reset_cap
    then (record pool { reset_block_ch = pool.reset_block_ch ++ b ∷ [] }, none)
    else (pool, some (delete b))

-- One round of the thread `resetBlock`, in two steps: it takes a block, then zeroes it and gives it
-- back. Other threads may run between the two.
pub reset_take : BlockPool → Option (BlockPool × Block)
reset_take pool = elim pool.reset_block_ch [
  | [] ↦ none
  | b ∷ rest ↦ some (record pool { reset_block_ch = rest }, b)
]

-- `copy(block.data, pool.zeroBlock.data)`; a block without memory is an empty slice.
pub zeroed : BlockPool → Block → Block
zeroed pool b = elim b.bytes [
  | none ↦ b
  | some old ↦ elim pool.zero_block [
    | none ↦ b
    | some z ↦ elim z.bytes [ none ↦ b | some zeros ↦ record b { bytes = some (copy old zeros) } ]
  ]
]

pub reset_put : Block → BlockPool → BlockPool × Option Block
unfolding zeroed
reset_put b pool =
    let b' = zeroed pool b in
    if has_room pool.priority_ch pool.priority_cap
    then (record pool { priority_ch = pool.priority_ch ++ b' ∷ [] }, none)
    else if has_room pool.blocks_ch pool.blocks_cap
    then (record pool { blocks_ch = pool.blocks_ch ++ b' ∷ [] }, none)
    else (pool, some (delete b'))

-- The thread `resetBlock` runs until its closed channel is empty.
pub drain : ℕ → BlockPool → BlockPool × List Block
drain zero pool = (pool, [])
drain (suc n) pool = elim (reset_take pool) [
  | none ↦ (pool, [])
  | some (p, b) ↦
      let (p', gone) = reset_put b p in
      let (p'', rest) = drain n p' in (p'', elim gone [ none ↦ rest | some g ↦ g ∷ rest ])
]

-- `Terminate` closes the reset channel, waits for its thread, and unmaps what the pool holds.
pub terminate : BlockPool → List Block
unfolding drain
terminate pool =
    let (p, gone) = drain (length pool.reset_block_ch) pool in
    gone
    ++ (elim p.zero_block [ none ↦ [] | some z ↦ delete z ∷ [] ])
    ++ map delete p.blocks_ch
    ++ map delete p.priority_ch
