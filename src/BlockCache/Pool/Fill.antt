-- ===== src/BlockCache/Pool/Fill.antt =====
-- The preallocation loop of `NewBlockPool`: no send waits, and the channels end up full.
use cloudfuse.Base.{
  ℕ, zero, suc, ◌+◌, ◌-◌, ◌/◌, ◌%◌, ◌≤◌, ◌<◌, ◌≡◌, refl, ap, Option, none, some, List, [], ◌∷◌,
  ◌++◌, length, length-append, replicate, All, All-append, Bool-cases, inl, inr, ltb, min, ◌==◌,
  u32_mod, false, ◌||◌, arith,
}
use mathlib.Core.Path.{subst}
use native.Mathlib.Nat.{le-div_iff_mul-le, mod-eq_of_lt}
use cloudfuse.Base.Int.{negsuc}
use cloudfuse.Bitmap
use cloudfuse.BlockCache.Block.{Block, allocate_block, block_flag_fresh}
use cloudfuse.BlockCache.Pool.{
  BlockPool, Outcome, built, place, fill, high_priority_of, empty_pool, new_block_pool,
}
use cloudfuse.BlockCache.Pool.System.{System, IsZeroed, IsCounted, IsClean, copies, places, once}
use cloudfuse.BlockCache.Pool.Placed.{copies-append}

-- The pool before the round `i`.
record IsFilled (size count high i : ℕ) (p : BlockPool) : Type 0 where
  priority_length : length p.priority_ch ≡ min i high
  blocks_length : length p.blocks_ch ≡ i - high
  reset_empty : p.reset_block_ch ≡ []
  priority_cap : p.priority_cap ≡ high
  blocks_cap : p.blocks_cap ≡ count - high - 1
  reset_cap : p.reset_cap ≡ count - 1
  max_blocks : p.max_blocks ≡ count
  block_size : p.block_size ≡ size
  priority_zeroed : All (IsZeroed size) p.priority_ch
  blocks_zeroed : All (IsZeroed size) p.blocks_ch
  placed : (a : ℕ) → copies a p.priority_ch + copies a p.blocks_ch ≡ once a i

high_priority-le : (count : ℕ) → high_priority_of count ≤ count / 10
unfolding high_priority_of
high_priority-le count = omega arith

abbrev mapped : ℕ → List ℕ → Block
mapped address memory = record {
  address = address;
  offset = 0;
  id = negsuc 0;
  state = none;
  flags = (Bitmap.set (Bitmap.reset 0).word block_flag_fresh).word;
  bytes = some memory;
}

allocate-IsZeroed :
    (i size : ℕ)
    → 0 < size
    → (b : Block) × (allocate_block i size (some (replicate size 0)) ≡ some b)
      × IsZeroed size b
      × (b.address ≡ i)
unfolding allocate_block
allocate-IsZeroed i size h = (mapped i (replicate size 0), ground arith, refl, refl)

-- The system of a pool that nobody has used yet.
abbrev pub start : BlockPool → System
start p = record { pool = p; in_use = []; resetting = []; freed = [] }

pub record IsReady (size count : ℕ) (o : Outcome) : Type 0 where
  pub pool : BlockPool
  pub zero_block : Block
  pub returned : o ≡ built pool
  pub counted : IsCounted count (start pool)
  pub clean : IsClean size zero_block (start pool)
  pub reset_empty : pool.reset_block_ch ≡ []
  pub block_count : pool.max_blocks ≡ count
  pub placed : (a : ℕ) → places a (start pool) ≡ once a count
  pub channels_full : length pool.priority_ch + length pool.blocks_ch + 1 ≡ count

module _ (size count high : ℕ) (few : high + 1 ≤ count) (fits : count < u32_mod) where
  place-IsFilled :
      (i : ℕ) (b : Block) {p : BlockPool}
      → IsFilled size count high i p
      → i + 1 < count
      → IsZeroed size b
      → b.address ≡ i
      → (p' : BlockPool) × (place count high i b p ≡ some p') × IsFilled size count high (i + 1) p'
  unfolding place
  place-IsFilled i b {p} h early zeros at = elim (Bool-cases (ltb i high)) [
    | inl reserved ↦ (
      record p { priority_ch = p.priority_ch ++ b ∷ [] },
      ground (arith, h.priority_length, h.priority_cap),
      record {
        priority_length = ground (arith, h.priority_length, length-append p.priority_ch (b ∷ []));
        blocks_length = ground (arith, h.blocks_length);
        reset_empty = h.reset_empty;
        priority_cap = h.priority_cap;
        blocks_cap = h.blocks_cap;
        reset_cap = h.reset_cap;
        max_blocks = h.max_blocks;
        block_size = h.block_size;
        priority_zeroed =
            All-append (IsZeroed size) p.priority_ch (b ∷ []) h.priority_zeroed (zeros, tt);
        blocks_zeroed = h.blocks_zeroed;
        placed = λ a. ground (arith, h.placed a, copies-append a p.priority_ch (b ∷ []), at);
      },
    )
    | inr general ↦ (
      record p { blocks_ch = p.blocks_ch ++ b ∷ [] },
      ground (arith, h.blocks_length, h.blocks_cap),
      record {
        priority_length = ground (arith, h.priority_length);
        blocks_length = ground (arith, h.blocks_length, length-append p.blocks_ch (b ∷ []));
        reset_empty = h.reset_empty;
        priority_cap = h.priority_cap;
        blocks_cap = h.blocks_cap;
        reset_cap = h.reset_cap;
        max_blocks = h.max_blocks;
        block_size = h.block_size;
        priority_zeroed = h.priority_zeroed;
        blocks_zeroed = All-append (IsZeroed size) p.blocks_ch (b ∷ []) h.blocks_zeroed (zeros, tt);
        placed = λ a. ground (arith, h.placed a, copies-append a p.blocks_ch (b ∷ []), at);
      },
    )
  ]

  place_last-IsReady :
      (i : ℕ) (b : Block) {p : BlockPool}
      → IsFilled size count high i p
      → i + 1 ≡ count
      → IsZeroed size b
      → b.address ≡ i
      → (place count high i b p ≡ some (record p { zero_block = some b }))
        × IsReady size count (built (record p { zero_block = some b }))
  unfolding place
  place_last-IsReady i b {p} h last zeros at = (
    ground arith,
    record {
      pool = record p { zero_block = some b };
      zero_block = b;
      returned = refl;
      counted = record {
        all_there = ground (arith, h.priority_length, h.blocks_length, ap length h.reset_empty);
        caps = ground (arith, h.priority_cap, h.blocks_cap, h.max_blocks);
        reset_cap = ground (arith, h.reset_cap, h.max_blocks);
        priority_fits = ground (arith, h.priority_length, h.priority_cap);
        blocks_fit = ground (arith, h.blocks_length, h.blocks_cap);
        max_blocks = h.max_blocks;
        none_freed = refl;
      };
      clean = record {
        zero_block = refl;
        zero_bytes = zeros;
        priority_zeroed = h.priority_zeroed;
        blocks_zeroed = h.blocks_zeroed;
        reset_sized = rw h.reset_empty tt;
        in_use_sized = tt;
        resetting_sized = tt;
      };
      reset_empty = h.reset_empty;
      block_count = h.max_blocks;
      placed = λ a. ground (arith, h.placed a, ap (copies a) h.reset_empty, at, last);
      channels_full = ground (arith, h.priority_length, h.blocks_length, h.max_blocks);
    },
  )

  module _ (mmap : ℕ → Option (List ℕ)) (pos : 0 < size)
      (maps : (i : ℕ) → mmap i ≡ some (replicate size 0)) where
    fill-step :
        (rounds i : ℕ) (p : BlockPool) {p' : BlockPool} (b : Block)
        → p.block_size ≡ size
        → allocate_block i size (some (replicate size 0)) ≡ some b
        → place count high i b p ≡ some p'
        → fill mmap count high (suc rounds) i p ≡ fill mmap count high rounds (i + 1) p'
    unfolding fill
    fill-step rounds i p b sized got placed =
        let answered : allocate_block i p.block_size (mmap i) ≡ some b = cc (sized, maps i, got) in
        rw (answered, fill, placed)

    fill-IsReady :
        (rounds i : ℕ) (p : BlockPool)
        → i + suc rounds ≡ count
        → IsFilled size count high i p
        → IsReady size count (fill mmap count high (suc rounds) i p)
    fill-IsReady zero i p e h =
        let (b, got, zeros, at) = allocate-IsZeroed i size pos in
        let (placed, ready) = place_last-IsReady i b h (omega arith) zeros at in
        rw (fill-step zero i p b h.block_size got placed) (unfold fill in ready)
    fill-IsReady (suc rounds) i p e h =
        let (b, got, zeros, at) = allocate-IsZeroed i size pos in
        let (p', placed, h') = place-IsFilled i b h (omega arith) zeros at in
        rw (fill-step (suc rounds) i p b h.block_size got placed)
          (fill-IsReady rounds (i + 1) p' (omega arith) h')

empty_pool-IsFilled :
    (size count : ℕ)
    → high_priority_of count + 1 ≤ count
    → count < u32_mod
    → IsFilled size count (high_priority_of count) 0 (empty_pool size count)
unfolding empty_pool
empty_pool-IsFilled size count few fits = record {
  priority_length = omega arith;
  blocks_length = omega arith;
  reset_empty = refl;
  priority_cap = refl;
  blocks_cap = omega arith;
  reset_cap = omega arith;
  max_blocks = refl;
  block_size = refl;
  priority_zeroed = tt;
  blocks_zeroed = tt;
  placed = λ a. ground arith;
}

-- With memory to be had, the constructor returns a pool whose channels are exactly full.
pub new_block_pool-IsReady :
    (mmap : ℕ → Option (List ℕ)) (block_size mem_size : ℕ)
    → 0 < block_size
    → block_size ≤ mem_size
    → mem_size / block_size < u32_mod
    → ((i : ℕ) → mmap i ≡ some (replicate block_size 0))
    → IsReady block_size (mem_size / block_size) (new_block_pool mmap block_size mem_size)
unfolding new_block_pool
new_block_pool-IsReady mmap size mem pos enough fits maps =
    let count = (mem / size) % u32_mod in
    let some_block : 1 ≤ mem / size = (le-div_iff_mul-le pos).1 (omega (arith, enough)) in
    let whole : count ≡ mem / size = mod-eq_of_lt fits in
    let counted : suc (count - 1) ≡ count = omega (arith, whole) in
    let accepted : (size == 0 || ltb mem size) ≡ false = ground arith in
    let few : high_priority_of count + 1 ≤ count = omega (arith, whole, high_priority-le count) in
    let fits' : count < u32_mod = omega (arith, whole) in
    let begin = empty_pool size count in
    let ready : IsReady size count
        (fill mmap count (high_priority_of count) (suc (count - 1)) 0 begin) =
      fill-IsReady size count (high_priority_of count) few fits' mmap pos maps (count - 1) 0 begin
        (omega (arith, counted)) (empty_pool-IsFilled size count few fits') in
    rw accepted (
      subst (λ c. IsReady size c (fill mmap count (high_priority_of count) count 0 begin)) whole
        (subst (λ n. IsReady size count (fill mmap count (high_priority_of count) n 0 begin))
          counted ready))
