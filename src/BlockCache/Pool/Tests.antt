-- ===== src/BlockCache/Pool/Tests.antt =====
-- A pool of two blocks of one byte: built, used and terminated.
use cloudfuse.Base.{
  ℕ, ◌+◌, ◌*◌, ◌/◌, ◌≡◌, refl, false, Option, none, some, List, [], ◌∷◌, length, replicate, arith,
}
use cloudfuse.Base.Int.{negsuc}
use cloudfuse.Bitmap
use cloudfuse.BlockCache.Block.{Block, allocate_block, re_use, is_dirty, is_failed}
use cloudfuse.BlockCache.Pool.{
  BlockPool, blocks, built, must_get, try_get, release, terminate, usage, new_block_pool,
}
use cloudfuse.BlockCache.Pool.System.{System, Reach, here, next, get, give_back, places, once}
use cloudfuse.BlockCache.Pool.Fill.{start}
use cloudfuse.BlockCache.Pool.Safety.{
  new_block_pool_fills, pool_loses_no_block, must_get_is_blank, usage_exact, length-terminate,
}

abbrev memory : ℕ → Option (List ℕ)
memory i = some (0 ∷ [])

abbrev mapped_at : ℕ → Block
mapped_at address = record {
  address = address;
  offset = 0;
  id = negsuc 0;
  state = none;
  flags = 1;
  bytes = some (0 ∷ []);
}

abbrev mapped : Block
mapped = mapped_at 0

abbrev two_blocks : BlockPool
two_blocks = record {
  blocks_ch = mapped ∷ [];
  blocks_cap = 1;
  priority_ch = [];
  priority_cap = 0;
  reset_block_ch = [];
  reset_cap = 1;
  zero_block = some (mapped_at 1);
  block_size = 1;
  max_blocks = 2;
}

abbrev handed_out : System
handed_out = record {
  pool = record two_blocks { blocks_ch = [] };
  in_use = re_use mapped ∷ [];
  resetting = [];
  freed = [];
}

abbrev waiting : System
waiting = record {
  pool = record two_blocks { blocks_ch = []; reset_block_ch = re_use mapped ∷ [] };
  in_use = [];
  resetting = [];
  freed = [];
}

builds : new_block_pool memory 1 2 ≡ built two_blocks
unfolding new_block_pool allocate_block Bitmap.set Bitmap.reset
builds = refl

takes : must_get blocks two_blocks ≡ some (handed_out.pool, some (re_use mapped))
unfolding must_get
takes = refl

borrowed : Reach 1 (start two_blocks) handed_out
borrowed = next here (get blocks handed_out.pool (re_use mapped) takes refl)

returned : Reach 1 (start two_blocks) waiting
unfolding release
returned = next borrowed (give_back [] [] (re_use mapped) refl refl)

-- A second caller finds nothing and times out, and `TryGet` answers nil.
empty_try_get : try_get handed_out.pool ≡ (handed_out.pool, none)
unfolding try_get
empty_try_get = refl

new_block_pool_fills_example :
    (p : BlockPool) × (new_block_pool memory 1 2 ≡ built p)
    × (length p.priority_ch + length p.blocks_ch + 1 ≡ 2 / 1)
    × (p.max_blocks ≡ 2 / 1)
    × (p.reset_block_ch ≡ [])
new_block_pool_fills_example =
    new_block_pool_fills memory 1 2 (omega arith) (omega arith) (omega arith) (λ i. refl)

pool_loses_no_block_example : (waiting.freed ≡ []) × (places 0 waiting ≡ once 0 (2 / 1))
pool_loses_no_block_example =
    pool_loses_no_block memory 1 2 (omega arith) (omega arith) (omega arith) (λ i. refl) two_blocks
      builds returned 0

must_get_is_blank_example :
    ((re_use mapped).bytes ≡ some (replicate 1 0))
    × (is_dirty (re_use mapped) ≡ false)
    × (is_failed (re_use mapped) ≡ false)
must_get_is_blank_example =
    must_get_is_blank memory 1 2 (omega arith) (omega arith) (omega arith) (λ i. refl) two_blocks
      builds here blocks handed_out.pool (re_use mapped) takes

usage_exact_test : usage handed_out.pool ≡ (1 + 0 + 1) * 100 / (2 / 1)
usage_exact_test =
    usage_exact memory 1 2 (omega arith) (omega arith) (omega arith) (λ i. refl) two_blocks builds
      borrowed (omega arith)

length-terminate_test : length (terminate handed_out.pool) + 1 ≡ 2 / 1
length-terminate_test =
    length-terminate memory 1 2 (omega arith) (omega arith) (omega arith) (λ i. refl) two_blocks
      builds borrowed refl
