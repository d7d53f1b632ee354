-- ===== src/BlockCache/Pool/Counted.antt =====
-- Each step keeps the number of blocks.
use cloudfuse.Base.{ℕ, ap, [], ◌∷◌, length, length-append, arith}
use cloudfuse.BlockCache.Pool.{
  priority, blocks, timeout, must_get, try_get, release, reset_take, reset_put, zeroed,
}
use cloudfuse.BlockCache.Pool.System.{
  System, Step, get, get_at_once, write, give_back, take, put, IsCounted,
}

pub Step-IsCounted :
    {size count : ℕ} {s t : System} → Step size s t → IsCounted count s → IsCounted count t
unfolding must_get try_get release reset_take reset_put
Step-IsCounted {s} (get priority p b e r) h = ground arith
Step-IsCounted {s} (get blocks p b e r) h = ground arith
Step-IsCounted {s} (get timeout p b e r) h = absurd (ground arith)
Step-IsCounted {s} (get_at_once p b e r) h = ground arith
Step-IsCounted {s} (write before after b b' e sized same r) h =
    ground (arith, ap length e, length-append before (b ∷ after), length-append before (b' ∷ after))
Step-IsCounted {s} (give_back before after b e r) h = ground (
  arith,
  ap length e,
  length-append before (b ∷ after),
  length-append before after,
  length-append s.pool.reset_block_ch (b ∷ []),
)
Step-IsCounted {s} (take p b idle e r) h = ground (arith, ap length idle)
Step-IsCounted {s} (put b e r) h = ground (
  arith,
  ap length e,
  length-append s.pool.priority_ch (zeroed s.pool b ∷ []),
  length-append s.pool.blocks_ch (zeroed s.pool b ∷ []),
)
