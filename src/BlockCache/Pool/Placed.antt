-- ===== src/BlockCache/Pool/Placed.antt =====
-- No step of a caller or of the reset thread makes a second place for a block, or loses its place.
use cloudfuse.Base.{ℕ, ◌+◌, ◌≡◌, refl, ap, List, [], ◌∷◌, ◌++◌, Option, none, some, arith}
use cloudfuse.BlockCache.Block.{Block, re_use, delete}
use cloudfuse.BlockCache.Pool.{
  BlockPool, priority, blocks, timeout, must_get, try_get, release, reset_take, reset_put, zeroed,
}
use cloudfuse.BlockCache.Pool.System.{
  System, Step, get, get_at_once, write, give_back, take, put, copies, places, with_freed,
}

pub copies-append : (a : ℕ) (xs ys : List Block) → copies a (xs ++ ys) ≡ copies a xs + copies a ys
copies-append a [] ys = omega arith
copies-append a (x ∷ xs) ys = ground (arith, copies-append a xs ys)

copies-with_freed :
    (a : ℕ) (z : Option Block) (freed : List Block)
    → copies a (with_freed z freed) ≡ copies a (with_freed z []) + copies a freed
copies-with_freed a none freed = omega arith
copies-with_freed a (some b) freed = ground arith

address-delete : (b : Block) → (delete b).address ≡ b.address
unfolding delete
address-delete b = refl

address-zeroed : (p : BlockPool) (b : Block) → (zeroed p b).address ≡ b.address
unfolding zeroed
address-zeroed p b = ground arith

pub Step-places : {size : ℕ} {s t : System} → Step size s t → (a : ℕ) → places a t ≡ places a s
unfolding re_use must_get try_get release reset_take reset_put
Step-places {s} (get priority p b e r) a = ground arith
Step-places {s} (get blocks p b e r) a = ground arith
Step-places {s} (get timeout p b e r) a = absurd (ground arith)
Step-places {s} (get_at_once p b e r) a = ground arith
Step-places {s} (write before after b b' e sized same r) a = ground (
  arith,
  ap (copies a) e,
  same,
  copies-append a before (b ∷ after),
  copies-append a before (b' ∷ after),
)
Step-places {s} (give_back before after b e r) a = ground (
  arith,
  ap (copies a) e,
  copies-append a before (b ∷ after),
  copies-append a before after,
  copies-append a s.pool.reset_block_ch (b ∷ []),
  address-delete b,
)
Step-places {s} (take p b idle e r) a = ground (arith, ap (copies a) idle)
Step-places {s} (put b e r) a = ground (
  arith,
  ap (copies a) e,
  copies-append a s.pool.priority_ch (zeroed s.pool b ∷ []),
  copies-append a s.pool.blocks_ch (zeroed s.pool b ∷ []),
  address-delete (zeroed s.pool b),
  address-zeroed s.pool b,
)
