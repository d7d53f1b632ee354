-- ===== src/BlockCache/Pool/Safety.antt =====
-- What the pool promises to the block cache, over every interleaving of its callers and its thread.
use cloudfuse.Base.{
  ℕ, zero, suc, ◌+◌, ◌*◌, ◌/◌, ◌%◌, ◌≤◌, ◌<◌, ◌≡◌, refl, ap, ◌∙◌, false, Option, none, some, List,
  [], ◌∷◌, length, length-append, length-map, replicate, u32_mod, mul32, sub32, map, All, arith,
}
use cloudfuse.Bitmap
use cloudfuse.Bitmap.Laws.{is_set-set, is_set-reset}
use cloudfuse.BlockCache.Block.{Block, re_use, delete, is_dirty, is_failed}
use cloudfuse.BlockCache.Pool.{
  BlockPool, Source, priority, blocks, timeout, built, must_get, reset_take, reset_put, drain,
  terminate, usage, new_block_pool,
}
use cloudfuse.BlockCache.Pool.System.{
  System, IsZeroed, Reach, here, next, take, put, IsCounted, IsClean, places, once,
}
use cloudfuse.BlockCache.Pool.Fill.{start, new_block_pool-IsReady}
use cloudfuse.BlockCache.Pool.Counted.{Step-IsCounted}
use cloudfuse.BlockCache.Pool.Placed.{Step-places}
use cloudfuse.BlockCache.Pool.Clean.{Step-IsClean, receive-Takes}

Reach-IsCounted :
    {size count : ℕ} {s t : System} → Reach size s t → IsCounted count s → IsCounted count t
Reach-IsCounted here h = h
Reach-IsCounted (next r st) h = Step-IsCounted st (Reach-IsCounted r h)

Reach-places : {size : ℕ} {s t : System} → Reach size s t → (a : ℕ) → places a t ≡ places a s
Reach-places here a = refl
Reach-places (next r st) a = Step-places st a ∙ Reach-places r a

Reach-IsClean :
    {size : ℕ} {z : Block} {s t : System} → Reach size s t → IsClean size z s → IsClean size z t
Reach-IsClean here h = h
Reach-IsClean (next r st) h = Step-IsClean (Reach-IsClean r h) st

re_use-flags : (b : Block) → (is_dirty (re_use b) ≡ false) × (is_failed (re_use b) ≡ false)
unfolding re_use is_dirty is_failed
re_use-flags b =
    let word = (Bitmap.reset b.flags).word in
    (
      (is_set-set word 0 3).0 ∙ (is_set-reset b.flags 3).0,
      (is_set-set word 0 5).0 ∙ (is_set-reset b.flags 5).0,
    )

cons_of :
    (ch : List Block) {n : ℕ}
    → length ch ≡ suc n
    → (b : Block) × (rest : List Block) × (ch ≡ b ∷ rest)
cons_of [] e = absurd (omega arith)
cons_of (b ∷ rest) e = (b, rest, refl)

-- One round of the reset thread.
round :
    {count : ℕ} (s : System) (b : Block) (rest : List Block)
    → s.pool.reset_block_ch ≡ b ∷ rest
    → s.resetting ≡ []
    → IsCounted count s
    → (q : BlockPool) × (reset_take s.pool ≡ some (q, b))
      × (IsCounted count (record s { pool = (reset_put b q).0 }))
      × ((reset_put b q).1 ≡ none)
      × ((reset_put b q).0.reset_block_ch ≡ rest)
      × ((reset_put b q).0.zero_block ≡ s.pool.zero_block)
round {count} s b rest e idle h =
    let q = record s.pool { reset_block_ch = rest } in
    let taken : reset_take s.pool ≡ some (q, b) = unfold reset_take in ground (arith, e) in
    let held = Step-IsCounted {size = 0} (take q b idle taken refl) h in
    let done = Step-IsCounted {size = 0} (put b refl refl) held in
    let kept : IsCounted count (record s { pool = (reset_put b q).0 }) = record {
      all_there = ground (arith, done.all_there, ap length idle);
      caps = done.caps;
      reset_cap = done.reset_cap;
      priority_fits = done.priority_fits;
      blocks_fit = done.blocks_fit;
      max_blocks = done.max_blocks;
      none_freed = h.none_freed;
    } in
    (
      q,
      taken,
      kept,
      ground (arith, done.none_freed),
      unfold reset_put in ground arith,
      unfold reset_put in ground arith,
    )

drain-suc :
    (n : ℕ) (p : BlockPool) {q : BlockPool} {b : Block}
    → reset_take p ≡ some (q, b)
    → (reset_put b q).1 ≡ none
    → drain (suc n) p ≡ drain n (reset_put b q).0
unfolding drain
drain-suc n p taken kept_all = rw (taken, drain, kept_all)

-- Draining the reset channel gives every block in it back to one of the two other channels.
drain_lem :
    {count : ℕ} (n : ℕ) (s : System)
    → length s.pool.reset_block_ch ≡ n
    → s.resetting ≡ []
    → IsCounted count s
    → (IsCounted count (record s { pool = (drain n s.pool).0 }))
      × ((drain n s.pool).0.reset_block_ch ≡ [])
      × ((drain n s.pool).1 ≡ [])
      × ((drain n s.pool).0.zero_block ≡ s.pool.zero_block)
drain_lem zero s e idle h = unfold drain in (h, ground (arith, e), refl, refl)
drain_lem (suc n) s e idle h =
    let (b, rest, some_left) = cons_of s.pool.reset_block_ch e in
    let (q, taken, h', kept_all, left, zero_kept) = round s b rest some_left idle h in
    let rest_n : length (reset_put b q).0.reset_block_ch ≡ n = ground (arith, left, some_left, e) in
    let (c, drained, none_gone, zero_same) =
      drain_lem n (record s { pool = (reset_put b q).0 }) rest_n idle h' in
    rw (drain-suc n s.pool taken kept_all) (c, drained, none_gone, zero_same ∙ zero_kept)

taken-IsZeroed :
    {size : ℕ} {z : Block} {s : System} (from : Source) (q : BlockPool) (b : Block)
    → IsClean size z s
    → must_get from s.pool ≡ some (q, some b)
    → (head : Block) × (b ≡ re_use head) × IsZeroed size head
unfolding must_get
taken-IsZeroed {s} priority q b clean e =
    let (head, rest, ech, eq, eb) = receive-Takes s.pool.priority_ch _ q b e in
    let free : All (IsZeroed _) (head ∷ rest) = rw ech at clean.priority_zeroed in
    (head, eb, free.0)
taken-IsZeroed {s} blocks q b clean e =
    let (head, rest, ech, eq, eb) = receive-Takes s.pool.blocks_ch _ q b e in
    let free : All (IsZeroed _) (head ∷ rest) = rw ech at clean.blocks_zeroed in (head, eb, free.0)
taken-IsZeroed timeout q b clean e = absurd (cc)

module _ (mmap : ℕ → Option (List ℕ)) (block_size mem_size : ℕ) (pos : 0 < block_size)
    (enough : block_size ≤ mem_size) (fits : mem_size / block_size < u32_mod)
    (maps : (i : ℕ) → mmap i ≡ some (replicate block_size 0)) where
  -- Let blocks have a positive size, the memory hold one block and fewer than 2^32, and every
  -- `mmap` give zeros. Then the constructor never waits on a channel, and returns a pool
  -- of as many blocks as fit the memory, all in the two free channels but the zero block.
  pub new_block_pool_fills :
      (p : BlockPool) × (new_block_pool mmap block_size mem_size ≡ built p)
      × (length p.priority_ch + length p.blocks_ch + 1 ≡ mem_size / block_size)
      × (p.max_blocks ≡ mem_size / block_size)
      × (p.reset_block_ch ≡ [])
  new_block_pool_fills =
      let ready = new_block_pool-IsReady mmap block_size mem_size pos enough fits maps in
      (ready.pool, ready.returned, ready.channels_full, ready.block_count, ready.reset_empty)

  module _ (p : BlockPool) (made : new_block_pool mmap block_size mem_size ≡ built p) {s : System}
      (run : Reach block_size (start p) s) where
    IsCounted-here : IsCounted (mem_size / block_size) s
    IsCounted-here =
        let ready = new_block_pool-IsReady mmap block_size mem_size pos enough fits maps in
        let same : ready.pool ≡ p = cc (made, ready.returned) in
        Reach-IsCounted run (rw same at ready.counted)

    IsPlaced-here : (a : ℕ) → places a s ≡ once a (mem_size / block_size)
    IsPlaced-here a =
        let ready = new_block_pool-IsReady mmap block_size mem_size pos enough fits maps in
        let same : ready.pool ≡ p = cc (made, ready.returned) in
        Reach-places run a ∙ (rw same at (ready.placed a))

    IsClean-here : (z : Block) × IsClean block_size z s
    IsClean-here =
        let ready = new_block_pool-IsReady mmap block_size mem_size pos enough fits maps in
        let same : ready.pool ≡ p = cc (made, ready.returned) in
        (ready.zero_block, Reach-IsClean run (rw same at ready.clean))

    -- Let blocks have a positive size, the memory hold one block and fewer than 2^32, and
    -- every `mmap` give zeros. From a pool that the constructor built, after any steps of callers and of the reset thread,
    -- each of the blocks that it allocated is in exactly one place: in one of the three channels, with
    -- one caller, in the hands of the reset thread, or as the zero block; no other block is in any
    -- place, and neither `Release` nor the reset thread has unmapped one.
    pub pool_loses_no_block :
        (address : ℕ) → (s.freed ≡ []) × (places address s ≡ once address (mem_size / block_size))
    pool_loses_no_block address = (IsCounted-here.none_freed, IsPlaced-here address)

    -- Let blocks have a positive size, the memory hold one block and fewer than 2^32, and
    -- every `mmap` give zeros. After any steps from a pool that the constructor
    -- built, a block that `MustGet` hands out, from either channel and whoever used it before, holds only
    -- zeros, and is marked neither dirty nor failed.
    pub must_get_is_blank :
        (from : Source) (q : BlockPool) (b : Block)
        → must_get from s.pool ≡ some (q, some b)
        → (b.bytes ≡ some (replicate block_size 0)) × (is_dirty b ≡ false) × (is_failed b ≡ false)
    must_get_is_blank from q b e =
        let (z, clean) = IsClean-here in
        let (head, eb, zeros) = taken-IsZeroed from q b clean e in
        let (clean_flag, good_flag) = re_use-flags head in
        rw eb (unfold re_use in zeros, clean_flag, good_flag)

    -- Let blocks have a positive size, the memory hold one block and fewer than 2^32, and
    -- every `mmap` give zeros. After any steps from a pool that the constructor
    -- built, if a hundred times its blocks is below 2^32, `Usage` is the share of blocks that are not free to be handed out, in percent.
    pub usage_exact :
        mem_size / block_size * 100 < u32_mod
        → usage s.pool ≡ (length s.in_use + length s.resetting + 1) * 100 / (mem_size / block_size)
    unfolding usage
    usage_exact small =
        let h = IsCounted-here in
        let busy = length s.in_use + length s.resetting + 1 in
        let taken : sub32 s.pool.max_blocks (
              (length s.pool.blocks_ch + length s.pool.priority_ch + length s.pool.reset_block_ch)
              % u32_mod)
            ≡ busy =
          omega (arith, h.all_there, h.max_blocks, fits) in
        let scaled : mul32 busy 100 ≡ busy * 100 = omega (arith, h.all_there, small) in
        rw (taken, scaled, h.max_blocks)

    -- Let blocks have a positive size, the memory hold one block and fewer than 2^32, and
    -- every `mmap` give zeros. After any steps from a pool that the constructor
    -- built, `Terminate`, while the reset thread holds no block, unmaps all blocks but those that callers
    -- still hold.
    pub length-terminate :
        s.resetting ≡ [] → length (terminate s.pool) + length s.in_use ≡ mem_size / block_size
    unfolding terminate
    length-terminate idle =
        let h = IsCounted-here in
        let (z, clean) = IsClean-here in
        let (c, drained, none_gone, zero_same) =
          drain_lem (length s.pool.reset_block_ch) s refl idle h in
        let q = (drain (length s.pool.reset_block_ch) s.pool).0 in
        let zero_here : q.zero_block ≡ some z = zero_same ∙ clean.zero_block in
        simp (none_gone, zero_here)
          (omega (
            arith,
            length-append (delete z ∷ map delete q.blocks_ch) (map delete q.priority_ch),
            length-map q.blocks_ch delete,
            length-map q.priority_ch delete,
            c.all_there,
            ap length drained,
            ap length idle,
          ))
