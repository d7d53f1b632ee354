-- ===== src/BlockCache/Pool/Clean.antt =====
-- Each step keeps free blocks zeroed and the others in possession of their memory.
use cloudfuse.Base.{
  ℕ, ◌≡◌, refl, ap, Option, none, some, List, [], ◌∷◌, ◌++◌, length, replicate, length-replicate,
  copy_whole, All, All-append, Bool-cases, inl, inr, arith,
}
use cloudfuse.BlockCache.Block.{Block, re_use, delete}
use cloudfuse.BlockCache.Pool.{
  BlockPool, priority, blocks, timeout, must_get, try_get, release, reset_take, reset_put, zeroed,
  receive, has_room,
}
use cloudfuse.BlockCache.Pool.System.{
  System, with_freed, HasSize, IsZeroed, Step, get, get_at_once, write, give_back, take, put,
  IsClean,
}

IsZeroed-HasSize : (size : ℕ) (b : Block) → IsZeroed size b → HasSize size b
IsZeroed-HasSize size b h = rw h (ap some (length-replicate {A = ℕ} size 0))

All-split {ℓ κ} :
    {A : Type ℓ} (P : A → Type κ) (xs ys : List A) → All P (xs ++ ys) → All P xs × All P ys
All-split P [] ys h = (tt, h)
All-split P (x ∷ xs) ys h = let (hx, hy) = All-split P xs ys h.1 in ((h.0, hx), hy)

zeroed-IsZeroed :
    (size : ℕ) (z b : Block) (p : BlockPool)
    → p.zero_block ≡ some z
    → IsZeroed size z
    → HasSize size b
    → IsZeroed size (zeroed p b)
unfolding zeroed
zeroed-IsZeroed size z b p hz zeros sized = go b.bytes refl
  where
    go : (o : Option (List ℕ)) → b.bytes ≡ o → IsZeroed size (zeroed p b)
    go none e = absurd (cc (sized, e))
    go (some memory) e =
        let n : length memory ≡ length (replicate {A = ℕ} size 0) =
          ground (arith, length-replicate {A = ℕ} size 0, e) in
        ground (arith, hz, zeros, e, copy_whole memory (replicate size 0) n)

-- What a successful `select` of `MustGet` took.
abbrev pub Takes : (List Block → BlockPool) → List Block → BlockPool → Block → Type 0
Takes rebuild ch p b =
    (head : Block) × (rest : List Block) × (ch ≡ head ∷ rest)
    × (p ≡ rebuild rest)
    × (b ≡ re_use head)

pub receive-Takes :
    (ch : List Block) (rebuild : List Block → BlockPool) (p : BlockPool) (b : Block)
    → receive ch rebuild ≡ some (p, some b)
    → Takes rebuild ch p b
unfolding receive
receive-Takes [] rebuild p b e = absurd (cc)
receive-Takes (head ∷ rest) rebuild p b e = (head, rest, refl, cc, cc)

module _ {size : ℕ} {z : Block} {s : System} (h : IsClean size z s) where
  from_priority :
      (p : BlockPool) (b : Block)
      → Takes (λ rest. record s.pool { priority_ch = rest }) s.pool.priority_ch p b
      → IsClean size z (record s { pool = p; in_use = b ∷ s.in_use })
  unfolding re_use
  from_priority p b (head, rest, e, ep, eb) =
      let free : All (IsZeroed size) (head ∷ rest) = rw e at h.priority_zeroed in
      rw (ep, eb)
        (record {
          zero_block = h.zero_block;
          zero_bytes = h.zero_bytes;
          priority_zeroed = free.1;
          blocks_zeroed = h.blocks_zeroed;
          reset_sized = h.reset_sized;
          in_use_sized = (IsZeroed-HasSize size head free.0, h.in_use_sized);
          resetting_sized = h.resetting_sized;
        })

  from_blocks :
      (p : BlockPool) (b : Block)
      → Takes (λ rest. record s.pool { blocks_ch = rest }) s.pool.blocks_ch p b
      → IsClean size z (record s { pool = p; in_use = b ∷ s.in_use })
  unfolding re_use
  from_blocks p b (head, rest, e, ep, eb) =
      let free : All (IsZeroed size) (head ∷ rest) = rw e at h.blocks_zeroed in
      rw (ep, eb)
        (record {
          zero_block = h.zero_block;
          zero_bytes = h.zero_bytes;
          priority_zeroed = h.priority_zeroed;
          blocks_zeroed = free.1;
          reset_sized = h.reset_sized;
          in_use_sized = (IsZeroed-HasSize size head free.0, h.in_use_sized);
          resetting_sized = h.resetting_sized;
        })

  without :
      (before after : List Block) (b : Block)
      → s.in_use ≡ before ++ b ∷ after
      → HasSize size b × All (HasSize size) (before ++ after)
  without before after b e =
      let (hb, rest) = All-split (HasSize size) before (b ∷ after) (rw e at h.in_use_sized) in
      (rest.0, All-append (HasSize size) before after hb rest.1)

  after_write :
      (before after : List Block) (b b' : Block)
      → s.in_use ≡ before ++ b ∷ after
      → HasSize size b'
      → IsClean size z (record s { in_use = before ++ b' ∷ after })
  after_write before after b b' e sized =
      let (hb, rest) = All-split (HasSize size) before (b ∷ after) (rw e at h.in_use_sized) in
      record {
        zero_block = h.zero_block;
        zero_bytes = h.zero_bytes;
        priority_zeroed = h.priority_zeroed;
        blocks_zeroed = h.blocks_zeroed;
        reset_sized = h.reset_sized;
        in_use_sized = All-append (HasSize size) before (b' ∷ after) hb (sized, rest.1);
        resetting_sized = h.resetting_sized;
      }

  after_give_back :
      (q : List Block) (left freed : List Block)
      → All (HasSize size) q
      → All (HasSize size) left
      → IsClean size z
          (record s { pool = record s.pool { reset_block_ch = q }; in_use = left; freed = freed })
  after_give_back q left freed hq hleft = record {
    zero_block = h.zero_block;
    zero_bytes = h.zero_bytes;
    priority_zeroed = h.priority_zeroed;
    blocks_zeroed = h.blocks_zeroed;
    reset_sized = hq;
    in_use_sized = hleft;
    resetting_sized = h.resetting_sized;
  }

  after_reset :
      (free low freed : List Block)
      → All (IsZeroed size) free
      → All (IsZeroed size) low
      → IsClean size z (record s {
        pool = record s.pool { priority_ch = free; blocks_ch = low };
        resetting = [];
        freed = freed;
      })
  after_reset free low freed hfree hlow = record {
    zero_block = h.zero_block;
    zero_bytes = h.zero_bytes;
    priority_zeroed = hfree;
    blocks_zeroed = hlow;
    reset_sized = h.reset_sized;
    in_use_sized = h.in_use_sized;
    resetting_sized = tt;
  }

  after_take :
      (b : Block) (rest : List Block)
      → s.pool.reset_block_ch ≡ b ∷ rest
      → IsClean size z
          (record s { pool = record s.pool { reset_block_ch = rest }; resetting = b ∷ [] })
  after_take b rest e =
      let waiting : All (HasSize size) (b ∷ rest) = rw e at h.reset_sized in
      record {
        zero_block = h.zero_block;
        zero_bytes = h.zero_bytes;
        priority_zeroed = h.priority_zeroed;
        blocks_zeroed = h.blocks_zeroed;
        reset_sized = waiting.1;
        in_use_sized = h.in_use_sized;
        resetting_sized = (waiting.0, tt);
      }

  release-IsClean :
      (before after : List Block) (b : Block)
      → s.in_use ≡ before ++ b ∷ after
      → IsClean size z (record s {
        pool = (release b s.pool).0;
        in_use = before ++ after;
        freed = with_freed (release b s.pool).1 s.freed;
      })
  unfolding release
  release-IsClean before after b e =
      let (hb, left) = without before after b e in
      elim (Bool-cases (has_room s.pool.reset_block_ch s.pool.reset_cap)) [
        | inl room ↦ rw room (
            after_give_back (s.pool.reset_block_ch ++ b ∷ []) (before ++ after) s.freed
              (All-append (HasSize size) s.pool.reset_block_ch (b ∷ []) h.reset_sized (hb, tt))
              left)
        | inr full ↦ rw full (
            after_give_back s.pool.reset_block_ch (before ++ after) (delete b ∷ s.freed)
              h.reset_sized left)
      ]

  reset_put-IsClean :
      (b : Block)
      → s.resetting ≡ b ∷ []
      → IsClean size z (record s {
        pool = (reset_put b s.pool).0;
        resetting = [];
        freed = with_freed (reset_put b s.pool).1 s.freed;
      })
  unfolding reset_put
  reset_put-IsClean b e =
      let held : All (HasSize size) (b ∷ []) = rw e at h.resetting_sized in
      let clean : IsZeroed size (zeroed s.pool b) =
        zeroed-IsZeroed size z b s.pool h.zero_block h.zero_bytes held.0 in
      let p = s.pool in
      let b' : Block = zeroed p b in
      elim (Bool-cases (has_room p.priority_ch p.priority_cap)) [
        | inl room ↦ rw room (
            after_reset (p.priority_ch ++ b' ∷ []) p.blocks_ch s.freed
              (All-append (IsZeroed size) p.priority_ch (b' ∷ []) h.priority_zeroed (clean, tt))
              h.blocks_zeroed)
        | inr full ↦ rw full (elim (Bool-cases (has_room p.blocks_ch p.blocks_cap)) [
          | inl room ↦ rw room (
              after_reset p.priority_ch (p.blocks_ch ++ b' ∷ []) s.freed h.priority_zeroed
                (All-append (IsZeroed size) p.blocks_ch (b' ∷ []) h.blocks_zeroed (clean, tt)))
          | inr full' ↦ rw full' (
              after_reset p.priority_ch p.blocks_ch (delete b' ∷ s.freed) h.priority_zeroed
                h.blocks_zeroed)
        ])
      ]

  take-IsClean :
      (p : BlockPool) (b : Block)
      → reset_take s.pool ≡ some (p, b)
      → IsClean size z (record s { pool = p; resetting = b ∷ [] })
  unfolding reset_take
  take-IsClean p b e = go s.pool.reset_block_ch refl
    where
      go :
          (q : List Block)
          → s.pool.reset_block_ch ≡ q
          → IsClean size z (record s { pool = p; resetting = b ∷ [] })
      go [] eq = absurd (ground (arith, eq))
      go (b0 ∷ rest) eq =
          let ep : p ≡ record s.pool { reset_block_ch = rest } = ground (arith, eq) in
          let eb : b ≡ b0 = ground (arith, eq) in rw (ep, eb) (after_take b0 rest eq)

  pub Step-IsClean : {t : System} → Step size s t → IsClean size z t
  unfolding must_get try_get
  Step-IsClean (get priority p b e r) =
      rw r (from_priority p b (receive-Takes s.pool.priority_ch _ p b e))
  Step-IsClean (get blocks p b e r) =
      rw r (from_blocks p b (receive-Takes s.pool.blocks_ch _ p b e))
  Step-IsClean (get timeout p b e r) = absurd (cc)
  Step-IsClean (get_at_once p b e r) =
      rw r (from_blocks p b (receive-Takes s.pool.blocks_ch _ p b (ground arith)))
  Step-IsClean (write before after b b' e sized same r) =
      rw r (after_write before after b b' e sized)
  Step-IsClean (give_back before after b e r) = rw r (release-IsClean before after b e)
  Step-IsClean (take p b idle e r) = rw r (take-IsClean p b e)
  Step-IsClean (put b e r) = rw r (reset_put-IsClean b e)
