-- ===== src/BlockList/Ranges.antt =====
-- common/types.go, `FindBlocks` and `FindBlocksToModify`, over the blocks of a whole file: each
-- block starts where the one before it ends.
use cloudfuse.Base.{
  ℕ, zero, suc, ◌+◌, ◌-◌, ◌≤◌, ◌<◌, ◌≡◌, refl, ◌⊎◌, inl, inr, Bool, true, false, ◌&&◌, some, List,
  [], ◌∷◌, ◌++◌, map, ltb, leb, ◌==◌, if◌then◌else◌, length, get_elem?, All, take, drop, arith,
}
use cloudfuse.Bitmap
use cloudfuse.BlockList.{
  Block, BlockOffsetList, find_from, find_blocks, modify_from, find_blocks_to_modify,
  validate_block_list_against_file_size, has_no_blocks,
}
use cloudfuse.BlockList.Search.{IsOrdered, Covers, binary_search-finds}

-- The blocks stand end to end, from `start` on, and none is empty.
abbrev pub IsContiguous : ℕ → List Block → Type 0
IsContiguous start [] = Unit
IsContiguous start (b ∷ bs) =
    (b.start_index ≡ start) × (start < b.end_index) × IsContiguous b.end_index bs

-- The block has a byte at or after the offset, and starts no later than where the range ends.
abbrev pub touches : ℕ → ℕ → Block → Bool
touches offset len b = ltb offset b.end_index && leb b.start_index (offset + len)

abbrev pub touching : ℕ → ℕ → List Block → List Block
touching offset len [] = []
touching offset len (b ∷ bs) =
    let rest = touching offset len bs in if touches offset len b then b ∷ rest else rest

abbrev pub mark : ℕ → ℕ → Block → Block
mark offset len b =
    if touches offset len b then record b { flags = (Bitmap.set b.flags 1).word } else b

abbrev pub bytes_of : List Block → ℕ
bytes_of [] = 0
bytes_of (b ∷ bs) = b.end_index - b.start_index + bytes_of bs

weaken :
    (bs : List Block) (m n : ℕ)
    → m ≤ n
    → All (λ b. n ≤ b.start_index) bs
    → All (λ b. m ≤ b.start_index) bs
weaken [] m n h a = tt
weaken (b ∷ bs) m n h a = (omega (arith, a), weaken bs m n h a.1)

IsContiguous-after :
    (start : ℕ) (bs : List Block) → IsContiguous start bs → All (λ b. start ≤ b.start_index) bs
IsContiguous-after start [] c = tt
IsContiguous-after start (b ∷ bs) c = (
  omega (arith, c),
  weaken bs start b.end_index (omega (arith, c)) (IsContiguous-after b.end_index bs c.2),
)

pub IsContiguous-IsOrdered : (start : ℕ) (bs : List Block) → IsContiguous start bs → IsOrdered bs
IsContiguous-IsOrdered start [] c = tt
IsContiguous-IsOrdered start (b ∷ bs) c = (
  omega (arith, c),
  (IsContiguous-after b.end_index bs c.2, IsContiguous-IsOrdered b.end_index bs c.2),
)

covered-after :
    (start i : ℕ) (bs : List Block) (b : Block)
    → IsContiguous start bs
    → get_elem? bs i ≡ some b
    → start ≤ b.start_index
covered-after start i [] b c e = ground arith
covered-after start zero (a ∷ bs) b c e = ground (arith, c, e)
covered-after start (suc i) (a ∷ bs) b c e =
    omega (arith, c, covered-after a.end_index i bs b c.2 e)

module _ (offset len : ℕ) where
  -- Beyond the end of the range nothing is touched.
  touching-beyond :
      (start : ℕ) (bs : List Block)
      → IsContiguous start bs
      → offset + len < start
      → touching offset len bs ≡ []
  touching-beyond start [] c h = refl
  touching-beyond start (b ∷ bs) c h =
      let rest = touching-beyond b.end_index bs c.2 (omega (arith, c)) in ground (arith, c, rest)

  find_from-touching :
      (start : ℕ) (bs : List Block)
      → IsContiguous start bs
      → offset ≤ start
      → find_from offset len start bs ≡ touching offset len bs
  unfolding find_from
  find_from-touching start [] c h = refl
  find_from-touching start (b ∷ bs) c h =
      let rest = find_from-touching b.end_index bs c.2 (omega (arith, c, h)) in
      let beyond = touching-beyond b.end_index bs c.2 in ground (arith, c, rest, beyond)

  -- From the block that covers the offset on, the loop takes what is touched in the whole list.
  find_from-covered :
      (start i : ℕ) (bs : List Block) (b : Block)
      → IsContiguous start bs
      → get_elem? bs i ≡ some b
      → Covers offset b
      → find_from offset len offset (drop i bs) ≡ touching offset len bs
  unfolding find_from
  find_from-covered start i [] b c e h = ground arith
  find_from-covered start zero (a ∷ bs) b c e h =
      let rest = find_from-touching a.end_index bs c.2 in ground (arith, c, rest, e)
  find_from-covered start (suc i) (a ∷ bs) b c e h =
      let rest = find_from-covered a.end_index i bs b c.2 e h in
      let after = covered-after a.end_index i bs b c.2 e in ground (arith, c, rest, after)

  mark-beyond :
      (start : ℕ) (bs : List Block)
      → IsContiguous start bs
      → offset + len < start
      → map (mark offset len) bs ≡ bs
  mark-beyond start [] c h = refl
  mark-beyond start (b ∷ bs) c h =
      let rest = mark-beyond b.end_index bs c.2 (omega (arith, c)) in
      let same : mark offset len b ≡ b = ground (arith, c) in rw (rest, same)

  modify_from-mark :
      (start : ℕ) (bs : List Block)
      → IsContiguous start bs
      → offset ≤ start
      → ((modify_from offset len start bs).blocks ≡ map (mark offset len) bs)
        × ((modify_from offset len start bs).size ≡ bytes_of (touching offset len bs))
  unfolding modify_from
  modify_from-mark start [] c h = (refl, refl)
  modify_from-mark start (b ∷ bs) c h =
      let (blocks, size) = modify_from-mark b.end_index bs c.2 (omega (arith, c, h)) in
      let still = mark-beyond b.end_index bs c.2 in
      let beyond = touching-beyond b.end_index bs c.2 in
      ground (arith, c, blocks, size, still, beyond)

  modify_from-covered :
      (start i : ℕ) (bs : List Block) (b : Block)
      → IsContiguous start bs
      → get_elem? bs i ≡ some b
      → Covers offset b
      → (take i bs ++ (modify_from offset len offset (drop i bs)).blocks ≡ map (mark offset len) bs)
        × ((modify_from offset len offset (drop i bs)).size ≡ bytes_of (touching offset len bs))
        × ((modify_from offset len offset (drop i bs)).append_only ≡ false)
  unfolding modify_from
  modify_from-covered start i [] b c e h = ground arith
  modify_from-covered start zero (a ∷ bs) b c e h =
      let rest = modify_from-mark a.end_index bs c.2 in ground (arith, c, rest, e)
  modify_from-covered start (suc i) (a ∷ bs) b c e h =
      let rest = modify_from-covered a.end_index i bs b c.2 e h in
      let after = covered-after a.end_index i bs b c.2 e in ground (arith, c, rest, after)

last-end :
    (start : ℕ) (b : Block) (bs : List Block)
    → IsContiguous start (b ∷ bs)
    → (l : Block) × (get_elem? (b ∷ bs) (length bs) ≡ some l)
      × (l.end_index ≡ start + bytes_of (b ∷ bs))
last-end start b [] c = (b, refl, omega (arith, c))
last-end start b (a ∷ bs) c =
    let (l, e, h) = last-end b.end_index a bs c.2 in (l, e, omega (arith, c, h))

last-present :
    (start i : ℕ) (bs : List Block) (b : Block)
    → IsContiguous start bs
    → get_elem? bs i ≡ some b
    → (l : Block) × (get_elem? bs (length bs - 1) ≡ some l) × (l.end_index ≡ start + bytes_of bs)
last-present start i [] b c e = ground arith
last-present start i (a ∷ bs) b c e =
    let one_less : length (a ∷ bs) - 1 ≡ length bs = omega arith in
    rw one_less (last-end start a bs c)

-- In a file of blocks that stand end to end, if some block covers the offset, then `FindBlocks`
-- answers, in their order, exactly the blocks that touch the range: those that end after the offset
-- and start at or before the offset plus the length.
pub find_blocks-touching :
    (bol : BlockOffsetList) (offset len start i : ℕ) (b : Block)
    → IsContiguous start bol.block_list
    → get_elem? bol.block_list i ≡ some b
    → Covers offset b
    → find_blocks offset len bol ≡ some (touching offset len bol.block_list, true)
unfolding find_blocks
find_blocks-touching bol offset len start i b c e h =
    let found =
      binary_search-finds bol offset i b (IsContiguous-IsOrdered start bol.block_list c) e h in
    let all = find_from-covered offset len start i bol.block_list b c e h in
    ground (arith, found, all)

-- In a file of blocks that stand end to end, if some block covers the offset, then
-- `FindBlocksToModify` marks as dirty exactly the blocks that touch the range, adds up their sizes, and
-- says that the range does not only append. A block touches the range if it ends behind the offset and
-- starts at or before offset plus length, so also where it only starts at the range's end. The third
-- answer is whether offset plus length is at least the end of the last block, so also where the new
-- data ends exactly there and exceeds nothing.
pub find_blocks_to_modify-mark :
    (bol : BlockOffsetList) (offset len start i : ℕ) (b : Block)
    → IsContiguous start bol.block_list
    → get_elem? bol.block_list i ≡ some b
    → Covers offset b
    → find_blocks_to_modify offset len bol
      ≡ some (record {
        index = i;
        size = bytes_of (touching offset len bol.block_list);
        reaches_end = leb (start + bytes_of bol.block_list) (offset + len);
        append_only = false;
        list = record bol { block_list = map (mark offset len) bol.block_list };
      })
unfolding find_blocks_to_modify
find_blocks_to_modify-mark bol offset len start i b c e h =
    let found =
      binary_search-finds bol offset i b (IsContiguous-IsOrdered start bol.block_list c) e h in
    let m = modify_from-covered offset len start i bol.block_list b c e h in
    let (l, last, end) = last-present start i bol.block_list b c e in
    ground (arith, found, m, last, end)

empty_or_last :
    (bs : List Block)
    → IsContiguous 0 bs
    → (bs ≡ [])
      ⊎ ((l : Block) × (get_elem? bs (length bs - 1) ≡ some l)
          × (l.end_index ≡ bytes_of bs)
          × (0 < length bs))
empty_or_last [] c = inl refl
empty_or_last (b ∷ bs) c =
    let (l, last, end) = last-present 0 0 (b ∷ bs) b c refl in
    inr (l, last, omega (arith, end), omega arith)

-- A list of blocks that stand end to end from 0 is valid against a file size exactly if that size
-- is the sum of the blocks' sizes; the empty list exactly against 0.
pub validate-IsContiguous :
    (bol : BlockOffsetList) (file_size : ℕ)
    → IsContiguous 0 bol.block_list
    → validate_block_list_against_file_size file_size bol ≡ (bytes_of bol.block_list == file_size)
unfolding validate_block_list_against_file_size has_no_blocks
validate-IsContiguous bol file_size c = elim (empty_or_last bol.block_list c) [
  | inl empty ↦ rw empty (ground arith)
  | inr (l, last, end, some_block) ↦ ground (arith, last, end, some_block)
]
