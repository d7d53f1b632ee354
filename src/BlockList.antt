-- ===== src/BlockList.antt =====
-- common/types.go: `Block` and `BlockOffsetList`, the blocks of a blob with their offsets.
-- Offsets and lengths are nonnegative int64 values, and the end of a range fits into one too.
pub mod Search
pub mod Ranges
mod Tests
use Prim.Native.String.{String}
use cloudfuse.Base.{
  ℕ, zero, suc, ◌+◌, ◌-◌, ◌/◌, Bool, true, false, not, ◌&&◌, Option, none, some, List, [], ◌∷◌, ltb,
  leb, ◌==◌, if◌then◌else◌, length, get_elem?, take, drop, ◌++◌,
}
use cloudfuse.Bitmap

pub record Block : Type 0 where
  pub start_index : ℕ
  pub end_index : ℕ
  pub flags : ℕ
  pub id : String
  pub bytes : List ℕ

abbrev dirty_block : ℕ
dirty_block = 1

abbrev truncated_block : ℕ
truncated_block = 2

unfoldable pub dirty : Block → Bool
dirty block = Bitmap.is_set block.flags dirty_block

unfoldable pub truncated : Block → Bool
truncated block = Bitmap.is_set block.flags truncated_block

abbrev blob_flag_block_list_modified : ℕ
blob_flag_block_list_modified = 2

pub record BlockOffsetList : Type 0 where
  pub block_list : List Block
  pub flags : ℕ
  pub block_id_length : ℕ
  pub size : ℕ
  pub mtime : ℕ

unfoldable pub has_no_blocks : BlockOffsetList → Bool
has_no_blocks bol = length bol.block_list == 0

unfoldable pub is_block_list_modified : BlockOffsetList → Bool
is_block_list_modified bol = Bitmap.is_set bol.flags blob_flag_block_list_modified

unfoldable pub validate_block_list_against_file_size : ℕ → BlockOffsetList → Bool
unfolding has_no_blocks
validate_block_list_against_file_size file_size bol =
    if has_no_blocks bol
    then file_size == 0
    else elim (get_elem? bol.block_list (length bol.block_list - 1)) [
      | none ↦ false
      | some last ↦ last.end_index == file_size
    ]

all_of_size : ℕ → List Block → Bool
all_of_size block_size [] = true
all_of_size block_size (blk ∷ blks) =
    (blk.end_index - blk.start_index == block_size) && all_of_size block_size blks

-- The common size of all blocks, if there is one, and whether there is one.
unfoldable pub has_all_blocks_with_same_block_size : BlockOffsetList → ℕ × Bool
unfolding all_of_size
has_all_blocks_with_same_block_size bol = elim bol.block_list [
  | [] ↦ (0, true)
  | blk ∷ blks ↦
      let block_size = blk.end_index - blk.start_index in
      if all_of_size block_size (blk ∷ blks) then (block_size, true) else (0, false)
]

-- The loop of `BinarySearch`, with `above` for `higherBound + 1`. Each turn makes the distance of
-- the bounds smaller. An index out of range is `none`.
search_from : ℕ → List Block → ℕ → ℕ → ℕ → Option (Bool × ℕ)
search_from zero blks offset lower above = none
search_from (suc fuel) blks offset lower above =
    let middle = (lower + (above - 1)) / 2 in
    let right = search_from fuel blks offset (middle + 1) above in
    let left = search_from fuel blks offset lower middle in
    if ltb lower above
    then elim (get_elem? blks middle) [
      | none ↦ none
      | some blk ↦
          if ltb offset blk.end_index && leb blk.start_index offset
          then some (true, middle)
          else if leb blk.end_index offset
          then right
          else left
    ]
    else some (false, length blks)

unfoldable pub binary_search : ℕ → BlockOffsetList → Option (Bool × ℕ)
unfolding search_from
binary_search offset bol =
    search_from (suc (length bol.block_list)) bol.block_list offset 0 (length bol.block_list)

abbrev pub in_turn : ℕ → ℕ → ℕ → Block → Bool
in_turn offset len current blk =
    leb blk.start_index current && (ltb current blk.end_index && leb current (offset + len))

-- The loop of `FindBlocks` over the blocks from the first on, at `current`.
find_from : ℕ → ℕ → ℕ → List Block → List Block
find_from offset len current [] = []
find_from offset len current (blk ∷ blks) =
    let taken = find_from offset len blk.end_index blks in
    let skipped = find_from offset len current blks in
    if ltb (offset + len) blk.start_index
    then []
    else if in_turn offset len current blk
    then blk ∷ taken
    else skipped

unfoldable pub find_blocks : ℕ → ℕ → BlockOffsetList → Option (List Block × Bool)
unfolding find_from
find_blocks offset len bol = elim (binary_search offset bol) [
  | none ↦ none
  | some (found, index) ↦
      if found
      then some (find_from offset len offset (drop index bol.block_list), true)
      else some ([], false)
]

-- What the loop of `FindBlocksToModify` makes of the blocks, the size that it adds up, and whether
-- no block was in turn.
pub record Modified : Type 0 where
  pub blocks : List Block
  pub size : ℕ
  pub append_only : Bool

modify_from : ℕ → ℕ → ℕ → List Block → Modified
modify_from offset len current [] = record { blocks = []; size = 0; append_only = true }
modify_from offset len current (blk ∷ blks) =
    let taken = modify_from offset len blk.end_index blks in
    let skipped = modify_from offset len current blks in
    if ltb (offset + len) blk.start_index
    then record { blocks = blk ∷ blks; size = 0; append_only = true }
    else if in_turn offset len current blk
    then record {
      blocks = record blk { flags = (Bitmap.set blk.flags dirty_block).word } ∷ taken.blocks;
      size = blk.end_index - blk.start_index + taken.size;
      append_only = false;
    }
    else record skipped { blocks = blk ∷ skipped.blocks }

-- The index, the size, whether the range reaches the end, and whether it only appends; and the list
-- with the blocks that are marked.
pub record ToModify : Type 0 where
  pub index : ℕ
  pub size : ℕ
  pub reaches_end : Bool
  pub append_only : Bool
  pub list : BlockOffsetList

unfoldable pub find_blocks_to_modify : ℕ → ℕ → BlockOffsetList → Option ToModify
unfolding modify_from
find_blocks_to_modify offset len bol = elim (binary_search offset bol) [
  | none ↦ none
  | some (found, index) ↦
      if found
      then elim (get_elem? bol.block_list (length bol.block_list - 1)) [
        | none ↦ none
        | some last ↦
            let m = modify_from offset len offset (drop index bol.block_list) in
            some (record {
              index = index;
              size = m.size;
              reaches_end = leb last.end_index (offset + len);
              append_only = m.append_only;
              list = record bol { block_list = take index bol.block_list ++ m.blocks };
            })
      ]
      else some
          (record { index = index; size = 0; reaches_end = true; append_only = true; list = bol })
]
