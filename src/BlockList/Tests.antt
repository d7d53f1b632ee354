-- ===== src/BlockList/Tests.antt =====
-- A file of three blocks of 4, 4 and 2 bytes.
use cloudfuse.Base.{ℕ, ◌+◌, ◌≡◌, refl, true, false, some, [], ◌∷◌, map, leb, ◌==◌, arith}
use cloudfuse.BlockList.{
  Block, BlockOffsetList, binary_search, find_blocks, find_blocks_to_modify,
  validate_block_list_against_file_size,
}
use cloudfuse.BlockList.Search.{binary_search-finds, binary_search-misses}
use cloudfuse.BlockList.Ranges.{
  touching, mark, bytes_of, find_blocks-touching, find_blocks_to_modify-mark, validate-IsContiguous,
  IsContiguous,
}

abbrev block : ℕ → ℕ → Block
block start end = record { start_index = start; end_index = end; flags = 0; id = "id"; bytes = [] }

abbrev three : BlockOffsetList
three = record {
  block_list = block 0 4 ∷ block 4 8 ∷ block 8 10 ∷ [];
  flags = 0;
  block_id_length = 2;
  size = 10;
  mtime = 0;
}

abbrev end_to_end : IsContiguous 0 three.block_list
end_to_end = (refl, omega arith, (refl, omega arith, (refl, omega arith, tt)))

-- A range that ends where a block starts takes that block too.
boundary : find_blocks 2 2 three ≡ some (block 0 4 ∷ block 4 8 ∷ [], true)
unfolding find_blocks binary_search
boundary = refl

binary_search-finds_example : binary_search 5 three ≡ some (true, 1)
binary_search-finds_example =
    binary_search-finds three 5 1 (block 4 8) (omega arith) refl (omega arith)

binary_search-misses_example : binary_search 10 three ≡ some (false, 3)
binary_search-misses_example = binary_search-misses three 10 (omega arith)

find_blocks-touching_example : find_blocks 5 4 three ≡ some (touching 5 4 three.block_list, true)
find_blocks-touching_example =
    find_blocks-touching three 5 4 0 1 (block 4 8) end_to_end refl (omega arith)

find_blocks_to_modify-mark_example :
    find_blocks_to_modify 5 4 three
    ≡ some (record {
      index = 1;
      size = bytes_of (touching 5 4 three.block_list);
      reaches_end = leb (0 + bytes_of three.block_list) (5 + 4);
      append_only = false;
      list = record three { block_list = map (mark 5 4) three.block_list };
    })
find_blocks_to_modify-mark_example =
    find_blocks_to_modify-mark three 5 4 0 1 (block 4 8) end_to_end refl (omega arith)

validate-IsContiguous_example :
    validate_block_list_against_file_size 10 three ≡ (bytes_of three.block_list == 10)
validate-IsContiguous_example = validate-IsContiguous three 10 end_to_end
