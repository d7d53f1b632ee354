-- ===== src/BlockCache/Block.antt =====
-- component/block_cache/block.go: a memory block, its flags and the channel that signals its state.
-- A send on a closed channel and a second `close` panic in Go: `none` here.
-- The list node of a block (its place in a handle's list) belongs to the code that keeps that list.
use cloudfuse.Base.{ℕ, Bool, true, false, Option, none, some, List, ◌==◌, if◌then◌else◌}
use cloudfuse.Base.Int.{ℤ, negsuc}
use cloudfuse.Bitmap

-- A channel of ints with room for one.
pub record Signal : Type 0 where
  pub closed : Bool
  pub value : Option ℕ

-- `address` says which of the allocated structs this is: what a pointer to it compares by.
pub record Block : Type 0 where
  pub address : ℕ
  pub offset : ℕ
  pub id : ℤ
  pub state : Option Signal
  pub flags : ℕ
  pub bytes : Option (List ℕ)

abbrev pub block_flag_fresh : ℕ
block_flag_fresh = 0

abbrev pub block_flag_dirty : ℕ
block_flag_dirty = 3

abbrev pub block_flag_failed : ℕ
block_flag_failed = 5

abbrev pub open_signal : Signal
open_signal = record { closed = false; value = none }

-- The arguments are the address of the new struct, the size, and what `mmap` answers: the zeroed
-- memory, or none if it fails.
unfoldable pub allocate_block : ℕ → ℕ → Option (List ℕ) → Option Block
allocate_block address size mmap = if size == 0 then none else elim mmap [
  | none ↦ none
  | some memory ↦ some (record {
    address = address;
    offset = 0;
    id = negsuc 0;
    state = none;
    flags = (Bitmap.set (Bitmap.reset 0).word block_flag_fresh).word;
    bytes = some memory;
  })
]

-- `Delete` unmaps the memory, once; what `munmap` answers changes nothing in the block.
unfoldable pub delete : Block → Block
delete b = record b { bytes = none }

unfoldable pub re_use : Block → Block
re_use b = record b {
  id = negsuc 0;
  offset = 0;
  flags = (Bitmap.set (Bitmap.reset b.flags).word block_flag_fresh).word;
  state = some open_signal;
}

unfoldable pub uploading : Block → Block
uploading b = record b { state = some open_signal }

-- The send is dropped when the channel is full, or nil.
send : Signal → ℕ → Option Signal
send s v =
    if s.closed
    then none
    else some (elim s.value [ none ↦ record s { value = some v } | some _ ↦ s ])

unfoldable pub ready : Block → ℕ → Option Block
unfolding send
ready b v = elim b.state [
  | none ↦ some b
  | some s ↦ elim (send s v) [ none ↦ none | some s' ↦ some (record b { state = some s' }) ]
]

-- `close` of a nil or of a closed channel panics.
unfoldable pub unblock : Block → Option Block
unblock b = elim b.state [
  | none ↦ none
  | some s ↦
      if s.closed then none else some (record b { state = some (record s { closed = true }) })
]

unfoldable pub dirty : Block → Block
dirty b = record b { flags = (Bitmap.set b.flags block_flag_dirty).word }

unfoldable pub no_more_dirty : Block → Block
no_more_dirty b = record b { flags = (Bitmap.clear b.flags block_flag_dirty).word }

unfoldable pub is_dirty : Block → Bool
is_dirty b = Bitmap.is_set b.flags block_flag_dirty

unfoldable pub failed : Block → Block
failed b = record b { flags = (Bitmap.set b.flags block_flag_failed).word }

unfoldable pub is_failed : Block → Bool
is_failed b = Bitmap.is_set b.flags block_flag_failed
