-- ===== src/BlockCache/Handle.antt =====
-- component/block_cache/block_cache.go, the reading of an open file: the two lists of blocks of a handle, the map
-- from block indices to blocks, and the prefetch. A block is named by its address, and `heap` says what is there. The
-- storage and the pool of blocks are parameters. A download is carried out where it is scheduled: nobody looks at
-- the block before its channel answers. The disk cache is off, and a handle that has uncommitted blocks ends in `commits`.
pub mod Lists
pub mod Sound
pub mod Refresh
pub mod Prefetch
use cloudfuse.Base.{
  ℕ, zero, suc, ◌+◌, ◌-◌, ◌*◌, ◌/◌, Bool, true, false, not, ◌&&◌, ◌||◌, Option, none, some, List,
  [], ◌∷◌, ◌++◌, ◌==◌, ltb, leb, min, if◌then◌else◌, length, replicate, take, drop, at_key,
}
use cloudfuse.Base.Int.{ℤ, pos, negsuc}
use cloudfuse.Bitmap
use cloudfuse.Stream.{ReadError, is_failure}
use cloudfuse.BlockCache.Block.{Block, Signal, re_use, ready, unblock, failed}
use cloudfuse.BlockCache.Commit.{BlockInfo}

-- Why an operation stops. `waits` is a receive that nothing will answer.
pub data Answer : Type 0 where
  at_eof fails waits panics commits : Answer

pub record Config : Type 0 where
  pub block_size : ℕ
  pub prefetch : ℕ
  pub no_prefetch : Bool

pub record Handle : Type 0 where
  pub size : ℕ
  pub values : ℕ → Option ℕ
  pub next : ℕ
  pub opt_cnt : ℕ
  pub cooked : List ℕ
  pub cooking : List ℕ
  pub heap : ℕ → Block
  pub block_list : List (ℕ × BlockInfo)
  pub etag : ℕ

-- The handle, the pool, and how often the storage was asked.
pub record Reader (P : Type 0) : Type 0 where
  pub handle : Handle
  pub pool : P
  pub calls : ℕ

pub data Outcome (P : Type 0) : Type 0 where
  went : Reader P → Outcome P
  stops : Answer → Reader P → Outcome P

-- The pool's calls, as a handle uses them; none is that there is no block.
pub record PoolCalls (P : Type 0) : Type 0 where
  pub must_get : P → Option (ℕ × P)
  pub try_get : P → Option (ℕ × P)
  pub release : ℕ → P → P

-- An answer of the storage; the tag is zero where it gives none.
pub record BlobRead : Type 0 where
  pub filled : List ℕ
  pub count : ℕ
  pub err : Option ReadError
  pub tag : ℕ

abbrev pub min_prefetch : ℕ
min_prefetch = 5

abbrev pub min_randread : ℕ
min_randread = 10

abbrev pub status_downloaded : ℕ
status_downloaded = 1

abbrev pub status_uploaded : ℕ
status_uploaded = 2

abbrev pub status_download_failed : ℕ
status_download_failed = 3

abbrev pub flag_downloading : ℕ
flag_downloading = 1

abbrev pub flag_uploading : ℕ
flag_uploading = 2

abbrev pub flag_synced : ℕ
flag_synced = 4

-- `list.Remove` of the node of a block.
abbrev pub remove_first : ℕ → List ℕ → List ℕ
remove_first a [] = []
remove_first a (x ∷ xs) = let rest = remove_first a xs in if x == a then xs else x ∷ rest

abbrev pub set_block : ℕ → Block → Handle → Handle
set_block a b h = record h { heap = λ x. if x == a then b else h.heap x }

abbrev pub set_value : ℕ → ℕ → Handle → Handle
set_value k a h = record h { values = λ x. if x == k then some a else h.values x }

-- No key of the map is negative.
abbrev pub remove_at : ℤ → (ℕ → Option ℕ) → ℕ → Option ℕ
remove_at (pos k) values x = if x == k then none else values x
remove_at (negsuc k) values x = values x

abbrev pub remove_value : ℤ → Handle → Handle
remove_value id h = record h { values = remove_at id h.values }

abbrev pub add_to_cooked : ℕ → Handle → Handle
add_to_cooked a h = record h {
  cooking = remove_first a h.cooking;
  cooked = remove_first a h.cooked ++ a ∷ [];
}

abbrev pub add_to_cooking : ℕ → Handle → Handle
add_to_cooking a h = record h {
  cooked = remove_first a h.cooked;
  cooking = remove_first a h.cooking ++ a ∷ [];
}

abbrev pub clear_flag : ℕ → Block → Block
clear_flag f b = record b { flags = (Bitmap.clear b.flags f).word }

abbrev pub set_flag : ℕ → Block → Block
set_flag f b = record b { flags = (Bitmap.set b.flags f).word }

-- A block as the pool hands it out: ready for reuse, and zero.
abbrev pub blank_block : ℕ → Block → Block
blank_block block_size b = re_use (record b { bytes = some (replicate block_size 0) })

-- `shouldCommitAndDownload`
unfoldable pub should_commit_and_download : ℕ → Handle → Bool × Bool
should_commit_and_download index h = elim (at_key index h.block_list) [
  | none ↦ (false, false)
  | some info ↦ (not info.committed, info.committed)
]

-- `getBlockSize`
abbrev pub get_block_size : ℕ → ℕ → Block → ℕ
get_block_size block_size size b = min block_size (size - b.offset)

abbrev pub bytes_of : Block → List ℕ
bytes_of b = elim b.bytes [ none ↦ [] | some l ↦ l ]

-- `_, ok := <-block.state`, with the value where there is one.
pub data Received : Type 0 where
  value : ℕ → Received
  was_closed : Received
  blocked : Received

abbrev pub receive : Block → Received
receive b = elim b.state [
  | none ↦ blocked
  | some s ↦ elim s.value [ some v ↦ value v | none ↦ if s.closed then was_closed else blocked ]
]

-- The value is taken and the channel is closed.
abbrev pub take_and_unblock : Block → Option Block
take_and_unblock b = elim b.state [
  | none ↦ none
  | some s ↦ unblock (record b { state = some (record s { value = none }) })
]

-- The attempts of `download`, with the number of those that may still fail: the status, the bytes and the calls.
module _ (read_blob : ℕ → ℕ → List ℕ → BlobRead) where
  abbrev pub fetch : ℕ → ℕ → ℕ → List ℕ → ℕ → ℕ × List ℕ × ℕ
  fetch zero etag offset bytes calls =
      (status_download_failed, (read_blob calls offset bytes).filled, suc calls)
  fetch (suc tries) etag offset bytes calls =
      let answer = read_blob calls offset bytes in
      elim (is_failure answer.err || (answer.count == 0)) [
        | true ↦ fetch tries etag offset answer.filled (suc calls)
        | false ↦
            let changed = not (answer.tag == 0) && (not (etag == 0) && not (etag == answer.tag)) in
            (
              if changed then status_download_failed else status_downloaded,
              answer.filled,
              suc calls,
            )
      ]

  unfoldable pub download : {P : Type 0} → ℕ → Block → Reader P → Outcome P
  download a b r =
      let (status, filled, calls) = fetch 4 r.handle.etag b.offset (bytes_of b) r.calls in
      let b' = record b { bytes = some filled } in
      elim (ready (if status == status_download_failed then failed b' else b') status) [
        | none ↦ stops panics r
        | some b'' ↦ went (record r { handle = set_block a b'' r.handle; calls = calls })
      ]

  unfoldable pub lineup_download : {P : Type 0} → ℕ → Reader P → Outcome P
  unfolding download
  lineup_download a r =
      download a (set_flag flag_downloading (r.handle.heap a))
        (record r { handle = add_to_cooking a r.handle })

module _ {P : Type 0} (cfg : Config) (pool_calls : PoolCalls P)
    (read_blob : ℕ → ℕ → List ℕ → BlobRead) where
  -- A block of the pool, put in front of the cooked ones.
  abbrev pub push_new : ℕ × P → Reader P → Reader P
  push_new (a, pool) r =
      let h = set_block a (blank_block cfg.block_size (r.handle.heap a)) r.handle in
      record r { handle = record h { cooked = a ∷ h.cooked }; pool = pool }

  -- The block in front is taken over for an index.
  unfoldable pub reuse_block : ℕ → ℕ → Reader P → Outcome P
  unfolding lineup_download
  reuse_block index a r =
      let b = record (re_use (r.handle.heap a)) {
        id = pos index;
        offset = index * cfg.block_size;
      } in
      let h = set_value index a (set_block a b r.handle) in
      lineup_download read_blob a (record r { handle = record h { next = index + 1 } })

  -- A block that is being uploaded is waited for; its old entry is removed.
  unfoldable pub release_id : ℤ → ℕ → Reader P → Outcome P
  release_id (negsuc n) a r = went r
  release_id (pos old) a r =
      let b = r.handle.heap a in
      let removed = record r { handle = remove_value (pos old) r.handle } in
      if Bitmap.is_set b.flags flag_uploading
      then elim (receive b) [
        | blocked ↦ stops waits r
        | was_closed ↦ went removed
        | value v ↦ elim (take_and_unblock b) [
          | none ↦ stops panics r
          | some b' ↦ went (record r { handle = remove_value (pos old) (set_block a b' r.handle) })
        ]
      ]
      else went removed

  unfoldable pub release_entry : ℕ → Reader P → Outcome P
  unfolding release_id
  release_entry a r = release_id (r.handle.heap a).id a r

  abbrev pub refresh_front : ℕ → Reader P → Outcome P
  refresh_front index r = elim r.handle.cooked [
    | [] ↦ went r
    | a ∷ rest ↦ elim (release_entry a r) [
      | went r' ↦ reuse_block index a r'
      | stops why r' ↦ stops why r'
    ]
  ]

  unfoldable pub refresh_block : ℕ → Bool → Reader P → Outcome P
  unfolding reuse_block release_entry
  refresh_block index prefetch r =
      if leb r.handle.size (index * cfg.block_size)
      then stops at_eof r
      else (if (length r.handle.cooked == 0) && not prefetch
          then elim (pool_calls.must_get r.pool) [
            | none ↦ stops fails r
            | some got ↦ refresh_front index (push_new got r)
          ]
          else refresh_front index r)

  -- The loop that downloads; an index that is there stays where it is.
  unfoldable pub download_blocks : ℕ → ℕ → ℕ → Bool → Reader P → Outcome P
  unfolding refresh_block should_commit_and_download
  download_blocks zero i index prefetch r = went r
  download_blocks (suc cnt) i index prefetch r = elim (r.handle.values index) [
    | some a ↦ download_blocks cnt (suc i) index prefetch r
    | none ↦ elim (should_commit_and_download index r.handle).0 [
      | true ↦ stops commits r
      | false ↦ elim (refresh_block index (prefetch || ltb 0 i) r) [
        | went r' ↦ download_blocks cnt (suc i) (index + 1) prefetch r'
        | stops why r' ↦ stops why r'
      ]
    ]
  ]

  -- The loop that takes blocks from the pool, with the rounds left.
  unfoldable pub take_blocks : ℕ → ℕ → Reader P → ℕ × Reader P
  take_blocks zero cnt r = (cnt, r)
  take_blocks (suc rounds) cnt r = elim (ltb cnt min_prefetch) [
    | false ↦ (cnt, r)
    | true ↦ elim (pool_calls.try_get r.pool) [
      | none ↦ take_blocks rounds cnt r
      | some got ↦ take_blocks rounds (suc cnt) (push_new got r)
    ]
  ]

-- `prepareHandleForBlockCache`, in a new handle of a file.
abbrev pub prepare_handle_for_block_cache : ℕ → ℕ → (ℕ → Block) → Handle
prepare_handle_for_block_cache size etag heap = record {
  size = size;
  values = λ k. none;
  next = 0;
  opt_cnt = 0;
  cooked = [];
  cooking = [];
  heap = heap;
  block_list = [];
  etag = etag;
}
