-- ===== src/BlockCache/Read.antt =====
-- component/block_cache/block_cache.go: the prefetch (`startPrefetch`), `getBlock` and `ReadInBuffer`.
pub mod Cleanup
pub mod Open
pub mod Get
pub mod Direct
mod Tests
use cloudfuse.Base.{
  ℕ, zero, suc, ◌+◌, ◌-◌, ◌*◌, ◌/◌, Bool, true, false, not, ◌&&◌, ◌||◌, Option, none, some, List,
  [], ◌∷◌, ◌++◌, ◌==◌, ltb, leb, min, if◌then◌else◌, length, take, drop,
}
use cloudfuse.Base.Int.{ℤ, pos, negsuc}
use cloudfuse.BlockCache.Block.{Block, re_use}
use cloudfuse.BlockCache.Handle.{
  Answer, at_eof, fails, waits, panics, commits, Config, Handle, Reader, Outcome, went, stops,
  PoolCalls, BlobRead, min_prefetch, min_randread, status_downloaded, status_uploaded,
  status_download_failed, flag_downloading, flag_uploading, flag_synced, remove_first, set_block,
  remove_value, add_to_cooked, add_to_cooking, clear_flag, set_flag, blank_block,
  should_commit_and_download, get_block_size, bytes_of, Received, value, was_closed, blocked,
  receive, take_and_unblock, refresh_block, download_blocks, take_blocks, push_new,
}

-- A block by its address, or why there is none.
pub data Found (P : Type 0) : Type 0 where
  found : ℕ → Reader P → Found P
  missing : Answer → Reader P → Found P

-- What `ReadInBuffer` has copied, and why it stopped: none is that the buffer is full.
pub data Copied (P : Type 0) : Type 0 where
  copied : List ℕ → Option Answer → Reader P → Copied P
  unfinished : Copied P

-- `arrived n a` says whether the n-th poll of the channel of block `a` finds the value of its download there. `attr_size`
-- is the size that `GetAttr` answers, none for an error.
module _ {P : Type 0} (cfg : Config) (pool_calls : PoolCalls P)
    (read_blob : ℕ → ℕ → List ℕ → BlobRead) (arrived : ℕ → ℕ → Bool) (attr_size : Option ℕ) where
  -- One block of the cooking list, which is taken from its front.
  unfoldable pub poll_block : ℕ → ℕ → List ℕ → Handle → Option Handle
  poll_block n a rest h =
      let back = record h { cooking = rest ++ a ∷ [] } in
      elim (receive (h.heap a)) [
        | was_closed ↦ some back
        | blocked ↦ some back
        | value v ↦
            if arrived n a
            then elim (take_and_unblock (clear_flag flag_downloading (h.heap a))) [
              | none ↦ none
              | some b ↦
                  some (set_block a b (record h { cooking = rest; cooked = h.cooked ++ a ∷ [] }))
            ]
            else some back
      ]

  unfoldable pub poll_cooking : ℕ → Handle → Option Handle
  unfolding poll_block
  poll_cooking zero h = some h
  poll_cooking (suc n) h = elim h.cooking [
    | [] ↦ some h
    | a ∷ rest ↦ elim (poll_block n a rest h) [ none ↦ none | some h' ↦ poll_cooking n h' ]
  ]

  -- The blocks in front go back to the pool.
  unfoldable pub release_cooked : ℕ → Reader P → Reader P
  release_cooked zero r = r
  release_cooked (suc excess) r = elim r.handle.cooked [
    | [] ↦ r
    | a ∷ rest ↦
        let b = r.handle.heap a in
        let h = set_block a (re_use b) (remove_value b.id (record r.handle { cooked = rest })) in
        release_cooked excess (record r { handle = h; pool = pool_calls.release a r.pool })
  ]

  abbrev pub buffers : Handle → ℕ
  buffers h = length h.cooked + length h.cooking

  -- In the random mode.
  unfoldable pub drop_excess : Reader P → Option (Reader P)
  unfolding poll_cooking release_cooked
  drop_excess r =
      if ltb min_prefetch (buffers r.handle)
      then elim (poll_cooking (length r.handle.cooking) r.handle) [
        | none ↦ none
        | some h ↦ some (release_cooked (length h.cooked - min_prefetch) (record r { handle = h }))
      ]
      else some r

  unfoldable pub start_prefetch : ℕ → Bool → Reader P → Outcome P
  unfolding drop_excess take_blocks download_blocks
  start_prefetch index prefetch r =
      if ltb min_randread r.handle.opt_cnt
      then elim (drop_excess r) [
        | none ↦ stops panics r
        | some r' ↦ download_blocks cfg pool_calls read_blob 1 0 index prefetch r'
      ]
      else (let (cnt, r') =
            take_blocks cfg pool_calls read_blob (cfg.prefetch - buffers r.handle) 0 r in
          download_blocks cfg pool_calls read_blob (if cnt == 0 then 1 else cnt) 0 index prefetch
            r')

  unfoldable pub release_download_failed_block : ℕ → Reader P → Reader P
  release_download_failed_block a r =
      let h = r.handle in
      let b = h.heap a in
      let h' = record h { cooking = remove_first a h.cooking; cooked = remove_first a h.cooked } in
      record r {
        handle = set_block a (re_use b) (remove_value b.id h');
        pool = pool_calls.release a r.pool;
      }

  -- The errors of a prefetch are dropped; what never returns does not return here either.
  abbrev pub ignore_error : Outcome P → Outcome P
  ignore_error (went r) = went r
  ignore_error (stops at_eof r) = went r
  ignore_error (stops fails r) = went r
  ignore_error (stops waits r) = stops waits r
  ignore_error (stops panics r) = stops panics r
  ignore_error (stops commits r) = stops commits r

  abbrev pub ignore_eof : Outcome P → Outcome P
  ignore_eof (went r) = went r
  ignore_eof (stops at_eof r) = went r
  ignore_eof (stops fails r) = stops fails r
  ignore_eof (stops waits r) = stops waits r
  ignore_eof (stops panics r) = stops panics r
  ignore_eof (stops commits r) = stops commits r

  -- The first reader of a downloaded block prefetches more.
  abbrev pub prefetch_more : Reader P → Outcome P
  prefetch_more r =
      if not cfg.no_prefetch
        && (leb r.handle.opt_cnt min_randread && ltb (r.handle.next * cfg.block_size) r.handle.size)
      then ignore_error (start_prefetch r.handle.next true r)
      else went r

  abbrev pub change_block : ℕ → (Block → Block) → Reader P → Reader P
  change_block a f r = record r { handle = set_block a (f (r.handle.heap a)) r.handle }

  -- The block is there: its channel is waited for, and the status is looked at.
  unfoldable pub open_block : ℕ → Reader P → Found P
  unfolding start_prefetch release_download_failed_block
  open_block a r = elim (receive (r.handle.heap a)) [
    | blocked ↦ missing waits r
    | was_closed ↦ found a r
    | value v ↦ elim (take_and_unblock (r.handle.heap a)) [
      | none ↦ missing panics r
      | some b ↦
          let r1 = record r { handle = set_block a b r.handle } in
          elim (v == status_downloaded) [
            | true ↦ elim (prefetch_more (change_block a (clear_flag flag_downloading) r1)) [
              | stops why r2 ↦ missing why r2
              | went r2 ↦
                  let r3 = record r2 { handle = add_to_cooked a r2.handle } in
                  found a (change_block a (set_flag flag_synced) r3)
            ]
            | false ↦
                if v == status_uploaded
                then found a (change_block a (clear_flag flag_uploading) r1)
                else if v == status_download_failed
                then missing fails (release_download_failed_block a r1)
                else (let r2 = change_block a (clear_flag flag_uploading) r1 in
                    found a (record r2 { handle = add_to_cooking a r2.handle }))
          ]
    ]
  ]

  -- A block that is not in the map is looked up again after a prefetch.
  abbrev pub fetch_block : ℕ → Reader P → Found P
  fetch_block index r =
      let random = record r { handle = record r.handle { opt_cnt = r.handle.opt_cnt + 1 } } in
      let first = not cfg.no_prefetch && (r.handle.next == 0) in
      elim (ignore_eof (start_prefetch index false (if first then r else random))) [
        | stops why r' ↦ missing why r'
        | went r' ↦ elim (r'.handle.values index) [
          | none ↦ missing fails r'
          | some a ↦ open_block a r'
        ]
      ]

  -- A null block, for what lies behind the end of the stored file.
  abbrev pub null_block : ℕ → Reader P → Found P
  null_block offset r = elim (pool_calls.must_get r.pool) [
    | none ↦ missing fails r
    | some (a, pool) ↦
        let b = record (blank_block cfg.block_size (r.handle.heap a)) { offset = offset } in
        found a (record r { handle = set_block a b r.handle; pool = pool })
  ]

  unfoldable pub get_block : ℕ → Reader P → Found P
  unfolding open_block should_commit_and_download
  get_block offset r =
      let index = offset / cfg.block_size in
      if leb r.handle.size offset then missing at_eof r else elim (r.handle.values index) [
        | some a ↦ open_block a r
        | none ↦
            let (commit, download) = should_commit_and_download index r.handle in
            if commit
            then missing commits r
            else (if download then fetch_block index r else elim attr_size [
              | none ↦ missing fails r
              | some size ↦ if leb size offset then null_block offset r else fetch_block index r
            ])
      ]

  -- The loop of `ReadInBuffer`, on fuel.
  unfoldable pub copy_from : ℕ → ℕ → ℕ → Reader P → Copied P
  unfolding get_block
  copy_from zero offset left r = unfinished
  copy_from (suc fuel) offset left r = elim (ltb 0 left) [
    | false ↦ copied [] none r
    | true ↦ elim (get_block offset r) [
      | missing why r' ↦ copied [] (some why) r'
      | found a r' ↦
          let b = r'.handle.heap a in
          let from = offset - b.offset in
          let upto = get_block_size cfg.block_size r'.handle.size b in
          elim (ltb upto from) [
            | true ↦ copied [] (some panics) r'
            | false ↦
                let piece = take left (drop from (take upto (bytes_of b))) in
                elim (leb r'.handle.size (offset + length piece)) [
                  | true ↦ copied piece (some at_eof) r'
                  | false ↦ elim (copy_from fuel (offset + length piece) (left - length piece) r') [
                    | unfinished ↦ unfinished
                    | copied rest why r'' ↦ copied (piece ++ rest) why r''
                  ]
                ]
          ]
    ]
  ]

  unfoldable pub read_in_buffer : ℕ → ℕ → Reader P → Copied P
  unfolding copy_from
  read_in_buffer offset len r =
      if leb r.handle.size offset
      then copied [] (some at_eof) r
      else copy_from (suc len) offset len r
