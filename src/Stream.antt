-- ===== src/Stream.antt =====
-- component/stream/read.go: files that are read through a cache of blocks, one cache for each open file. The
-- storage behind it is a parameter; a call of it has a number. Locks and logging are left out: a reader holds the
-- cache or the block that it uses, so the calls of a handle come one after the other. Offsets are not negative.
pub mod Cached
pub mod Direct
pub mod Open
mod Tests
use cloudfuse.Base.{
  ℕ, zero, suc, ◌+◌, ◌-◌, ◌*◌, ◌%◌, Bool, true, false, not, ◌&&◌, ◌||◌, Option, none, some, List,
  [], ◌∷◌, ◌++◌, ◌==◌, ltb, leb, if◌then◌else◌, length, replicate, take, drop,
}
use cloudfuse.Base.Int.{pos}
use cloudfuse.BlockList.{Block}
use cloudfuse.LruCache.{Node, LruCache, new_lru_cache, get, put, purge}

pub data ReadError : Type 0 where
  eof : ReadError
  failure : ReadError

-- An answer of the storage: the buffer, how many bytes of it were read, and the error.
pub record Read : Type 0 where
  pub filled : List ℕ
  pub count : ℕ
  pub err : Option ReadError

pub record ReadCache : Type 0 where
  pub stream_only : Bool
  pub block_size : ℕ
  pub buffer_size : ℕ
  pub cached_obj_limit : ℕ
  pub cached_objects : ℕ

pub record Handle : Type 0 where
  pub size : ℕ
  pub cache_obj : LruCache
  pub only_streams : Bool

-- What `getBlock` gives: no block after a failed read.
pub record Got : Type 0 where
  pub block : Option Block
  pub found : Bool
  pub cache : LruCache
  pub calls : ℕ

pub data Copied : Type 0 where
  copied : List ℕ → Option ReadError → LruCache → ℕ → Copied
  panicked : Copied
  unfinished : Copied

-- `err != nil && err != io.EOF`
abbrev pub is_failure : Option ReadError → Bool
is_failure none = false
is_failure (some eof) = false
is_failure (some failure) = true

-- The bytes of the block that `Put` has just put in front; a block that is not kept is in no node.
abbrev pub write_front : Bool → List ℕ → LruCache → LruCache
write_front kept bytes cache = elim cache.list [
  | [] ↦ cache
  | n ∷ rest ↦
      if kept
      then record cache { list = record n { value = record n.value { bytes = bytes } } ∷ rest }
      else cache
]

abbrev pub size_at : ℕ → ℕ → ℕ → ℕ
size_at block_size size offset =
    if ltb size (offset + block_size) then size - offset else block_size

abbrev pub new_block : ℕ → List ℕ → Block
new_block offset bytes = record {
  start_index = offset;
  end_index = offset + length bytes;
  flags = 0;
  id = "";
  bytes = bytes;
}

module _ (next_read : ℕ → ℕ → List ℕ → Read) where
  -- `none` is a nil dereference in the cache.
  unfoldable pub get_block : ℕ → ℕ → ℕ → LruCache → ℕ → Option Got
  get_block block_size size offset cache calls = elim (get offset cache) [
    | none ↦ none
    | some (some b, cache') ↦
        some (record { block = some b; found = true; cache = cache'; calls = calls })
    | some (none, cache') ↦
        let blank = replicate (size_at block_size size offset) 0 in
        let answer = next_read calls offset blank in
        elim (put offset (new_block offset blank) cache') [
          | none ↦ none
          | some (kept, cache'') ↦ some (record {
            block =
                if is_failure answer.err
                then none
                else some (record (new_block offset blank) { bytes = answer.filled });
            found = false;
            cache = write_front kept answer.filled cache'';
            calls = suc calls;
          })
        ]
  ]

  -- The loop, on fuel. A block that is missing is unlocked all the same, and a slice may start beyond its end.
  unfoldable pub copy_from : ℕ → ℕ → ℕ → ℕ → ℕ → LruCache → ℕ → Copied
  unfolding get_block
  copy_from zero block_size size offset left cache calls = unfinished
  copy_from (suc fuel) block_size size offset left cache calls =
      elim (ltb 0 left && ltb offset size) [
        | false ↦ copied [] none cache calls
        | true ↦
            let start = offset - offset % block_size in
            elim (get_block block_size size start cache calls) [
              | none ↦ panicked
              | some g ↦ elim g.block [
                | none ↦ panicked
                | some b ↦ elim (ltb (length b.bytes) (offset - start)) [
                  | true ↦ panicked
                  | false ↦
                      let piece = take left (drop (offset - start) b.bytes) in
                      elim (copy_from fuel block_size size (offset + length piece)
                        (left - length piece) g.cache g.calls) [
                          | copied rest err cache' calls' ↦ copied (piece ++ rest) err cache' calls'
                          | panicked ↦ panicked
                          | unfinished ↦ unfinished
                        ]
                ]
              ]
            ]
      ]

  unfoldable pub copy_cached_block : ℕ → Handle → ℕ → ℕ → ℕ → Copied
  unfolding copy_from
  copy_cached_block block_size handle offset len calls =
      copy_from (suc len) block_size handle.size offset len handle.cache_obj calls

  -- A handle that only streams asks the storage.
  unfoldable pub read_in_buffer : ReadCache → Handle → ℕ → List ℕ → ℕ → Copied
  unfolding copy_cached_block
  read_in_buffer r handle offset buffer calls =
      if r.stream_only || handle.only_streams
      then (let answer = next_read calls offset buffer in
          copied (take answer.count answer.filled) answer.err handle.cache_obj (suc calls))
      else copy_cached_block r.block_size handle offset (length buffer) calls

  -- A file of a size is open below; `none` is a nil dereference, and the Boolean says whether there is no error.
  unfoldable pub open_file : ReadCache → ℕ → ℕ → Option (Bool × Handle × ReadCache × ℕ)
  unfolding get_block
  open_file r size calls =
      let handle : Handle = record {
        size = size;
        cache_obj = new_lru_cache (pos r.buffer_size);
        only_streams = false;
      } in
      if r.stream_only
      then some (true, handle, r, calls)
      else (if leb r.cached_obj_limit r.cached_objects
          then some (true, record handle { only_streams = true }, r, calls)
          else elim (get_block r.block_size size 0 handle.cache_obj calls) [
            | none ↦ none
            | some g ↦ elim g.block [
              | none ↦ some (
                false,
                record handle { cache_obj = g.cache },
                record r { cached_objects = suc r.cached_objects },
                g.calls,
              )
              | some b ↦ some (
                true,
                record handle { cache_obj = g.cache },
                record r { cached_objects = suc r.cached_objects },
                g.calls,
              )
            ]
          ])

-- The file is released below.
unfoldable pub release_file : ReadCache → Handle → Option (Handle × ReadCache)
release_file r handle =
    if not r.stream_only && not handle.only_streams
    then elim (purge handle.cache_obj) [
      | none ↦ none
      | some cache ↦ some (
        record handle { cache_obj = cache; only_streams = true },
        record r { cached_objects = r.cached_objects - 1 },
      )
    ]
    else some (handle, r)
