-- ===== src/Lib.antt =====
-- The core of cloudfuse, a file system that mounts cloud storage: models of its components, and what
-- holds of them.
--
-- A mount is a pipeline of components, from the file system in front to the cloud storage at the end;
-- each passes a call on to the next one. The parts that stand here:
--
--   Pipeline      internal/pipeline.go (`NewPipeline`, `Start`, `Stop`), and `ValidatePipeline` and
--                 `UpdatePipeline` of common/util.go. What a component's own `Configure`, `Start` and
--                 `Stop` return is a parameter. `Create`, which links the components and
--                 panics where there is none, is left out.
--   BlockCache    component/block_cache: `Block` is block.go and block_linux.go (a memory block, its
--                 flags and its state channel), `Pool` is blockpool.go (`NewBlockPool`, `MustGet`,
--                 `TryGet`, `Release`, `resetBlock`, `Terminate`, `Usage`). `Pool.System` is the pool
--                 with the blocks that its callers and its reset thread hold, and their steps.
--                 `Commit` is `getBlockIDList` and `stageZeroBlock` of block_cache.go: which staged blocks
--                 a flush commits, with zero blocks in the gaps and fillers behind short blocks.
--                 `Handle` and `Read` are the reading of an open file in block_cache.go: `Handle` the two
--                 lists and the map of a handle, with `refreshBlock` and the download, and `Read`
--                 `startPrefetch`, `getBlock` and `ReadInBuffer`. The pool is the record `PoolCalls`,
--                 with the laws `IsPool`, and the storage a function.
--   BlockList     common/types.go, `BlockOffsetList`: the blocks of a blob, `BinarySearch`,
--                 `FindBlocks`, `FindBlocksToModify`, `ValidateBlockListAgainstFileSize`.
--   SizeTracker   component/size_tracker: `JournalText` is the text of the journal file, `Journal`
--                 is `MountSize` of journal.go (`sync`, `Add`, `GetSize`), `Fleet` several mounts that
--                 share a journal, `Tracker` the component of size_tracker.go. The next component is
--                 the record `Tracker.Interface.NextComponent`, with the laws `IsStorage`.
--   Encryption    common/util.go, `EncryptData` and `DecryptData`. The key derivation, AES-GCM and the
--                 random generator are parameters.
--   FileCache     component/file_cache: `LruPolicy` is lru_policy.go, which files leave the local disk.
--                 `Links` is its linked list (`extractNode`, `setHead`) as pointers of numbered nodes;
--                 `Order` says when they stand for a plain list; `Moves` and `Steps` what each call
--                 does to it; `Cut` and `Expire` what the locked loop of `deleteExpiredNodes` does;
--                 `Recent` follows a file through several calls. `Timeout` is the timeout case of
--                 `clearCache` as a whole, where no other call runs in between; `Relinked` and
--                 `Remaining` say what the first loop leaves, `Cutting` and `Deleting` what the second
--                 one does with it.
--   AttrCache     component/attr_cache: `Item` is an item of cacheMap.go with the attributes of
--                 internal/attribute.go, `Tree` the `cacheTreeMap` (`get`, `insert`, `insertItem`,
--                 `getCachedParent`), `Ancestors` and `Handlers` calls of attr_cache.go (`GetAttr`,
--                 `CreateFile`, `CreateLink`, `TruncateFile`, `Chmod`). `Deletion` is `markDeleted` and
--                 `invalidate`; `Removals` and `Renames` are the calls that use them;
--                 `Listings` is the cached listings and `IsDirEmpty`. The store of items stands
--                 for their pointers. The functions of the library on paths are parameters, with the
--                 laws `Rooted.IsPaths`; what the next component answers is an argument.
--   LruCache      common/cache_policy/lru_policy.go, `LRUCache`, the least-recently-used cache of the
--                 blocks of a handle. The nodes of its list have identities, which the map names.
--   Stream        component/stream/read.go, `ReadCache`: files that are read through such a cache, over a
--                 storage that is a parameter. `Cached` is about `getBlock`, `Direct` about a read.
--   LockMap       common/lock_map.go: the items that threads share by the name of a file, and counts.
--   ConvertName   internal/convertname/convert.go: names of the cloud and of Windows, as lists of runes.
--   Bitmap        common/util.go, `BitMap64`, the flags of blocks.
--   Base          names of the libraries, lists over native numbers, Go's integers.
--
-- State is passed explicitly: an operation takes the state and returns it with its result. What
-- panics or waits for ever in Go is `none`, `panic` or `stuck`. Sizes and offsets that the program
-- keeps nonnegative are natural numbers; where a word may wrap around, its modulus is written out.
-- These loops run on fuel: `BinarySearch`, with one more turn than there are blocks (each turn
-- makes the range of indices shorter), and the printing of a number, with the number itself as
-- its fuel (each turn divides it by ten), and the loop of `deleteExpiredNodes`, with the number
-- of nodes ever made, which no list of them exceeds. The loop of a read through the stream's
-- cache, and that of `ReadInBuffer`, has one more turn than the buffer has bytes, since each turn
-- copies one at least; the tries of `stageZeroBlock` are counted down from the limit of the code.
-- The walks of the attribute cache up to the root have the depth of the path as theirs, and its
-- walks down the tree the number of items. The usage thresholds of the size tracker are exact
-- fractions where the code has floating point numbers.
--
-- Left out: the storage components (calls of the Azure and AWS libraries), the FUSE front end,
-- the command line and logging, which are input and output; `StatFs` of the size tracker, which
-- computes in floating point; and the cache of entries. Of a file handle of the block cache, writing,
-- the upload and the commit, the disk cache of downloads and the order of the downloading threads are
-- left out, and of the stream the caches that also write. Of the attribute cache, `StreamDir` as a
-- whole, metadata and the background cleanup are left out. Of the file cache, only the eviction
-- policy stands here, without its snapshot on the disk.
pub mod AttrCache
pub mod Base
pub mod Bitmap
pub mod BlockCache
pub mod BlockList
pub mod ConvertName
pub mod Encryption
pub mod FileCache
pub mod LockMap
pub mod LruCache
pub mod Pipeline
pub mod SizeTracker
pub mod Stream
