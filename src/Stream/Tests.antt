-- ===== src/Stream/Tests.antt =====
-- A file of six bytes, in blocks of four, with a cache for one block.
use cloudfuse.Base.{
  ℕ, zero, suc, ◌+◌, ◌-◌, ◌≤◌, ◌<◌, ◌≡◌, refl, ap, ◌⊎◌, Bool, true, false, none, some, List, [],
  ◌∷◌, length, get_or, min, arith,
}
use cloudfuse.Base.Int.{pos, ◌+ℤ◌, ◌-ℤ◌}
use cloudfuse.Bitmap.{is_set}
use cloudfuse.BlockList.{dirty}
use cloudfuse.LruCache.{LruCache, new_lru_cache, get, put, evict, remove}
use cloudfuse.LruCache.Laws.{new_lru_cache-IsCache}
use cloudfuse.Stream.{
  Read, failure, ReadCache, Handle, Copied, copied, panicked, is_failure, read_in_buffer, open_file,
  release_file,
}
use cloudfuse.Stream.Cached.{IsGood, IsHonest}
use cloudfuse.Stream.Direct.{direct, read_in_buffer-direct}
use cloudfuse.Stream.Open.{IsCaching, open_file-IsCaching, release_file-IsCache}

abbrev content : ℕ → ℕ
content n = 10 + n

-- The storage answers with the file's bytes; the other one always fails.
abbrev answers : ℕ → ℕ → List ℕ → Read
answers calls offset buffer = record {
  filled = direct content offset (length buffer);
  count = length buffer;
  err = none;
}

abbrev fails : ℕ → ℕ → List ℕ → Read
fails calls offset buffer = record { filled = buffer; count = 0; err = some failure }

length-direct : (offset n : ℕ) → length (direct content offset n) ≡ n
length-direct offset zero = refl
length-direct offset (suc n) = ap suc (length-direct (suc offset) n)

get_or-direct :
    (offset n x : ℕ) → x < n → get_or (direct content offset n) x 0 ≡ content (offset + x)
get_or-direct offset zero x h = absurd (omega (arith, h))
get_or-direct offset (suc n) zero h = omega arith
get_or-direct offset (suc n) (suc x) h =
    let rest = get_or-direct (suc offset) n x (omega (arith, h)) in omega (arith, rest)

answers-IsHonest : IsHonest content 4 6 answers
answers-IsHonest calls offset buffer fine =
    (length-direct offset (length buffer), λ x h inside. get_or-direct offset (length buffer) x h)

abbrev component : ReadCache
component = record {
  stream_only = false;
  block_size = 4;
  buffer_size = 4;
  cached_obj_limit = 1;
  cached_objects = 0;
}

abbrev empty_cache : LruCache
empty_cache = new_lru_cache (pos 4)

abbrev buffer : List ℕ
buffer = 0 ∷ 0 ∷ 0 ∷ 0 ∷ 0 ∷ []

abbrev opened : Handle
opened = record { size = 6; cache_obj = empty_cache; only_streams = false }

read_in_buffer-direct_example :
    ((cache : LruCache) × (calls' : ℕ) × (read_in_buffer answers component opened 3 buffer 0
        ≡ copied (direct content 3 (min (length buffer) (6 - 3))) none cache calls')
      × IsGood content 4 6 cache)
    ⊎ ((read_in_buffer answers component opened 3 buffer 0 ≡ panicked)
        × (n : ℕ) × (key : ℕ) × (block : List ℕ) × (is_failure (answers n key block).err ≡ true))
read_in_buffer-direct_example =
    read_in_buffer-direct content answers component opened answers-IsHonest (omega arith) refl refl
      (record { order = new_lru_cache-IsCache (pos 4); room = omega arith; loaded = tt }) 3 buffer 0

open_file-IsCaching_example :
    (ok : Bool) × (handle : Handle) × (r' : ReadCache) × (calls' : ℕ) × (open_file answers component
        6 0
      ≡ some (ok, handle, r', calls'))
    × (((ok ≡ true)
          × (component.cached_obj_limit ≤ component.cached_objects)
          × (handle.only_streams ≡ true)
          × (r' ≡ component))
        ⊎ (((ok ≡ true)
              × (component.cached_objects < component.cached_obj_limit)
              × IsCaching content component 6 handle r')
            ⊎ ((ok ≡ false)
                × (n : ℕ) × (block : List ℕ) × (is_failure (answers n 0 block).err ≡ true))))
open_file-IsCaching_example =
    open_file-IsCaching content answers component 6 0 answers-IsHonest (omega arith) refl

release_file-IsCache_example :
    (cache : LruCache) × (cache.list ≡ [])
    × (cache.occupied ≡ pos 0)
    × (release_file (record component { cached_objects = 1 }) opened
        ≡ some (record opened { cache_obj = cache; only_streams = true }, component))
    × (release_file component (record opened { cache_obj = cache; only_streams = true })
        ≡ some (record opened { cache_obj = cache; only_streams = true }, component))
release_file-IsCache_example =
    release_file-IsCache component opened refl refl (new_lru_cache-IsCache (pos 4))

bytes_of : Copied → List ℕ
bytes_of (copied bytes err cache calls) = bytes
bytes_of other = []

-- Both blocks are read, the second one in place of the first.
read_test : bytes_of (read_in_buffer answers component opened 3 buffer 0) ≡ 13 ∷ 14 ∷ 15 ∷ []
unfolding read_in_buffer bytes_of ◌+ℤ◌ ◌-ℤ◌ get put evict dirty is_set remove
read_test = refl

-- A failed read panics: the missing block is unlocked.
failed_read_test : read_in_buffer fails component opened 3 (0 ∷ 0 ∷ []) 0 ≡ panicked
unfolding read_in_buffer ◌+ℤ◌ ◌-ℤ◌ get put
failed_read_test = refl

-- A failed open counts as a cached file, though nobody will release its handle.
failed_open_test :
    open_file fails component 6 0
    ≡ some (
      false,
      record {
        size = 6;
        cache_obj = record {
          capacity = pos 4;
          list =
              record {
                id = 0;
                key = 0;
                value = record {
                  start_index = 0;
                  end_index = 4;
                  flags = 0;
                  id = "";
                  bytes = 0 ∷ 0 ∷ 0 ∷ 0 ∷ [];
                };
              }
              ∷ [];
          elements = (0, 0) ∷ [];
          occupied = pos 4;
          next_id = 1;
        };
        only_streams = false;
      },
      record component { cached_objects = 1 },
      1,
    )
unfolding open_file ◌+ℤ◌ ◌-ℤ◌ get put
failed_open_test = refl
