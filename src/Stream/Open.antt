-- ===== src/Stream/Open.antt =====
-- Opening and releasing a file.
use cloudfuse.Base.{
  ℕ, suc, ◌-◌, ◌≤◌, ◌<◌, ◌≡◌, ◌⊎◌, refl, ap, ◌∙◌, Bool, true, false, some, List, [], Bool-cases,
  Option-cases, inl, inr, leb, arith,
}
use cloudfuse.Base.Int.{pos}
use mathlib.Core.Path.{subst}
use cloudfuse.LruCache.{LruCache, new_lru_cache}
use cloudfuse.LruCache.Laws.{IsCache, new_lru_cache-IsCache}
use cloudfuse.LruCache.Purge.{purge-IsCache}
use cloudfuse.Stream.{Read, ReadCache, Handle, is_failure, get_block, open_file, release_file}
use cloudfuse.Stream.Cached.{IsGood, IsHonest, IsGot, get_block-IsGot}

-- An open file with its own cache: it counts, and its cache holds the file's bytes.
pub record IsCaching (stored : ℕ → ℕ) (r : ReadCache) (size : ℕ) (handle : Handle) (r' : ReadCache)
    : Type 0 where
  pub same_size : handle.size ≡ size
  pub by_block : handle.only_streams ≡ false
  pub good : IsGood stored r.block_size size handle.cache_obj
  pub counts : r' ≡ record r { cached_objects = suc r.cached_objects }

-- Let the size of the cache be positive, the component not only stream, and the storage fill a buffer with the file's
-- bytes whenever it reports no failure. Opening a file then never dereferences nil, and ends in one of three ways: where
-- the limit is reached the handle only streams, and nothing is counted; or the first block is read, the handle counts as
-- cached, and its cache holds the file's bytes; or the storage failed, and the open fails.
pub open_file-IsCaching :
    (stored : ℕ → ℕ) (next_read : ℕ → ℕ → List ℕ → Read) (r : ReadCache) (size calls : ℕ)
    → IsHonest stored r.block_size size next_read
    → 0 < r.buffer_size
    → r.stream_only ≡ false
    → (ok : Bool) × (handle : Handle) × (r' : ReadCache) × (calls' : ℕ) × (open_file next_read r
          size calls
        ≡ some (ok, handle, r', calls'))
      × (((ok ≡ true)
            × (r.cached_obj_limit ≤ r.cached_objects)
            × (handle.only_streams ≡ true)
            × (r' ≡ r))
          ⊎ (((ok ≡ true)
                × (r.cached_objects < r.cached_obj_limit)
                × IsCaching stored r size handle r')
              ⊎ ((ok ≡ false)
                  × (n : ℕ) × (block : List ℕ) × (is_failure (next_read n 0 block).err ≡ true))))
unfolding open_file
open_file-IsCaching stored next_read r size calls honest room cached =
    let empty = new_lru_cache (pos r.buffer_size) in
    let handle : Handle = record { size = size; cache_obj = empty; only_streams = false } in
    let counted : ReadCache = record r { cached_objects = suc r.cached_objects } in
    let good : IsGood stored r.block_size size empty = record {
      order = new_lru_cache-IsCache (pos r.buffer_size);
      room = room;
      loaded = tt;
    } in
    elim (Bool-cases (leb r.cached_obj_limit r.cached_objects)) [
      | inl full ↦ (
        true,
        record handle { only_streams = true },
        r,
        calls,
        (simp (open_file, cached, full) refl),
        inl (refl, ground (arith, full), refl, refl),
      )
      | inr free ↦
          let got = get_block-IsGot stored r.block_size size next_read honest 0 calls empty good in
          elim (Option-cases (get_block next_read r.block_size size 0 empty calls)) [
            | inl crashed ↦
                absurd (subst (IsGot stored r.block_size size next_read honest 0) crashed got)
            | inr (g, e) ↦
                let is_got : IsGot stored r.block_size size next_read honest 0 (some g) =
                  subst (IsGot stored r.block_size size next_read honest 0) e got in
                elim is_got [
                  | inl (missing, n, block, fails) ↦ (
                    false,
                    record handle { cache_obj = g.cache },
                    counted,
                    g.calls,
                    (simp (open_file, cached, free, e, missing) refl),
                    inr (inr (refl, n, block, fails)),
                  )
                  | inr (b, there, loaded, good') ↦ (
                    true,
                    record handle { cache_obj = g.cache },
                    counted,
                    g.calls,
                    (simp (open_file, cached, free, e, there) refl),
                    inr (
                        inl (
                          refl,
                          ground (arith, free),
                          record { same_size = refl; by_block = refl; good = good'; counts = refl },
                        )),
                  )
                ]
          ]
    ]

-- Releasing a file whose handle has a cache in order empties the cache, takes back the count that the opening added, and
-- leaves a handle that only streams; a second release of that handle changes nothing.
pub release_file-IsCache :
    (r : ReadCache) (handle : Handle)
    → r.stream_only ≡ false
    → handle.only_streams ≡ false
    → IsCache handle.cache_obj
    → (cache : LruCache) × (cache.list ≡ [])
      × (cache.occupied ≡ pos 0)
      × (release_file (record r { cached_objects = suc r.cached_objects }) handle
          ≡ some (record handle { cache_obj = cache; only_streams = true }, r))
      × (release_file r (record handle { cache_obj = cache; only_streams = true })
          ≡ some (record handle { cache_obj = cache; only_streams = true }, r))
unfolding release_file
release_file-IsCache r handle cached by_block order =
    let (cache, purged, order', empty, no_room, nothing) = purge-IsCache handle.cache_obj order in
    let closed : Handle = record handle { cache_obj = cache; only_streams = true } in
    let back : suc r.cached_objects - 1 ≡ r.cached_objects = omega arith in
    let step : release_file (record r { cached_objects = suc r.cached_objects }) handle
        ≡ some (closed, record r { cached_objects = suc r.cached_objects - 1 }) =
      ground (arith, cached, by_block, purged) in
    (
      cache,
      empty,
      nothing,
      step ∙ ap (λ (k : ℕ). some (closed, record r { cached_objects = k })) back,
      ground (arith, cached),
    )
