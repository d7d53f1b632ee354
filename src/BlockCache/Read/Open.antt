-- ===== src/BlockCache/Read/Open.antt =====
-- `startPrefetch` as a whole, in both modes.
use cloudfuse.Base.{
  ℕ, ◌-◌, ◌*◌, ◌≡◌, refl, inl, inr, Bool, true, false, not, ◌&&◌, Option, List, ◌==◌, if◌then◌else◌,
  Bool-cases, ltb, leb, arith,
}
use cloudfuse.BlockCache.Handle.{
  Config, Reader, Outcome, went, stops, fails, at_eof, waits, panics, commits, PoolCalls, BlobRead,
  take_blocks, download_blocks,
}
use cloudfuse.BlockCache.Handle.Sound.{IsPool, IsReliable, IsSound, Keeps}
use cloudfuse.BlockCache.Handle.Prefetch.{
  Refreshes, Refreshes-trans, download_blocks-Refreshes, take_blocks-IsSound,
}
use cloudfuse.BlockCache.Read.{start_prefetch, ignore_error, prefetch_more, buffers}
use cloudfuse.BlockCache.Read.Cleanup.{drop_excess-IsSound}

module _ {P : Type 0} (held : P → ℕ → ℕ) (stored : ℕ → ℕ) (cfg : Config) (size etag : ℕ)
    (pool_calls : PoolCalls P) (read_blob : ℕ → ℕ → List ℕ → BlobRead)
    (reliable : IsReliable held stored cfg size etag read_blob) (is_pool : IsPool pool_calls held)
    (arrived : ℕ → ℕ → Bool) (attr_size : Option ℕ) where
  -- The handle is sound, however the operation ended.
  abbrev pub Stays : Outcome P → Type 0
  Stays (went r') = IsSound held stored cfg size etag r'
  Stays (stops at_eof r') = IsSound held stored cfg size etag r'
  Stays (stops fails r') = IsSound held stored cfg size etag r'
  Stays (stops waits r') = ⊥
  Stays (stops panics r') = ⊥
  Stays (stops commits r') = ⊥

  Refreshes-Stays :
      (r : Reader P) (o : Outcome P)
      → Refreshes held stored cfg size etag pool_calls read_blob reliable is_pool r o
      → Stays o
  Refreshes-Stays r (went r') h = h.0
  Refreshes-Stays r (stops at_eof r') h = h.0
  Refreshes-Stays r (stops fails r') h = h.0
  Refreshes-Stays r (stops waits r') h = h
  Refreshes-Stays r (stops panics r') h = h
  Refreshes-Stays r (stops commits r') h = h

  start_prefetch-Refreshes :
      (index : ℕ) (prefetch : Bool) (r : Reader P)
      → IsSound held stored cfg size etag r
      → ltb 10 r.handle.opt_cnt ≡ false
      → Refreshes held stored cfg size etag pool_calls read_blob reliable is_pool r
          (start_prefetch cfg pool_calls read_blob arrived attr_size index prefetch r)
  unfolding start_prefetch
  start_prefetch-Refreshes index prefetch r s sequential =
      let rounds = cfg.prefetch - buffers cfg pool_calls read_blob arrived attr_size r.handle in
      let taken = take_blocks cfg pool_calls read_blob rounds 0 r in
      let (s', k) =
        take_blocks-IsSound held stored cfg size etag pool_calls read_blob reliable is_pool rounds 0
          r s in
      let cnt = if taken.0 == 0 then 1 else taken.0 in
      rw (start_prefetch, sequential)
        (Refreshes-trans held stored cfg size etag pool_calls read_blob reliable is_pool r taken.1 k
          (download_blocks cfg pool_calls read_blob cnt 0 index prefetch taken.1)
          (download_blocks-Refreshes held stored cfg size etag pool_calls read_blob reliable is_pool
            cnt 0 index prefetch taken.1 s'))

  -- Whatever the mode, a prefetch leaves a sound handle.
  pub start_prefetch-Stays :
      (index : ℕ) (prefetch : Bool) (r : Reader P)
      → IsSound held stored cfg size etag r
      → Stays (start_prefetch cfg pool_calls read_blob arrived attr_size index prefetch r)
  unfolding start_prefetch
  start_prefetch-Stays index prefetch r s = elim (Bool-cases (ltb 10 r.handle.opt_cnt)) [
    | inr sequential ↦
        Refreshes-Stays r
          (start_prefetch cfg pool_calls read_blob arrived attr_size index prefetch r)
          (start_prefetch-Refreshes index prefetch r s sequential)
    | inl random ↦
        let (r', dropped, s') =
          drop_excess-IsSound held stored cfg size etag pool_calls read_blob arrived attr_size r
            is_pool s in
        rw (start_prefetch, random, dropped)
          (Refreshes-Stays r' (download_blocks cfg pool_calls read_blob 1 0 index prefetch r') (
            download_blocks-Refreshes held stored cfg size etag pool_calls read_blob reliable
              is_pool 1 0 index prefetch r' s'))
  ]

  abbrev pub More : Reader P → Outcome P → Type 0
  More r (went r') = IsSound held stored cfg size etag r' × Keeps held stored cfg size etag r r'
  More r (stops why r') = ⊥

  ignored-More :
      (r : Reader P) (o : Outcome P)
      → Refreshes held stored cfg size etag pool_calls read_blob reliable is_pool r o
      → More r (ignore_error cfg pool_calls read_blob arrived attr_size o)
  ignored-More r (went r') h = h
  ignored-More r (stops at_eof r') h = h
  ignored-More r (stops fails r') h = h
  ignored-More r (stops waits r') h = absurd h
  ignored-More r (stops panics r') h = absurd h
  ignored-More r (stops commits r') h = absurd h

  pub prefetch_more-More :
      (r : Reader P)
      → IsSound held stored cfg size etag r
      → More r (prefetch_more cfg pool_calls read_blob arrived attr_size r)
  prefetch_more-More r s =
      elim (Bool-cases (
        not cfg.no_prefetch
        && (leb r.handle.opt_cnt 10 && ltb (r.handle.next * cfg.block_size) r.handle.size))) [
          | inr stays ↦ rw (prefetch_more, stays) (s, λ x placed. (refl, placed))
          | inl more ↦
              rw (prefetch_more, more)
                (ignored-More r
                  (start_prefetch cfg pool_calls read_blob arrived attr_size r.handle.next true r)
                  (start_prefetch-Refreshes r.handle.next true r s (ground (arith, more))))
        ]
