-- ===== src/BlockCache/Handle/Prefetch.antt =====
-- The loops of `startPrefetch` that take blocks from the pool and download.
use cloudfuse.Base.{
  ℕ, zero, suc, ◌+◌, ◌*◌, ◌≤◌, ◌<◌, ◌≡◌, ◌≢◌, ◌⊎◌, refl, sym, ap, ◌∙◌, inl, inr, Bool, not, ◌&&◌,
  ◌||◌, some, List, [], ◌∷◌, ◌==◌, length, length-replicate, Bool-cases, Option-cases, ltb, leb,
  arith,
}
use cloudfuse.Base.Int.{pos, negsuc}
use mathlib.Core.Path.{subst}
use cloudfuse.BlockCache.Block.{Block, open_signal, re_use}
use cloudfuse.BlockCache.Handle.{
  Config, Reader, Outcome, went, stops, fails, at_eof, waits, panics, commits, Answer, PoolCalls,
  BlobRead, set_block, bytes_of, blank_block, push_new, refresh_front, refresh_block,
  download_blocks, take_blocks, should_commit_and_download,
}
use cloudfuse.BlockCache.Handle.Lists.{one_if, count}
use cloudfuse.BlockCache.Handle.Sound.{
  IsPool, IsOpenable, HasChannel, downloaded_signal, IsReliable, IsFilled, places, IsSound, Keeps,
  Keeps-trans, release_entry-IsReleased,
}
use cloudfuse.BlockCache.Handle.Refresh.{
  at_block, off_block, refreshed, refreshed_heap, refreshed-IsSound, reuse_block-went,
  still_cooking,
}

module _ {P : Type 0} (held : P → ℕ → ℕ) (stored : ℕ → ℕ) (cfg : Config) (size etag : ℕ)
    (pool_calls : PoolCalls P) (read_blob : ℕ → ℕ → List ℕ → BlobRead)
    (reliable : IsReliable held stored cfg size etag read_blob)
    (is_pool : IsPool pool_calls held) where
  -- An operation goes well, or it ends at the end of the file or for want of a block. Either way the handle is sound,
  -- and the blocks that others have in hand stay.
  abbrev pub Refreshes : Reader P → Outcome P → Type 0
  Refreshes r (went r') =
      IsSound held stored cfg size etag r' × Keeps held stored cfg size etag r r'
  Refreshes r (stops at_eof r') =
      IsSound held stored cfg size etag r' × Keeps held stored cfg size etag r r'
  Refreshes r (stops fails r') =
      IsSound held stored cfg size etag r' × Keeps held stored cfg size etag r r'
  Refreshes r (stops waits r') = ⊥
  Refreshes r (stops panics r') = ⊥
  Refreshes r (stops commits r') = ⊥

  pub Refreshes-trans :
      (r r' : Reader P)
      → Keeps held stored cfg size etag r r'
      → (o : Outcome P) → Refreshes r' o
      → Refreshes r o
  Refreshes-trans r r' k (went r2) (s, k') = (s, Keeps-trans held stored cfg size etag r r' r2 k k')
  Refreshes-trans r r' k (stops at_eof r2) (s, k') =
      (s, Keeps-trans held stored cfg size etag r r' r2 k k')
  Refreshes-trans r r' k (stops fails r2) (s, k') =
      (s, Keeps-trans held stored cfg size etag r r' r2 k k')
  Refreshes-trans r r' k (stops waits r2) h = h
  Refreshes-trans r r' k (stops panics r2) h = h
  Refreshes-trans r r' k (stops commits r2) h = h

  List-cases : (l : List ℕ) → (l ≡ []) ⊎ ((a : ℕ) × (rest : List ℕ) × (l ≡ a ∷ rest))
  List-cases [] = inl refl
  List-cases (a ∷ rest) = inr (a, rest, refl)

  -- A block that the pool hands out stands nowhere in the handle, and is put in front.
  push_new-IsSound :
      (a : ℕ) (p : P) (r : Reader P)
      → ((x : ℕ) → held r.pool x ≡ held p x + one_if (a == x))
      → IsSound held stored cfg size etag r
      → IsSound held stored cfg size etag (push_new cfg pool_calls read_blob (a, p) r)
        × Keeps held stored cfg size etag r (push_new cfg pool_calls read_blob (a, p) r)
  unfolding re_use should_commit_and_download
  push_new-IsSound a p r out s =
      let b = blank_block cfg.block_size (r.handle.heap a) in
      let here = at_block held stored cfg size etag pool_calls read_blob reliable a b r.handle in
      let absent : places held stored cfg size etag a r.handle ≡ 0 =
        let once = s.apart a in let at_a = out a in ground (arith, once, at_a) in
      let others : (x : ℕ) → 1 ≤ places held stored cfg size etag x r.handle → x ≢ a =
        λ x placed same.
          let at_a : 1 ≤ places held stored cfg size etag a r.handle =
            subst (λ (y : ℕ). 1 ≤ places held stored cfg size etag y r.handle) same placed in
          omega (arith, absent, at_a) in
      let heap_of : (x : ℕ) → x ≢ a → (set_block a b r.handle).heap x ≡ r.handle.heap x = λ x other.
        off_block held stored cfg size etag pool_calls read_blob reliable a x b r.handle other in
      let old : (x : ℕ)
          → x ≢ a
          → 1 ≤ one_if (a == x) + count x r.handle.cooked + count x r.handle.cooking
          → 1 ≤ places held stored cfg size etag x r.handle =
        λ x other placed. ground (arith, other, placed) in
      (
        record {
          same_size = s.same_size;
          same_etag = s.same_etag;
          apart = λ x. let once = s.apart x in let e = out x in omega (arith, once, e);
          sized = λ x placed. elim (Bool-cases (x == a)) [
            | inl same ↦
                let at_a : x ≡ a = ground (arith, same) in
                subst
                  (λ (y : ℕ). length (bytes_of ((set_block a b r.handle).heap y)) ≡ cfg.block_size)
                  (sym at_a)
                  (ap (λ (c : Block). length (bytes_of c)) here
                    ∙ length-replicate {A = ℕ} cfg.block_size 0)
            | inr other ↦
                let not_a : x ≢ a = ground (arith, other) in
                ap (λ (c : Block). length (bytes_of c)) (heap_of x not_a)
                ∙ s.sized x (old x not_a placed)
          ];
          openable = λ x i placed id. elim (Bool-cases (x == a)) [
            | inl same ↦
                let at_a : x ≡ a = ground (arith, same) in
                let of_a : ((set_block a b r.handle).heap a).id ≡ pos i =
                  subst (λ (y : ℕ). ((set_block a b r.handle).heap y).id ≡ pos i) at_a id in
                let no_id : negsuc 0 ≡ pos i = sym (ap (λ (c : Block). c.id) here) ∙ of_a in
                absurd (ground (arith, no_id))
            | inr other ↦
                let not_a : x ≢ a = ground (arith, other) in
                let e = heap_of x not_a in
                subst IsOpenable (sym e)
                  (s.openable x i (old x not_a placed) (sym (ap (λ (c : Block). c.id) e) ∙ id))
          ];
          channels = λ x placed. elim (Bool-cases (x == a)) [
            | inl same ↦
                let at_a : x ≡ a = ground (arith, same) in
                inr (
                  subst (λ (y : ℕ). ((set_block a b r.handle).heap y).state ≡ some open_signal)
                    (sym at_a) (ap (λ (c : Block). c.state) here))
            | inr other ↦
                let not_a : x ≢ a = ground (arith, other) in
                subst HasChannel (sym (heap_of x not_a)) (s.channels x (old x not_a placed))
          ];
          waiting = λ x placed state. elim (Bool-cases (x == a)) [
            | inl same ↦
                let at_a : x ≡ a = ground (arith, same) in
                let of_a : ((set_block a b r.handle).heap a).state ≡ some downloaded_signal =
                  subst
                    (λ (y : ℕ). ((set_block a b r.handle).heap y).state ≡ some downloaded_signal)
                    at_a state in
                let fresh : some open_signal ≡ some downloaded_signal =
                  sym (ap (λ (c : Block). c.state) here) ∙ of_a in
                absurd (ground (arith, fresh))
            | inr other ↦
                let not_a : x ≢ a = ground (arith, other) in
                let e = heap_of x not_a in
                s.waiting x (old x not_a placed) (sym (ap (λ (c : Block). c.state) e) ∙ state)
          ];
          entries = λ i c e.
              let (placed, filled) = s.entries i c e in
              (
                omega (arith, placed),
                subst (IsFilled held stored cfg size etag i) (sym (heap_of c (others c placed)))
                    filled,
              );
          committed = s.committed;
        },
        λ x placed. (heap_of x (others x (omega (arith, placed))), placed),
      )

  refresh_front-Refreshes :
      (index : ℕ) (r : Reader P)
      → IsSound held stored cfg size etag r
      → index * cfg.block_size < size
      → Refreshes r (refresh_front cfg pool_calls read_blob index r)
  refresh_front-Refreshes index r s inside = elim (List-cases r.handle.cooked) [
    | inl empty ↦ rw (refresh_front, empty) (s, λ x placed. (refl, placed))
    | inr (a, rest, e) ↦
        let front : 1 ≤ count a r.handle.cooked = rw e (ground arith) in
        let placed : 1 ≤ places held stored cfg size etag a r.handle = omega (arith, front) in
        let (r1, released, is_released) =
          release_entry-IsReleased held stored cfg size etag pool_calls read_blob a r s placed in
        let done =
          reuse_block-went held stored cfg size etag pool_calls read_blob reliable index a r1
            (is_released.kept_etag ∙ s.same_etag) inside in
        let sound =
          refreshed-IsSound held stored cfg size etag pool_calls read_blob reliable index a r r1 s
            is_released placed inside in
        let keeps : Keeps held stored cfg size etag r
            (refreshed held stored cfg size etag pool_calls read_blob reliable index a r1) =
          λ x cooking.
            let once = s.apart a in
            let other : x ≢ a = λ same.
              let at_a : 1 ≤ count a r.handle.cooking =
                subst (λ (y : ℕ). 1 ≤ count y r.handle.cooking) same cooking in
              omega (arith, once, front, at_a) in
            (
              refreshed_heap held stored cfg size etag pool_calls read_blob reliable index a x r r1
                  is_released other,
              still_cooking held stored cfg size etag pool_calls read_blob reliable a x r1 r
                  is_released other cooking,
            ) in
        rw (refresh_front, e, released, done) (sound, keeps)
  ]

  refresh_block-Refreshes :
      (index : ℕ) (prefetch : Bool) (r : Reader P)
      → IsSound held stored cfg size etag r
      → Refreshes r (refresh_block cfg pool_calls read_blob index prefetch r)
  unfolding refresh_block
  refresh_block-Refreshes index prefetch r s =
      elim (Bool-cases (leb r.handle.size (index * cfg.block_size))) [
        | inl beyond ↦ rw (refresh_block, beyond) (s, λ x placed. (refl, placed))
        | inr within ↦
            let same_size = s.same_size in
            let inside : index * cfg.block_size < size = ground (arith, within, same_size) in
            elim (Bool-cases ((length r.handle.cooked == 0) && not prefetch)) [
              | inr ready' ↦
                  rw (refresh_block, within, ready') (refresh_front-Refreshes index r s inside)
              | inl needs ↦ elim (Option-cases (pool_calls.must_get r.pool)) [
                | inl no_block ↦
                    rw (refresh_block, within, needs, no_block) (s, λ x placed. (refl, placed))
                | inr ((a, p), got) ↦
                    let pushed = push_new cfg pool_calls read_blob (a, p) r in
                    let (s', k) =
                      push_new-IsSound a p r (λ x. is_pool.must_get_held r.pool p a x got) s in
                    rw (refresh_block, within, needs, got)
                      (Refreshes-trans r pushed k
                        (refresh_front cfg pool_calls read_blob index pushed)
                        (refresh_front-Refreshes index pushed s' inside))
              ]
            ]
      ]

  pub Outcome-cases :
      (o : Outcome P)
      → ((r : Reader P) × (o ≡ went r)) ⊎ ((why : Answer) × (r : Reader P) × (o ≡ stops why r))
  Outcome-cases (went r) = inl (r, refl)
  Outcome-cases (stops why r) = inr (why, r, refl)

  -- The downloads of a prefetch: every block in the map has the file's bytes or a channel that says when, the blocks of the
  -- handle stay its own, and no block in the cooking list is touched, so that a caller may go on with it.
  pub download_blocks-Refreshes :
      (cnt i index : ℕ) (prefetch : Bool) (r : Reader P)
      → IsSound held stored cfg size etag r
      → Refreshes r (download_blocks cfg pool_calls read_blob cnt i index prefetch r)
  unfolding download_blocks
  download_blocks-Refreshes zero i index prefetch r s = (s, λ x placed. (refl, placed))
  download_blocks-Refreshes (suc cnt) i index prefetch r s =
      elim (Option-cases (r.handle.values index)) [
        | inr (a, there) ↦
            let rest = download_blocks-Refreshes cnt (suc i) index prefetch r s in
            rw (download_blocks, there) rest
        | inl missing ↦
            let kept = s.committed index in
            let one = refresh_block-Refreshes index (prefetch || ltb 0 i) r s in
            elim (Outcome-cases
              (refresh_block cfg pool_calls read_blob index (prefetch || ltb 0 i) r)) [
                | inr (why, r', e) ↦
                    let stopped : Refreshes r (stops why r') = subst (Refreshes r) e one in
                    rw (download_blocks, missing, kept, e) stopped
                | inl (r', e) ↦
                    let gone : Refreshes r (went r') = subst (Refreshes r) e one in
                    let (s', k) = gone in
                    let rest = download_blocks-Refreshes cnt (suc i) (index + 1) prefetch r' s' in
                    rw (download_blocks, missing, kept, e)
                      (Refreshes-trans r r' k
                        (download_blocks cfg pool_calls read_blob cnt (suc i) (index + 1) prefetch
                          r')
                        rest)
              ]
      ]

  pub take_blocks-IsSound :
      (rounds cnt : ℕ) (r : Reader P)
      → IsSound held stored cfg size etag r
      → IsSound held stored cfg size etag (take_blocks cfg pool_calls read_blob rounds cnt r).1
        × Keeps held stored cfg size etag r (take_blocks cfg pool_calls read_blob rounds cnt r).1
  unfolding take_blocks
  take_blocks-IsSound zero cnt r s = (s, λ x placed. (refl, placed))
  take_blocks-IsSound (suc rounds) cnt r s = elim (Bool-cases (ltb cnt 5)) [
    | inr enough ↦ rw (take_blocks, enough) (s, λ x placed. (refl, placed))
    | inl more ↦ elim (Option-cases (pool_calls.try_get r.pool)) [
      | inl no_block ↦
          let rest = take_blocks-IsSound rounds cnt r s in rw (take_blocks, more, no_block) rest
      | inr ((a, p), got) ↦
          let pushed = push_new cfg pool_calls read_blob (a, p) r in
          let (s', k) = push_new-IsSound a p r (λ x. is_pool.try_get_held r.pool p a x got) s in
          let (s2, k2) = take_blocks-IsSound rounds (suc cnt) pushed s' in
          let r2 = (take_blocks cfg pool_calls read_blob rounds (suc cnt) pushed).1 in
          rw (take_blocks, more, got) (s2, Keeps-trans held stored cfg size etag r pushed r2 k k2)
    ]
  ]
