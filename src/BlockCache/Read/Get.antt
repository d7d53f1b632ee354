-- ===== src/BlockCache/Read/Get.antt =====
-- `getBlock`: the block that it gives has the file's bytes.
use cloudfuse.Base.{
  ℕ, ◌+◌, ◌/◌, ◌≤◌, ◌<◌, ◌≡◌, ◌≢◌, refl, sym, ap, ◌∙◌, inl, inr, Bool, false, not, ◌&&◌, Option,
  none, some, List, [], ◌∷◌, ◌==◌, Bool-cases, Option-cases, leb, arith,
}
use mathlib.Core.Path.{subst}
use cloudfuse.BlockCache.Block.{Block, unblock}
use cloudfuse.BlockCache.Handle.{
  Config, Reader, Outcome, went, stops, fails, at_eof, waits, panics, commits, PoolCalls, BlobRead,
  flag_downloading, flag_synced, set_block, clear_flag, set_flag, add_to_cooked, receive, value,
  was_closed, take_and_unblock, should_commit_and_download, remove_first,
}
use cloudfuse.BlockCache.Handle.Lists.{count, count-append, count-remove_first}
use cloudfuse.BlockCache.Handle.Sound.{
  IsPool, downloaded_signal, closed_signal, IsReliable, IsFilled, places, IsSound,
}
use cloudfuse.BlockCache.Handle.Prefetch.{Outcome-cases}
use cloudfuse.BlockCache.Read.{
  Found, found, missing, start_prefetch, ignore_eof, prefetch_more, change_block, open_block,
  fetch_block, get_block,
}
use cloudfuse.BlockCache.Read.Open.{Stays, start_prefetch-Stays, More, prefetch_more-More}
use cloudfuse.BlockCache.Read.Cleanup.{
  IsLike, IsMoved, IsFilled-like, moved-IsSound, replaced-IsMoved,
}

module _ {P : Type 0} (held : P → ℕ → ℕ) (stored : ℕ → ℕ) (cfg : Config) (size etag : ℕ)
    (pool_calls : PoolCalls P) (read_blob : ℕ → ℕ → List ℕ → BlobRead)
    (reliable : IsReliable held stored cfg size etag read_blob) (is_pool : IsPool pool_calls held)
    (arrived : ℕ → ℕ → Bool) (attr_size : Option ℕ) where
  -- A block that holds the file's bytes at an index, in a sound handle; or an error, in a sound handle.
  abbrev pub Opens : ℕ → Found P → Type 0
  Opens index (found a r') =
      IsSound held stored cfg size etag r'
      × (1 ≤ places held stored cfg size etag a r'.handle)
      × IsFilled held stored cfg size etag index (r'.handle.heap a)
  Opens index (missing at_eof r') = ⊥
  Opens index (missing fails r') = IsSound held stored cfg size etag r'
  Opens index (missing waits r') = ⊥
  Opens index (missing panics r') = ⊥
  Opens index (missing commits r') = ⊥

  unblocked-IsLike : (b : Block) → IsLike b (record b { state = some closed_signal })
  unblocked-IsLike b = record {
    same_id = refl;
    same_offset = refl;
    same_bytes = refl;
    still = λ o. inr refl;
    channel = λ o. inl (inr refl);
  }

  flagged-IsLike : (f : ℕ) (b : Block) → IsLike b (clear_flag f b)
  flagged-IsLike f b = record {
    same_id = refl;
    same_offset = refl;
    same_bytes = refl;
    still = λ o. o;
    channel = λ o. o;
  }

  synced-IsLike : (f : ℕ) (b : Block) → IsLike b (set_flag f b)
  synced-IsLike f b = record {
    same_id = refl;
    same_offset = refl;
    same_bytes = refl;
    still = λ o. o;
    channel = λ o. o;
  }

  -- The block goes to the end of the cooked list.
  cooked-IsMoved :
      (a : ℕ) (r : Reader P)
      → IsSound held stored cfg size etag r
      → 1 ≤ count a r.handle.cooking
      → (r.handle.heap a).state ≡ some closed_signal
      → IsMoved held stored cfg size etag r (record r { handle = add_to_cooked a r.handle })
  cooked-IsMoved a r s placed closed = record {
    kept_size = refl;
    kept_etag = refl;
    same_list = refl;
    same_values = λ i. refl;
    same_pool = refl;
    same_places = λ x.
        let out = count-remove_first x a r.handle.cooked in
        let cut = count-remove_first x a r.handle.cooking in
        let back = count-append x (remove_first a r.handle.cooked) (a ∷ []) in
        let once = s.apart a in
        elim (Bool-cases (a == x)) [
          | inr other ↦ ground (arith, out, cut, back, other)
          | inl same ↦
              let at_a : a ≡ x = ground (arith, same) in
              let here : 1 ≤ count x r.handle.cooking =
                subst (λ (y : ℕ). 1 ≤ count y r.handle.cooking) at_a placed in
              let once' = s.apart x in ground (arith, out, cut, back, same, here, once')
        ];
    like = λ x. record {
      same_id = refl;
      same_offset = refl;
      same_bytes = refl;
      still = λ o. o;
      channel = λ o. o;
    };
    waits_on = λ x state.
        let cut = count-remove_first x a r.handle.cooking in
        let other : x ≢ a = λ same.
          let at_a : (r.handle.heap a).state ≡ some downloaded_signal =
            subst (λ (y : ℕ). (r.handle.heap y).state ≡ some downloaded_signal) same state in
          let never : some closed_signal ≡ some downloaded_signal = sym closed ∙ at_a in
          ground (arith, never) in
        (state, ground (arith, cut, other));
  }

  -- The first reader of a block: it opens the block, prefetches more, and puts the block in the cooked list.
  abbrev opened : ℕ → Reader P → Reader P
  opened a r =
      change_block cfg pool_calls read_blob arrived attr_size a (clear_flag flag_downloading)
        (record r {
          handle = set_block a (record (r.handle.heap a) { state = some closed_signal }) r.handle;
        })

  abbrev kept : ℕ → Reader P → Reader P
  kept a r =
      change_block cfg pool_calls read_blob arrived attr_size a (set_flag flag_synced)
        (record r { handle = add_to_cooked a r.handle })

  opened-IsSound :
      (index a : ℕ) (r : Reader P)
      → IsSound held stored cfg size etag r
      → IsFilled held stored cfg size etag index (r.handle.heap a)
      → IsSound held stored cfg size etag (opened a r)
        × IsFilled held stored cfg size etag index ((opened a r).handle.heap a)
        × (((opened a r).handle.heap a).state ≡ some closed_signal)
  opened-IsSound index a r s filled =
      let b : Block = record (r.handle.heap a) { state = some closed_signal } in
      let r1 : Reader P = record r { handle = set_block a b r.handle } in
      let m1 =
        replaced-IsMoved held stored cfg size etag a b r (unblocked-IsLike (r.handle.heap a))
          (λ e. absurd (ground (arith, e))) in
      let b2 = clear_flag flag_downloading (r1.handle.heap a) in
      let m2 =
        replaced-IsMoved held stored cfg size etag a b2 r1
          (flagged-IsLike flag_downloading (r1.handle.heap a)) (λ e. e) in
      let s1 = moved-IsSound held stored cfg size etag r r1 m1 s in
      let f1 =
        IsFilled-like held stored cfg size etag index (r.handle.heap a) (r1.handle.heap a)
          (m1.like a) filled in
      (
        moved-IsSound held stored cfg size etag r1 (opened a r) m2 s1,
        IsFilled-like held stored cfg size etag index (r1.handle.heap a)
            ((opened a r).handle.heap a) (m2.like a) f1,
        ground arith,
      )

  kept-Opens :
      (index a : ℕ) (r : Reader P)
      → IsSound held stored cfg size etag r
      → 1 ≤ count a r.handle.cooking
      → (r.handle.heap a).state ≡ some closed_signal
      → IsFilled held stored cfg size etag index (r.handle.heap a)
      → Opens index (found a (kept a r))
  kept-Opens index a r s placed closed filled =
      let r1 : Reader P = record r { handle = add_to_cooked a r.handle } in
      let m1 = cooked-IsMoved a r s placed closed in
      let b2 = set_flag flag_synced (r1.handle.heap a) in
      let m2 =
        replaced-IsMoved held stored cfg size etag a b2 r1
          (synced-IsLike flag_synced (r1.handle.heap a)) (λ e. e) in
      let s1 = moved-IsSound held stored cfg size etag r r1 m1 s in
      let p1 = m1.same_places a in
      (
        moved-IsSound held stored cfg size etag r1 (kept a r) m2 s1,
        omega (arith, p1, placed),
        IsFilled-like held stored cfg size etag index (r1.handle.heap a) ((kept a r).handle.heap a)
            (m2.like a) filled,
      )

  open_block-Opens :
      (index a : ℕ) (r : Reader P)
      → IsSound held stored cfg size etag r
      → r.handle.values index ≡ some a
      → Opens index (open_block cfg pool_calls read_blob arrived attr_size a r)
  unfolding open_block unblock
  open_block-Opens index a r s there =
      let (placed, filled) = s.entries index a there in
      elim filled.3 [
        | inr closed ↦
            let receives : receive (r.handle.heap a) ≡ was_closed = rw (receive, closed) refl in
            rw (open_block, receives) (s, placed, filled)
        | inl downloaded ↦
            let b : Block = record (r.handle.heap a) { state = some closed_signal } in
            let receives : receive (r.handle.heap a) ≡ value 1 = rw (receive, downloaded) refl in
            let opens : take_and_unblock (r.handle.heap a) ≡ some b =
              rw (take_and_unblock, downloaded) refl in
            let r1 = opened a r in
            let (s1, filled1, closed1) = opened-IsSound index a r s filled in
            let cooking = s.waiting a placed downloaded in
            let more =
              prefetch_more-More held stored cfg size etag pool_calls read_blob reliable is_pool
                arrived attr_size r1 s1 in
            elim (Outcome-cases held stored cfg size etag pool_calls read_blob reliable is_pool
              (prefetch_more cfg pool_calls read_blob arrived attr_size r1)) [
                | inr (why, r2, e) ↦ absurd (
                    subst
                      (More held stored cfg size etag pool_calls read_blob reliable is_pool arrived
                        attr_size r1)
                      e more)
                | inl (r2, e) ↦
                    let went' : More held stored cfg size etag pool_calls read_blob reliable is_pool
                        arrived attr_size r1 (went r2) =
                      subst
                        (More held stored cfg size etag pool_calls read_blob reliable is_pool
                          arrived attr_size r1)
                        e more in
                    let (s2, keeps) = went' in
                    let (same, still) = keeps a cooking in
                    let closed2 : (r2.handle.heap a).state ≡ some closed_signal =
                      ap (λ (c : Block). c.state) same ∙ closed1 in
                    let filled2 =
                      subst (IsFilled held stored cfg size etag index) (sym same) filled1 in
                    rw (open_block, receives, opens, e)
                      (kept-Opens index a r2 s2 still closed2 filled2)
              ]
      ]

  random-IsSound :
      (r : Reader P)
      → IsSound held stored cfg size etag r
      → IsSound held stored cfg size etag
          (record r { handle = record r.handle { opt_cnt = r.handle.opt_cnt + 1 } })
  unfolding should_commit_and_download
  random-IsSound r s = record {
    same_size = s.same_size;
    same_etag = s.same_etag;
    apart = s.apart;
    sized = s.sized;
    openable = s.openable;
    channels = s.channels;
    waiting = s.waiting;
    entries = s.entries;
    committed = s.committed;
  }

  -- What a prefetch leaves, looked up again.
  looked_up-Opens :
      (index : ℕ) (o : Outcome P)
      → Stays held stored cfg size etag pool_calls read_blob reliable is_pool arrived attr_size o
      → Opens index (elim (ignore_eof cfg pool_calls read_blob arrived attr_size o) [
        | stops why r' ↦ missing why r'
        | went r' ↦ elim (r'.handle.values index) [
          | none ↦ missing fails r'
          | some a ↦ open_block cfg pool_calls read_blob arrived attr_size a r'
        ]
      ])
  looked_up-Opens index (went r') s = elim (Option-cases (r'.handle.values index)) [
    | inl nothing ↦ rw nothing s
    | inr (a, there) ↦ rw there (open_block-Opens index a r' s there)
  ]
  looked_up-Opens index (stops at_eof r') s = elim (Option-cases (r'.handle.values index)) [
    | inl nothing ↦ rw nothing s
    | inr (a, there) ↦ rw there (open_block-Opens index a r' s there)
  ]
  looked_up-Opens index (stops fails r') s = s
  looked_up-Opens index (stops waits r') s = s
  looked_up-Opens index (stops panics r') s = s
  looked_up-Opens index (stops commits r') s = s

  fetch_block-Opens :
      (index : ℕ) (r : Reader P)
      → IsSound held stored cfg size etag r
      → Opens index (fetch_block cfg pool_calls read_blob arrived attr_size index r)
  fetch_block-Opens index r s =
      let random : Reader P = record r {
        handle = record r.handle { opt_cnt = r.handle.opt_cnt + 1 };
      } in
      let start = start_prefetch cfg pool_calls read_blob arrived attr_size index false in
      elim (Bool-cases (not cfg.no_prefetch && (r.handle.next == 0))) [
        | inl first ↦
            rw (fetch_block, first)
              (looked_up-Opens index (start r) (
                start_prefetch-Stays held stored cfg size etag pool_calls read_blob reliable is_pool
                  arrived attr_size index false r s))
        | inr later ↦
            rw (fetch_block, later)
              (looked_up-Opens index (start random) (
                start_prefetch-Stays held stored cfg size etag pool_calls read_blob reliable is_pool
                  arrived attr_size index false random (random-IsSound r s)))
      ]

  -- Where the storage knows a size at all, it is no smaller than the handle's.
  abbrev pub IsWhole : Option ℕ → Type 0
  IsWhole none = Unit
  IsWhole (some s) = size ≤ s

  pub get_block-Opens :
      (offset : ℕ) (r : Reader P)
      → IsWhole attr_size
      → IsSound held stored cfg size etag r
      → offset < size
      → Opens
          (offset / cfg.block_size)
          (get_block cfg pool_calls read_blob arrived attr_size offset r)
  unfolding get_block
  get_block-Opens offset r whole s inside =
      let index = offset / cfg.block_size in
      let same = s.same_size in
      let within : leb r.handle.size offset ≡ false = ground (arith, same, inside) in
      let kept' = s.committed index in
      elim (Option-cases (r.handle.values index)) [
        | inr (a, there) ↦ rw (get_block, within, there) (open_block-Opens index a r s there)
        | inl absent ↦ elim (Bool-cases (should_commit_and_download index r.handle).1) [
          | inl download ↦
              rw (get_block, within, absent, kept', download) (fetch_block-Opens index r s)
          | inr unknown ↦ elim (Option-cases attr_size) [
            | inl no_attr ↦ rw (get_block, within, absent, kept', unknown, no_attr) s
            | inr (stored_size, known) ↦
                let large : size ≤ stored_size = subst IsWhole known whole in
                let below : leb stored_size offset ≡ false = ground (arith, large, inside) in
                rw (get_block, within, absent, kept', unknown, known, below)
                  (fetch_block-Opens index r s)
          ]
        ]
      ]
