-- ===== src/BlockCache/Handle/Refresh.antt =====
-- `refreshBlock` and the loop that calls it keep a handle sound.
use cloudfuse.Base.{
  ℕ, suc, ◌+◌, ◌*◌, ◌≤◌, ◌<◌, ◌≡◌, ◌≢◌, ◌⊎◌, refl, sym, ap, ◌∙◌, inl, inr, true, false, not, ◌&&◌,
  ◌||◌, some, List, [], ◌∷◌, ◌++◌, ◌==◌, length, Bool-cases, arith,
}
use cloudfuse.Base.Int.{pos}
use mathlib.Core.Path.{subst}
use cloudfuse.Stream.{is_failure}
use cloudfuse.BlockCache.Block.{Block, open_signal, re_use, ready}
use cloudfuse.BlockCache.Handle.{
  Config, Handle, Reader, went, PoolCalls, BlobRead, flag_downloading, set_block, set_value,
  set_flag, remove_first, add_to_cooking, bytes_of, fetch, download, lineup_download, reuse_block,
  should_commit_and_download,
}
use cloudfuse.BlockCache.Handle.Lists.{count, count-append, count-remove_first}
use cloudfuse.BlockCache.Handle.Sound.{
  IsOpenable, HasChannel, downloaded_signal, IsReliable, IsData, IsFilled, places, IsSound,
  IsReleased,
}

module _ {P : Type 0} (held : P → ℕ → ℕ) (stored : ℕ → ℕ) (cfg : Config) (size etag : ℕ)
    (pool_calls : PoolCalls P) (read_blob : ℕ → ℕ → List ℕ → BlobRead)
    (reliable : IsReliable held stored cfg size etag read_blob) where
  fetch_first :
      (e offset calls : ℕ) (bytes : List ℕ)
      → e ≡ etag
      → offset < size
      → fetch read_blob 4 e offset bytes calls
        ≡ (1, (read_blob calls offset bytes).filled, suc calls)
  fetch_first e offset calls bytes same_etag h =
      let (answers, some_bytes, tagged, _, _) = reliable calls offset bytes h in
      let goes : (is_failure (read_blob calls offset bytes).err
            || ((read_blob calls offset bytes).count == 0))
          ≡ false =
        ground (arith, answers, some_bytes) in
      let same : (not ((read_blob calls offset bytes).tag == 0)
            && (not (e == 0) && not (e == (read_blob calls offset bytes).tag)))
          ≡ false =
        ground (arith, tagged, same_etag) in
      rw (fetch, goes, same) refl

  -- The block after its download.
  abbrev pub loaded_block : ℕ → Block → List ℕ → Block
  loaded_block index b filled =
      record (set_flag flag_downloading
        (record (re_use b) { id = pos index; offset = index * cfg.block_size })) {
          bytes = some filled;
          state = some downloaded_signal;
        }

  abbrev pub reused : ℕ → ℕ → Reader P → Handle
  reused index a r =
      add_to_cooking a
        (record (set_value index a (
          set_block a
            (record (re_use (r.handle.heap a)) { id = pos index; offset = index * cfg.block_size })
            r.handle)) { next = index + 1 })

  ready-open :
      (b : Block) (v : ℕ)
      → b.state ≡ some open_signal
      → ready b v ≡ some (record b { state = some (record { closed = false; value = some v }) })
  unfolding ready
  ready-open b v fresh = rw (ready, fresh) refl

  download-went :
      (a : ℕ) (b : Block) (r : Reader P)
      → b.state ≡ some open_signal
      → r.handle.etag ≡ etag
      → b.offset < size
      → download read_blob a b r
        ≡ went (record r {
          handle =
              set_block a
                (record b {
                  bytes = some (read_blob r.calls b.offset (bytes_of b)).filled;
                  state = some downloaded_signal;
                })
                r.handle;
          calls = suc r.calls;
        })
  unfolding download
  download-went a b r fresh same_etag h =
      let filled = (read_blob r.calls b.offset (bytes_of b)).filled in
      let first = fetch_first r.handle.etag b.offset r.calls (bytes_of b) same_etag h in
      let sent = ready-open (record b { bytes = some filled }) 1 fresh in
      rw (download, first, sent, first) refl

  pub reuse_block-went :
      (index a : ℕ) (r : Reader P)
      → r.handle.etag ≡ etag
      → index * cfg.block_size < size
      → reuse_block cfg pool_calls read_blob index a r
        ≡ went (record r {
          handle =
              set_block a
                (loaded_block index
                  (r.handle.heap a)
                  (read_blob r.calls (index * cfg.block_size) (bytes_of (r.handle.heap a))).filled)
                (reused index a r);
          calls = suc r.calls;
        })
  unfolding reuse_block lineup_download re_use
  reuse_block-went index a r same_etag h =
      let self : (a == a) ≡ true = ground arith in
      let b : Block =
        set_flag flag_downloading
          (record (re_use (r.handle.heap a)) { id = pos index; offset = index * cfg.block_size }) in
      let done = download-went a b (record r { handle = reused index a r }) refl same_etag h in
      rw (reuse_block, lineup_download, self) done

  abbrev pub refreshed : ℕ → ℕ → Reader P → Reader P
  refreshed index a r = record r {
    handle =
        set_block a
          (loaded_block index (r.handle.heap a)
            (read_blob r.calls (index * cfg.block_size) (bytes_of (r.handle.heap a))).filled)
          (reused index a r);
    calls = suc r.calls;
  }

  pub same_places :
      (index a x : ℕ) (r r1 : Reader P)
      → IsSound held stored cfg size etag r
      → IsReleased held stored cfg size etag a r r1
      → 1 ≤ places held stored cfg size etag a r.handle
      → places held stored cfg size etag x (refreshed index a r1).handle
        ≡ places held stored cfg size etag x r.handle
  same_places index a x r r1 s released h =
      let out = count-remove_first x a r1.handle.cooked in
      let cut = count-remove_first x a r1.handle.cooking in
      let back = count-append x (remove_first a r1.handle.cooking) (a ∷ []) in
      let cooked : count x r1.handle.cooked ≡ count x r.handle.cooked =
        ap (count x) released.same_cooked in
      let cooking : count x r1.handle.cooking ≡ count x r.handle.cooking =
        ap (count x) released.same_cooking in
      let once = s.apart a in
      elim (Bool-cases (a == x)) [
        | inr other ↦ ground (arith, out, cut, back, cooked, cooking, other)
        | inl same ↦
            let at_a : a ≡ x = ground (arith, same) in
            let placed : 1 ≤ places held stored cfg size etag x r.handle =
              subst (λ (y : ℕ). 1 ≤ places held stored cfg size etag y r.handle) at_a h in
            let once' = s.apart x in
            ground (arith, out, cut, back, cooked, cooking, same, placed, once')
      ]

  filled-IsData :
      (index a : ℕ) (r r1 : Reader P)
      → IsSound held stored cfg size etag r
      → IsReleased held stored cfg size etag a r r1
      → 1 ≤ places held stored cfg size etag a r.handle
      → index * cfg.block_size < size
      → (length (read_blob r1.calls (index * cfg.block_size) (bytes_of (r1.handle.heap a))).filled
          ≡ cfg.block_size)
        × IsData held stored cfg size etag
            (index * cfg.block_size)
            (read_blob r1.calls (index * cfg.block_size) (bytes_of (r1.handle.heap a))).filled
  filled-IsData index a r r1 s released h inside =
      let (_, _, _, len, same) =
        reliable r1.calls (index * cfg.block_size) (bytes_of (r1.handle.heap a)) inside in
      let whole : length (bytes_of (r1.handle.heap a)) ≡ cfg.block_size =
        ap length released.same_bytes ∙ s.sized a h in
      (len ∙ whole, λ x below within. same x (omega (arith, below, whole)) within)

  pub at_block : (a : ℕ) (b : Block) (h : Handle) → (set_block a b h).heap a ≡ b
  at_block a b h = ground arith

  pub off_block : (a x : ℕ) (b : Block) (h : Handle) → x ≢ a → (set_block a b h).heap x ≡ h.heap x
  off_block a x b h other = ground (arith, other)

  pos-injective : (i j : ℕ) → pos i ≡ pos j → i ≡ j
  pos-injective i j e = ground (arith, e)

  pub refreshed_heap :
      (index a x : ℕ) (r r1 : Reader P)
      → IsReleased held stored cfg size etag a r r1
      → x ≢ a
      → (refreshed index a r1).handle.heap x ≡ r.handle.heap x
  refreshed_heap index a x r r1 released other =
      off_block a x
        (loaded_block index (r1.handle.heap a)
          (read_blob r1.calls (index * cfg.block_size) (bytes_of (r1.handle.heap a))).filled)
        (reused index a r1) other
      ∙ (off_block a x
            (record (re_use (r1.handle.heap a)) { id = pos index; offset = index * cfg.block_size })
            r1.handle other
          ∙ released.others x other)

  -- The block that is taken over, and the others.
  refreshed-IsFilled :
      (index a : ℕ) (r r1 : Reader P)
      → IsSound held stored cfg size etag r
      → IsReleased held stored cfg size etag a r r1
      → 1 ≤ places held stored cfg size etag a r.handle
      → index * cfg.block_size < size
      → (length (bytes_of ((refreshed index a r1).handle.heap a)) ≡ cfg.block_size)
        × IsFilled held stored cfg size etag index ((refreshed index a r1).handle.heap a)
  refreshed-IsFilled index a r r1 s released h inside =
      let (len, loaded) = filled-IsData index a r r1 s released h inside in
      let b =
        loaded_block index (r1.handle.heap a)
          (read_blob r1.calls (index * cfg.block_size) (bytes_of (r1.handle.heap a))).filled in
      let here = at_block a b (reused index a r1) in
      subst
        (λ (c : Block).
          (length (bytes_of c) ≡ cfg.block_size) × IsFilled held stored cfg size etag index c)
        (sym here) (len, (refl, refl, loaded, inl refl))

  refreshed-entries :
      (index a i c : ℕ) (r r1 : Reader P)
      → IsReleased held stored cfg size etag a r r1
      → (refreshed index a r1).handle.values i ≡ some c
      → ((i ≡ index) × (c ≡ a)) ⊎ ((r.handle.values i ≡ some c) × (c ≢ a))
  refreshed-entries index a i c r r1 released e = elim (Bool-cases (i == index)) [
    | inl here ↦ inl (ground (arith, here), ground (arith, here, e))
    | inr other ↦ inr (released.gone i c (ground (arith, other, e)))
  ]

  pub still_cooking :
      (a x : ℕ) (r1 r : Reader P)
      → IsReleased held stored cfg size etag a r r1
      → x ≢ a
      → 1 ≤ count x r.handle.cooking
      → 1 ≤ count x (remove_first a r1.handle.cooking ++ a ∷ [])
  still_cooking a x r1 r released other cooking =
      let cut = count-remove_first x a r1.handle.cooking in
      let back = count-append x (remove_first a r1.handle.cooking) (a ∷ []) in
      let same : count x r1.handle.cooking ≡ count x r.handle.cooking =
        ap (count x) released.same_cooking in
      ground (arith, cut, back, same, other, cooking)

  pub refreshed-IsSound :
      (index a : ℕ) (r r1 : Reader P)
      → IsSound held stored cfg size etag r
      → IsReleased held stored cfg size etag a r r1
      → 1 ≤ places held stored cfg size etag a r.handle
      → index * cfg.block_size < size
      → IsSound held stored cfg size etag (refreshed index a r1)
  unfolding should_commit_and_download
  refreshed-IsSound index a r r1 s released h inside =
      let (len, filled) = refreshed-IsFilled index a r r1 s released h inside in
      let r2 = refreshed index a r1 in
      let old_place : (x : ℕ)
          → 1 ≤ places held stored cfg size etag x r2.handle
          → 1 ≤ places held stored cfg size etag x r.handle =
        λ x p. let e = same_places index a x r r1 s released h in omega (arith, e, p) in
      let new_place : (x : ℕ)
          → 1 ≤ places held stored cfg size etag x r.handle
          → 1 ≤ places held stored cfg size etag x r2.handle =
        λ x p. let e = same_places index a x r r1 s released h in omega (arith, e, p) in
      record {
        same_size = released.kept_size ∙ s.same_size;
        same_etag = released.kept_etag ∙ s.same_etag;
        apart = λ x.
            let e = same_places index a x r r1 s released h in
            let pool : held r2.pool x ≡ held r.pool x =
              ap (λ (p : P). held p x) released.same_pool in
            let once = s.apart x in omega (arith, e, pool, once);
        sized = λ x p. elim (Bool-cases (x == a)) [
          | inl same ↦
              let at_a : x ≡ a = ground (arith, same) in
              subst (λ (y : ℕ). length (bytes_of (r2.handle.heap y)) ≡ cfg.block_size) (sym at_a)
                len
          | inr other ↦
              let e = refreshed_heap index a x r r1 released (ground (arith, other)) in
              ap (λ (c : Block). length (bytes_of c)) e ∙ s.sized x (old_place x p)
        ];
        openable = λ x i p id. elim (Bool-cases (x == a)) [
          | inl same ↦
              let at_a : x ≡ a = ground (arith, same) in
              subst (λ (y : ℕ). IsOpenable (r2.handle.heap y)) (sym at_a) filled.3
          | inr other ↦
              let e = refreshed_heap index a x r r1 released (ground (arith, other)) in
              subst IsOpenable (sym e)
                (s.openable x i (old_place x p) (sym (ap (λ (c : Block). c.id) e) ∙ id))
        ];
        channels = λ x p. elim (Bool-cases (x == a)) [
          | inl same ↦
              let at_a : x ≡ a = ground (arith, same) in
              inl (subst (λ (y : ℕ). IsOpenable (r2.handle.heap y)) (sym at_a) filled.3)
          | inr other ↦
              let e = refreshed_heap index a x r r1 released (ground (arith, other)) in
              subst HasChannel (sym e) (s.channels x (old_place x p))
        ];
        waiting = λ x p state. elim (Bool-cases (x == a)) [
          | inl same ↦
              let back = count-append x (remove_first a r1.handle.cooking) (a ∷ []) in
              ground (arith, same, back)
          | inr other ↦
              let not_a : x ≢ a = ground (arith, other) in
              let e = refreshed_heap index a x r r1 released not_a in
              still_cooking a x r1 r released not_a
                (s.waiting x (old_place x p) (sym (ap (λ (c : Block). c.state) e) ∙ state))
        ];
        entries = λ i c e. elim (refreshed-entries index a i c r r1 released e) [
          | inl (at_index, at_a) ↦ (
            subst (λ (y : ℕ). 1 ≤ places held stored cfg size etag y r2.handle) (sym at_a)
                (new_place a h),
            subst (λ (y : ℕ). IsFilled held stored cfg size etag i (r2.handle.heap y)) (sym at_a)
                (subst (λ (j : ℕ). IsFilled held stored cfg size etag j (r2.handle.heap a))
                  (sym at_index) filled),
          )
          | inr (there, other) ↦
              let (p, old) = s.entries i c there in
              (
                new_place c p,
                subst (IsFilled held stored cfg size etag i)
                    (sym (refreshed_heap index a c r r1 released other)) old,
              )
        ];
        committed = λ i. (rw released.same_list (s.committed i));
      }
