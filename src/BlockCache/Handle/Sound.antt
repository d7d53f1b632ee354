-- ===== src/BlockCache/Handle/Sound.antt =====
-- What holds of a handle that reads: its blocks are its own, and each block in the map has the file's bytes, or a
-- channel that says when it has.
use cloudfuse.Base.{
  ℕ, ◌+◌, ◌*◌, ◌≤◌, ◌<◌, ◌≡◌, ◌≢◌, ◌⊎◌, refl, sym, ◌∙◌, inl, inr, true, false, none, some, List,
  ◌==◌, if◌then◌else◌, length, get_or, Bool-cases, arith,
}
use cloudfuse.Base.Int.{ℤ, pos, negsuc}
use cloudfuse.Bitmap
use cloudfuse.Stream.{is_failure}
use cloudfuse.BlockCache.Block.{Block, Signal, open_signal, unblock}
use cloudfuse.BlockCache.Handle.{
  Config, Handle, Reader, went, PoolCalls, BlobRead, flag_uploading, set_block, remove_value,
  bytes_of, release_id, release_entry, should_commit_and_download, receive, value, was_closed,
  take_and_unblock,
}
use cloudfuse.BlockCache.Handle.Lists.{one_if, count}

-- What a handle relies on: how many of a block the pool holds goes down by one where it is handed out.
pub record IsPool {P : Type 0} (pool_calls : PoolCalls P) (held : P → ℕ → ℕ) : Type 0 where
  pub must_get_held :
      (p p' : P) (a x : ℕ)
      → pool_calls.must_get p ≡ some (a, p')
      → held p x ≡ held p' x + one_if (a == x)
  pub try_get_held :
      (p p' : P) (a x : ℕ)
      → pool_calls.try_get p ≡ some (a, p')
      → held p x ≡ held p' x + one_if (a == x)
  pub release_held :
      (p : P) (a x : ℕ) → held (pool_calls.release a p) x ≤ held p x + one_if (a == x)

abbrev pub downloaded_signal : Signal
downloaded_signal = record { closed = false; value = some 1 }

abbrev pub closed_signal : Signal
closed_signal = record { closed = true; value = none }

-- The channel has the status of a download, or has been read.
abbrev pub IsOpenable : Block → Type 0
IsOpenable b = (b.state ≡ some downloaded_signal) ⊎ (b.state ≡ some closed_signal)

-- The channel of a block that a handle has.
abbrev pub HasChannel : Block → Type 0
HasChannel b = IsOpenable b ⊎ (b.state ≡ some open_signal)

module _ {P : Type 0} (held : P → ℕ → ℕ) (stored : ℕ → ℕ) (cfg : Config) (size etag : ℕ) where
  -- Every read inside the file answers with the file's bytes and with the tag that the handle knows.
  abbrev pub IsReliable : (ℕ → ℕ → List ℕ → BlobRead) → Type 0
  IsReliable read_blob =
      (calls offset : ℕ) (buffer : List ℕ)
      → offset < size
      → (is_failure (read_blob calls offset buffer).err ≡ false)
        × ((read_blob calls offset buffer).count ≢ 0)
        × ((read_blob calls offset buffer).tag ≡ etag)
        × (length (read_blob calls offset buffer).filled ≡ length buffer)
        × ((x : ℕ)
            → x < length buffer
            → offset + x < size
            → get_or (read_blob calls offset buffer).filled x 0 ≡ stored (offset + x))

  abbrev pub IsData : ℕ → List ℕ → Type 0
  IsData offset bytes =
      (x : ℕ) → x < cfg.block_size → offset + x < size → get_or bytes x 0 ≡ stored (offset + x)

  abbrev pub IsFilled : ℕ → Block → Type 0
  IsFilled index b =
      (b.id ≡ pos index)
      × (b.offset ≡ index * cfg.block_size)
      × IsData (index * cfg.block_size) (bytes_of b)
      × IsOpenable b

  -- How often a block stands in the lists of a handle.
  abbrev pub places : ℕ → Handle → ℕ
  places a h = count a h.cooked + count a h.cooking

  pub record IsSound (r : Reader P) : Type 0 where
    pub same_size : r.handle.size ≡ size
    pub same_etag : r.handle.etag ≡ etag
    pub apart : (a : ℕ) → places a r.handle + held r.pool a ≤ 1
    pub sized :
        (a : ℕ) → 1 ≤ places a r.handle → length (bytes_of (r.handle.heap a)) ≡ cfg.block_size
    pub openable :
        (a i : ℕ)
        → 1 ≤ places a r.handle
        → (r.handle.heap a).id ≡ pos i
        → IsOpenable (r.handle.heap a)
    pub channels : (a : ℕ) → 1 ≤ places a r.handle → HasChannel (r.handle.heap a)
    pub waiting :
        (a : ℕ)
        → 1 ≤ places a r.handle
        → (r.handle.heap a).state ≡ some downloaded_signal
        → 1 ≤ count a r.handle.cooking
    pub entries :
        (i a : ℕ)
        → r.handle.values i ≡ some a
        → (1 ≤ places a r.handle) × IsFilled i (r.handle.heap a)
    pub committed : (i : ℕ) → (should_commit_and_download i r.handle).0 ≡ false

  -- What other code has in hand, a block in the cooking list, stays as it is.
  abbrev pub Keeps : Reader P → Reader P → Type 0
  Keeps r r' =
      (x : ℕ)
      → 1 ≤ count x r.handle.cooking
      → (r'.handle.heap x ≡ r.handle.heap x) × (1 ≤ count x r'.handle.cooking)

  pub Keeps-trans : (a b c : Reader P) → Keeps a b → Keeps b c → Keeps a c
  Keeps-trans a b c f g x h =
      let (same, still) = f x h in let (same', still') = g x still in (same' ∙ same, still')

  -- The block in front has no entry any more; all else is as before.
  pub record IsReleased (a : ℕ) (r r' : Reader P) : Type 0 where
    pub same_pool : r'.pool ≡ r.pool
    pub same_cooked : r'.handle.cooked ≡ r.handle.cooked
    pub same_cooking : r'.handle.cooking ≡ r.handle.cooking
    pub kept_size : r'.handle.size ≡ r.handle.size
    pub kept_etag : r'.handle.etag ≡ r.handle.etag
    pub same_list : r'.handle.block_list ≡ r.handle.block_list
    pub others : (x : ℕ) → x ≢ a → r'.handle.heap x ≡ r.handle.heap x
    pub same_bytes : bytes_of (r'.handle.heap a) ≡ bytes_of (r.handle.heap a)
    pub gone : (i c : ℕ) → r'.handle.values i ≡ some c → (r.handle.values i ≡ some c) × (c ≢ a)

  pos-injective : (i j : ℕ) → pos i ≡ pos j → i ≡ j
  pos-injective i j e = ground (arith, e)

  no_entry :
      (a i c old : ℕ) (r : Reader P)
      → IsSound r
      → (r.handle.heap a).id ≡ pos old
      → (if i == old then none else r.handle.values i) ≡ some c
      → (r.handle.values i ≡ some c) × (c ≢ a)
  no_entry a i c old r s at e =
      let other : (i == old) ≡ false = ground (arith, e) in
      let there : r.handle.values i ≡ some c = ground (arith, e, other) in
      (
        there,
        λ same.
            let (_, filled) = s.entries i c there in
            let id = filled.0 in
            let at_c : (r.handle.heap c).id ≡ pos old = rw same at in
            let equal = pos-injective i old (sym id ∙ at_c) in ground (arith, other, equal),
      )

  Int-cases : (z : ℤ) → ((n : ℕ) × (z ≡ pos n)) ⊎ ((n : ℕ) × (z ≡ negsuc n))
  Int-cases (pos n) = inl (n, refl)
  Int-cases (negsuc n) = inr (n, refl)

  pos-negsuc : (i n : ℕ) → pos i ≡ negsuc n → ⊥
  pos-negsuc i n e = ground (arith, e)

  -- A block whose channel is openable can be received from, and unblocked after a value.
  pub openable_cases :
      (b : Block)
      → IsOpenable b
      → ((receive b ≡ value 1)
          × (take_and_unblock b ≡ some (record b { state = some closed_signal })))
        ⊎ (receive b ≡ was_closed)
  unfolding unblock
  openable_cases b (inl e) = inl ((rw (receive, e) refl), (rw (take_and_unblock, e) refl))
  openable_cases b (inr e) = inr (rw (receive, e) refl)

  plainly-IsReleased :
      (a old : ℕ) (r : Reader P)
      → IsSound r
      → (r.handle.heap a).id ≡ pos old
      → IsReleased a r (record r { handle = remove_value (pos old) r.handle })
  plainly-IsReleased a old r s used = record {
    same_pool = refl;
    same_cooked = refl;
    same_cooking = refl;
    kept_size = refl;
    kept_etag = refl;
    same_list = refl;
    others = λ x other. refl;
    same_bytes = refl;
    gone = λ i c e. no_entry a i c old r s used e;
  }

  release_id-IsReleased :
      (pool_calls : PoolCalls P) (read_blob : ℕ → ℕ → List ℕ → BlobRead) (z : ℤ) (a : ℕ)
      (r : Reader P)
      → (r.handle.heap a).id ≡ z
      → IsSound r
      → 1 ≤ places a r.handle
      → (r' : Reader P) × (release_id cfg pool_calls read_blob z a r ≡ went r') × IsReleased a r r'
  unfolding release_id
  release_id-IsReleased pool_calls read_blob (negsuc n) a r fresh s h = (
    r,
    refl,
    record {
      same_pool = refl;
      same_cooked = refl;
      same_cooking = refl;
      kept_size = refl;
      kept_etag = refl;
      same_list = refl;
      others = λ x other. refl;
      same_bytes = refl;
      gone = λ i c e. (
        e,
        λ same.
            let (_, filled) = s.entries i c e in
            let at_c : (r.handle.heap c).id ≡ negsuc n = rw same fresh in
            pos-negsuc i n (sym filled.0 ∙ at_c),
      );
    },
  )
  release_id-IsReleased pool_calls read_blob (pos old) a r used s h =
      let removed : Reader P = record r { handle = remove_value (pos old) r.handle } in
      let plain = plainly-IsReleased a old r s used in
      elim (Bool-cases (Bitmap.is_set (r.handle.heap a).flags flag_uploading)) [
        | inr idle ↦ (removed, (rw (release_id, idle) refl), plain)
        | inl busy ↦ elim (openable_cases (r.handle.heap a) (s.openable a old h used)) [
          | inr closed ↦ (removed, (rw (release_id, busy, closed) refl), plain)
          | inl (has, opened) ↦
              let b : Block = record (r.handle.heap a) { state = some closed_signal } in
              (
                record r { handle = remove_value (pos old) (set_block a b r.handle) },
                (rw (release_id, busy, has, opened) refl),
                record {
                  same_pool = refl;
                  same_cooked = refl;
                  same_cooking = refl;
                  kept_size = refl;
                  kept_etag = refl;
                  same_list = refl;
                  others = λ x other. ground (arith, other);
                  same_bytes = ground arith;
                  gone = λ i c e. no_entry a i c old r s used e;
                },
              )
        ]
      ]

  pub release_entry-IsReleased :
      (pool_calls : PoolCalls P) (read_blob : ℕ → ℕ → List ℕ → BlobRead) (a : ℕ) (r : Reader P)
      → IsSound r
      → 1 ≤ places a r.handle
      → (r' : Reader P) × (release_entry cfg pool_calls read_blob a r ≡ went r') × IsReleased a r r'
  unfolding release_entry
  release_entry-IsReleased pool_calls read_blob a r s h =
      release_id-IsReleased pool_calls read_blob (r.handle.heap a).id a r refl s h
