-- ===== src/Stream/Cached.antt =====
-- Every block of the cache holds the file's bytes, whatever `getBlock` does.
use cloudfuse.Base.{
  ℕ, ◌+◌, ◌-◌, ◌≤◌, ◌<◌, ◌≡◌, ◌⊎◌, refl, sym, ◌∙◌, true, false, Option, none, some, List, [], ◌∷◌,
  All, Bool-cases, Option-cases, inl, inr, ltb, length, get_or, replicate, length-replicate, arith,
}
use cloudfuse.Base.Int.{pos_part}
use mathlib.Core.Path.{subst}
use cloudfuse.Bitmap
use cloudfuse.BlockList.{Block, dirty}
use cloudfuse.LruCache.{Node, LruCache, lookup, get}
use cloudfuse.LruCache.Laws.{IsCache}
use cloudfuse.LruCache.Clean.{get_present, put_absent}
use cloudfuse.Stream.{Read, Got, is_failure, write_front, size_at, new_block, get_block}

module _ (stored : ℕ → ℕ) (block_size size : ℕ) where
  -- From an offset on, a buffer holds the file's bytes.
  abbrev pub Holds : ℕ → List ℕ → Type 0
  Holds offset bytes = (x : ℕ) → x < length bytes → get_or bytes x 0 ≡ stored (offset + x)

  abbrev pub IsLoaded : ℕ → Block → Type 0
  IsLoaded key b =
      (dirty b ≡ false) × (length b.bytes ≡ size_at block_size size key) × Holds key b.bytes

  abbrev pub IsLoadedNode : Node → Type 0
  IsLoadedNode n = IsLoaded n.key n.value

  pub record IsGood (c : LruCache) : Type 0 where
    pub order : IsCache c
    pub room : 0 < pos_part c.capacity
    pub loaded : All IsLoadedNode c.list

  clean_of : (ns : List Node) → All IsLoadedNode ns → All (λ n. dirty n.value ≡ false) ns
  clean_of [] h = tt
  clean_of (n ∷ ns) h = (h.0.0, clean_of ns h.1)

  -- An answer without a failure fills the buffer with what is stored, as far as the file goes.
  abbrev pub IsHonest : (ℕ → ℕ → List ℕ → Read) → Type 0
  IsHonest next_read =
      (calls offset : ℕ) (buffer : List ℕ)
      → is_failure (next_read calls offset buffer).err ≡ false
      → (length (next_read calls offset buffer).filled ≡ length buffer)
        × ((x : ℕ)
            → x < length buffer
            → offset + x < size
            → get_or (next_read calls offset buffer).filled x 0 ≡ stored (offset + x))

  refilled :
      (n : Node) (rest : List Node) (c : LruCache) (bytes : List ℕ)
      → c.list ≡ n ∷ rest
      → IsCache c
      → IsCache (record c { list = record n { value = record n.value { bytes = bytes } } ∷ rest })
  refilled n rest c bytes e h = record {
    distinct = (rw e at h.distinct);
    old = (rw e at h.old);
    agrees = λ k. (rw e at (h.agrees k));
    counted = (rw e at h.counted);
  }

  write_front-IsGood :
      (n : Node) (rest : List Node) (c : LruCache) (bytes : List ℕ)
      → c.list ≡ n ∷ rest
      → IsCache c
      → 0 < pos_part c.capacity
      → IsLoaded n.key (record n.value { bytes = bytes })
      → All IsLoadedNode rest
      → IsGood (write_front true bytes c)
  write_front-IsGood n rest c bytes e order room loaded all =
      let written : write_front true bytes c
          ≡ record c { list = record n { value = record n.value { bytes = bytes } } ∷ rest } =
        rw (write_front, e) refl in
      subst IsGood (sym written)
        (record { order = refilled n rest c bytes e order; room = room; loaded = (loaded, all) })

  module _ (next_read : ℕ → ℕ → List ℕ → Read) (honest : IsHonest next_read) where
    -- Either the storage failed, or the block is the file's and the cache is still good.
    abbrev pub IsGot : ℕ → Option Got → Type 0
    IsGot key none = ⊥
    IsGot key (some g) =
        ((g.block ≡ none)
          × (calls : ℕ) × (buffer : List ℕ) × (is_failure (next_read calls key buffer).err ≡ true))
        ⊎ ((b : Block) × (g.block ≡ some b) × IsLoaded key b × IsGood g.cache)

    new_block-IsLoaded :
        (key calls : ℕ)
        → is_failure (next_read calls key (replicate (size_at block_size size key) 0)).err ≡ false
        → IsLoaded key (record (new_block key (replicate (size_at block_size size key) 0)) {
          bytes = (next_read calls key (replicate (size_at block_size size key) 0)).filled;
        })
    unfolding dirty Bitmap.is_set
    new_block-IsLoaded key calls fine =
        let blank : List ℕ = replicate (size_at block_size size key) 0 in
        let (len, same) = honest calls key blank fine in
        let blank_len : length blank ≡ size_at block_size size key =
          length-replicate {A = ℕ} (size_at block_size size key) 0 in
        let cut : size_at block_size size key ≤ size - key =
          elim (Bool-cases (ltb size (key + block_size))) [
            | inl short ↦ ground (arith, short)
            | inr long ↦ ground (arith, long)
          ] in
        (
          refl,
          len ∙ blank_len,
          λ x h. same x (omega (arith, h, len)) (omega (arith, h, len, blank_len, cut)),
        )

    pub get_block-IsGot :
        (key calls : ℕ) (c : LruCache)
        → IsGood c
        → IsGot key (get_block next_read block_size size key c calls)
    unfolding get_block get
    get_block-IsGot key calls c g = elim (Option-cases (lookup key c.elements)) [
      | inr (i, found) ↦
          let (n, d, e, same, loaded, all, capacity, order) =
            get_present IsLoadedNode c key i g.order g.loaded found in
          rw (get_block, e)
            (inr (
              n.value,
              refl,
              subst (λ (k : ℕ). IsLoaded k n.value) same loaded,
              record { order = order; room = (rw capacity g.room); loaded = all },
            ))
      | inl missing ↦
          let blank : List ℕ = replicate (size_at block_size size key) 0 in
          let absent : get key c ≡ some (none, c) = ground (arith, missing) in
          let (d, n, rest, kept, front, same, value, all, capacity, order) =
            put_absent IsLoadedNode c key (new_block key blank) g.order g.room g.loaded
              (clean_of c.list g.loaded) missing in
          elim (Bool-cases (is_failure (next_read calls key blank).err)) [
            | inl fails ↦ rw (get_block, absent, kept, fails) (inl (refl, calls, blank, fails))
            | inr fine ↦
                let loaded = new_block-IsLoaded key calls fine in
                let filled = (next_read calls key blank).filled in
                let placed : IsLoaded n.key (record n.value { bytes = filled }) =
                  rw (same, value) loaded in
                rw (get_block, absent, kept, fine)
                  (inr (
                    record (new_block key blank) { bytes = filled },
                    refl,
                    loaded,
                    write_front-IsGood n rest d filled front order (rw capacity g.room) placed all,
                  ))
          ]
    ]
