-- ===== src/Stream/Direct.antt =====
-- A read through the cache against a direct read of the file.
use cloudfuse.Base.{
  ℕ, zero, suc, ◌+◌, ◌-◌, ◌%◌, ◌≤◌, ◌<◌, ◌≡◌, ◌⊎◌, refl, ap, ◌∙◌, true, false, ◌&&◌, Option, none,
  some, List, [], ◌∷◌, ◌++◌, Bool-cases, Option-cases, inl, inr, ltb, length, get_or, take, drop,
  length-append, length-take, length-drop, get_or-append, get_or-take, get_or-drop, min, arith,
}
use native.Mathlib.Nat.{mod-lt, mod-le}
use mathlib.Core.Path.{subst}
use cloudfuse.BlockList.{Block}
use cloudfuse.LruCache.{LruCache}
use cloudfuse.Stream.{
  Read, ReadError, ReadCache, Handle, Copied, copied, panicked, unfinished, is_failure, get_block,
  copy_from, copy_cached_block, read_in_buffer,
}
use cloudfuse.Stream.Cached.{Holds, IsLoaded, IsGood, IsHonest, IsGot, get_block-IsGot}

module _ (stored : ℕ → ℕ) (block_size size : ℕ) (positive : 0 < block_size)
    (next_read : ℕ → ℕ → List ℕ → Read) (honest : IsHonest stored block_size size next_read) where
  -- The bytes of the file from the offset on, or a failure of the storage.
  abbrev pub IsCopied : ℕ → ℕ → Copied → Type 0
  IsCopied offset left (copied bytes err cache calls) =
      (err ≡ none)
      × (length bytes ≡ min left (size - offset))
      × Holds stored block_size size offset bytes
      × IsGood stored block_size size cache
  IsCopied offset left panicked =
      (calls key : ℕ) × (buffer : List ℕ) × (is_failure (next_read calls key buffer).err ≡ true)
  IsCopied offset left unfinished = ⊥

  -- What is copied of a block.
  piece_of :
      (offset left start : ℕ) (b : Block)
      → start ≤ offset
      → offset - start < block_size
      → offset < size
      → IsLoaded stored block_size size start b
      → (ltb (length b.bytes) (offset - start) ≡ false)
        × (length (take left (drop (offset - start) b.bytes)) ≤ left)
        × (0 < left → 0 < length (take left (drop (offset - start) b.bytes)))
        × (length (take left (drop (offset - start) b.bytes)) ≤ size - offset)
        × Holds stored block_size size offset (take left (drop (offset - start) b.bytes))
  piece_of offset left start b le near inside (clean, len, same) =
      let k = offset - start in
      let rest = drop k b.bytes in
      let l1 = length-take left rest in
      let l2 = length-drop k b.bytes in
      let total : (length b.bytes ≤ size - start) × (k < length b.bytes) =
        elim (Bool-cases (ltb size (start + block_size))) [
          | inl short ↦ (ground (arith, short, len), ground (arith, short, len, le, near, inside))
          | inr long ↦ (ground (arith, long, len), ground (arith, long, len, le, near, inside))
        ] in
      let (cut, more) = total in
      (
        ground (arith, more),
        omega (arith, l1),
        λ h. omega (arith, l1, l2, more, h),
        omega (arith, l1, l2, cut, more, le),
        λ x h.
            let taken = get_or-take left rest x 0 in
            let byte = same (k + x) (omega (arith, h, l1, l2)) in
            let place : start + (k + x) ≡ offset + x = omega (arith, le) in
            taken (omega (arith, h, l1)) ∙ (get_or-drop k b.bytes x 0 ∙ (byte ∙ ap stored place)),
      )

  -- A piece in front of what is read after it.
  joined :
      (offset left : ℕ) (piece : List ℕ) (rest : Copied)
      → (length piece ≤ left)
        × (length piece ≤ size - offset)
        × Holds stored block_size size offset piece
      → IsCopied (offset + length piece) (left - length piece) rest
      → IsCopied offset left (elim rest [
        | copied bytes err cache calls ↦ copied (piece ++ bytes) err cache calls
        | panicked ↦ panicked
        | unfinished ↦ unfinished
      ])
  joined offset left piece (copied bytes err cache calls) (le, inside, same)
        (no_err, len, holds, good) =
      let whole = length-append piece bytes in
      (
        no_err,
        omega (arith, whole, len, le, inside),
        λ x h.
            let (here, there) = get_or-append piece bytes x 0 in
            elim (Bool-cases (ltb x (length piece))) [
              | inl low ↦ here (ground (arith, low)) ∙ same x (ground (arith, low))
              | inr high ↦
                  there (x - length piece) (ground (arith, high))
                  ∙ (holds (x - length piece) (ground (arith, high, h, whole))
                      ∙ ap stored (ground (arith, high)))
            ],
        good,
      )
  joined offset left piece panicked (le, inside, same) h = h
  joined offset left piece unfinished (le, inside, same) h = h

  copy_from-IsCopied :
      (fuel offset left : ℕ) (c : LruCache) (calls : ℕ)
      → left < fuel
      → IsGood stored block_size size c
      → IsCopied offset left (copy_from next_read fuel block_size size offset left c calls)
  unfolding copy_from
  copy_from-IsCopied zero offset left c calls h g = absurd (omega (arith, h))
  copy_from-IsCopied (suc fuel) offset left c calls h g =
      elim (Bool-cases (ltb 0 left && ltb offset size)) [
        | inr ends ↦
            rw (copy_from, ends)
              (refl, ground (arith, ends), (λ x below. absurd (omega (arith, below))), g)
        | inl goes ↦
            let start = offset - offset % block_size in
            let near = mod-lt offset positive in
            let below = mod-le offset block_size in
            let got = get_block-IsGot stored block_size size next_read honest start calls c g in
            elim (Option-cases (get_block next_read block_size size start c calls)) [
              | inl fails ↦
                  absurd (subst (IsGot stored block_size size next_read honest start) fails got)
              | inr (r, e) ↦
                  let is_got : IsGot stored block_size size next_read honest start (some r) =
                    subst (IsGot stored block_size size next_read honest start) e got in
                  elim is_got [
                    | inl (missing, n, buffer, failure') ↦
                        rw (copy_from, goes, e, missing) (n, start, buffer, failure')
                    | inr (b, there, loaded, good) ↦
                        let (within, le, more, inside, same) =
                          piece_of offset left start b (omega (arith, below))
                            (omega (arith, below, near)) (ground (arith, goes)) loaded in
                        let piece = take left (drop (offset - start) b.bytes) in
                        let some_bytes = more (ground (arith, goes)) in
                        let rest =
                          copy_from next_read fuel block_size size (offset + length piece)
                            (left - length piece) r.cache r.calls in
                        let later =
                          copy_from-IsCopied fuel (offset + length piece) (left - length piece)
                            r.cache r.calls (omega (arith, h, some_bytes, le)) good in
                        rw (copy_from, goes, e, there, within)
                          (joined offset left piece rest (le, inside, same) later)
                  ]
            ]
      ]

-- The bytes of the file, as a list.
abbrev pub direct : (ℕ → ℕ) → ℕ → ℕ → List ℕ
direct stored offset zero = []
direct stored offset (suc n) = stored offset ∷ direct stored (suc offset) n

pub holds-direct :
    (stored : ℕ → ℕ) (offset n : ℕ) (bytes : List ℕ)
    → length bytes ≡ n
    → ((x : ℕ) → x < length bytes → get_or bytes x 0 ≡ stored (offset + x))
    → bytes ≡ direct stored offset n
holds-direct stored offset zero [] len h = refl
holds-direct stored offset zero (b ∷ bytes) len h = absurd (omega (arith, len))
holds-direct stored offset (suc n) [] len h = absurd (omega (arith, len))
holds-direct stored offset (suc n) (b ∷ bytes) len h =
    let first : b ≡ stored (offset + 0) = h 0 (omega arith) in
    let start : offset + 0 ≡ offset = omega arith in
    let rest = holds-direct stored (suc offset) n bytes (omega (arith, len)) (λ x below.
      let next : offset + suc x ≡ suc offset + x = omega arith in
      h (suc x) (omega (arith, below)) ∙ ap stored next) in
    ap (λ (y : ℕ). y ∷ bytes) (first ∙ ap stored start)
    ∙ ap (λ (l : List ℕ). stored offset ∷ l) rest

Copied-cases :
    (r : Copied)
    → ((bytes : List ℕ) × (err : Option ReadError) × (cache : LruCache) × (calls : ℕ) × (r
          ≡ copied bytes err cache calls))
      ⊎ ((r ≡ panicked) ⊎ (r ≡ unfinished))
Copied-cases (copied bytes err cache calls) = inl (bytes, err, cache, calls, refl)
Copied-cases panicked = inr (inl refl)
Copied-cases unfinished = inr (inr refl)

-- Let the blocks be of a positive size, the storage fill a buffer with the file's bytes whenever it reports no failure, and
-- every block of the handle's cache hold the file's bytes. A read through the cache then ends: it gives the bytes of
-- the file from the offset on, as many as the buffer takes and the file has, with no error, and leaves a cache whose
-- blocks hold the file's bytes; or else the storage reported a failure, and the read panics.
pub read_in_buffer-direct :
    (stored : ℕ → ℕ) (next_read : ℕ → ℕ → List ℕ → Read) (r : ReadCache) (handle : Handle)
    → IsHonest stored r.block_size handle.size next_read
    → 0 < r.block_size
    → r.stream_only ≡ false
    → handle.only_streams ≡ false
    → IsGood stored r.block_size handle.size handle.cache_obj
    → (offset : ℕ) (buffer : List ℕ) (calls : ℕ)
    → ((cache : LruCache) × (calls' : ℕ) × (read_in_buffer next_read r handle offset buffer calls
          ≡ copied
              (direct stored offset (min (length buffer) (handle.size - offset)))
              none
              cache
              calls')
        × IsGood stored r.block_size handle.size cache)
      ⊎ ((read_in_buffer next_read r handle offset buffer calls ≡ panicked)
          × (n : ℕ) × (key : ℕ) × (block : List ℕ) × (is_failure (next_read n key block).err
              ≡ true))
unfolding read_in_buffer copy_cached_block
read_in_buffer-direct stored next_read r handle honest positive cached by_block good offset buffer
      calls =
    let left = length buffer in
    let run =
      copy_from next_read (suc left) r.block_size handle.size offset left handle.cache_obj calls in
    let same : read_in_buffer next_read r handle offset buffer calls ≡ run =
      ground (arith, cached, by_block) in
    let ends =
      copy_from-IsCopied stored r.block_size handle.size positive next_read honest (suc left) offset
        left handle.cache_obj calls (omega arith) good in
    elim (Copied-cases run) [
      | inl (bytes, err, cache, calls', e) ↦
          let is_copied : IsCopied stored r.block_size handle.size positive next_read honest offset
              left (copied bytes err cache calls') =
            subst (IsCopied stored r.block_size handle.size positive next_read honest offset left) e
              ends in
          let (no_err, len, holds, good') = is_copied in
          let whole =
            holds-direct stored offset (min left (handle.size - offset)) bytes len holds in
          inl (cache, calls', same ∙ (e ∙ (rw (no_err, whole) refl)), good')
      | inr (inl e) ↦
          let failed : IsCopied stored r.block_size handle.size positive next_read honest offset
              left panicked =
            subst (IsCopied stored r.block_size handle.size positive next_read honest offset left) e
              ends in
          let (n, key, block, fails) = failed in inr (same ∙ e, n, key, block, fails)
      | inr (inr e) ↦ absurd (
          subst (IsCopied stored r.block_size handle.size positive next_read honest offset left) e
            ends)
    ]
