-- ===== src/BlockCache/Read/Direct.antt =====
-- `ReadInBuffer` against a direct read of the file.
use cloudfuse.Base.{
  ℕ, zero, suc, ◌+◌, ◌-◌, ◌*◌, ◌/◌, ◌≤◌, ◌<◌, ◌≡◌, ◌⊎◌, refl, sym, ap, ◌∙◌, inl, inr, Bool, false,
  Option, none, some, List, [], ◌++◌, length, get_or, take, drop, length-append, length-take,
  length-drop, get_or-append, get_or-take, get_or-drop, min, Bool-cases, ltb, leb, arith,
}
use native.Mathlib.Nat.{mod-lt, div-add-mod'}
use mathlib.Core.Path.{subst}
use cloudfuse.Stream.Direct.{direct, holds-direct}
use cloudfuse.BlockCache.Block.{Block}
use cloudfuse.BlockCache.Handle.{
  Config, Reader, Answer, fails, at_eof, waits, panics, commits, PoolCalls, BlobRead, bytes_of,
  get_block_size,
}
use cloudfuse.BlockCache.Handle.Sound.{IsPool, IsReliable, IsSound}
use cloudfuse.BlockCache.Read.{
  Found, found, missing, Copied, copied, unfinished, get_block, copy_from, read_in_buffer,
}
use cloudfuse.BlockCache.Read.Get.{Opens, IsWhole, get_block-Opens}

module _ {P : Type 0} (held : P → ℕ → ℕ) (stored : ℕ → ℕ) (cfg : Config) (size etag : ℕ)
    (pool_calls : PoolCalls P) (read_blob : ℕ → ℕ → List ℕ → BlobRead)
    (reliable : IsReliable held stored cfg size etag read_blob) (is_pool : IsPool pool_calls held)
    (arrived : ℕ → ℕ → Bool) (attr_size : Option ℕ) where
  abbrev Holds : ℕ → List ℕ → Type 0
  Holds offset bytes = (x : ℕ) → x < length bytes → get_or bytes x 0 ≡ stored (offset + x)

  -- The bytes of the file, and how many they are for each way to stop.
  abbrev pub IsCopied : ℕ → ℕ → Copied P → Type 0
  IsCopied offset left (copied bytes none r') =
      IsSound held stored cfg size etag r'
      × Holds offset bytes
      × (length bytes ≡ left)
      × (length bytes ≤ size - offset)
  IsCopied offset left (copied bytes (some at_eof) r') =
      IsSound held stored cfg size etag r'
      × Holds offset bytes
      × (length bytes ≤ left)
      × (length bytes ≡ size - offset)
  IsCopied offset left (copied bytes (some fails) r') =
      IsSound held stored cfg size etag r'
      × Holds offset bytes
      × (length bytes ≤ left)
      × (length bytes ≤ size - offset)
  IsCopied offset left (copied bytes (some waits) r') = ⊥
  IsCopied offset left (copied bytes (some panics) r') = ⊥
  IsCopied offset left (copied bytes (some commits) r') = ⊥
  IsCopied offset left unfinished = ⊥

  -- What is copied of a block.
  record IsPiece (offset left from upto : ℕ) (piece : List ℕ) : Type 0 where
    within : ltb upto from ≡ false
    short : length piece ≤ left
    some_bytes : 0 < left → 0 < length piece
    inside : length piece ≤ size - offset
    holds : Holds offset piece

  take-IsPiece :
      (offset left start total : ℕ) (b : Block)
      → total ≡ size
      → start ≤ offset
      → offset < start + cfg.block_size
      → offset < size
      → length (bytes_of b) ≡ cfg.block_size
      → ((x : ℕ)
          → x < cfg.block_size
          → start + x < size
          → get_or (bytes_of b) x 0 ≡ stored (start + x))
      → IsPiece offset left (offset - start) (min cfg.block_size (total - start)) (
          take left
            (drop (offset - start) (take (min cfg.block_size (total - start)) (bytes_of b))))
  take-IsPiece offset left start total b all le near within len same =
      let from = offset - start in
      let upto = min cfg.block_size (total - start) in
      let cut = take upto (bytes_of b) in
      let l1 = length-take upto (bytes_of b) in
      let l2 = length-drop from cut in
      let l3 = length-take left (drop from cut) in
      let more : from < upto = omega (arith, le, near, within, all) in
      record {
        within = ground (arith, more);
        short = omega (arith, l3);
        some_bytes = λ h. omega (arith, l1, l2, l3, len, more, h);
        inside = omega (arith, l1, l2, l3, le, all);
        holds = λ x h.
            let below : from + x < upto = omega (arith, h, l1, l2, l3, len) in
            let byte = same (from + x) (omega (arith, below)) (omega (arith, below, all)) in
            let place : start + (from + x) ≡ offset + x = omega (arith, le) in
            get_or-take left (drop from cut) x 0 (omega (arith, h, l3))
            ∙ (get_or-drop from cut x 0
                ∙ (get_or-take upto (bytes_of b) (from + x) 0 below ∙ (byte ∙ ap stored place)));
      }

  Holds-append :
      (offset : ℕ) (piece rest : List ℕ)
      → Holds offset piece
      → Holds (offset + length piece) rest
      → Holds offset (piece ++ rest)
  Holds-append offset piece rest front back x h =
      let whole = length-append piece rest in
      let (here, there) = get_or-append piece rest x 0 in
      elim (Bool-cases (ltb x (length piece))) [
        | inl low ↦ here (ground (arith, low)) ∙ front x (ground (arith, low))
        | inr high ↦
            there (x - length piece) (ground (arith, high))
            ∙ (back (x - length piece) (ground (arith, high, h, whole))
                ∙ ap stored (ground (arith, high)))
      ]

  joined :
      (offset left : ℕ) (piece : List ℕ) (rest : Copied P)
      → length piece ≤ left
      → offset + length piece < size
      → Holds offset piece
      → IsCopied (offset + length piece) (left - length piece) rest
      → IsCopied offset left (elim rest [
        | unfinished ↦ unfinished
        | copied bytes why r' ↦ copied (piece ++ bytes) why r'
      ])
  joined offset left piece (copied bytes none r') short inside front (s, holds, len, most) =
      let whole = length-append piece bytes in
      (
        s,
        Holds-append offset piece bytes front holds,
        omega (arith, whole, len, short),
        omega (arith, whole, most, inside),
      )
  joined offset left piece (copied bytes (some at_eof) r') short inside front
        (s, holds, len, most) =
      let whole = length-append piece bytes in
      (
        s,
        Holds-append offset piece bytes front holds,
        omega (arith, whole, len, short),
        omega (arith, whole, most, inside),
      )
  joined offset left piece (copied bytes (some fails) r') short inside front (s, holds, len, most) =
      let whole = length-append piece bytes in
      (
        s,
        Holds-append offset piece bytes front holds,
        omega (arith, whole, len, short),
        omega (arith, whole, most, inside),
      )
  joined offset left piece (copied bytes (some waits) r') short inside front h = h
  joined offset left piece (copied bytes (some panics) r') short inside front h = h
  joined offset left piece (copied bytes (some commits) r') short inside front h = h
  joined offset left piece unfinished short inside front h = h

  Found-cases :
      (f : Found P)
      → ((a : ℕ) × (r : Reader P) × (f ≡ found a r))
        ⊎ ((why : Answer) × (r : Reader P) × (f ≡ missing why r))
  Found-cases (found a r) = inl (a, r, refl)
  Found-cases (missing why r) = inr (why, r, refl)

  missed :
      (offset left : ℕ) (why : Answer) (r r' : Reader P)
      → Opens held stored cfg size etag pool_calls read_blob reliable is_pool arrived attr_size
          (offset / cfg.block_size)
          (missing why r')
      → IsCopied offset left (copied [] (some why) r')
  missed offset left at_eof r r' h = absurd h
  missed offset left fails r r' h =
      (h, (λ x below. absurd (omega (arith, below))), omega arith, omega arith)
  missed offset left waits r r' h = h
  missed offset left panics r r' h = h
  missed offset left commits r r' h = h

  copy_from-IsCopied :
      (fuel offset left : ℕ) (r : Reader P)
      → 0 < cfg.block_size
      → IsWhole held stored cfg size etag pool_calls read_blob reliable is_pool arrived attr_size
          attr_size
      → left < fuel
      → offset < size
      → IsSound held stored cfg size etag r
      → IsCopied offset left
          (copy_from cfg pool_calls read_blob arrived attr_size fuel offset left r)
  unfolding copy_from
  copy_from-IsCopied zero offset left r positive whole h inside s = absurd (omega (arith, h))
  copy_from-IsCopied (suc fuel) offset left r positive whole h inside s =
      elim (Bool-cases (ltb 0 left)) [
        | inr ends ↦
            rw (copy_from, ends)
              (s, (λ x below. absurd (omega (arith, below))), ground (arith, ends), omega arith)
        | inl goes ↦
            let index = offset / cfg.block_size in
            let got =
              get_block-Opens held stored cfg size etag pool_calls read_blob reliable is_pool
                arrived attr_size offset r whole s inside in
            elim (Found-cases (get_block cfg pool_calls read_blob arrived attr_size offset r)) [
              | inr (why, r', e) ↦
                  let failed' =
                    subst
                      (Opens held stored cfg size etag pool_calls read_blob reliable is_pool arrived
                        attr_size index)
                      e got in
                  rw (copy_from, goes, e) (missed offset left why r r' failed')
              | inl (a, r', e) ↦
                  let opened : Opens held stored cfg size etag pool_calls read_blob reliable is_pool
                      arrived attr_size index (found a r') =
                    subst
                      (Opens held stored cfg size etag pool_calls read_blob reliable is_pool arrived
                        attr_size index)
                      e got in
                  let (s', placed, filled) = opened in
                  let b = r'.handle.heap a in
                  let at_index : b.offset ≡ index * cfg.block_size = filled.1 in
                  let near = mod-lt offset positive in
                  let split = div-add-mod' offset cfg.block_size in
                  let upto = get_block_size cfg.block_size r'.handle.size b in
                  let piece = take left (drop (offset - b.offset) (take upto (bytes_of b))) in
                  let part : IsPiece offset left (offset - b.offset) upto piece =
                    take-IsPiece offset left b.offset r'.handle.size b s'.same_size
                      (omega (arith, at_index, split)) (omega (arith, at_index, split, near)) inside
                      (s'.sized a placed)
                      (subst
                        (λ (n : ℕ).
                          (x : ℕ)
                          → x < cfg.block_size
                          → n + x < size
                          → get_or (bytes_of b) x 0 ≡ stored (n + x))
                        (sym at_index) filled.2) in
                  let whole_size = s'.same_size in
                  elim (Bool-cases (leb r'.handle.size (offset + length piece))) [
                    | inl ends ↦
                        rw (copy_from, goes, e, part.within, ends)
                          (
                            s',
                            part.holds,
                            part.short,
                            ground (arith, ends, whole_size, part.inside),
                          )
                    | inr on ↦
                        let more = part.some_bytes (ground (arith, goes)) in
                        let before_end : offset + length piece < size =
                          ground (arith, on, whole_size) in
                        let rest =
                          copy_from cfg pool_calls read_blob arrived attr_size fuel
                            (offset + length piece) (left - length piece) r' in
                        let later =
                          copy_from-IsCopied fuel (offset + length piece) (left - length piece) r'
                            positive whole (omega (arith, h, more, part.short)) before_end s' in
                        rw (copy_from, goes, e, part.within, on)
                          (joined offset left piece rest part.short before_end part.holds later)
                  ]
            ]
      ]

  Copied-cases :
      (c : Copied P)
      → ((bytes : List ℕ) × (why : Option Answer) × (r : Reader P) × (c ≡ copied bytes why r))
        ⊎ (c ≡ unfinished)
  Copied-cases (copied bytes why r) = inl (bytes, why, r, refl)
  Copied-cases unfinished = inr refl

  -- The ways to stop, told apart.
  ended :
      (offset left : ℕ) (bytes : List ℕ) (why : Option Answer) (r' : Reader P)
      → IsCopied offset left (copied bytes why r')
      → (bytes ≡ direct stored offset (length bytes))
        × IsSound held stored cfg size etag r'
        × (((why ≡ none) × (length bytes ≡ left))
            ⊎ (((why ≡ some at_eof) × (length bytes ≡ size - offset) × (length bytes ≤ left))
                ⊎ ((why ≡ some fails) × (length bytes ≤ left))))
  ended offset left bytes none r' (s, holds, len, most) =
      (holds-direct stored offset (length bytes) bytes refl holds, s, inl (refl, len))
  ended offset left bytes (some at_eof) r' (s, holds, len, most) =
      (holds-direct stored offset (length bytes) bytes refl holds, s, inr (inl (refl, most, len)))
  ended offset left bytes (some fails) r' (s, holds, len, most) =
      (holds-direct stored offset (length bytes) bytes refl holds, s, inr (inr (refl, len)))
  ended offset left bytes (some waits) r' h = absurd h
  ended offset left bytes (some panics) r' h = absurd h
  ended offset left bytes (some commits) r' h = absurd h

-- Let the storage answer every read inside the file with the file's bytes and the known tag, and know no smaller size of it; let
-- the pool never hand out a block that it does not hold; and let the handle be sound. A read then ends, without a panic and without
-- waiting for ever. What it copies are the file's bytes from the offset on: as many as were asked for, or all up to the end of the
-- file, or fewer together with an error. The handle is sound again.
pub read_in_buffer-copied :
    {P : Type 0} (held : P → ℕ → ℕ) (stored : ℕ → ℕ) (cfg : Config) (size etag : ℕ)
    (pool_calls : PoolCalls P) (read_blob : ℕ → ℕ → List ℕ → BlobRead)
    (reliable : IsReliable held stored cfg size etag read_blob) (is_pool : IsPool pool_calls held)
    (arrived : ℕ → ℕ → Bool) (attr_size : Option ℕ) (offset len : ℕ) (r : Reader P)
    → 0 < cfg.block_size
    → IsWhole held stored cfg size etag pool_calls read_blob reliable is_pool arrived attr_size
        attr_size
    → IsSound held stored cfg size etag r
    → (bytes : List ℕ) × (why : Option Answer) × (r' : Reader P) × (read_in_buffer cfg pool_calls
          read_blob arrived attr_size offset len r
        ≡ copied bytes why r')
      × (bytes ≡ direct stored offset (length bytes))
      × IsSound held stored cfg size etag r'
      × (((why ≡ none) × (length bytes ≡ len))
          ⊎ (((why ≡ some at_eof) × (length bytes ≡ size - offset) × (length bytes ≤ len))
              ⊎ ((why ≡ some fails) × (length bytes ≤ len))))
unfolding read_in_buffer
read_in_buffer-copied held stored cfg size etag pool_calls read_blob reliable is_pool arrived
      attr_size offset len r positive whole s =
    let same = s.same_size in
    elim (Bool-cases (leb r.handle.size offset)) [
      | inl beyond ↦ (
        [],
        some at_eof,
        r,
        (rw (read_in_buffer, beyond) refl),
        refl,
        s,
        inr (inl (refl, ground (arith, beyond, same), omega arith)),
      )
      | inr within ↦
          let run = copy_from cfg pool_calls read_blob arrived attr_size (suc len) offset len r in
          let ends =
            copy_from-IsCopied held stored cfg size etag pool_calls read_blob reliable is_pool
              arrived attr_size (suc len) offset len r positive whole (omega arith)
              (ground (arith, within, same)) s in
          let is_copied =
            IsCopied held stored cfg size etag pool_calls read_blob reliable is_pool arrived
              attr_size offset len in
          elim (Copied-cases held stored cfg size etag pool_calls read_blob reliable is_pool arrived
            attr_size run) [
              | inr e ↦ absurd (subst is_copied e ends)
              | inl (bytes, why, r', e) ↦
                  let (direct', s', stop) =
                    ended held stored cfg size etag pool_calls read_blob reliable is_pool arrived
                      attr_size offset len bytes why r' (subst is_copied e ends) in
                  (bytes, why, r', (rw (read_in_buffer, within) e), direct', s', stop)
            ]
    ]
