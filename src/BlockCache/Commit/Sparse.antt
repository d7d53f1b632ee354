-- ===== src/BlockCache/Commit/Sparse.antt =====
-- The committed list stands for a sparse file: each block's bytes at its place, and zeros elsewhere.
use cloudfuse.Base.{
  ℕ, zero, suc, ◌+◌, ◌-◌, ◌*◌, ◌≤◌, ◌<◌, ◌≡◌, refl, sym, ap, ◌∙◌, inl, inr, none, some, List, [],
  ◌∷◌, ◌++◌, if◌then◌else◌, Bool-cases, ◌⊎◌, ltb, replicate, length, get_or, at_key, get_or-append,
  get_or_beyond, get_or-replicate, length-replicate, length-append, arith,
}
use mathlib.Core.Path.{subst}
use cloudfuse.BlockCache.Commit.{BlockInfo, is_last, committed_bytes}

-- Byte `x` of block `j` of the sparse file.
abbrev pub sparse_byte : (ℕ → List ℕ) → List (ℕ × BlockInfo) → ℕ → ℕ → ℕ
sparse_byte data_of entries j x = elim (at_key j entries) [
  | none ↦ 0
  | some info ↦ get_or (data_of info.id) x 0
]

-- Where the sparse file ends: with its last block.
abbrev pub file_end : ℕ → ℕ → List (ℕ × BlockInfo) → ℕ
file_end block_size index [] = index * block_size
file_end block_size index ((k, info) ∷ rest) =
    let later = file_end block_size (suc k) rest in
    if is_last rest then k * block_size + info.size else later

-- The keys go up from an index on, as in a sorted list.
abbrev pub IsSorted : ℕ → List (ℕ × BlockInfo) → Type 0
IsSorted index [] = Unit
IsSorted index ((k, info) ∷ rest) = (index ≤ k) × IsSorted (suc k) rest

sorted_none :
    (j index : ℕ) (entries : List (ℕ × BlockInfo))
    → IsSorted index entries
    → j < index
    → at_key j entries ≡ none
sorted_none j index [] s h = refl
sorted_none j index ((k, info) ∷ rest) s h =
    let later = sorted_none j (suc k) rest s.1 (omega (arith, h, s.0)) in
    ground (arith, later, h, s.0)

module _ (data_of : ℕ → List ℕ) (block_size : ℕ) (staged : List (ℕ × List ℕ)) where
  -- What the bytes of some IDs are, from block `index` on.
  abbrev pub IsRead : List ℕ → ℕ → List (ℕ × BlockInfo) → Type 0
  IsRead ids index entries =
      (d x : ℕ)
      → x < block_size
      → get_or (committed_bytes staged ids) (d * block_size + x) 0
        ≡ sparse_byte data_of entries (index + d) x

  -- How many bytes some IDs are, from block `index` on.
  abbrev pub IsSized : List ℕ → ℕ → List (ℕ × BlockInfo) → Type 0
  IsSized ids index entries =
      index * block_size + length (committed_bytes staged ids) ≡ file_end block_size index entries

  pub length-committed_bytes :
      (id : ℕ) (bytes ids : List ℕ)
      → at_key id staged ≡ some bytes
      → length (committed_bytes staged (id ∷ ids))
        ≡ length bytes + length (committed_bytes staged ids)
  length-committed_bytes id bytes ids there =
      rw (committed_bytes, there) (length-append bytes (committed_bytes staged ids))

  pub gap_size :
      (gap z : ℕ) (ids : List ℕ)
      → (gap ≡ 0) ⊎ (at_key z staged ≡ some (replicate block_size 0))
      → length (committed_bytes staged (replicate gap z ++ ids))
        ≡ gap * block_size + length (committed_bytes staged ids)
  gap_size zero z ids there = omega arith
  gap_size (suc gap) z ids (inl none_left) = absurd (omega (arith, none_left))
  gap_size (suc gap) z ids (inr there) =
      let first =
        length-committed_bytes z (replicate block_size 0) (replicate gap z ++ ids) there in
      let whole : length (replicate block_size 0) ≡ block_size =
        length-replicate {A = ℕ} block_size 0 in
      let later = gap_size gap z ids (inr there) in omega (arith, first, whole, later)

  -- A whole block in front.
  pub in_front :
      (id : ℕ) (bytes ids : List ℕ) (d x : ℕ)
      → at_key id staged ≡ some bytes
      → length bytes ≡ block_size
      → x < block_size
      → (get_or (committed_bytes staged (id ∷ ids)) x 0 ≡ get_or bytes x 0)
        × (get_or (committed_bytes staged (id ∷ ids)) (suc d * block_size + x) 0
            ≡ get_or (committed_bytes staged ids) (d * block_size + x) 0)
  in_front id bytes ids d x there full h =
      let rest = committed_bytes staged ids in
      let (inside, _) = get_or-append bytes rest x 0 in
      let (_, outside) = get_or-append bytes rest (suc d * block_size + x) 0 in
      (
        rw (committed_bytes, there) (inside (omega (arith, full, h))),
        rw (committed_bytes, there) (outside (d * block_size + x) (omega (arith, full))),
      )

  -- A block, and the zeros that fill it up.
  pub filled_in_front :
      (id filler size : ℕ) (bytes ids : List ℕ) (d x : ℕ)
      → at_key id staged ≡ some bytes
      → at_key filler staged ≡ some (replicate (block_size - size) 0)
      → length bytes ≡ size
      → size ≤ block_size
      → x < block_size
      → (get_or (committed_bytes staged (id ∷ filler ∷ ids)) x 0 ≡ get_or bytes x 0)
        × (get_or (committed_bytes staged (id ∷ filler ∷ ids)) (suc d * block_size + x) 0
            ≡ get_or (committed_bytes staged ids) (d * block_size + x) 0)
  filled_in_front id filler size bytes ids d x there filled len le h =
      let rest = committed_bytes staged ids in
      let zeros : List ℕ = replicate (block_size - size) 0 in
      let size_zeros : length zeros ≡ block_size - size = length-replicate (block_size - size) 0 in
      let whole : committed_bytes staged (id ∷ filler ∷ ids) ≡ bytes ++ (zeros ++ rest) =
        rw (committed_bytes, there, filled) refl in
      let (inside, outside) = get_or-append bytes (zeros ++ rest) x 0 in
      let (inside', _) = get_or-append zeros rest (x - size) 0 in
      let (_, outside2) = get_or-append bytes (zeros ++ rest) (suc d * block_size + x) 0 in
      let (_, outside3) = get_or-append zeros rest (block_size - size + (d * block_size + x)) 0 in
      let beyond = get_or_beyond bytes x 0 in
      let nothing : get_or zeros (x - size) 0 ≡ 0 =
        get_or-replicate (block_size - size) 0 (x - size) in
      (
        ap (λ (l : List ℕ). get_or l x 0) whole ∙ elim (Bool-cases (ltb x size)) [
          | inl low ↦ inside (ground (arith, low, len))
          | inr high ↦
              outside (x - size) (ground (arith, high, len))
              ∙ (inside' (ground (arith, high, h, size_zeros, le))
                  ∙ (nothing ∙ sym (beyond (ground (arith, high, len)))))
        ],
        ap (λ (l : List ℕ). get_or l (suc d * block_size + x) 0) whole
            ∙ (outside2 (block_size - size + (d * block_size + x)) (omega (arith, len, le))
                ∙ outside3 (d * block_size + x) (omega (arith, size_zeros))),
      )

  -- A block at the end of the file.
  pub at_end :
      (id : ℕ) (bytes : List ℕ) (d x : ℕ)
      → at_key id staged ≡ some bytes
      → length bytes ≤ block_size
      → (get_or (committed_bytes staged (id ∷ [])) x 0 ≡ get_or bytes x 0)
        × (get_or (committed_bytes staged (id ∷ [])) (suc d * block_size + x) 0 ≡ 0)
  at_end id bytes d x there le =
      let whole : committed_bytes staged (id ∷ []) ≡ bytes ++ [] =
        rw (committed_bytes, there) refl in
      let (inside, _) = get_or-append bytes [] x 0 in
      let len = length-append bytes [] in
      let beyond = get_or_beyond (bytes ++ []) x 0 in
      let beyond' = get_or_beyond bytes x 0 in
      let far = get_or_beyond (bytes ++ []) (suc d * block_size + x) 0 in
      (
        ap (λ (l : List ℕ). get_or l x 0) whole ∙ elim (Bool-cases (ltb x (length bytes))) [
          | inl low ↦ inside (ground (arith, low))
          | inr high ↦ beyond (ground (arith, high, len)) ∙ sym (beyond' (ground (arith, high)))
        ],
        ap (λ (l : List ℕ). get_or l (suc d * block_size + x) 0) whole
            ∙ far (omega (arith, len, le)),
      )

  -- The zero block, once for each place of a gap.
  pub gap_in_front :
      (gap z index : ℕ) (ids : List ℕ) (entries : List (ℕ × BlockInfo))
      → (gap ≡ 0) ⊎ (at_key z staged ≡ some (replicate block_size 0))
      → IsSorted (index + gap) entries
      → IsRead ids (index + gap) entries
      → IsRead (replicate gap z ++ ids) index entries
  gap_in_front zero z index ids entries there s r d x h =
      subst
        (λ (i : ℕ).
          get_or (committed_bytes staged ids) (d * block_size + x) 0
          ≡ sparse_byte data_of entries (i + d) x)
        (omega arith) (r d x h)
  gap_in_front (suc gap) z index ids entries (inl none_left) s r d x h =
      absurd (omega (arith, none_left))
  gap_in_front (suc gap) z index ids entries (inr there) s r zero x h =
      let (first, _) =
        in_front z (replicate block_size 0) (replicate gap z ++ ids) 0 x there
          (length-replicate block_size 0) h in
      let absent = sorted_none (index + 0) (index + suc gap) entries s (omega arith) in
      let start : 0 * block_size + x ≡ x = omega arith in
      ap (λ (i : ℕ). get_or (committed_bytes staged (z ∷ (replicate gap z ++ ids))) i 0) start
      ∙ (first ∙ (get_or-replicate block_size 0 x ∙ rw (sparse_byte, absent) refl))
  gap_in_front (suc gap) z index ids entries (inr there) s r (suc d) x h =
      let (_, later) =
        in_front z (replicate block_size 0) (replicate gap z ++ ids) d x there
          (length-replicate block_size 0) h in
      let assoc : index + suc gap ≡ suc index + gap = omega arith in
      let rest =
        gap_in_front gap z (suc index) ids entries (inr there)
          (subst (λ (i : ℕ). IsSorted i entries) assoc s)
          (λ d' x' h'.
            subst
              (λ (i : ℕ).
                get_or (committed_bytes staged ids) (d' * block_size + x') 0
                ≡ sparse_byte data_of entries (i + d') x')
              assoc (r d' x' h'))
          d x h in
      later ∙ (rest ∙ ap (λ (j : ℕ). sparse_byte data_of entries j x) (omega arith))
