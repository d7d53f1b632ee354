-- ===== src/BlockCache/Commit/Listing.antt =====
-- The loop of `getBlockIDList` against the sparse file.
use cloudfuse.Base.{
  ℕ, zero, suc, ◌+◌, ◌-◌, ◌*◌, ◌≤◌, ◌<◌, ◌≡◌, refl, sym, ap, ◌∙◌, inl, inr, Bool, true, false, not,
  ◌&&◌, Option, none, some, List, [], ◌∷◌, ◌++◌, ◌==◌, Bool-cases, Option-cases, replicate, length,
  get_or, at_key, All, length-replicate, arith,
}
use mathlib.Core.Path.{subst}
use cloudfuse.BlockCache.Commit.{
  BlockInfo, Staging, Listed, stage_data, zero_block_id, zero_ids, list_from, is_last,
  committed_bytes,
}
use cloudfuse.BlockCache.Commit.Sparse.{
  sparse_byte, IsSorted, IsRead, IsSized, file_end, in_front, filled_in_front, at_end, gap_in_front,
  gap_size, length-committed_bytes,
}
use cloudfuse.BlockCache.Commit.Staged.{
  Attempt-cases, IsOld, IsGrown, IsStaged, After, IsZero, IsGapped, Gapped, IsOld-grown,
  IsGrown-trans, IsGrown-refl, stage_data-After, IsZero-grown, zero_block_id-Gapped,
}

module _ (new_id : ℕ → ℕ) (stages : ℕ → Bool) (block_size : ℕ)
    (apart : (m n : ℕ) → new_id m ≡ new_id n → m ≡ n) where
  module _ (data_of : ℕ → List ℕ) where
    -- Each block's bytes are staged under its ID.
    abbrev pub IsReady : Staging → List (ℕ × BlockInfo) → Type 0
    IsReady st entries =
        All
          (λ e.
            (at_key e.1.id st.staged ≡ some (data_of e.1.id))
            × IsOld new_id stages block_size apart st e.1.id
            × (length (data_of e.1.id) ≡ e.1.size)
            × (e.1.size ≤ block_size))
          entries

    IsReady-grown :
        (st st' : Staging) (entries : List (ℕ × BlockInfo))
        → IsGrown new_id stages block_size apart st st'
        → IsReady st entries
        → IsReady st' entries
    IsReady-grown st st' [] g h = tt
    IsReady-grown st st' (e ∷ es) g h =
        let (at, old, len, le) = h.0 in
        (
          (
            g.kept e.1.id old ∙ at,
            IsOld-grown new_id stages block_size apart st st' e.1.id g old,
            len,
            le,
          ),
          IsReady-grown st st' es g h.1,
        )

    abbrev pub Listing : Staging → ℕ → List (ℕ × BlockInfo) → Option Listed → Type 0
    Listing st index entries none = Unit
    Listing st index entries (some r) =
        IsGrown new_id stages block_size apart st r.staging
        × IsRead data_of block_size r.staging.staged r.block_id_list index entries
        × IsSized data_of block_size r.staging.staged r.block_id_list index entries

    -- One block, in front of what is read of the others.
    placed :
        (k : ℕ) (info : BlockInfo) (rest : List (ℕ × BlockInfo)) (whole ids : List ℕ)
        (staged : List (ℕ × List ℕ))
        → ((d x : ℕ)
            → x < block_size
            → (get_or (committed_bytes staged whole) x 0 ≡ get_or (data_of info.id) x 0)
              × (get_or (committed_bytes staged whole) (suc d * block_size + x) 0
                  ≡ get_or (committed_bytes staged ids) (d * block_size + x) 0))
        → IsRead data_of block_size staged ids (suc k) rest
        → IsRead data_of block_size staged whole k ((k, info) ∷ rest)
    placed k info rest whole ids staged f r zero x h =
        let (first, _) = f 0 x h in
        let start : 0 * block_size + x ≡ x = omega arith in
        let here : (k == k + 0) ≡ true = ground arith in
        ap (λ (i : ℕ). get_or (committed_bytes staged whole) i 0) start
        ∙ (first ∙ rw (sparse_byte, at_key, here) refl)
    placed k info rest whole ids staged f r (suc d) x h =
        let (_, later) = f d x h in
        let other : (k == k + suc d) ≡ false = ground arith in
        let next : suc k + d ≡ k + suc d = omega arith in
        let tail : sparse_byte data_of rest (suc k + d) x
            ≡ sparse_byte data_of ((k, info) ∷ rest) (k + suc d) x =
          ap (λ (j : ℕ). sparse_byte data_of rest j x) next
          ∙ rw (sparse_byte, at_key, other) refl in
        later ∙ (r d x h ∙ tail)

    -- The gap before a block, and what follows it.
    gapped :
        (gap index k : ℕ) (z : Option ℕ) (ids : List ℕ) (entries : List (ℕ × BlockInfo))
        (st st' : Staging)
        → index + gap ≡ k
        → IsSorted k entries
        → IsGapped new_id stages block_size apart gap st z st'
        → IsZero new_id stages block_size apart z st'
        → (st2 : Staging) → IsGrown new_id stages block_size apart st' st2
        → IsRead data_of block_size st2.staged ids k entries
        → IsRead data_of block_size st2.staged (zero_ids gap z ++ ids) index entries
    gapped gap index k none ids entries st st' e s g zeroed st2 g2 r = elim g.there [
      | inl no_gap ↦
          subst (λ (i : ℕ). IsRead data_of block_size st2.staged ids i entries)
            (omega (arith, e, no_gap)) r
      | inr (id, bad) ↦ absurd (ground (arith, bad))
    ]
    gapped gap index k (some id) ids entries st st' e s g zeroed st2 g2 r =
        gap_in_front data_of block_size st2.staged gap id index ids entries
          (inr (g2.kept id zeroed.1 ∙ zeroed.0)) (subst (λ (i : ℕ). IsSorted i entries) (sym e) s)
          (subst (λ (i : ℕ). IsRead data_of block_size st2.staged ids i entries) (sym e) r)

    -- The last block, or a whole one.
    plain-IsRead :
        (k : ℕ) (info : BlockInfo) (rest : List (ℕ × BlockInfo)) (z : Option ℕ) (st : Staging)
        (r : Listed)
        → (not (is_last rest) && not (info.size == block_size)) ≡ false
        → list_from new_id stages block_size (suc k) z rest st ≡ some r
        → at_key info.id r.staging.staged ≡ some (data_of info.id)
        → length (data_of info.id) ≡ info.size
        → info.size ≤ block_size
        → IsRead data_of block_size r.staging.staged r.block_id_list (suc k) rest
        → IsRead data_of block_size r.staging.staged
            (info.id ∷ r.block_id_list)
            k
            ((k, info) ∷ rest)
    unfolding list_from
    plain-IsRead k info [] z st r plain found at len le read =
        let none_after : r.block_id_list ≡ [] = ground (arith, found) in
        subst
          (λ (ids : List ℕ).
            IsRead data_of block_size r.staging.staged (info.id ∷ ids) k ((k, info) ∷ []))
          (sym none_after)
          (placed k info [] (info.id ∷ []) [] r.staging.staged
            (λ d x h.
              at_end data_of block_size r.staging.staged info.id (data_of info.id) d x at
                (omega (arith, len, le)))
            (λ d x h. refl))
    plain-IsRead k info (e ∷ rest) z st r plain found at len le read =
        placed k info (e ∷ rest) (info.id ∷ r.block_id_list) r.block_id_list r.staging.staged
          (λ d x h.
            in_front data_of block_size r.staging.staged info.id (data_of info.id) r.block_id_list d
              x at (len ∙ ground (arith, plain)) h)
          read

    -- A short block that others follow.
    short-IsRead :
        (k : ℕ) (info : BlockInfo) (rest : List (ℕ × BlockInfo)) (filler : ℕ) (r : Listed)
        → at_key info.id r.staging.staged ≡ some (data_of info.id)
        → at_key filler r.staging.staged ≡ some (replicate (block_size - info.size) 0)
        → length (data_of info.id) ≡ info.size
        → info.size ≤ block_size
        → IsRead data_of block_size r.staging.staged r.block_id_list (suc k) rest
        → IsRead data_of block_size r.staging.staged
            (info.id ∷ filler ∷ r.block_id_list)
            k
            ((k, info) ∷ rest)
    short-IsRead k info rest filler r at filled len le read =
        placed k info rest (info.id ∷ filler ∷ r.block_id_list) r.block_id_list r.staging.staged
          (λ d x h.
            filled_in_front data_of block_size r.staging.staged info.id filler info.size
              (data_of info.id) r.block_id_list d x at filled len le h)
          read

    plain-IsSized :
        (k : ℕ) (info : BlockInfo) (rest : List (ℕ × BlockInfo)) (z : Option ℕ) (st : Staging)
        (r : Listed)
        → (not (is_last rest) && not (info.size == block_size)) ≡ false
        → list_from new_id stages block_size (suc k) z rest st ≡ some r
        → at_key info.id r.staging.staged ≡ some (data_of info.id)
        → length (data_of info.id) ≡ info.size
        → IsSized data_of block_size r.staging.staged r.block_id_list (suc k) rest
        → IsSized data_of block_size r.staging.staged
            (info.id ∷ r.block_id_list)
            k
            ((k, info) ∷ rest)
    unfolding list_from
    plain-IsSized k info [] z st r plain found at len sized =
        let none_after : r.block_id_list ≡ [] = ground (arith, found) in
        let front =
          length-committed_bytes data_of block_size r.staging.staged info.id (data_of info.id)
            r.block_id_list at in
        let nothing : length (committed_bytes r.staging.staged r.block_id_list) ≡ 0 =
          rw none_after refl in
        omega (arith, front, nothing, len)
    plain-IsSized k info (e ∷ rest) z st r plain found at len sized =
        let front =
          length-committed_bytes data_of block_size r.staging.staged info.id (data_of info.id)
            r.block_id_list at in
        let whole : info.size ≡ block_size = ground (arith, plain) in
        omega (arith, front, len, whole, sized)

    short-IsSized :
        (k : ℕ) (info : BlockInfo) (rest : List (ℕ × BlockInfo)) (filler : ℕ) (r : Listed)
        → (not (is_last rest) && not (info.size == block_size)) ≡ true
        → at_key info.id r.staging.staged ≡ some (data_of info.id)
        → at_key filler r.staging.staged ≡ some (replicate (block_size - info.size) 0)
        → length (data_of info.id) ≡ info.size
        → info.size ≤ block_size
        → IsSized data_of block_size r.staging.staged r.block_id_list (suc k) rest
        → IsSized data_of block_size r.staging.staged
            (info.id ∷ filler ∷ r.block_id_list)
            k
            ((k, info) ∷ rest)
    short-IsSized k info rest filler r short at filled len le sized =
        let staged = r.staging.staged in
        let front =
          length-committed_bytes data_of block_size staged info.id (data_of info.id)
            (filler ∷ r.block_id_list) at in
        let next =
          length-committed_bytes data_of block_size staged filler
            (replicate (block_size - info.size) 0) r.block_id_list filled in
        let more : is_last rest ≡ false = ground (arith, short) in
        let zeros : length (replicate (block_size - info.size) 0) ≡ block_size - info.size =
          length-replicate {A = ℕ} (block_size - info.size) 0 in
        rw (file_end, more) (omega (arith, front, next, zeros, len, le, sized))

    gapped-IsSized :
        (gap index k : ℕ) (z : Option ℕ) (ids : List ℕ) (k_info : BlockInfo)
        (rest : List (ℕ × BlockInfo)) (st st' : Staging)
        → index + gap ≡ k
        → IsGapped new_id stages block_size apart gap st z st'
        → IsZero new_id stages block_size apart z st'
        → (st2 : Staging) → IsGrown new_id stages block_size apart st' st2
        → IsSized data_of block_size st2.staged ids k ((k, k_info) ∷ rest)
        → IsSized data_of block_size st2.staged (zero_ids gap z ++ ids) index ((k, k_info) ∷ rest)
    gapped-IsSized gap index k none ids k_info rest st st' e g zeroed st2 g2 sized = elim g.there [
      | inl no_gap ↦
          let same : index ≡ k = omega (arith, e, no_gap) in
          ap (λ (i : ℕ). i * block_size + length (committed_bytes st2.staged ids)) same ∙ sized
      | inr (id, bad) ↦ absurd (ground (arith, bad))
    ]
    gapped-IsSized gap index k (some id) ids k_info rest st st' e g zeroed st2 g2 sized =
        let gaps =
          gap_size data_of block_size st2.staged gap id ids
            (inr (g2.kept id zeroed.1 ∙ zeroed.0)) in
        let blocks : k * block_size ≡ index * block_size + gap * block_size =
          ap (λ (i : ℕ). i * block_size) (sym e) ∙ omega arith in
        omega (arith, gaps, blocks, sized)

    -- With the gap before it, a block and what follows it are a listing.
    listed :
        (gap index k : ℕ) (z : Option ℕ) (ids : List ℕ) (info : BlockInfo)
        (rest : List (ℕ × BlockInfo)) (st st1 st2 : Staging)
        → index + gap ≡ k
        → IsSorted (suc k) rest
        → IsGapped new_id stages block_size apart gap st z st1
        → IsGrown new_id stages block_size apart st1 st2
        → IsRead data_of block_size st2.staged ids k ((k, info) ∷ rest)
        → IsSized data_of block_size st2.staged ids k ((k, info) ∷ rest)
        → IsGrown new_id stages block_size apart st st2
          × IsRead data_of block_size st2.staged (zero_ids gap z ++ ids) index ((k, info) ∷ rest)
          × IsSized data_of block_size st2.staged (zero_ids gap z ++ ids) index ((k, info) ∷ rest)
    listed gap index k z ids info rest st st1 st2 at_k sorted g grown read sized = (
      IsGrown-trans new_id stages block_size apart st st1 st2 g.grown grown,
      gapped gap index k z ids ((k, info) ∷ rest) st st1 at_k (omega arith, sorted) g g.zeroed st2
          grown read,
      gapped-IsSized gap index k z ids info rest st st1 at_k g g.zeroed st2 grown sized,
    )

    pub list_from-Listing :
        (index : ℕ) (z : Option ℕ) (entries : List (ℕ × BlockInfo)) (st : Staging)
        → IsZero new_id stages block_size apart z st
        → IsSorted index entries
        → IsReady st entries
        → Listing st index entries (list_from new_id stages block_size index z entries st)
    unfolding list_from
    list_from-Listing index z [] st hz s ready =
        (IsGrown-refl new_id stages block_size apart st, (λ d x h. refl), omega arith)
    list_from-Listing index z ((k, info) ∷ rest) st hz s ready =
        let gap = k - index in
        let gapping = zero_block_id-Gapped new_id stages block_size apart gap z st hz in
        elim (Option-cases (zero_block_id new_id stages block_size gap z st)) [
          | inl none_left ↦ rw (list_from, none_left) tt
          | inr ((z1, st1), found) ↦
              let g : IsGapped new_id stages block_size apart gap st z1 st1 =
                subst (Gapped new_id stages block_size apart gap st) found gapping in
              let ready1 = IsReady-grown st st1 ((k, info) ∷ rest) g.grown ready in
              let (at, old, len, le) = ready1.0 in
              let index_k : index + gap ≡ k = omega (arith, s.0) in
              elim (Bool-cases (not (is_last rest) && not (info.size == block_size))) [
                | inr plain ↦
                    let ih = list_from-Listing (suc k) z1 rest st1 g.zeroed s.1 ready1.1 in
                    elim (Option-cases (list_from new_id stages block_size (suc k) z1 rest st1)) [
                      | inl none_left ↦ rw (list_from, found, plain, none_left) tt
                      | inr (r, found') ↦
                          let ih' : Listing st1 (suc k) rest (some r) =
                            subst (Listing st1 (suc k) rest) found' ih in
                          let (grown, read, sized) = ih' in
                          let at' = grown.kept info.id old ∙ at in
                          rw (list_from, found, plain, found')
                            (listed gap index k z1 (info.id ∷ r.block_id_list) info rest st st1
                              r.staging index_k s.1 g grown
                              (plain-IsRead k info rest z1 st1 r plain found' at' len le read)
                              (plain-IsSized k info rest z1 st1 r plain found' at' len sized))
                    ]
                | inl short ↦
                    let zeros : List ℕ = replicate (block_size - info.size) 0 in
                    let after = stage_data-After new_id stages block_size apart zeros st1 in
                    elim (Attempt-cases (stage_data new_id stages block_size zeros st1)) [
                      | inr (st2, fails) ↦ rw (list_from, found, short, fails) tt
                      | inl (filler, st2, staged) ↦
                          let f : IsStaged new_id stages block_size apart zeros st1 filler st2 =
                            subst (After new_id stages block_size apart zeros st1) staged after in
                          let zeroed =
                            IsZero-grown new_id stages block_size apart z1 st1 st2 f.grown
                              g.zeroed in
                          let ready2 = IsReady-grown st1 st2 rest f.grown ready1.1 in
                          let ih = list_from-Listing (suc k) z1 rest st2 zeroed s.1 ready2 in
                          elim (Option-cases
                            (list_from new_id stages block_size (suc k) z1 rest st2)) [
                              | inl none_left ↦ rw (list_from, found, short, staged, none_left) tt
                              | inr (r, found') ↦
                                  let ih' : Listing st2 (suc k) rest (some r) =
                                    subst (Listing st2 (suc k) rest) found' ih in
                                  let (grown, read, sized) = ih' in
                                  let grown1 =
                                    IsGrown-trans new_id stages block_size apart st1 st2 r.staging
                                      f.grown grown in
                                  let at' = grown1.kept info.id old ∙ at in
                                  let filled = grown.kept filler f.old ∙ f.there in
                                  rw (list_from, found, short, staged, found')
                                    (listed gap index k z1 (info.id ∷ filler ∷ r.block_id_list) info
                                      rest st st1 r.staging index_k s.1 g grown1
                                      (short-IsRead k info rest filler r at' filled len le read)
                                      (short-IsSized k info rest filler r short at' filled len le
                                        sized))
                            ]
                    ]
              ]
        ]
