-- ===== src/BlockCache/Commit/Committed.antt =====
-- What `getBlockIDList` returns, as a whole.
use cloudfuse.Base.{
  ℕ, ◌+◌, ◌*◌, ◌<◌, ◌≡◌, sym, ap, ◌∙◌, ◌⊎◌, inl, inr, Bool, false, none, some, List, Option-cases,
  length, get_or, arith,
}
use mathlib.Core.Path.{subst}
use cloudfuse.BlockCache.Commit.{BlockInfo, Staging, Listed, get_block_id_list, committed_bytes}
use cloudfuse.BlockCache.Commit.Sparse.{sparse_byte, file_end, IsSorted}
use cloudfuse.BlockCache.Commit.Listing.{IsReady, Listing, list_from-Listing}
use cloudfuse.BlockCache.Commit.Failing.{list_from_fails}

-- For a sorted map whose blocks are staged, each with at most a block's bytes, and IDs that never repeat: either a
-- `StageData` failed and there is an error, or there is a list, and the file that is committed with it has each byte
-- of each mapped block at its place, zeros in the gaps and behind short blocks, and ends where the last block ends.
pub get_block_id_list-sparse :
    (new_id : ℕ → ℕ) (stages : ℕ → Bool) (block_size : ℕ)
    → (apart : (m n : ℕ) → new_id m ≡ new_id n → m ≡ n)
    → (data_of : ℕ → List ℕ) (list_map : List (ℕ × BlockInfo)) (st : Staging) → IsSorted 0 list_map
    → IsReady new_id stages block_size apart data_of st list_map
    → (j x : ℕ) → x < block_size
    → ((get_block_id_list new_id stages block_size list_map st ≡ none)
        × (n : ℕ) × (stages n ≡ false))
      ⊎ ((r : Listed) × (get_block_id_list new_id stages block_size list_map st ≡ some r)
          × (get_or (committed_bytes r.staging.staged r.block_id_list) (j * block_size + x) 0
              ≡ sparse_byte data_of list_map j x)
          × (length (committed_bytes r.staging.staged r.block_id_list)
              ≡ file_end block_size 0 list_map))
unfolding get_block_id_list
get_block_id_list-sparse new_id stages block_size apart data_of list_map st s ready j x h =
    let listing =
      list_from-Listing new_id stages block_size apart data_of 0 none list_map st tt s ready in
    elim (Option-cases (get_block_id_list new_id stages block_size list_map st)) [
      | inl fails ↦
          let (n, at_n) = list_from_fails new_id stages block_size 0 none list_map st fails in
          inl (fails, n, at_n)
      | inr (r, found) ↦
          let l : Listing new_id stages block_size apart data_of st 0 list_map (some r) =
            subst (Listing new_id stages block_size apart data_of st 0 list_map) found listing in
          let (grown, read, sized) = l in
          let from_zero : 0 * block_size + length (committed_bytes r.staging.staged r.block_id_list)
              ≡ length (committed_bytes r.staging.staged r.block_id_list) =
            omega arith in
          let byte = read j x h in
          let same : 0 + j ≡ j = omega arith in
          inr (
            r,
            found,
            byte ∙ ap (λ (i : ℕ). sparse_byte data_of list_map i x) same,
            sym from_zero ∙ sized,
          )
    ]
