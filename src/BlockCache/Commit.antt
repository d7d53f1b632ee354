-- ===== src/BlockCache/Commit.antt =====
-- component/block_cache/block_cache.go, `getBlockIDList` and `stageZeroBlock`: the list of block IDs that
-- a flush commits. An ID is a number, and a Go map's entries stand in the order of their keys, which is
-- the order that the code sorts them into. Logging is left out.
pub mod Sparse
pub mod Staged
pub mod Listing
pub mod Failing
pub mod Committed
mod Tests
use cloudfuse.Base.{
  ℕ, zero, suc, ◌+◌, ◌-◌, ◌*◌, Bool, true, false, not, ◌&&◌, Option, none, some, List, [], ◌∷◌,
  ◌++◌, ◌==◌, ltb, if◌then◌else◌, replicate, take, at_key,
}

pub record BlockInfo : Type 0 where
  pub id : ℕ
  pub committed : Bool
  pub size : ℕ

-- What the storage was asked to stage: how many calls and IDs there were, and the staged bytes by ID.
pub record Staging : Type 0 where
  pub calls : ℕ
  pub ids : ℕ
  pub staged : List (ℕ × List ℕ)

pub record Listed : Type 0 where
  pub block_id_list : List ℕ
  pub restage_id : List ℕ
  pub list_map : List (ℕ × BlockInfo)
  pub staging : Staging

-- What came of a `StageData`: the ID that stands for the bytes, or an error.
pub data Attempt : Type 0 where
  done : ℕ → Staging → Attempt
  failed : Staging → Attempt

abbrev pub max_fail_cnt : ℕ
max_fail_cnt = 3

abbrev pub is_last : List (ℕ × BlockInfo) → Bool
is_last [] = true
is_last (e ∷ rest) = false

abbrev pub zero_ids : ℕ → Option ℕ → List ℕ
zero_ids gap none = []
zero_ids gap (some id) = replicate gap id

-- `new_id n` is the n-th answer of `GetBlockID`, and `stages n` says whether the n-th `StageData` succeeds.
module _ (new_id : ℕ → ℕ) (stages : ℕ → Bool) (block_size : ℕ) where
  abbrev pub stage_data : List ℕ → Staging → Attempt
  stage_data bytes st =
      let id = new_id st.ids in
      if stages st.calls
      then done id
          (record { calls = suc st.calls; ids = suc st.ids; staged = (id, bytes) ∷ st.staged })
      else failed (record st { calls = suc st.calls; ids = suc st.ids })

  -- The argument is the number of tries left.
  unfoldable pub stage_zero_block : ℕ → Staging → Attempt
  stage_zero_block zero st = failed st
  stage_zero_block (suc tries) st = elim (stage_data (replicate block_size 0) st) [
    | done id st' ↦ done id st'
    | failed st' ↦ stage_zero_block tries st'
  ]

  -- The zero block is staged once, for the first gap.
  unfoldable pub zero_block_id : ℕ → Option ℕ → Staging → Option (Option ℕ × Staging)
  unfolding stage_zero_block
  zero_block_id zero staged_id st = some (staged_id, st)
  zero_block_id (suc gap) (some id) st = some (some id, st)
  zero_block_id (suc gap) none st = elim (stage_zero_block max_fail_cnt st) [
    | failed st' ↦ none
    | done id st' ↦ some (some id, st')
  ]

  abbrev pub zero_infos : ℕ → ℕ → Option ℕ → List (ℕ × BlockInfo)
  zero_infos index zero staged_id = []
  zero_infos index (suc gap) none = []
  zero_infos index (suc gap) (some id) =
      (index, record { id = id; committed = false; size = block_size })
      ∷ zero_infos (suc index) gap (some id)

  -- The loop, from an index on; `staged_id` is the zero block's, once it is staged.
  unfoldable pub list_from : ℕ → Option ℕ → List (ℕ × BlockInfo) → Staging → Option Listed
  unfolding zero_block_id
  list_from index staged_id [] st =
      some (record { block_id_list = []; restage_id = []; list_map = []; staging = st })
  list_from index staged_id ((k, info) ∷ rest) st = elim (zero_block_id (k - index) staged_id st) [
    | none ↦ none
    | some (zero_id, st1) ↦
        let zeros = zero_ids (k - index) zero_id in
        let infos = zero_infos index (k - index) zero_id in
        elim (not (is_last rest) && not (info.size == block_size)) [
          | true ↦ elim (stage_data (replicate (block_size - info.size) 0) st1) [
            | failed st2 ↦ none
            | done filler st2 ↦ elim (list_from (suc k) zero_id rest st2) [
              | none ↦ none
              | some r ↦ some (record {
                block_id_list = zeros ++ (info.id ∷ filler ∷ r.block_id_list);
                restage_id = info.id ∷ r.restage_id;
                list_map = infos ++ ((k, info) ∷ r.list_map);
                staging = r.staging;
              })
            ]
          ]
          | false ↦ elim (list_from (suc k) zero_id rest st1) [
            | none ↦ none
            | some r ↦ some (record {
              block_id_list = zeros ++ (info.id ∷ r.block_id_list);
              restage_id = r.restage_id;
              list_map = infos ++ ((k, info) ∷ r.list_map);
              staging = r.staging;
            })
          ]
        ]
  ]

  unfoldable pub get_block_id_list : List (ℕ × BlockInfo) → Staging → Option Listed
  unfolding list_from
  get_block_id_list list_map st = list_from 0 none list_map st

-- What the storage makes of a committed list: the staged bytes in turn.
abbrev pub committed_bytes : List (ℕ × List ℕ) → List ℕ → List ℕ
committed_bytes staged [] = []
committed_bytes staged (id ∷ ids) =
    let rest = committed_bytes staged ids in
    elim (at_key id staged) [ none ↦ rest | some bytes ↦ bytes ++ rest ]
