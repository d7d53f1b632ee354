-- ===== src/BlockCache/Commit/Failing.antt =====
-- `getBlockIDList` fails only where a `StageData` failed.
use cloudfuse.Base.{
  ℕ, zero, suc, ◌+◌, ◌-◌, ◌<◌, ◌≡◌, refl, ap, ◌∙◌, inl, inr, Bool, true, false, not, ◌&&◌, Option,
  none, some, List, [], ◌∷◌, ◌==◌, Bool-cases, Option-cases, replicate, arith,
}
use mathlib.Core.Path.{subst}
use cloudfuse.BlockCache.Commit.{
  BlockInfo, Staging, Attempt, done, failed, stage_data, stage_zero_block, zero_block_id, list_from,
  is_last, max_fail_cnt,
}
use cloudfuse.BlockCache.Commit.Staged.{Attempt-cases}

module _ (new_id : ℕ → ℕ) (stages : ℕ → Bool) (block_size : ℕ) where
  abbrev stage_data-calls : (bytes : List ℕ) (st : Staging) → Attempt → Type 0
  stage_data-calls bytes st (done id st') = (stages st.calls ≡ true) × (st'.calls ≡ suc st.calls)
  stage_data-calls bytes st (failed st') = (stages st.calls ≡ false) × (st'.calls ≡ suc st.calls)

  stage_data_lem :
      (bytes : List ℕ) (st : Staging)
      → stage_data-calls bytes st (stage_data new_id stages block_size bytes st)
  stage_data_lem bytes st = elim (Bool-cases (stages st.calls)) [
    | inl succeeds ↦ rw succeeds (succeeds, refl)
    | inr fails ↦ rw fails (fails, refl)
  ]

  -- The tries that failed are the next calls; a success follows fewer of them than there are tries.
  abbrev pub Tried : ℕ → Staging → Attempt → Type 0
  Tried tries st (failed st') =
      ((n : ℕ) → n < tries → stages (st.calls + n) ≡ false) × (st'.calls ≡ st.calls + tries)
  Tried tries st (done id st') =
      (n : ℕ) × (n < tries)
      × (stages (st.calls + n) ≡ true)
      × ((m : ℕ) → m < n → stages (st.calls + m) ≡ false)
      × (st'.calls ≡ st.calls + suc n)

  failing_from :
      (first next tries : ℕ)
      → stages first ≡ false
      → next ≡ suc first
      → ((n : ℕ) → n < tries → stages (next + n) ≡ false)
      → (n : ℕ) → n < suc tries
      → stages (first + n) ≡ false
  failing_from first next tries fails e all_fail zero h = ap stages (omega arith) ∙ fails
  failing_from first next tries fails e all_fail (suc n) h =
      ap stages (omega (arith, e)) ∙ all_fail n (omega (arith, h))

  Tried-later :
      (tries : ℕ) (st st' : Staging) (a : Attempt)
      → stages st.calls ≡ false
      → st'.calls ≡ suc st.calls
      → Tried tries st' a
      → Tried (suc tries) st a
  Tried-later tries st st' (failed st2) fails next (all_fail, calls) =
      (failing_from st.calls st'.calls tries fails next all_fail, omega (arith, calls, next))
  Tried-later tries st st' (done id st2) fails next (n, le, succeeds, before, calls) = (
    suc n,
    omega (arith, le),
    ap stages (omega (arith, next)) ∙ succeeds,
    failing_from st.calls st'.calls n fails next before,
    omega (arith, calls, next),
  )

  -- `stageZeroBlock` stages the block with the first of its tries that succeeds, and fails when all its tries fail.
  pub stage_zero_block-Tried :
      (tries : ℕ) (st : Staging)
      → Tried tries st (stage_zero_block new_id stages block_size tries st)
  unfolding stage_zero_block
  stage_zero_block-Tried zero st = ((λ n h. absurd (omega (arith, h))), omega arith)
  stage_zero_block-Tried (suc tries) st =
      let zeros : List ℕ = replicate block_size 0 in
      let first = stage_data_lem zeros st in
      elim (Attempt-cases (stage_data new_id stages block_size zeros st)) [
        | inl (id, st', e) ↦
            let f : stage_data-calls zeros st (done id st') =
              subst (stage_data-calls zeros st) e first in
            rw (stage_zero_block, e)
              (
                0,
                omega arith,
                ap stages (omega arith) ∙ f.0,
                (λ m h. absurd (omega (arith, h))),
                omega (arith, f.1),
              )
        | inr (st', e) ↦
            let f : stage_data-calls zeros st (failed st') =
              subst (stage_data-calls zeros st) e first in
            let later = stage_zero_block-Tried tries st' in
            rw (stage_zero_block, e)
              (Tried-later tries st st' (stage_zero_block new_id stages block_size tries st') f.0
                f.1 later)
      ]

  abbrev Fails : Type 0
  Fails = (n : ℕ) × (stages n ≡ false)

  zero_block_id_fails :
      (gap : ℕ) (z : Option ℕ) (st : Staging)
      → zero_block_id new_id stages block_size gap z st ≡ none
      → Fails
  unfolding zero_block_id
  zero_block_id_fails zero z st e = absurd (ground (arith, e))
  zero_block_id_fails (suc gap) (some id) st e = absurd (ground (arith, e))
  zero_block_id_fails (suc gap) none st e =
      let tried = stage_zero_block-Tried max_fail_cnt st in
      elim (Attempt-cases (stage_zero_block new_id stages block_size max_fail_cnt st)) [
        | inl (id, st', done') ↦ absurd (ground (arith, e, done'))
        | inr (st', fails) ↦
            let t : Tried max_fail_cnt st (failed st') =
              subst (Tried max_fail_cnt st) fails tried in
            (st.calls + 0, t.0 0 (omega arith))
      ]

  pub list_from_fails :
      (index : ℕ) (z : Option ℕ) (entries : List (ℕ × BlockInfo)) (st : Staging)
      → list_from new_id stages block_size index z entries st ≡ none
      → (n : ℕ) × (stages n ≡ false)
  unfolding list_from
  list_from_fails index z [] st e = absurd (ground (arith, e))
  list_from_fails index z ((k, info) ∷ rest) st e =
      elim (Option-cases (zero_block_id new_id stages block_size (k - index) z st)) [
        | inl fails ↦ zero_block_id_fails (k - index) z st fails
        | inr ((z1, st1), found) ↦
            let ih = list_from_fails (suc k) z1 rest in
            elim (Bool-cases (not (is_last rest) && not (info.size == block_size))) [
              | inr plain ↦ ih st1 (ground (arith, e, found, plain))
              | inl short ↦
                  let zeros : List ℕ = replicate (block_size - info.size) 0 in
                  let staging = stage_data_lem zeros st1 in
                  elim (Attempt-cases (stage_data new_id stages block_size zeros st1)) [
                    | inr (st2, fails) ↦
                        let f : stage_data-calls zeros st1 (failed st2) =
                          subst (stage_data-calls zeros st1) fails staging in
                        (st1.calls, f.0)
                    | inl (filler, st2, staged) ↦ ih st2 (ground (arith, e, found, short, staged))
                  ]
            ]
      ]
