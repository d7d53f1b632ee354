-- ===== src/BlockCache/Commit/Staged.antt =====
-- What a call that stages blocks leaves: the new block under a new ID, and the older ones as they were.
use cloudfuse.Base.{
  ℕ, zero, suc, ◌≤◌, ◌≡◌, ◌≢◌, refl, ◌∙◌, ◌⊎◌, inl, inr, Bool, Option, none, some, List, Bool-cases,
  replicate, at_key, arith,
}
use mathlib.Core.Path.{subst}
use cloudfuse.BlockCache.Commit.{
  Staging, Attempt, done, failed, stage_data, stage_zero_block, zero_block_id, max_fail_cnt,
}

pub Attempt-cases :
    (a : Attempt)
    → ((id : ℕ) × (st : Staging) × (a ≡ done id st)) ⊎ ((st : Staging) × (a ≡ failed st))
Attempt-cases (done id st) = inl (id, st, refl)
Attempt-cases (failed st) = inr (st, refl)

module _ (new_id : ℕ → ℕ) (stages : ℕ → Bool) (block_size : ℕ)
    (apart : (m n : ℕ) → new_id m ≡ new_id n → m ≡ n) where
  -- No ID that is still to come.
  abbrev pub IsOld : Staging → ℕ → Type 0
  IsOld st id = (n : ℕ) → st.ids ≤ n → new_id n ≢ id

  pub record IsGrown (st st' : Staging) : Type 0 where
    pub more : st.ids ≤ st'.ids
    pub kept : (id : ℕ) → IsOld st id → at_key id st'.staged ≡ at_key id st.staged

  pub record IsStaged (bytes : List ℕ) (st : Staging) (id : ℕ) (st' : Staging) : Type 0 where
    pub grown : IsGrown st st'
    pub there : at_key id st'.staged ≡ some bytes
    pub old : IsOld st' id

  pub IsOld-grown : (st st' : Staging) (id : ℕ) → IsGrown st st' → IsOld st id → IsOld st' id
  IsOld-grown st st' id g old n le = old n (omega (arith, g.more, le))

  pub IsGrown-trans : (a b c : Staging) → IsGrown a b → IsGrown b c → IsGrown a c
  IsGrown-trans a b c g h = record {
    more = omega (arith, g.more, h.more);
    kept = λ id old. h.kept id (IsOld-grown a b id g old) ∙ g.kept id old;
  }

  pub IsGrown-refl : (a : Staging) → IsGrown a a
  IsGrown-refl a = record { more = omega arith; kept = λ id old. refl }

  abbrev pub After : List ℕ → Staging → Attempt → Type 0
  After bytes st (done id st') = IsStaged bytes st id st'
  After bytes st (failed st') = IsGrown st st'

  pub stage_data-After :
      (bytes : List ℕ) (st : Staging)
      → After bytes st (stage_data new_id stages block_size bytes st)
  stage_data-After bytes st = elim (Bool-cases (stages st.calls)) [
    | inl succeeds ↦ rw succeeds (record {
      grown = record {
        more = omega arith;
        kept = λ id old. let fresh = old st.ids (omega arith) in ground (arith, fresh);
      };
      there = ground arith;
      old = λ n le e. let same_n = apart n st.ids e in omega (arith, same_n, le);
    })
    | inr fails ↦ rw fails (record { more = omega arith; kept = λ id old. refl })
  ]

  After-grown :
      (bytes : List ℕ) (st st' : Staging)
      → IsGrown st st'
      → (a : Attempt) → After bytes st' a
      → After bytes st a
  After-grown bytes st st' g (done id st2) h = record {
    grown = IsGrown-trans st st' st2 g h.grown;
    there = h.there;
    old = h.old;
  }
  After-grown bytes st st' g (failed st2) h = IsGrown-trans st st' st2 g h

  pub stage_zero_block-After :
      (tries : ℕ) (st : Staging)
      → After (replicate block_size 0) st (stage_zero_block new_id stages block_size tries st)
  unfolding stage_zero_block
  stage_zero_block-After zero st = IsGrown-refl st
  stage_zero_block-After (suc tries) st =
      let zeros : List ℕ = replicate block_size 0 in
      let first = stage_data-After zeros st in
      elim (Attempt-cases (stage_data new_id stages block_size zeros st)) [
        | inl (id, st', e) ↦ rw (stage_zero_block, e) (subst (After zeros st) e first)
        | inr (st', e) ↦
            let grown : IsGrown st st' = subst (After zeros st) e first in
            rw (stage_zero_block, e)
              (After-grown zeros st st' grown (stage_zero_block new_id stages block_size tries st')
                (stage_zero_block-After tries st'))
      ]

  -- The zero block's ID, where it is staged.
  abbrev pub IsZero : Option ℕ → Staging → Type 0
  IsZero none st = Unit
  IsZero (some id) st = (at_key id st.staged ≡ some (replicate block_size 0)) × IsOld st id

  pub IsZero-grown : (z : Option ℕ) (st st' : Staging) → IsGrown st st' → IsZero z st → IsZero z st'
  IsZero-grown none st st' g h = tt
  IsZero-grown (some id) st st' g h = (g.kept id h.1 ∙ h.0, IsOld-grown st st' id g h.1)

  -- The zero IDs of a gap, with what they need.
  pub record IsGapped (gap : ℕ) (st : Staging) (z : Option ℕ) (st' : Staging) : Type 0 where
    pub grown : IsGrown st st'
    pub zeroed : IsZero z st'
    pub there : (gap ≡ 0) ⊎ ((id : ℕ) × (z ≡ some id))

  abbrev pub Gapped : ℕ → Staging → Option (Option ℕ × Staging) → Type 0
  Gapped gap st none = Unit
  Gapped gap st (some (z, st')) = IsGapped gap st z st'

  pub zero_block_id-Gapped :
      (gap : ℕ) (z : Option ℕ) (st : Staging)
      → IsZero z st
      → Gapped gap st (zero_block_id new_id stages block_size gap z st)
  unfolding zero_block_id
  zero_block_id-Gapped zero z st h = record {
    grown = IsGrown-refl st;
    zeroed = h;
    there = inl refl;
  }
  zero_block_id-Gapped (suc gap) (some id) st h = record {
    grown = IsGrown-refl st;
    zeroed = h;
    there = inr (id, refl);
  }
  zero_block_id-Gapped (suc gap) none st h =
      let zeros : List ℕ = replicate block_size 0 in
      let after = stage_zero_block-After max_fail_cnt st in
      elim (Attempt-cases (stage_zero_block new_id stages block_size max_fail_cnt st)) [
        | inl (id, st', e) ↦
            let s : IsStaged zeros st id st' = subst (After zeros st) e after in
            rw (zero_block_id, e)
              (record { grown = s.grown; zeroed = (s.there, s.old); there = inr (id, refl) })
        | inr (st', e) ↦ rw (zero_block_id, e) tt
      ]
