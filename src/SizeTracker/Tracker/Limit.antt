-- ===== src/SizeTracker/Tracker/Limit.antt =====
-- The hard limit on the tracked size, and the thresholds of the eviction mode.
use Prim.Native.String.{String}
use cloudfuse.Base.{
  ℕ, ◌+◌, ◌*◌, ◌^◌, ◌≤◌, ◌<◌, ◌≡◌, ◌≢◌, ◌↔◌, ◌⊎◌, none, List, [], ◌∷◌, All, length, max, true,
  arith,
}
use cloudfuse.Base.Int.{pos, ◌-ℤ◌}
use cloudfuse.SizeTracker.Journal.{get_size}
use cloudfuse.SizeTracker.Tracker.{
  SizeTracker, normal, check_capacity_delta, size_or_zero, update_state, write_file_tracked, after,
  write_file,
}
use cloudfuse.SizeTracker.Tracker.Interface.{NextComponent, IsStorage}
use cloudfuse.SizeTracker.Tracker.Tracks.{IsTracked, get_size-IsTracked}

-- With the limit on, and a capacity known, a change of `old` bytes to `new` bytes is let through
-- exactly if it adds nothing, or the capacity holds the tracked size with the bytes added.
pub check_capacity_delta-none :
    (old new : ℕ) (st : SizeTracker)
    → st.hard_limit_enabled ≡ true
    → 0 < st.total_bucket_capacity
    → check_capacity_delta (pos new -ℤ pos old) st ≡ none
      ↔ ((new ≤ old) ⊎ (get_size st.mount_size + new ≤ st.total_bucket_capacity + old))
unfolding check_capacity_delta ◌-ℤ◌
check_capacity_delta-none old new st on known = ground arith

module _ (next : NextComponent) (laws : IsStorage next) where
  open next use {State, get_attr}
  open laws use {total, size_of, get_attr_answers, get_attr_total, get_attr_sizes}

  -- Let the laws hold of the storage, the tracked size be the stored total of less than 2^63 bytes,
  -- the hard limit be on and the capacity known. No write that succeeds or fails leaves more stored
  -- than the capacity, unless more was stored before: then it leaves no more than that.
  pub write_file_within_limit :
      (n : String) (offset : ℕ) (bytes : List ℕ) (st : SizeTracker) (s : State)
      → IsTracked (total s) st
      → total s < 2 ^ 63
      → st.hard_limit_enabled ≡ true
      → 0 < st.total_bucket_capacity
      → total (after next (write_file n offset bytes) st s).1
        ≤ max (total s) st.total_bucket_capacity
  unfolding after write_file_tracked
  write_file_within_limit n offset bytes st s h small on known =
      let answer = get_attr_answers n s in
      let still = get_attr_total n s in
      let size = get_attr_sizes n n s in
      let effect = laws.writes n offset bytes (get_attr n s).1 in
      let tracked = get_size-IsTracked (total s) st h small in
      let old = size_or_zero (get_attr n s).0 in
      let gate = check_capacity_delta-none old (max old (offset + length bytes)) st on known in
      ground (arith, answer, still, size, effect, tracked, gate)

-- The eviction mode after a row of looks at the usage.
abbrev pub looks : List ℕ → ℕ → SizeTracker → SizeTracker
looks [] capacity st = st
looks (used ∷ rest) capacity st = looks rest capacity (update_state used capacity st)

update_state-normal :
    (used capacity : ℕ) (st : SizeTracker)
    → st.eviction_mode ≢ normal
    → 88 * capacity ≤ 100 * used
    → (update_state used capacity st).eviction_mode ≢ normal
unfolding update_state
update_state-normal used capacity st h high = ground (arith, h)

-- A mount that evicts goes on evicting for as long as at least 88 % of the capacity is in use at
-- every look, however often the usage crosses the other thresholds.
pub looks-normal :
    (uses : List ℕ) (capacity : ℕ) (st : SizeTracker)
    → st.eviction_mode ≢ normal
    → All (λ used. 88 * capacity ≤ 100 * used) uses
    → (looks uses capacity st).eviction_mode ≢ normal
looks-normal [] capacity st h high = h
looks-normal (used ∷ uses) capacity st h high =
    looks-normal uses capacity (update_state used capacity st)
      (update_state-normal used capacity st h high.0) high.1
