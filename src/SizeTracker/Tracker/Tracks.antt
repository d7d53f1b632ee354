-- ===== src/SizeTracker/Tracker/Tracks.antt =====
-- Every call keeps the tracked size equal to the bytes that the storage holds.
use cloudfuse.Base.{ℕ, ◌+◌, ◌^◌, ◌<◌, ◌≡◌, ◌≢◌, ap, some, length, max, arith}
use cloudfuse.Base.Int.{pos, pos_part, neg_part, ◌+ℤ◌, ◌-ℤ◌, int_laws}
use cloudfuse.Base.Int64.{IsInt64, add_i64_exact}
use cloudfuse.SizeTracker.Journal.{add, get_size, apply_delta}
use cloudfuse.SizeTracker.Tracker.{
  SizeTracker, grow, size_or_zero, create_file_tracked, delete_file_tracked, rename_file_tracked,
  rename_dir_tracked, write_file_tracked, truncate_file_tracked, copy_from_file_tracked,
  commit_data_tracked, create_link_tracked, Call, after, create_file, delete_file, commit_data,
  rename_file, rename_dir, write_file, truncate_file, copy_from_file, create_link,
}
use cloudfuse.SizeTracker.Tracker.Interface.{NextComponent, IsStorage}

-- `total` bytes are stored, and that is what the mount size and its pending delta say.
pub record IsTracked (total : ℕ) (st : SizeTracker) : Type 0 where
  pub exact : pos total ≡ pos st.mount_size.size +ℤ st.mount_size.pending_delta
  pub size_fits : st.mount_size.size < 2 ^ 63

pub get_size-IsTracked :
    (total : ℕ) (st : SizeTracker)
    → IsTracked total st
    → total < 2 ^ 63
    → get_size st.mount_size ≡ total
unfolding get_size apply_delta ◌+ℤ◌
get_size-IsTracked total st h small = ground arith

sub_range : (a b : ℕ) → a < 2 ^ 63 → b < 2 ^ 63 → IsInt64 (pos a -ℤ pos b)
sub_range a b ha hb = unfold ◌-ℤ◌ in ground arith

grow-IsTracked :
    (total total' old new : ℕ) (st : SizeTracker)
    → IsTracked total st
    → total' + old ≡ total + new
    → total' < 2 ^ 63
    → IsTracked total' (grow old new st)
unfolding add
grow-IsTracked total total' old new st h e small =
    let p = st.mount_size.pending_delta in
    let sum : p +ℤ (pos new -ℤ pos old) ≡ pos total' -ℤ pos st.mount_size.size =
      omega (int_laws, ap pos_part h.exact, ap neg_part h.exact) in
    let range : IsInt64 (p +ℤ (pos new -ℤ pos old)) =
      rw sum (sub_range total' st.mount_size.size small h.size_fits) in
    record {
      exact = rw (add_i64_exact p (pos new -ℤ pos old) range, sum) (omega int_laws);
      size_fits = h.size_fits;
    }

module _ (next : NextComponent) (laws : IsStorage next) where
  open next use {State, get_attr}
  open laws use {total, size_of, get_attr_answers, get_attr_total, get_attr_sizes}

  -- What the caller must see to: a rename has two names, and `Stat` tells the size of a local file.
  abbrev pub IsFair : Call → Type 0
  IsFair (rename_file src dst) = src ≢ dst
  IsFair (copy_from_file n file) = file.stat ≡ some (length file.content)
  IsFair (create_file n) = Unit
  IsFair (delete_file n) = Unit
  IsFair (commit_data n) = Unit
  IsFair (rename_dir n m) = Unit
  IsFair (write_file n o b) = Unit
  IsFair (truncate_file n k) = Unit
  IsFair (create_link n t) = Unit

  -- A call keeps the tracked size equal to the stored total, whatever the call returns.
  pub call_keeps_track :
      (c : Call) (st : SizeTracker) (s : State)
      → IsFair c
      → IsTracked (total s) st
      → total (after next c st s).1 < 2 ^ 63
      → IsTracked (total (after next c st s).1) (after next c st s).0
  unfolding after create_file_tracked delete_file_tracked commit_data_tracked rename_file_tracked
      write_file_tracked truncate_file_tracked copy_from_file_tracked create_link_tracked
      rename_dir_tracked
  call_keeps_track (rename_dir src dst) st s fair h small =
      let same = laws.moves src dst s in ground (arith, same, h)
  call_keeps_track (create_file n) st s fair h small =
      let answer = get_attr_answers n s in
      let still = get_attr_total n s in
      let size = get_attr_sizes n n s in
      let effect = laws.creates n (get_attr n s).1 in
      let hold =
        grow-IsTracked (total s) (total (after next (create_file n) st s).1)
          (size_or_zero (get_attr n s).0) (0) st h in
      ground (arith, answer, still, size, effect, hold, h)
  call_keeps_track (delete_file n) st s fair h small =
      let answer = get_attr_answers n s in
      let still = get_attr_total n s in
      let size = get_attr_sizes n n s in
      let effect = laws.deletes n (get_attr n s).1 in
      let hold =
        grow-IsTracked (total s) (total (after next (delete_file n) st s).1)
          (size_or_zero (get_attr n s).0) (0) st h in
      ground (arith, answer, still, size, effect, hold, h)
  call_keeps_track (commit_data n) st s fair h small =
      let answer = get_attr_answers n s in
      let still = get_attr_total n s in
      let size = get_attr_sizes n n s in
      let effect = laws.commits n (get_attr n s).1 in
      let committed = (next.commit_data n (get_attr n s).1).1 in
      let answer' = get_attr_answers n committed in
      let still' = get_attr_total n committed in
      let hold =
        grow-IsTracked (total s) (total (after next (commit_data n) st s).1)
          (size_or_zero (get_attr n s).0) (size_or_zero (get_attr n committed).0) st h in
      ground (arith, answer, still, size, effect, answer', still', hold, h)
  call_keeps_track (rename_file src dst) st s fair h small =
      let answer = get_attr_answers dst s in
      let still = get_attr_total dst s in
      let size = get_attr_sizes dst dst s in
      let effect = laws.renames src dst (get_attr dst s).1 fair in
      let hold =
        grow-IsTracked (total s) (total (after next (rename_file src dst) st s).1)
          (size_or_zero (get_attr dst s).0) (0) st h in
      ground (arith, answer, still, size, effect, hold, h)
  call_keeps_track (write_file n o b) st s fair h small =
      let answer = get_attr_answers n s in
      let still = get_attr_total n s in
      let size = get_attr_sizes n n s in
      let effect = laws.writes n o b (get_attr n s).1 in
      let hold =
        grow-IsTracked (total s) (total (after next (write_file n o b) st s).1)
          (size_or_zero (get_attr n s).0) (max (size_or_zero (get_attr n s).0) (o + length b)) st
          h in
      ground (arith, answer, still, size, effect, hold, h)
  call_keeps_track (truncate_file n k) st s fair h small =
      let answer = get_attr_answers n s in
      let still = get_attr_total n s in
      let size = get_attr_sizes n n s in
      let effect = laws.truncates n k (get_attr n s).1 in
      let hold =
        grow-IsTracked (total s) (total (after next (truncate_file n k) st s).1)
          (size_or_zero (get_attr n s).0) (k) st h in
      ground (arith, answer, still, size, effect, hold, h)
  call_keeps_track (copy_from_file n f) st s fair h small =
      let answer = get_attr_answers n s in
      let still = get_attr_total n s in
      let size = get_attr_sizes n n s in
      let effect = laws.copies n f (get_attr n s).1 in
      let hold =
        grow-IsTracked (total s) (total (after next (copy_from_file n f) st s).1)
          (size_or_zero (get_attr n s).0) (length f.content) st h in
      ground (arith, answer, still, size, effect, fair, hold, h)
  call_keeps_track (create_link n t) st s fair h small =
      let answer = get_attr_answers n s in
      let still = get_attr_total n s in
      let size = get_attr_sizes n n s in
      let effect = laws.links n t (get_attr n s).1 in
      let hold =
        grow-IsTracked (total s) (total (after next (create_link n t) st s).1)
          (size_or_zero (get_attr n s).0) (length t) st h in
      ground (arith, answer, still, size, effect, hold, h)

  -- A mount's life: fair calls, one after the other, each leaving less than 2^63 bytes stored.
  pub data Runs (st0 : SizeTracker) (s0 : State) : SizeTracker → State → Type 0 where
    started : Runs st0 s0 st0 s0
    called :
        {st : SizeTracker} {s : State}
        → Runs st0 s0 st s
        → (c : Call) → IsFair c
        → total (after next c st s).1 < 2 ^ 63
        → Runs st0 s0 (after next c st s).0 (after next c st s).1

  pub Runs-IsTracked :
      {st0 : SizeTracker} {s0 : State} {st : SizeTracker} {s : State}
      → IsTracked (total s0) st0
      → total s0 < 2 ^ 63
      → Runs st0 s0 st s
      → IsTracked (total s) st × (total s < 2 ^ 63)
  Runs-IsTracked h small started = (h, small)
  Runs-IsTracked h small (called {st} {s} r c fair small') =
      (call_keeps_track c st s fair (Runs-IsTracked h small r).0 small', small')

  -- Let the laws hold of the storage, and let a mount start with a tracked size that is the stored
  -- total, of less than 2^63 bytes. After any fair calls that leave less than 2^63 bytes stored, and
  -- that succeed or fail in any way, the tracked size is again the number of bytes stored.
  pub get_size-Runs :
      {st0 : SizeTracker} {s0 : State} {st : SizeTracker} {s : State}
      → IsTracked (total s0) st0
      → total s0 < 2 ^ 63
      → Runs st0 s0 st s
      → get_size st.mount_size ≡ total s
  get_size-Runs {st = st} {s = s} h small r =
      let (tracked, fits) = Runs-IsTracked h small r in get_size-IsTracked (total s) st tracked fits
