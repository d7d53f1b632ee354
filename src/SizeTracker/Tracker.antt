-- ===== src/SizeTracker/Tracker.antt =====
-- component/size_tracker/size_tracker.go: the component that keeps the size of the mount up to date.
-- The next component of the pipeline is a parameter. Sizes and offsets are the nonnegative values of
-- Go's int64; differences of them are integers.
pub mod Interface
pub mod Tracks
pub mod Limit
mod Tests
use Prim.Native.String.{String}
use cloudfuse.Base.{
  ℕ, ◌+◌, ◌-◌, ◌≤◌, ◌*◌, Bool, true, false, not, ◌||◌, Option, none, some, List, ltb, leb, ◌==◌,
  max, if◌then◌else◌, length,
}
use cloudfuse.Base.Int.{ℤ, pos, negsuc, pos_part, ◌-ℤ◌}
use cloudfuse.SizeTracker.Journal.{MountSize, add, get_size}
use Interface.{Error, enospc, Answer, ok, err, LocalFile, NextComponent, size_or}

pub data EvictionMode : Type 0 where
  normal overuse emergency : EvictionMode

pub record SizeTracker : Type 0 where
  pub mount_size : MountSize
  pub total_bucket_capacity : ℕ
  pub server_count : ℕ
  pub eviction_mode : EvictionMode
  pub hard_limit_enabled : Bool

-- `st.mountSize.Add(newSize - oldSize)`
abbrev pub grow : ℕ → ℕ → SizeTracker → SizeTracker
grow old new st = record st { mount_size = add (pos new -ℤ pos old) st.mount_size }

-- `delta <= 0`, and otherwise the delta as a uint64
unfoldable pub check_capacity_delta : ℤ → SizeTracker → Option Error
check_capacity_delta delta st =
    if not st.hard_limit_enabled || (st.total_bucket_capacity == 0 || leb (pos_part delta) 0)
    then none
    else if leb st.total_bucket_capacity (get_size st.mount_size)
    then some enospc
    else if ltb (st.total_bucket_capacity - get_size st.mount_size) (pos_part delta)
    then some enospc
    else none

abbrev pub size_or_zero : Answer ℕ → ℕ
size_or_zero (ok size) = size
size_or_zero (err e) = 0

-- `bucketUsageFactor` as the fraction used / capacity, against the thresholds in percent.
unfoldable pub update_state : ℕ → ℕ → SizeTracker → SizeTracker
update_state used capacity st = elim st.eviction_mode [
  | normal ↦ if ltb (92 * capacity) (100 * used) then record st { eviction_mode = overuse } else st
  | overuse ↦
      if ltb (100 * used) (88 * capacity)
      then record st { eviction_mode = normal }
      else if ltb (97 * capacity) (100 * used)
      then record st { eviction_mode = emergency; server_count = st.server_count + 1 }
      else st
  | emergency ↦
      if ltb (100 * used) (88 * capacity) then record st { eviction_mode = normal } else st
]

module _ (next : NextComponent) where
  open next use {
    State, get_attr, create_file, delete_file, rename_file, write_file, truncate_file,
    copy_from_file, commit_data, create_link, rename_dir,
  }

  -- What a call returns, the tracker afterwards, and the next component afterwards.
  abbrev pub Done : Type 0 → Type 0
  Done A = A × SizeTracker × State

  -- `GetAttr` before the call; if both succeed, the file that was there is gone.
  pub create_file_tracked : String → SizeTracker → State → Done (Option Error)
  create_file_tracked name st s =
      let (attr, s1) = get_attr name s in
      let (failed, s2) = create_file name s1 in
      elim failed [
        | some e ↦ (some e, st, s2)
        | none ↦ elim attr [ ok size ↦ (none, grow size 0 st, s2) | err e ↦ (none, st, s2) ]
      ]

  pub delete_file_tracked : String → SizeTracker → State → Done (Option Error)
  delete_file_tracked name st s =
      let (attr, s1) = get_attr name s in
      let (failed, s2) = delete_file name s1 in
      elim failed [
        | some e ↦ (some e, st, s2)
        | none ↦ elim attr [ ok size ↦ (none, grow size 0 st, s2) | err e ↦ (none, st, s2) ]
      ]

  pub rename_file_tracked : String → String → SizeTracker → State → Done (Option Error)
  rename_file_tracked src dst st s =
      let (attr, s1) = get_attr dst s in
      let (failed, s2) = rename_file src dst s1 in
      elim failed [
        | some e ↦ (some e, st, s2)
        | none ↦ elim attr [ ok size ↦ (none, grow size 0 st, s2) | err e ↦ (none, st, s2) ]
      ]

  pub rename_dir_tracked : String → String → SizeTracker → State → Done (Option Error)
  rename_dir_tracked src dst st s = let (failed, s1) = rename_dir src dst s in (failed, st, s1)

  pub write_file_tracked : String → ℕ → List ℕ → SizeTracker → State → Done (Answer ℕ)
  write_file_tracked name offset bytes st s =
      let (attr, s1) = get_attr name s in
      let old_size = size_or_zero attr in
      let new_size = max old_size (offset + length bytes) in
      elim (check_capacity_delta (pos new_size -ℤ pos old_size) st) [
        | some e ↦ (err e, st, s1)
        | none ↦
            let (answer, s2) = write_file name offset bytes s1 in
            elim answer [
              | err e ↦ (err e, st, s2)
              | ok written ↦ (ok written, grow old_size new_size st, s2)
            ]
      ]

  pub truncate_file_tracked : String → ℕ → SizeTracker → State → Done (Option Error)
  truncate_file_tracked name new_size st s =
      let (attr, s1) = get_attr name s in
      let orig_size = size_or_zero attr in
      elim (check_capacity_delta (pos new_size -ℤ pos orig_size) st) [
        | some e ↦ (some e, st, s1)
        | none ↦
            let (failed, s2) = truncate_file name new_size s1 in
            elim failed [
              | some e ↦ (some e, st, s2)
              | none ↦ (none, grow orig_size new_size st, s2)
            ]
      ]

  -- The size of the local file is known only if `Stat` succeeds.
  pub copy_from_file_tracked : String → LocalFile → SizeTracker → State → Done (Option Error)
  copy_from_file_tracked name file st s =
      let (attr, s1) = get_attr name s in
      let orig_size = size_or_zero attr in
      let refused : Option Error = elim file.stat [
        | none ↦ none
        | some size ↦ check_capacity_delta (pos size -ℤ pos orig_size) st
      ] in
      elim refused [
        | some e ↦ (some e, st, s1)
        | none ↦
            let (failed, s2) = copy_from_file name file s1 in
            elim failed [
              | some e ↦ (some e, st, s2)
              | none ↦ elim file.stat [
                | none ↦ (none, st, s2)
                | some size ↦ (none, grow orig_size size st, s2)
              ]
            ]
      ]

  pub commit_data_tracked : String → SizeTracker → State → Done (Option Error)
  commit_data_tracked name st s =
      let (attr, s1) = get_attr name s in
      let (failed, s2) = commit_data name s1 in
      elim failed [
        | some e ↦ (some e, st, s2)
        | none ↦
            let (attr', s3) = get_attr name s2 in
            (none, grow (size_or_zero attr) (size_or_zero attr') st, s3)
      ]

  pub create_link_tracked : String → List ℕ → SizeTracker → State → Done (Option Error)
  create_link_tracked name target st s =
      let (attr, s1) = get_attr name s in
      let (failed, s2) = create_link name target s1 in
      elim failed [
        | some e ↦ (some e, st, s2)
        | none ↦ (none, grow (size_or_zero attr) (length target) st, s2)
      ]

-- The calls of the component that change the tracked size, and `RenameDir`.
pub data Call : Type 0 where
  create_file delete_file commit_data : String → Call
  rename_file rename_dir : String → String → Call
  write_file : String → ℕ → List ℕ → Call
  truncate_file : String → ℕ → Call
  copy_from_file : String → LocalFile → Call
  create_link : String → List ℕ → Call

module _ (next : NextComponent) where
  open next use {State}

  -- The tracker and the next component after a call, whatever it returns.
  pub after : Call → SizeTracker → State → SizeTracker × State
  unfolding create_file_tracked delete_file_tracked rename_file_tracked rename_dir_tracked
      write_file_tracked truncate_file_tracked copy_from_file_tracked commit_data_tracked
      create_link_tracked
  after (create_file n) st s = let (e, st', s') = create_file_tracked next n st s in (st', s')
  after (delete_file n) st s = let (e, st', s') = delete_file_tracked next n st s in (st', s')
  after (commit_data n) st s = let (e, st', s') = commit_data_tracked next n st s in (st', s')
  after (rename_file n m) st s = let (e, st', s') = rename_file_tracked next n m st s in (st', s')
  after (rename_dir n m) st s = let (e, st', s') = rename_dir_tracked next n m st s in (st', s')
  after (write_file n o b) st s = let (e, st', s') = write_file_tracked next n o b st s in (st', s')
  after (truncate_file n k) st s =
      let (e, st', s') = truncate_file_tracked next n k st s in (st', s')
  after (copy_from_file n f) st s =
      let (e, st', s') = copy_from_file_tracked next n f st s in (st', s')
  after (create_link n t) st s = let (e, st', s') = create_link_tracked next n t st s in (st', s')
