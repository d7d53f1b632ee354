-- ===== src/SizeTracker/Journal.antt =====
-- component/size_tracker/journal.go: `MountSize`, the tracked size of one mount and its journal.
-- A call of `sync` is told what the operating system does to it (`Io`), the time that it writes, and
-- the sum of the `Add` calls of other goroutines between its first and its last use of the delta.
use cloudfuse.Base.{
  ℕ, suc, ◌-◌, Bool, true, false, Option, none, some, List, ltb, ◌==◌, if◌then◌else◌, add64,
}
use cloudfuse.Base.Int.{ℤ, pos, negsuc}
use cloudfuse.Base.Int64.{add_i64, sub_i64}
use cloudfuse.SizeTracker.JournalText.{Entry, read_journal, write_journal}

pub record MountSize : Type 0 where
  pub size : ℕ
  pub pending_delta : ℤ
  pub epoch : ℕ

-- The base size with the delta applied, bottoming out at zero, in uint64.
unfoldable pub apply_delta : ℕ → ℤ → ℕ
apply_delta base (pos d) = add64 base d
apply_delta base (negsuc d) = if ltb base (suc d) then 0 else base - suc d

unfoldable pub get_size : MountSize → ℕ
unfolding apply_delta
get_size ms = apply_delta ms.size ms.pending_delta

unfoldable pub add : ℤ → MountSize → MountSize
add delta ms = record ms { pending_delta = add_i64 ms.pending_delta delta }

unfoldable pub increment_epoch : MountSize → MountSize
increment_epoch ms = record ms { epoch = add64 ms.epoch 1 }

-- All calls succeed; or one fails before the file is read; or a write fails, and leaves these bytes.
pub data Io : Type 0 where
  succeeds : Io
  fails_early : Io
  fails_late : List ℕ → Io

-- Which size to use as the base, and what becomes of the mount and of its delta.
pub record Chosen : Type 0 where
  pub mount : MountSize
  pub base_size : ℕ
  pub delta : ℤ

unfoldable pub choose_base : MountSize → Entry → Chosen
choose_base ms file =
    if ltb ms.epoch file.epoch
    then record {
      mount = record ms {
        size = file.size;
        pending_delta = sub_i64 ms.pending_delta ms.pending_delta;
        epoch = file.epoch;
      };
      base_size = file.size;
      delta = pos 0;
    }
    else if ltb file.epoch ms.epoch
    then record { mount = ms; base_size = ms.size; delta = ms.pending_delta }
    else record {
      mount = record ms { size = file.size };
      base_size = file.size;
      delta = ms.pending_delta;
    }

-- `ms.epoch.CompareAndSwap(0, 1)`
unfoldable pub nonzero_epoch : MountSize → MountSize
nonzero_epoch ms = record ms { epoch = if ms.epoch == 0 then 1 else ms.epoch }

pub record Synced : Type 0 where
  pub mount : MountSize
  pub file : List ℕ
  pub failed : Bool

unfoldable pub sync : Io → List ℕ → ℤ → MountSize → List ℕ → Synced
unfolding choose_base nonzero_epoch
sync io stamp arrived ms file =
    let b = choose_base ms (read_journal ms.epoch file) in
    let ready = nonzero_epoch b.mount in
    let updated = apply_delta b.base_size b.delta in
    let others = add_i64 ready.pending_delta arrived in
    elim io [
      | fails_early ↦ record { mount = add arrived ms; file = file; failed = true }
      | fails_late left ↦ record {
        mount = record ready { pending_delta = others };
        file = left;
        failed = true;
      }
      | succeeds ↦ record {
        mount = record ready { size = updated; pending_delta = sub_i64 others b.delta };
        file = write_journal (record { epoch = ready.epoch; size = updated }) stamp;
        failed = false;
      }
    ]

-- `CreateSizeJournal`: a new mount reads the journal, and adopts its epoch.
unfoldable pub create_size_journal : Io → List ℕ → List ℕ → Option (MountSize × List ℕ)
create_size_journal io stamp file =
    let s = sync io stamp (pos 0) (record { size = 0; pending_delta = pos 0; epoch = 0 }) file in
    if s.failed then none else some (s.mount, s.file)
