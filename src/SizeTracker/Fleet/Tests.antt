-- ===== src/SizeTracker/Fleet/Tests.antt =====
-- Two mounts of epoch 1 that share a journal, and a mount that finds a newer or an older journal.
use cloudfuse.Base.{ℕ, ◌≡◌, refl, ap, List, [], ◌∷◌, some, arith}
use cloudfuse.Base.Int.{pos, negsuc, ◌+ℤ◌}
use cloudfuse.Base.Int64.{add_i64}
use cloudfuse.SizeTracker.Decimal.{print_uint, parse_uint64, parse-print}
use cloudfuse.SizeTracker.JournalText.{Entry, read_journal, write_journal}
use cloudfuse.SizeTracker.JournalText.RoundTrip.{read-write}
use cloudfuse.SizeTracker.Journal.{MountSize, succeeds, get_size, add, sync}
use cloudfuse.SizeTracker.Fleet.{Fleet, Reach, here, next, adds, syncs, tally}
use cloudfuse.SizeTracker.Fleet.Conserve.{no_add_lost}
use cloudfuse.SizeTracker.Epochs.{sync_adopts, sync_overrides}

abbrev entry : ℕ → ℕ → Entry
entry size epoch = record { size = size; epoch = epoch }

abbrev idle : MountSize
idle = record { size = 5; pending_delta = pos 0; epoch = 1 }

-- The journal says 5 bytes, and its time is a single digit.
abbrev journal : List ℕ
journal = write_journal (entry 5 1) (b'7' ∷ [])

reads : (my_epoch : ℕ) → read_journal my_epoch journal ≡ entry 5 1
reads my_epoch =
    read-write (entry 5 1) (b'7' ∷ []) (omega arith, tt) (omega arith) (omega arith) my_epoch

read-write_example : read_journal 0 journal ≡ entry 5 1
read-write_example =
    read-write (entry 5 1) (b'7' ∷ []) (omega arith, tt) (omega arith) (omega arith) 0

parse-print_test : parse_uint64 (print_uint 1048576) ≡ some 1048576
parse-print_test = parse-print 1048576 (omega arith)

abbrev two_mounts : Fleet
two_mounts = record { mounts = idle ∷ idle ∷ []; file = journal; added = pos 0 }

abbrev added : Fleet
added = record { mounts = add (pos 9) idle ∷ idle ∷ []; file = journal; added = pos 0 +ℤ pos 9 }

abbrev synced : Fleet
synced = record {
  mounts = (sync succeeds (b'8' ∷ []) (negsuc 1) (add (pos 9) idle) journal).mount ∷ idle ∷ [];
  file = (sync succeeds (b'8' ∷ []) (negsuc 1) (add (pos 9) idle) journal).file;
  added = pos 0 +ℤ pos 9 +ℤ negsuc 1;
}

life : Reach 1 two_mounts synced
unfolding add add_i64 ◌+ℤ◌
life =
    let agrees = reads 1 in
    next (next here (adds [] (idle ∷ []) idle (pos 9) refl (omega arith) refl)) (
      syncs [] (idle ∷ []) (add (pos 9) idle) (negsuc 1) (b'8' ∷ []) refl (omega arith)
        (omega arith) (ground arith) (ground (arith, agrees)) (omega arith, tt) refl)

no_add_lost_example : tally 1 synced +ℤ pos 0 ≡ tally 1 two_mounts +ℤ synced.added
no_add_lost_example =
    no_add_lost 1 {s = two_mounts} {t = synced} (omega arith) (omega arith)
      (record {
        mounts_agree = (refl, (refl, tt));
        file_agrees = ap (λ (e : Entry). e.epoch) (reads 1);
      })
      life

abbrev late : MountSize
late = record { size = 40; pending_delta = negsuc 2; epoch = 0 }

sync_adopts_example :
    ((sync succeeds (b'8' ∷ []) (pos 6) late journal).mount ≡ record {
      size = (read_journal 0 journal).size;
      pending_delta = pos 6;
      epoch = (read_journal 0 journal).epoch;
    })
    × (read_journal
          (read_journal 0 journal).epoch
          (sync succeeds (b'8' ∷ []) (pos 6) late journal).file
        ≡ read_journal 0 journal)
sync_adopts_example =
    let found = reads 0 in
    sync_adopts late (pos 6) (b'8' ∷ []) journal (rw found (omega arith)) (rw found (omega arith))
      (rw found (omega arith)) (omega arith) (omega arith) (omega arith, tt)

abbrev ahead : MountSize
ahead = record { size = 40; pending_delta = negsuc 2; epoch = 3 }

sync_overrides_example :
    (get_size (sync succeeds (b'8' ∷ []) (pos 0) ahead journal).mount ≡ get_size ahead)
    × (read_journal 3 (sync succeeds (b'8' ∷ []) (pos 0) ahead journal).file
        ≡ entry (get_size ahead) 3)
sync_overrides_example =
    let found = reads 3 in
    sync_overrides ahead (b'8' ∷ []) journal (rw found (omega arith)) (omega arith) (omega arith)
      (omega arith) (omega arith, tt)
