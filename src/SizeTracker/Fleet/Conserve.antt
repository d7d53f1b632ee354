-- ===== src/SizeTracker/Fleet/Conserve.antt =====
-- Each step of a fleet moves the tally of file and pending deltas by what it adds.
use cloudfuse.Base.{
  ℕ, ◌+◌, ◌≤◌, ◌<◌, ◌≡◌, refl, ap, ◌∙◌, inl, inr, false, List, [], ◌∷◌, ◌++◌, All, u64_mod, arith,
}
use cloudfuse.Base.Int.{ℤ, pos, negsuc, pos_part, neg_part, ◌+ℤ◌, ◌-ℤ◌, int_laws}
use cloudfuse.Base.Int64.{IsInt64, add_i64, sub_i64, add_i64_exact, sub_i64_exact}
use cloudfuse.SizeTracker.JournalText.{Entry, read_journal, write_journal}
use cloudfuse.SizeTracker.JournalText.RoundTrip.{read-write}
use cloudfuse.SizeTracker.Journal.{
  MountSize, succeeds, fails_early, fails_late, Synced, apply_delta, add, sync,
}
use cloudfuse.SizeTracker.Fleet.{
  Fleet, pending, file_size, Step, adds, syncs, fails, Reach, here, next, IsInStep, tally,
}

pending-append : (xs ys : List MountSize) → pending (xs ++ ys) ≡ pending xs +ℤ pending ys
pending-append [] ys = omega int_laws
pending-append (m ∷ xs) ys = rw (pending-append xs ys) (omega int_laws)

-- A sync between equal epochs writes the file's size with the delta, and keeps what arrived.
sync_equal :
    (epoch : ℕ) (m : MountSize) (d : ℤ) (stamp file : List ℕ)
    → 0 < epoch
    → m.epoch ≡ epoch
    → (read_journal epoch file).epoch ≡ epoch
    → sync succeeds stamp d m file ≡ record {
      mount = record {
        size = apply_delta (file_size epoch file) m.pending_delta;
        pending_delta = sub_i64 (add_i64 m.pending_delta d) m.pending_delta;
        epoch = epoch;
      };
      file =
          write_journal
            (record { epoch = epoch; size = apply_delta (file_size epoch file) m.pending_delta })
            stamp;
      failed = false;
    }
unfolding sync
sync_equal epoch m d stamp file pos_epoch agree file_agrees =
    ground (arith, ap (λ k. read_journal k file) agree)

ℤ-parts : {a b : ℤ} → a ≡ b → (pos_part a ≡ pos_part b) × (neg_part a ≡ neg_part b)
ℤ-parts e = (ap pos_part e, ap neg_part e)

pub apply_delta-exact :
    (base : ℕ) (delta : ℤ)
    → neg_part delta ≤ base
    → base + pos_part delta < u64_mod
    → pos (apply_delta base delta) ≡ pos base +ℤ delta
unfolding apply_delta ◌+ℤ◌
apply_delta-exact base (pos d) h k = ground arith
apply_delta-exact base (negsuc d) h k = ground arith

pub rest_arrives : (a d : ℤ) → IsInt64 d → IsInt64 (a +ℤ d) → sub_i64 (add_i64 a d) a ≡ d
rest_arrives a d hd h =
    let back : a +ℤ d -ℤ a ≡ d = omega int_laws in
    rw (add_i64_exact a d h) (sub_i64_exact (a +ℤ d) a (rw back hd) ∙ back)

apply_delta-lt :
    (base : ℕ) (delta : ℤ)
    → neg_part delta ≤ base
    → base + pos_part delta < u64_mod
    → apply_delta base delta < u64_mod
unfolding apply_delta
apply_delta-lt base (pos d) h k = ground arith
apply_delta-lt base (negsuc d) h k = ground arith

module _ (epoch : ℕ) (positive : 0 < epoch) (fits : epoch < u64_mod) where
  -- Replacing one mount and the file moves the tally by what the mount and the file change.
  replaced :
      (before after : List MountSize) (m m' : MountSize) (file file' : List ℕ) (d : ℤ)
      → pos (file_size epoch file') +ℤ m'.pending_delta
        ≡ pos (file_size epoch file) +ℤ m.pending_delta +ℤ d
      → pos (file_size epoch file') +ℤ pending (before ++ m' ∷ after)
        ≡ pos (file_size epoch file) +ℤ pending (before ++ m ∷ after) +ℤ d
  replaced before after m m' file file' d e =
      rw (pending-append before (m ∷ after), pending-append before (m' ∷ after))
        (omega (int_laws, ap pos_part e, ap neg_part e))

  agree_replaced :
      (before after : List MountSize) (m m' : MountSize)
      → All (λ m. m.epoch ≡ epoch) (before ++ m ∷ after)
      → m'.epoch ≡ epoch
      → (m.epoch ≡ epoch) × All (λ m. m.epoch ≡ epoch) (before ++ m' ∷ after)
  agree_replaced [] after m m' h e = (h.0, (e, h.1))
  agree_replaced (x ∷ before) after m m' h e =
      let (here_agrees, rest) = agree_replaced before after m m' h.1 e in (here_agrees, (h.0, rest))

  by_replacement :
      (s : Fleet) {t : Fleet} (before after : List MountSize) (m m' : MountSize) (file' : List ℕ)
      (d : ℤ)
      → s.mounts ≡ before ++ m ∷ after
      → t ≡ record { mounts = before ++ m' ∷ after; file = file'; added = s.added +ℤ d }
      → IsInStep epoch s
      → m'.epoch ≡ epoch
      → (read_journal epoch file').epoch ≡ epoch
      → pos (file_size epoch file') +ℤ m'.pending_delta
        ≡ pos (file_size epoch s.file) +ℤ m.pending_delta +ℤ d
      → IsInStep epoch t × (tally epoch t +ℤ s.added ≡ tally epoch s +ℤ t.added)
  by_replacement s before after m m' file' d at r h agree file_agree moved =
      let all_before : All (λ m. m.epoch ≡ epoch) (before ++ m ∷ after) = rw at at h.mounts_agree in
      let sums = replaced before after m m' s.file file' d moved in
      rw r (
        record {
          mounts_agree = (agree_replaced before after m m' all_before agree).1;
          file_agrees = file_agree;
        },
        rw (at, sums) (omega int_laws),
      )

  old_epoch :
      {s : Fleet} (before after : List MountSize) (m : MountSize)
      → s.mounts ≡ before ++ m ∷ after
      → IsInStep epoch s
      → m.epoch ≡ epoch
  old_epoch before after m at h = middle before (rw at at h.mounts_agree)
    where
      middle :
          (xs : List MountSize) → All (λ m. m.epoch ≡ epoch) (xs ++ m ∷ after) → m.epoch ≡ epoch
      middle [] all = all.0
      middle (x ∷ xs) all = middle xs all.1

  early_sync :
      (m : MountSize) (d : ℤ) (stamp file : List ℕ)
      → ((sync fails_early stamp d m file).mount ≡ add d m)
        × ((sync fails_early stamp d m file).file ≡ file)
  unfolding sync
  early_sync m d stamp file = (refl, refl)

  late_mount :
      (m : MountSize) (d : ℤ) (stamp file left : List ℕ)
      → m.epoch ≡ epoch
      → (read_journal epoch file).epoch ≡ epoch
      → ((sync (fails_late left) stamp d m file).mount.epoch ≡ epoch)
        × ((sync (fails_late left) stamp d m file).mount.pending_delta ≡ add_i64 m.pending_delta d)
        × ((sync (fails_late left) stamp d m file).file ≡ left)
  unfolding sync
  late_mount m d stamp file left agree file_agrees =
      let same = ap (λ k. read_journal k file) agree in
      (ground (arith, same), ground (arith, same), refl)

  adds-tally :
      (s : Fleet) (m : MountSize) (d : ℤ)
      → IsInt64 (m.pending_delta +ℤ d)
      → pos (file_size epoch s.file) +ℤ add_i64 m.pending_delta d
        ≡ pos (file_size epoch s.file) +ℤ m.pending_delta +ℤ d
  adds-tally s m d range = rw (add_i64_exact m.pending_delta d range) (omega int_laws)

  -- Each step keeps the mounts in step, and moves the tally by what it adds.
  Step-tally :
      {s t : Fleet}
      → Step epoch s t
      → IsInStep epoch s
      → IsInStep epoch t × (tally epoch t +ℤ s.added ≡ tally epoch s +ℤ t.added)
  unfolding add
  Step-tally {s} (adds before after m d at range r) h =
      by_replacement s before after m (add d m) s.file d at r h (old_epoch before after m at h)
        h.file_agrees (adds-tally s m d range)
  Step-tally {s} (syncs before after m d stamp at small_d range floor room dated r) h =
      let agree = old_epoch before after m at h in
      let e = sync_equal epoch m d stamp s.file positive agree h.file_agrees in
      let size' = apply_delta (file_size epoch s.file) m.pending_delta in
      let entry : Entry = record { epoch = epoch; size = size' } in
      let read : read_journal epoch (sync succeeds stamp d m s.file).file ≡ entry = rw e (
        read-write entry stamp dated
          (apply_delta-lt (file_size epoch s.file) m.pending_delta floor room) fits epoch) in
      let moved : pos size' +ℤ sub_i64 (add_i64 m.pending_delta d) m.pending_delta
          ≡ pos (file_size epoch s.file) +ℤ m.pending_delta +ℤ d =
        rw (
          rest_arrives m.pending_delta d small_d range,
          apply_delta-exact (file_size epoch s.file) m.pending_delta floor room,
        ) in
      by_replacement s before after m (sync succeeds stamp d m s.file).mount
        (sync succeeds stamp d m s.file).file d at r h (ap (λ (x : Synced). x.mount.epoch) e)
        (ap (λ (x : Entry). x.epoch) read)
        (cc (ap (λ (x : Entry). x.size) read, ap (λ (x : Synced). x.mount.pending_delta) e, moved))
  Step-tally {s} (fails before after m d stamp io at (inl early) range r) h =
      let agree = old_epoch before after m at h in
      let (mount_same, file_same) = early_sync m d stamp s.file in
      by_replacement s before after m (sync fails_early stamp d m s.file).mount
        (sync fails_early stamp d m s.file).file d at (rw early at r) h
        (cc (agree, ap (λ (x : MountSize). x.epoch) mount_same))
        (cc (h.file_agrees, ap (read_journal epoch) file_same))
        (cc (
          ap (λ (x : MountSize). x.pending_delta) mount_same,
          ap (file_size epoch) file_same,
          adds-tally s m d range,
        ))
  Step-tally {s} (fails before after m d stamp io at (inr late) range r) h =
      let agree = old_epoch before after m at h in
      let (epoch_kept, delta_kept, file_left) =
        late_mount m d stamp s.file s.file agree h.file_agrees in
      by_replacement s before after m (sync (fails_late s.file) stamp d m s.file).mount
        (sync (fails_late s.file) stamp d m s.file).file d at (rw late at r) h epoch_kept
        (cc (h.file_agrees, ap (read_journal epoch) file_left))
        (cc (delta_kept, ap (file_size epoch) file_left, adds-tally s m d range))

  Reach-tally :
      {s t : Fleet}
      → Reach epoch s t
      → IsInStep epoch s
      → IsInStep epoch t × (tally epoch t +ℤ s.added ≡ tally epoch s +ℤ t.added)
  Reach-tally here h = (h, refl)
  Reach-tally {s} {t} (next {t = mid} run step) h =
      let (mid_in_step, so_far) = Reach-tally run h in
      let (in_step, moved) = Step-tally step mid_in_step in
      (
        in_step,
        omega (
          int_laws,
          ap pos_part so_far,
          ap neg_part so_far,
          ap pos_part moved,
          ap neg_part moved,
        ),
      )

-- While mounts of one epoch share a journal, no `Add` is lost or counted twice: however the mounts'
-- additions, syncs and failed syncs interleave, with additions arriving in the middle of a sync too,
-- the size in the file plus all pending deltas has moved by exactly what was added. (No sync in the
-- run finds a delta below minus the size in the file, or leaves 64 bits; a failed sync leaves the
-- file as it was.)
pub no_add_lost :
    (epoch : ℕ) {s t : Fleet}
    → 0 < epoch
    → epoch < u64_mod
    → IsInStep epoch s
    → Reach epoch s t
    → tally epoch t +ℤ s.added ≡ tally epoch s +ℤ t.added
no_add_lost epoch positive fits h run = (Reach-tally epoch positive fits run h).1
