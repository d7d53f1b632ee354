-- ===== src/SizeTracker/Epochs.antt =====
-- What a sync does when the mount and the journal file are of different epochs.
use cloudfuse.Base.{ℕ, ◌≤◌, ◌<◌, ◌≡◌, ap, ◌∙◌, false, List, All, u64_mod, arith}
use cloudfuse.Base.Int.{ℤ, pos, negsuc, ◌+ℤ◌, ◌-ℤ◌, int_laws}
use cloudfuse.Base.Int64.{IsInt64, add_i64, sub_i64, add_i64_exact, sub_i64_exact}
use cloudfuse.SizeTracker.JournalText.{read_journal, write_journal}
use cloudfuse.SizeTracker.JournalText.RoundTrip.{read-write}
use cloudfuse.SizeTracker.Journal.{MountSize, succeeds, Synced, apply_delta, get_size, sync}
use cloudfuse.SizeTracker.Fleet.Conserve.{rest_arrives}

apply_delta-zero : (base : ℕ) → base < u64_mod → apply_delta base (pos 0) ≡ base
unfolding apply_delta
apply_delta-zero base h = omega arith

apply_delta-lt :
    (base : ℕ) (delta : ℤ) → base < u64_mod → IsInt64 delta → apply_delta base delta < u64_mod
unfolding apply_delta
apply_delta-lt base (pos d) h k = omega arith
apply_delta-lt base (negsuc d) h k = ground arith

-- A delta that is taken back, and what arrives afterwards.
settled :
    (p arrived : ℤ) → IsInt64 arrived → sub_i64 (add_i64 (sub_i64 p p) arrived) (pos 0) ≡ arrived
settled p arrived h =
    let zero_left : p -ℤ p ≡ pos 0 = omega int_laws in
    let alone : pos 0 +ℤ arrived ≡ arrived = omega int_laws in
    let alone' : arrived -ℤ pos 0 ≡ arrived = omega int_laws in
    rw
      (
        sub_i64_exact p p (rw zero_left (omega arith)),
        zero_left,
        add_i64_exact (pos 0) arrived (rw alone h),
        alone,
        sub_i64_exact arrived (pos 0) (rw alone' h),
      )
      alone'

sync_older :
    (m : MountSize) (d : ℤ) (stamp file : List ℕ)
    → m.epoch < (read_journal m.epoch file).epoch
    → sync succeeds stamp d m file ≡ record {
      mount = record {
        size = apply_delta (read_journal m.epoch file).size (pos 0);
        pending_delta = sub_i64 (add_i64 (sub_i64 m.pending_delta m.pending_delta) d) (pos 0);
        epoch = (read_journal m.epoch file).epoch;
      };
      file =
          write_journal
            (record {
              size = apply_delta (read_journal m.epoch file).size (pos 0);
              epoch = (read_journal m.epoch file).epoch;
            })
            stamp;
      failed = false;
    }
unfolding sync
sync_older m d stamp file older = ground arith

sync_newer :
    (m : MountSize) (d : ℤ) (stamp file : List ℕ)
    → (read_journal m.epoch file).epoch < m.epoch
    → sync succeeds stamp d m file ≡ record {
      mount = record {
        size = get_size m;
        pending_delta = sub_i64 (add_i64 m.pending_delta d) m.pending_delta;
        epoch = m.epoch;
      };
      file = write_journal (record { size = get_size m; epoch = m.epoch }) stamp;
      failed = false;
    }
unfolding sync get_size
sync_newer m d stamp file newer = ground arith

get_size_settled :
    (size epoch : ℕ)
    → size < u64_mod
    → get_size (record { size = size; pending_delta = pos 0; epoch = epoch }) ≡ size
unfolding get_size
get_size_settled size epoch h = apply_delta-zero size h

-- Let sizes and epochs fit into 64 bits, deltas into an int64, and the stamp be visible characters.
-- A mount of an older epoch takes over the epoch and the size of the file, and its pending delta is
-- dropped: only what arrived during the sync is pending afterwards. The file says what it said.
pub sync_adopts :
    (m : MountSize) (arrived : ℤ) (stamp file : List ℕ)
    → m.epoch < (read_journal m.epoch file).epoch
    → (read_journal m.epoch file).epoch < u64_mod
    → (read_journal m.epoch file).size < u64_mod
    → IsInt64 m.pending_delta
    → IsInt64 arrived
    → All (λ c. 33 ≤ c) stamp
    → ((sync succeeds stamp arrived m file).mount ≡ record {
      size = (read_journal m.epoch file).size;
      pending_delta = arrived;
      epoch = (read_journal m.epoch file).epoch;
    })
      × (read_journal (read_journal m.epoch file).epoch (sync succeeds stamp arrived m file).file
          ≡ read_journal m.epoch file)
sync_adopts m arrived stamp file older epoch_fits size_fits small small' dated =
    let f = read_journal m.epoch file in
    let e = sync_older m arrived stamp file older in
    let dropped = settled m.pending_delta arrived small' in
    let kept = apply_delta-zero f.size size_fits in
    (
      ap (λ (x : Synced). x.mount) e ∙ cc (dropped, kept),
      ap (λ (x : Synced). read_journal f.epoch x.file) e
          ∙ (rw kept (read-write f stamp dated size_fits epoch_fits f.epoch)),
    )

-- Let the size and the epoch of the mount fit into 64 bits, its delta into an int64, and the stamp
-- be visible characters; nothing is added during the sync. A mount of a newer epoch overwrites the file: its own size and delta are what the file says next.
pub sync_overrides :
    (m : MountSize) (stamp file : List ℕ)
    → (read_journal m.epoch file).epoch < m.epoch
    → m.epoch < u64_mod
    → m.size < u64_mod
    → IsInt64 m.pending_delta
    → All (λ c. 33 ≤ c) stamp
    → (get_size (sync succeeds stamp (pos 0) m file).mount ≡ get_size m)
      × (read_journal m.epoch (sync succeeds stamp (pos 0) m file).file
          ≡ record { size = get_size m; epoch = m.epoch })
sync_overrides m stamp file newer epoch_fits size_fits small dated =
    let e = sync_newer m (pos 0) stamp file newer in
    let below : get_size m < u64_mod =
      unfold get_size in apply_delta-lt m.size m.pending_delta size_fits small in
    let rest = rest_arrives m.pending_delta (pos 0) (omega arith) (unfold ◌+ℤ◌ in ground arith) in
    (
      ap (λ (x : Synced). get_size x.mount) e
          ∙ (rw rest (get_size_settled (get_size m) m.epoch below)),
      ap (λ (x : Synced). read_journal m.epoch x.file) e
          ∙ read-write (record { size = get_size m; epoch = m.epoch }) stamp dated below epoch_fits
              m.epoch,
    )
