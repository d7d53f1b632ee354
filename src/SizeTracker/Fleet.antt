-- ===== src/SizeTracker/Fleet.antt =====
-- Several mounts that share one journal file, and their steps.
pub mod Conserve
mod Tests
use cloudfuse.Base.{
  ℕ, zero, suc, ◌+◌, ◌-◌, ◌^◌, ◌≤◌, ◌<◌, ◌≡◌, refl, ap, ◌∙◌, ◌⊎◌, inl, inr, Bool, true, false, List,
  [], ◌∷◌, ◌++◌, ltb, ◌==◌, if◌then◌else◌, All, All-append, u64_mod, arith,
}
use cloudfuse.Base.Int.{
  ℤ, pos, negsuc, pos_part, neg_part, ◌+ℤ◌, ◌-ℤ◌, ◌≤ℤ◌, int_laws, eq_of_parts, +ℤ_parts, -ℤ_parts,
}
use cloudfuse.Base.Int64.{IsInt64, add_i64, sub_i64, add_i64_exact, sub_i64_exact, bits64, signed64}
use cloudfuse.SizeTracker.JournalText.{Entry, read_journal, write_journal}
use cloudfuse.SizeTracker.JournalText.RoundTrip.{read-write}
use cloudfuse.SizeTracker.Journal.{
  MountSize, Io, succeeds, fails_early, fails_late, Synced, apply_delta, get_size, add, sync,
}

-- `added` is the sum of all calls of `Add`, on any mount.
pub record Fleet : Type 0 where
  pub mounts : List MountSize
  pub file : List ℕ
  pub added : ℤ

abbrev pub pending : List MountSize → ℤ
pending [] = pos 0
pending (m ∷ ms) = m.pending_delta +ℤ pending ms

module _ (epoch : ℕ) where
  abbrev pub file_size : List ℕ → ℕ
  file_size file = (read_journal epoch file).size

  -- A mount adds to its delta; or it syncs, while others may add, and neither bottoms out at zero nor
  -- leaves 64 bits; or its sync fails and leaves the file as it was.
  pub data Step (s t : Fleet) : Type 0 where
    adds :
        (before after : List MountSize) (m : MountSize) (d : ℤ)
        → s.mounts ≡ before ++ m ∷ after
        → IsInt64 (m.pending_delta +ℤ d)
        → t ≡ record s { mounts = before ++ add d m ∷ after; added = s.added +ℤ d }
        → Step s t
    syncs :
        (before after : List MountSize) (m : MountSize) (d : ℤ) (stamp : List ℕ)
        → s.mounts ≡ before ++ m ∷ after
        → IsInt64 d
        → IsInt64 (m.pending_delta +ℤ d)
        → neg_part m.pending_delta ≤ file_size s.file
        → file_size s.file + pos_part m.pending_delta < u64_mod
        → All (λ c. 33 ≤ c) stamp
        → t ≡ record {
          mounts = before ++ (sync succeeds stamp d m s.file).mount ∷ after;
          file = (sync succeeds stamp d m s.file).file;
          added = s.added +ℤ d;
        }
        → Step s t
    fails :
        (before after : List MountSize) (m : MountSize) (d : ℤ) (stamp : List ℕ) (io : Io)
        → s.mounts ≡ before ++ m ∷ after
        → (io ≡ fails_early) ⊎ (io ≡ fails_late s.file)
        → IsInt64 (m.pending_delta +ℤ d)
        → t ≡ record {
          mounts = before ++ (sync io stamp d m s.file).mount ∷ after;
          file = (sync io stamp d m s.file).file;
          added = s.added +ℤ d;
        }
        → Step s t

  pub data Reach (s : Fleet) : Fleet → Type 0 where
    here : Reach s s
    next : {t u : Fleet} → Reach s t → Step t u → Reach s u

  -- All mounts and the file are of the same epoch.
  pub record IsInStep (s : Fleet) : Type 0 where
    pub mounts_agree : All (λ m. m.epoch ≡ epoch) s.mounts
    pub file_agrees : (read_journal epoch s.file).epoch ≡ epoch

  abbrev pub tally : Fleet → ℤ
  tally s = pos (file_size s.file) +ℤ pending s.mounts
