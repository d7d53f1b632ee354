-- ===== src/SizeTracker/Tracker/Tests.antt =====
-- A storage that keeps one file, by any name, and a mount in front of it.
use Prim.Native.String.{String}
use cloudfuse.Base.{
  ℕ, ◌+◌, ◌≤◌, ◌≡◌, ◌≢◌, ◌↔◌, ◌⊎◌, refl, Option, none, some, [], ◌∷◌, length, max, true, arith,
}
use cloudfuse.Base.Int.{pos, ◌+ℤ◌, ◌-ℤ◌}
use cloudfuse.SizeTracker.Journal.{get_size}
use cloudfuse.SizeTracker.Tracker.{
  SizeTracker, normal, overuse, check_capacity_delta, after, write_file, write_file_tracked,
}
use cloudfuse.SizeTracker.Tracker.Interface.{
  not_exist, failure, ok, NextComponent, IsStorage, size_or, attr_answer, Replaces,
}
use cloudfuse.SizeTracker.Tracker.Tracks.{started, called, get_size-Runs}
use cloudfuse.SizeTracker.Tracker.Limit.{
  check_capacity_delta-none, write_file_within_limit, looks, looks-normal,
}

abbrev one_file : NextComponent
one_file = record {
  State = Option ℕ;
  get_attr = λ n s. (attr_answer s, s);
  create_file = λ n s. (none, some 0);
  delete_file = λ n s. elim s [ none ↦ (some not_exist, none) | some k ↦ (none, none) ];
  rename_file = λ n m s. (some (failure 1), s);
  write_file = λ n o b s. (ok (length b), some (max (size_or s) (o + length b)));
  truncate_file = λ n k s. (none, some k);
  copy_from_file = λ n f s. (none, some (length f.content));
  commit_data = λ n s. (none, s);
  create_link = λ n t s. (none, some (length t));
  rename_dir = λ n m s. (some (failure 1), s);
}

delete_law :
    (n : String) (s : Option ℕ)
    → Replaces
        (size_or s)
        0
        (one_file.delete_file n s).0
        (size_or s)
        (size_or (one_file.delete_file n s).1)
delete_law n s = ground arith

abbrev one_file_laws : IsStorage one_file
one_file_laws = record {
  total = size_or;
  size_of = λ n s. s;
  get_attr_answers = λ n s. refl;
  get_attr_total = λ n s. refl;
  get_attr_sizes = λ n m s. refl;
  creates = λ n s. omega arith;
  deletes = delete_law;
  renames = λ n m s h. refl;
  writes = λ n o b s. omega arith;
  truncates = λ n k s. omega arith;
  copies = λ n f s. omega arith;
  commits = λ n s. refl;
  links = λ n t s. omega arith;
  moves = λ n m s. refl;
}

abbrev mount : SizeTracker
mount = record {
  mount_size = record { size = 0; pending_delta = pos 0; epoch = 1 };
  total_bucket_capacity = 3;
  server_count = 1;
  eviction_mode = normal;
  hard_limit_enabled = true;
}

abbrev written : SizeTracker × Option ℕ
written = after one_file (write_file "a" 0 (7 ∷ 7 ∷ [])) mount none

get_size-Runs_example : get_size written.0.mount_size ≡ 2
unfolding after write_file_tracked check_capacity_delta get_size ◌-ℤ◌ ◌+ℤ◌
get_size-Runs_example =
    get_size-Runs one_file one_file_laws {st0 = mount} {s0 = none}
      (record { exact = refl; size_fits = omega arith }) (omega arith)
      (called started (write_file "a" 0 (7 ∷ 7 ∷ [])) tt (omega arith))

check_capacity_delta-none_example :
    check_capacity_delta (pos 4 -ℤ pos 0) mount ≡ none
    ↔ ((4 ≤ 0) ⊎ (get_size mount.mount_size + 4 ≤ 3 + 0))
check_capacity_delta-none_example = check_capacity_delta-none 0 4 mount refl (omega arith)

write_file_within_limit_example :
    size_or (after one_file (write_file "a" 2 (7 ∷ 7 ∷ [])) mount none).1 ≤ 3
unfolding ◌+ℤ◌
write_file_within_limit_example =
    write_file_within_limit one_file one_file_laws "a" 2 (7 ∷ 7 ∷ []) mount none
      (record { exact = refl; size_fits = omega arith }) (omega arith) refl (omega arith)

looks-normal_test :
    (looks (99 ∷ 90 ∷ []) 100 (record mount { eviction_mode = overuse })).eviction_mode ≢ normal
looks-normal_test =
    looks-normal (99 ∷ 90 ∷ []) 100 (record mount { eviction_mode = overuse }) (ground arith)
      (omega arith, (omega arith, tt))
