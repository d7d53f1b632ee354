-- ===== src/AttrCache/Removals.antt =====
-- component/attr_cache/attr_cache.go, the calls that delete or invalidate, after the next component
-- has answered. `none` is a panic, or no fuel; the walks down the tree have the number of items as fuel.
use Prim.Native.String.{String}
use cloudfuse.Base.{
  ℕ, zero, suc, Bool, true, false, ◌&&◌, ◌||◌, Option, none, some, List, [], ◌∷◌, if◌then◌else◌,
  same,
}
use cloudfuse.AttrCache.Item.{
  PathLib, get_parent_dir, create_obj_attr, create_obj_attr_dir, valid, exists, is_in_cloud, is_dir,
  mark_in_cloud, set_mode,
}
use cloudfuse.AttrCache.Tree.{CacheTreeMap, change, get, insert}
use cloudfuse.AttrCache.Deletion.{each, mark_deleted, invalidate}
use cloudfuse.AttrCache.Ancestors.{
  get_or_insert_dir, mark_ancestors_in_cloud, touch_parent_dir_times,
}

-- A step that may panic, and the next one.
abbrev pub and_then :
    Option CacheTreeMap → (CacheTreeMap → Option CacheTreeMap) → Option CacheTreeMap
and_then none f = none
and_then (some c) f = f c

abbrev pub any_in_cloud : List (String × ℕ) → CacheTreeMap → Bool
any_in_cloud [] c = false
any_in_cloud ((name, n) ∷ rest) c =
    (exists (c.items n) && is_in_cloud (c.items n)) || any_in_cloud rest c

-- What a call returns.
pub data Status : Type 0 where
  done no_entry already_exists : Status

module _ (lib : PathLib) (depth : String → ℕ) where
  unfoldable pub update_ancestors_in_cloud : ℕ → String → ℕ → CacheTreeMap → Option CacheTreeMap
  update_ancestors_in_cloud zero dir_path now c = if same dir_path "" then some c else none
  update_ancestors_in_cloud (suc fuel) dir_path now c =
      if same dir_path "" then some c else elim (get_or_insert_dir lib depth dir_path now c) [
        | none ↦ none
        | some (none, d) ↦ none
        | some (some n, d) ↦
            let in_cloud = any_in_cloud (d.items n).children d in
            let further =
              update_ancestors_in_cloud fuel (get_parent_dir lib dir_path) now
                (change n (mark_in_cloud in_cloud) d) in
            if is_in_cloud (d.items n)
            then (if in_cloud then some d else further)
            else if in_cloud
            then further
            else some d
      ]

  abbrev pub update_above : String → ℕ → CacheTreeMap → Option CacheTreeMap
  update_above name now c =
      update_ancestors_in_cloud (depth (get_parent_dir lib name)) (get_parent_dir lib name) now c

  abbrev pub mark_above : String → ℕ → CacheTreeMap → Option CacheTreeMap
  mark_above name now c =
      mark_ancestors_in_cloud lib depth (depth (get_parent_dir lib name)) (get_parent_dir lib name)
        now c

  unfoldable pub delete_file : String → ℕ → CacheTreeMap → Option CacheTreeMap
  delete_file name now c =
      let fresh = insert lib depth now (create_obj_attr lib name 0 now) true now false c in
      let found : Option (Option ℕ × CacheTreeMap) = elim (get lib name c) [
        | none ↦ fresh
        | some n ↦ if valid (c.items n) then some (some n, c) else fresh
      ] in
      elim found [
        | none ↦ none
        | some (none, d) ↦ none
        | some (some n, d) ↦ and_then (mark_deleted d.next_item now n d) (λ e.
            and_then (update_above name now e) (λ f. touch_parent_dir_times lib depth name now f))
      ]

  -- When the next component did not find the file.
  unfoldable pub open_file_missing : String → ℕ → CacheTreeMap → Option CacheTreeMap
  open_file_missing name now c =
      let marked : Option CacheTreeMap = elim (get lib name c) [
        | none ↦ some c
        | some n ↦ if exists (c.items n) then mark_deleted c.next_item now n c else some c
      ] in
      and_then marked (update_above name now)

  unfoldable pub delete_directory : String → ℕ → CacheTreeMap → Option (Status × CacheTreeMap)
  delete_directory path deleted_at c = elim (get lib path c) [
    | none ↦ some (no_entry, c)
    | some n ↦
        let deleted =
          and_then (mark_deleted c.next_item deleted_at n c) (update_above path deleted_at) in
        if exists (c.items n)
        then elim deleted [ none ↦ none | some d ↦ some (done, d) ]
        else some (no_entry, c)
  ]

  unfoldable pub delete_dir : String → ℕ → CacheTreeMap → Option (Status × CacheTreeMap)
  unfolding delete_directory
  delete_dir name deletion_time c = elim (delete_directory name deletion_time c) [
    | none ↦ none
    | some (done, d) ↦ elim (touch_parent_dir_times lib depth name deletion_time d) [
      | none ↦ none
      | some e ↦ some (done, e)
    ]
    | some (no_entry, d) ↦ some (no_entry, d)
    | some (already_exists, d) ↦ some (already_exists, d)
  ]

  -- `fresh` says whether the next component made the directory, or had it already.
  unfoldable pub create_dir : String → ℕ → Bool → ℕ → CacheTreeMap → Option (Status × CacheTreeMap)
  create_dir name mode fresh now c =
      let there : Bool = elim (get lib name c) [ none ↦ false | some n ↦ exists (c.items n) ] in
      let cleared : Option CacheTreeMap = elim (get lib name c) [
        | none ↦ some c
        | some n ↦ mark_deleted c.next_item now n c
      ] in
      if there then some (already_exists, c) else elim cleared [
        | none ↦ none
        | some d ↦ elim (insert lib depth now (create_obj_attr_dir lib name now) true now false d) [
          | none ↦ none
          | some (none, e) ↦
              if fresh
              then elim (touch_parent_dir_times lib depth name now e) [
                | none ↦ none
                | some f ↦ some (done, f)
              ]
              else some (already_exists, e)
          | some (some n, e) ↦
              let made =
                change n (λ i. record (mark_in_cloud false i) { listing_complete = true }) e in
              if fresh
              then elim (touch_parent_dir_times lib depth name now made) [
                | none ↦ none
                | some f ↦ some (done, change n (set_mode mode now) f)
              ]
              else some (already_exists, made)
        ]
      ]

  -- `SyncFile`.
  unfoldable pub sync_file : String → CacheTreeMap → Option CacheTreeMap
  sync_file name c = elim (get lib name c) [ none ↦ some c | some n ↦ invalidate c.next_item n c ]

  -- `CopyToFile`, when the next component did not find the file.
  unfoldable pub copy_to_file_missing : String → CacheTreeMap → Option CacheTreeMap
  copy_to_file_missing name c = elim (get lib name c) [
    | none ↦ some c
    | some n ↦ if exists (c.items n) then invalidate c.next_item n c else some c
  ]

  -- The entry is invalidated; without one, the directory's listing is.
  abbrev pub forget_entry : String → CacheTreeMap → Option CacheTreeMap
  forget_entry name c = elim (get lib name c) [
    | some n ↦ invalidate c.next_item n c
    | none ↦ elim (get lib (get_parent_dir lib name) c) [
      | none ↦ some c
      | some m ↦
          if exists (c.items m)
          then some (change m (λ i. record i { list_cache = []; listing_complete = false }) c)
          else some c
    ]
  ]

  unfoldable pub flush_file : String → ℕ → CacheTreeMap → Option CacheTreeMap
  flush_file name now c = and_then (forget_entry name c) (mark_above name now)

  unfoldable pub commit_data : String → ℕ → CacheTreeMap → Option CacheTreeMap
  commit_data name now c = and_then (forget_entry name c) (mark_above name now)

  -- The files of a directory and of those below it; the walk follows the paths of the directories.
  unfoldable pub invalidate_directory : ℕ → String → CacheTreeMap → Option CacheTreeMap
  invalidate_directory zero path c = none
  invalidate_directory (suc fuel) path c = elim (get lib path c) [
    | none ↦ some c
    | some n ↦
        if valid (c.items n)
        then each
            (λ k d.
              if is_dir (d.items k).attr
              then invalidate_directory fuel (d.items k).attr.path d
              else invalidate d.next_item k d)
            (c.items n).children c
        else some c
  ]

  unfoldable pub sync_dir : String → CacheTreeMap → Option CacheTreeMap
  sync_dir name c = invalidate_directory c.next_item name c
