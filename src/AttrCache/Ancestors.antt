-- ===== src/AttrCache/Ancestors.antt =====
-- component/attr_cache/attr_cache.go, what a call does to the directories above its path.
-- The outer `none` is a panic (the dereference of the nil item that a full cache gives) or no fuel.
use Prim.Native.String.{String}
use cloudfuse.Base.{ℕ, zero, suc, Bool, true, false, Option, none, some, if◌then◌else◌, same}
use cloudfuse.AttrCache.Item.{
  PathLib, get_parent_dir, create_obj_attr_dir, exists, is_in_cloud, mark_in_cloud,
  touch_modify_and_change_times,
}
use cloudfuse.AttrCache.Tree.{CacheTreeMap, change, get, insert}

module _ (lib : PathLib) (depth : String → ℕ) where
  -- The item of a directory that exists: the one that is cached, or a new one.
  unfoldable pub get_or_insert_dir : String → ℕ → CacheTreeMap → Option (Option ℕ × CacheTreeMap)
  get_or_insert_dir path now c = elim (get lib path c) [
    | some n ↦
        if exists (c.items n)
        then some (some n, c)
        else insert lib depth now (create_obj_attr_dir lib path now) true now false c
    | none ↦ insert lib depth now (create_obj_attr_dir lib path now) true now false c
  ]

  -- Whether the walk ends here: the directory is known to be in the cloud.
  unfoldable pub is_known : String → CacheTreeMap → Bool
  is_known path c = elim (get lib path c) [
    | none ↦ false
    | some n ↦ if exists (c.items n) then is_in_cloud (c.items n) else false
  ]

  unfoldable pub mark_ancestors_in_cloud : ℕ → String → ℕ → CacheTreeMap → Option CacheTreeMap
  mark_ancestors_in_cloud zero dir_path now c = if same dir_path "" then some c else none
  mark_ancestors_in_cloud (suc fuel) dir_path now c =
      if same dir_path ""
      then some c
      else if is_known dir_path c
      then some c
      else elim (get_or_insert_dir dir_path now c) [
        | none ↦ none
        | some (none, d) ↦ none
        | some (some n, d) ↦
            mark_ancestors_in_cloud fuel (get_parent_dir lib dir_path) now
              (change n (mark_in_cloud true) d)
      ]

  unfoldable pub touch_parent_dir_times : String → ℕ → CacheTreeMap → Option CacheTreeMap
  touch_parent_dir_times child_path touched_at c =
      elim (get_or_insert_dir (get_parent_dir lib child_path) touched_at c) [
        | none ↦ none
        | some (none, d) ↦ some d
        | some (some n, d) ↦ some (change n (touch_modify_and_change_times touched_at) d)
      ]
