-- ===== src/AttrCache/Renames.antt =====
-- component/attr_cache/attr_cache.go, the calls that move a file or a directory, after the next component
-- has answered. `none` is a panic, or no fuel.
use Prim.Native.String.{String}
use cloudfuse.Base.{ℕ, zero, suc, Bool, true, false, Option, none, some, if◌then◌else◌, same}
use cloudfuse.AttrCache.Item.{
  PathLib, ObjAttr, truncate_dir_name, get_parent_dir, exists, is_in_cloud, mark_in_cloud,
}
use cloudfuse.AttrCache.Tree.{CacheTreeMap, change, get, insert}
use cloudfuse.AttrCache.Deletion.{each, mark_deleted}
use cloudfuse.AttrCache.Ancestors.{touch_parent_dir_times}
use cloudfuse.AttrCache.Removals.{
  and_then, Status, done, no_entry, already_exists, update_above, mark_above,
}

module _ (lib : PathLib) (depth : String → ℕ) where
  -- `replace s old new` is `strings.Replace` of the first occurrence.
  module _ (replace : String → String → String → String) where
    abbrev pub clone_moved_attr : ObjAttr → String → ObjAttr
    clone_moved_attr src_attr dst_path = record src_attr {
      path = dst_path;
      name = lib.base dst_path;
    }

    -- The item and those below it are inserted again under the new path, and the old ones deleted.
    unfoldable pub move_cached_item :
        ℕ → String → String → ℕ → ℕ → CacheTreeMap → Option CacheTreeMap
    move_cached_item zero src_dir dst_dir moved_at n c = none
    move_cached_item (suc fuel) src_dir dst_dir moved_at n c =
        let src = c.items n in
        let attr = clone_moved_attr src.attr (replace src.attr.path src_dir dst_dir) in
        let moved : Option CacheTreeMap =
          elim (insert lib depth moved_at attr true src.cached_at false c) [
            | none ↦ none
            | some (none, d) ↦ none
            | some (some m, d) ↦
                and_then
                  (each (move_cached_item fuel src_dir dst_dir moved_at) (d.items n).children
                    (change m (mark_in_cloud (is_in_cloud src)) d))
                  (λ e. mark_deleted e.next_item moved_at n e)
          ] in
        if exists src then moved else some c

    abbrev pub touch_both : String → String → ℕ → CacheTreeMap → Option CacheTreeMap
    touch_both src dst now c = and_then (touch_parent_dir_times lib depth src now c) (λ d.
        if same (get_parent_dir lib src) (get_parent_dir lib dst)
        then some d
        else touch_parent_dir_times lib depth dst now d)

    unfoldable pub rename_file : String → String → ℕ → CacheTreeMap → Option CacheTreeMap
    rename_file src dst now c = elim (get lib src c) [
      | none ↦ some c
      | some n ↦
          let moved = and_then (move_cached_item c.next_item src dst now n c) (λ d.
            and_then (update_above lib depth src now d)
              (λ e. and_then (mark_above lib depth dst now e) (touch_both src dst now))) in
          if exists (c.items n) then moved else some c
    ]

    unfoldable pub rename_dir : String → String → ℕ → CacheTreeMap → Option (Status × CacheTreeMap)
    rename_dir src dst now c =
        let there : Bool = elim (get lib dst c) [ none ↦ false | some n ↦ exists (c.items n) ] in
        if there then some (already_exists, c) else elim (get lib src c) [
          | none ↦ some (no_entry, c)
          | some n ↦
              let moved =
                and_then
                  (move_cached_item c.next_item (truncate_dir_name lib src)
                    (truncate_dir_name lib dst) now n c)
                  (touch_both src dst now) in
              if exists (c.items n)
              then elim moved [ none ↦ none | some d ↦ some (done, d) ]
              else some (no_entry, c)
        ]
