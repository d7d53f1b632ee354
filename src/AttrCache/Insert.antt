-- ===== src/AttrCache/Insert.antt =====
-- `insertItem` puts an item at its path, below directories that exist, and keeps what is there.
use Prim.Native.String.{String}
use cloudfuse.Base.{
  ℕ, zero, suc, ◌≤◌, ◌<◌, ◌≡◌, ◌≢◌, refl, sym, ap, ◌∙◌, inl, inr, Bool, some, Option-cases, arith,
}
use mathlib.Core.Path.{subst}
use cloudfuse.AttrCache.Item.{
  PathLib, AttrCacheItem, get_parent_dir, truncate_dir_name, create_obj_attr, create_obj_attr_dir,
  new_attr_cache_item,
}
use cloudfuse.AttrCache.Tree.{CacheTreeMap, allocate, attach, usable_parent, insert_item}
use cloudfuse.AttrCache.Rooted.{IsPaths, IsRooted, path_of, parent_of}
use cloudfuse.AttrCache.Attached.{
  IsInserted, attached, usable, unusable, allocated, made_dir, attached_below,
}

module _ (lib : PathLib) where
  module _ (depth : String → ℕ) (paths : IsPaths lib depth) where
    made_path :
        (now n : ℕ) (c : CacheTreeMap)
        → (allocate (made_dir lib now n c) c).items c.next_item ≡ made_dir lib now n c
        → path_of lib c.next_item (allocate (made_dir lib now n c) c) ≡ parent_of lib n c
    unfolding new_attr_cache_item create_obj_attr_dir create_obj_attr
    made_path now n c made =
        ap (λ (t : AttrCacheItem). truncate_dir_name lib t.attr.path) made
        ∙ paths.trimmed (path_of lib n c)

    -- With fuel for the depth of the path, the insertion succeeds.
    pub insert_item-IsInserted :
        (fuel now n : ℕ) (fl : Bool) (c : CacheTreeMap)
        → IsRooted c
        → path_of lib n c ≢ ""
        → n < c.next_item
        → depth (path_of lib n c) ≤ fuel
        → (d : CacheTreeMap) × (insert_item lib fuel now n fl c ≡ some d) × IsInserted lib n c d
    unfolding insert_item
    insert_item-IsInserted zero now n fl c r named new fits =
        let less = paths.above (path_of lib n c) named in absurd (omega (arith, less, fits))
    insert_item-IsInserted (suc fuel) now n fl c r named new fits =
        let less = paths.above (path_of lib n c) named in
        let less' = paths.trimmed_depth (get_parent_dir lib (path_of lib n c)) in
        let apart : parent_of lib n c ≢ path_of lib n c =
          λ e. let eq = ap depth e in omega (arith, eq, less, less') in
        elim (Option-cases (usable_parent lib n c)) [
          | inr (m, found) ↦
              let (at, holds) = usable lib n m c found in
              (
                attach lib n m fl c,
                rw (insert_item, found) refl,
                attached lib n m fl c r named new apart at holds,
              )
          | inl missing ↦
              let (r', old, made) = allocated lib (made_dir lib now n c) c r in
              let a = allocate (made_dir lib now n c) c in
              let made_at = made_path now n c made in
              let (e, inserts, i) =
                insert_item-IsInserted fuel now c.next_item fl a r'
                  (λ t. unusable lib n c r missing (sym made_at ∙ t)) (omega arith)
                  (subst (λ (t : String). depth t ≤ fuel) (sym made_at)
                    (omega (arith, less, less', fits))) in
              (
                attach lib n c.next_item fl e,
                rw (insert_item, missing, inserts) refl,
                attached_below lib now n fl c e r named new apart missing made_at i,
              )
        ]
