-- ===== src/AttrCache/Tree.antt =====
-- component/attr_cache/cacheMap.go, `cacheTreeMap`: items in a store, and the map of their paths.
-- The walks up to the root run on fuel, which the caller bounds by the depth of the path; without
-- fuel the answer is `none`.
use Prim.Native.String.{String}
use cloudfuse.Base.{
  ℕ, zero, suc, Bool, true, not, ◌&&◌, Option, none, some, List, [], ◌∷◌, ◌==◌, leb, if◌then◌else◌,
  same, load, forget, length,
}
use cloudfuse.AttrCache.Item.{
  PathLib, ObjAttr, AttrCacheItem, truncate_dir_name, get_parent_dir, create_obj_attr_dir,
  new_attr_cache_item, valid, exists,
}

pub record CacheTreeMap : Type 0 where
  pub items : ℕ → AttrCacheItem
  pub next_item : ℕ
  pub cache_map : List (String × ℕ)
  pub max_files : ℕ

-- A key of a Go map has one value.
abbrev pub store : String → ℕ → List (String × ℕ) → List (String × ℕ)
store name n map = (name, n) ∷ forget name map

abbrev pub change : ℕ → (AttrCacheItem → AttrCacheItem) → CacheTreeMap → CacheTreeMap
change n f c = record c { items = λ k. if k == n then f (c.items k) else c.items k }

-- A new item, which no path leads to yet.
abbrev pub allocate : AttrCacheItem → CacheTreeMap → CacheTreeMap
allocate item c = record c {
  items = λ k. if k == c.next_item then item else c.items k;
  next_item = suc c.next_item;
}

module _ (lib : PathLib) where
  unfoldable pub new_cache_tree_map : ℕ → ℕ → CacheTreeMap
  new_cache_tree_map max_files now = record {
    items = λ k. new_attr_cache_item (create_obj_attr_dir lib "" now) true now;
    next_item = 1;
    cache_map = ("", 0) ∷ [];
    max_files = max_files;
  }

  unfoldable pub get : String → CacheTreeMap → Option ℕ
  get path c = load (truncate_dir_name lib path) c.cache_map

  -- The end of `insertItem`: the item becomes a child of its parent.
  unfoldable pub attach : ℕ → ℕ → Bool → CacheTreeMap → CacheTreeMap
  attach n m from_dir_list c =
      let item = c.items n in
      let placed = change n (λ i. record i { parent = some m }) c in
      let told =
        if not from_dir_list && exists item
        then change m (λ i. record i { list_cache = [] }) placed
        else placed in
      let listed = change m (λ i. record i { children = store item.attr.name n i.children }) told in
      record listed { cache_map = store (truncate_dir_name lib item.attr.path) n c.cache_map }

  -- The parent that is there already, unless it has to be made (again).
  unfoldable pub usable_parent : ℕ → CacheTreeMap → Option ℕ
  unfolding get
  usable_parent n c =
      elim (get (get_parent_dir lib (truncate_dir_name lib (c.items n).attr.path)) c) [
        | none ↦ none
        | some m ↦ if not (exists (c.items m)) && exists (c.items n) then none else some m
      ]

  unfoldable pub insert_item : ℕ → ℕ → ℕ → Bool → CacheTreeMap → Option CacheTreeMap
  insert_item zero now n from_dir_list c = none
  insert_item (suc fuel) now n from_dir_list c =
      let item = c.items n in
      let parent_path = get_parent_dir lib (truncate_dir_name lib item.attr.path) in
      let parent =
        new_attr_cache_item (create_obj_attr_dir lib parent_path now) (exists item)
          item.cached_at in
      let with_parent = insert_item fuel now c.next_item from_dir_list (allocate parent c) in
      elim (usable_parent n c) [
        | some m ↦ some (attach n m from_dir_list c)
        | none ↦ elim with_parent [
          | none ↦ none
          | some d ↦ some (attach n c.next_item from_dir_list d)
        ]
      ]

  -- The item that was inserted, or nil, which is what a full cache gives.
  unfoldable pub insert :
      (String → ℕ) → ℕ → ObjAttr → Bool → ℕ → Bool → CacheTreeMap → Option (Option ℕ × CacheTreeMap)
  insert depth now attr does_exist cached_at from_dir_list c =
      if leb c.max_files (length c.cache_map)
      then some (none, c)
      else if same attr.path ""
      then some (none, c)
      else elim (insert_item (depth (truncate_dir_name lib attr.path)) now c.next_item from_dir_list
          (allocate (new_attr_cache_item attr does_exist cached_at) c)) [
            | none ↦ none
            | some d ↦ some (some c.next_item, d)
          ]

  -- The nearest ancestor with a valid item.
  unfoldable pub get_cached_parent : ℕ → String → CacheTreeMap → Option ℕ
  get_cached_parent zero name c = none
  get_cached_parent (suc fuel) name c =
      let parent = get_parent_dir lib name in
      let above = get_cached_parent fuel parent c in
      if same name "" then none else elim (get parent c) [
        | none ↦ above
        | some n ↦ if valid (c.items n) then some n else above
      ]
