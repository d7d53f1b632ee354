-- ===== src/AttrCache/Rooted.antt =====
-- `insertItem` puts an item at its path, below directories that exist, and keeps what is there.
use Prim.Native.String.{String}
use cloudfuse.Base.{
  ℕ, ◌≤◌, ◌<◌, ◌≡◌, ◌≢◌, refl, ◌∙◌, inl, inr, Bool, true, false, not, ◌&&◌, some, List,
  if◌then◌else◌, same, same_refl, load, load-forget, Bool-cases, arith,
}
use mathlib.Core.Path.{subst}
use cloudfuse.Bitmap.{is_set, set}
use cloudfuse.AttrCache.Item.{
  PathLib, ObjAttr, AttrCacheItem, get_parent_dir, truncate_dir_name, create_obj_attr,
  create_obj_attr_dir, new_attr_cache_item, is_dir, valid, exists, is_in_cloud,
}
use cloudfuse.AttrCache.Tree.{CacheTreeMap, store, attach}

-- What the code relies on: the parent of a path has a smaller depth, as it has a smaller length.
pub record IsPaths (lib : PathLib) (depth : String → ℕ) : Type 0 where
  pub above : (p : String) → p ≢ "" → depth (get_parent_dir lib p) < depth p
  pub trimmed_depth : (p : String) → depth (truncate_dir_name lib p) ≤ depth p
  pub trimmed :
      (p : String)
      → truncate_dir_name lib (truncate_dir_name lib (get_parent_dir lib p))
        ≡ truncate_dir_name lib (get_parent_dir lib p)

pub load-store :
    (a b : String) (n : ℕ) (map : List (String × ℕ))
    → load a (store b n map) ≡ (if same b a then some n else load a map)
load-store a b n map = elim (Bool-cases (same b a)) [
  | inl here ↦ ground (arith, here)
  | inr other ↦
      let rest = load-forget b a map (λ e. clash a b other e) in ground (arith, other, rest)
]
  where
    clash : (a b : String) → same b a ≡ false → b ≢ a
    clash a b other e =
        let both = subst (λ (t : String). same b t ≡ true) e (same_refl b) in
        ground (arith, other, both)

-- The fields that an answer is made of.
pub record IsSame (i j : AttrCacheItem) : Type 0 where
  pub attr : i.attr ≡ j.attr
  pub attr_flag : i.attr_flag ≡ j.attr_flag
  pub cached_at : i.cached_at ≡ j.cached_at
  pub listing : i.listing_complete ≡ j.listing_complete

pub IsSame-trans : (i j k : AttrCacheItem) → IsSame i j → IsSame j k → IsSame i k
IsSame-trans i j k a b = record {
  attr = a.attr ∙ b.attr;
  attr_flag = a.attr_flag ∙ b.attr_flag;
  cached_at = a.cached_at ∙ b.cached_at;
  listing = a.listing ∙ b.listing;
}

pub exists-IsSame : (i j : AttrCacheItem) → IsSame i j → exists i ≡ exists j
unfolding exists valid
exists-IsSame i j s = rw s.attr_flag refl

pub valid-IsSame : (i j : AttrCacheItem) → IsSame i j → valid i ≡ valid j
unfolding valid
valid-IsSame i j s = rw s.attr_flag refl

pub is_in_cloud-IsSame : (i j : AttrCacheItem) → IsSame i j → is_in_cloud i ≡ is_in_cloud j
unfolding is_in_cloud
is_in_cloud-IsSame i j s = rw (s.attr_flag, s.attr) refl

pub exists-new : (attr : ObjAttr) (e : Bool) (t : ℕ) → exists (new_attr_cache_item attr e t) ≡ e
unfolding exists valid new_attr_cache_item is_set set
exists-new attr true t = refl
exists-new attr false t = refl

pub valid-new : (attr : ObjAttr) (e : Bool) (t : ℕ) → valid (new_attr_cache_item attr e t) ≡ true
unfolding valid new_attr_cache_item is_set set
valid-new attr true t = refl
valid-new attr false t = refl

-- A directory that is made on the way counts as one that the cloud has.
pub is_in_cloud-new :
    (lib : PathLib) (p : String) (now : ℕ) (e : Bool) (t : ℕ)
    → is_in_cloud (new_attr_cache_item (create_obj_attr_dir lib p now) e t) ≡ true
unfolding is_in_cloud new_attr_cache_item create_obj_attr_dir create_obj_attr is_dir is_set set
is_in_cloud-new lib p now true t = refl
is_in_cloud-new lib p now false t = refl

-- The root is cached and exists, and no path leads to an item that is still to come.
pub record IsRooted (c : CacheTreeMap) : Type 0 where
  pub root : ℕ
  pub root_at : load "" c.cache_map ≡ some root
  pub root_exists : exists (c.items root) ≡ true
  pub young : (path : String) (n : ℕ) → load path c.cache_map ≡ some n → n < c.next_item

module _ (lib : PathLib) where
  -- The key of an item.
  abbrev pub path_of : ℕ → CacheTreeMap → String
  path_of n c = truncate_dir_name lib (c.items n).attr.path

  abbrev pub parent_of : ℕ → CacheTreeMap → String
  parent_of n c = truncate_dir_name lib (get_parent_dir lib (path_of n c))

  pub attach-IsSame :
      (n m : ℕ) (fl : Bool) (c : CacheTreeMap) (k : ℕ)
      → IsSame ((attach lib n m fl c).items k) (c.items k)
  unfolding attach
  attach-IsSame n m fl c k = elim (Bool-cases (not fl && exists (c.items n))) [
    | inl told ↦ record {
      attr = ground (arith, told);
      attr_flag = ground (arith, told);
      cached_at = ground (arith, told);
      listing = ground (arith, told);
    }
    | inr silent ↦ record {
      attr = ground (arith, silent);
      attr_flag = ground (arith, silent);
      cached_at = ground (arith, silent);
      listing = ground (arith, silent);
    }
  ]

  pub attach-map :
      (n m : ℕ) (fl : Bool) (c : CacheTreeMap)
      → ((attach lib n m fl c).cache_map ≡ store (path_of n c) n c.cache_map)
        × ((attach lib n m fl c).next_item ≡ c.next_item)
        × ((attach lib n m fl c).max_files ≡ c.max_files)
  unfolding attach
  attach-map n m fl c = elim (Bool-cases (not fl && exists (c.items n))) [
    | inl told ↦ (refl, ground (arith, told), ground (arith, told))
    | inr silent ↦ (refl, ground (arith, silent), ground (arith, silent))
  ]
