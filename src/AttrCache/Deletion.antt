-- ===== src/AttrCache/Deletion.antt =====
-- component/attr_cache/cacheMap.go, `markDeleted` and `invalidate`, which walk down the tree of items.
-- The walks run on fuel, which the callers set to the number of items; without fuel the answer is `none`.
-- A Go map's values come in any order; here in the order of the list.
pub mod Closed
use Prim.Native.String.{String}
use cloudfuse.Base.{
  ℕ, zero, suc, Bool, true, false, not, Option, none, some, List, [], ◌∷◌, ◌==◌, if◌then◌else◌,
}
use cloudfuse.Bitmap.{set, clear}
use cloudfuse.AttrCache.Item.{
  AttrCacheItem, valid, exists, is_root, attr_flag_exists, attr_flag_valid,
}
use cloudfuse.AttrCache.Tree.{CacheTreeMap, change}

abbrev pub each :
    (ℕ → CacheTreeMap → Option CacheTreeMap)
    → List (String × ℕ)
    → CacheTreeMap
    → Option CacheTreeMap
each f [] c = some c
each f ((name, n) ∷ rest) c = elim (f n c) [ none ↦ none | some d ↦ each f rest d ]

-- The parent's listing cache is dropped.
abbrev pub tell_parent :
    (CacheTreeMap → ℕ → AttrCacheItem → AttrCacheItem) → ℕ → CacheTreeMap → CacheTreeMap
tell_parent f n c = elim (c.items n).parent [ none ↦ c | some m ↦ change m (f c m) c ]

abbrev pub flag_deleted : ℕ → AttrCacheItem → AttrCacheItem
flag_deleted deleted_time value = record value {
  attr_flag = (set (clear value.attr_flag attr_flag_exists).word attr_flag_valid).word;
  cached_at = deleted_time;
}

unfoldable pub mark_deleted : ℕ → ℕ → ℕ → CacheTreeMap → Option CacheTreeMap
mark_deleted zero deleted_time n c = none
mark_deleted (suc fuel) deleted_time n c =
    let below = each (mark_deleted fuel deleted_time) (c.items n).children c in
    if is_root (c.items n)
    then some c
    else if not (exists (c.items n))
    then some c
    else elim below [
      | none ↦ none
      | some d ↦ some (
          change n (flag_deleted deleted_time)
            (tell_parent (λ e m i. record i { list_cache = [] }) n d))
    ]

unfoldable pub invalidate : ℕ → ℕ → CacheTreeMap → Option CacheTreeMap
invalidate zero n c = none
invalidate (suc fuel) n c =
    let below = each (invalidate fuel) (c.items n).children c in
    if is_root (c.items n) then some c else if not (valid (c.items n)) then some c else elim below [
      | none ↦ none
      | some d ↦ some (
          change n (λ i. record i { attr_flag = (clear i.attr_flag attr_flag_valid).word })
            (tell_parent
              (λ e m i.
                if exists i then record i { list_cache = []; listing_complete = false } else i)
              n d))
    ]
