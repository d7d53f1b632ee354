-- ===== src/LruCache.antt =====
-- common/cache_policy/lru_policy.go: the least-recently-used cache of blocks. A node of the list has
-- an identity, which `elements` names by the key; new nodes get new identities. A nil dereference, and
-- an identity that is in no list, is `none`. Sizes are integers within int64.
pub mod Nodes
pub mod Laws
pub mod Evict
pub mod Clean
pub mod Purge
mod Tests
use cloudfuse.Base.{
  ℕ, suc, Bool, true, false, Option, none, some, List, [], ◌∷◌, ◌++◌, ◌==◌, not, if◌then◌else◌,
}
use cloudfuse.Base.Int.{ℤ, pos, ◌+ℤ◌, ◌-ℤ◌, ◌≤ℤ◌, pos_part, neg_part}
use cloudfuse.Base.{leb, ◌+◌}
use cloudfuse.BlockList.{Block, dirty}

pub record Node : Type 0 where
  pub id : ℕ
  pub key : ℕ
  pub value : Block

pub record LruCache : Type 0 where
  pub capacity : ℤ
  pub list : List Node
  pub elements : List (ℕ × ℕ)
  pub occupied : ℤ
  pub next_id : ℕ

abbrev pub size_of : Block → ℤ
size_of b = pos b.end_index -ℤ pos b.start_index

abbrev pub lookup : ℕ → List (ℕ × ℕ) → Option ℕ
lookup key [] = none
lookup key ((k, i) ∷ rest) = let later = lookup key rest in if key == k then some i else later

-- `delete(cache.Elements, key)`
abbrev pub delete_key : ℕ → List (ℕ × ℕ) → List (ℕ × ℕ)
delete_key key [] = []
delete_key key ((k, i) ∷ rest) =
    let later = delete_key key rest in if key == k then later else (k, i) ∷ later

abbrev pub find_node : ℕ → List Node → Option Node
find_node i [] = none
find_node i (n ∷ ns) = let later = find_node i ns in if n.id == i then some n else later

-- `cache.List.Remove(node)`
abbrev pub remove_node : ℕ → List Node → List Node
remove_node i [] = []
remove_node i (n ∷ ns) = let later = remove_node i ns in if n.id == i then ns else n ∷ later

abbrev pub set_end : ℕ → ℕ → List Node → List Node
set_end i end [] = []
set_end i end (n ∷ ns) =
    let later = set_end i end ns in
    if n.id == i then record n { value = record n.value { end_index = end } } ∷ ns else n ∷ later

abbrev pub new_lru_cache : ℤ → LruCache
new_lru_cache capacity = record {
  capacity = capacity;
  list = [];
  elements = [];
  occupied = pos 0;
  next_id = 0;
}

-- The block, whether it was found, and the cache with its node in front.
unfoldable pub get : ℕ → LruCache → Option (Option Block × LruCache)
get bk cache = elim (lookup bk cache.elements) [
  | none ↦ some (none, cache)
  | some i ↦ elim (find_node i cache.list) [
    | none ↦ none
    | some n ↦ some (some n.value, record cache { list = n ∷ remove_node i cache.list })
  ]
]

unfoldable pub resize : ℕ → ℕ → LruCache → Option (Bool × LruCache)
resize bk new_end_index cache = elim (lookup bk cache.elements) [
  | none ↦ some (false, cache)
  | some i ↦ elim (find_node i cache.list) [
    | none ↦ none
    | some n ↦ some (
      true,
      record cache {
        occupied = cache.occupied +ℤ (pos new_end_index -ℤ pos n.value.end_index);
        list = set_end i new_end_index cache.list;
      },
    )
  ]
]

-- The block that is taken out loses its data; it is in no node of the cache any more.
unfoldable pub remove : ℕ → LruCache → Option LruCache
remove key cache = elim (lookup key cache.elements) [
  | none ↦ some cache
  | some i ↦ elim (find_node i cache.list) [
    | none ↦ none
    | some n ↦ some (record cache {
      occupied = cache.occupied -ℤ size_of n.value;
      elements = delete_key key cache.elements;
      list = remove_node i cache.list;
    })
  ]
]

-- The loop of `evict`, from the back: the last node whose block is clean.
abbrev pub oldest_clean : List Node → Option Node
oldest_clean [] = none
oldest_clean (n ∷ ns) = elim (oldest_clean ns) [
  | some m ↦ some m
  | none ↦ if dirty n.value then none else some n
]

unfoldable pub evict : LruCache → Option (Bool × LruCache)
evict cache = elim cache.list [
  | [] ↦ none
  | front ∷ rest ↦ elim (oldest_clean cache.list) [
    | none ↦ some (false, cache)
    | some n ↦ elim (remove n.key cache) [ none ↦ none | some cache' ↦ some (true, cache') ]
  ]
]

abbrev pub push_front : ℕ → Block → LruCache → LruCache
push_front key value cache = record cache {
  list = record { id = cache.next_id; key = key; value = value } ∷ cache.list;
  occupied = cache.occupied +ℤ size_of value;
  elements = (key, cache.next_id) ∷ delete_key key cache.elements;
  next_id = suc cache.next_id;
}

-- `cache.Occupied >= cache.Capacity`
abbrev pub is_full : LruCache → Bool
is_full cache =
    leb (pos_part cache.capacity + neg_part cache.occupied)
      (pos_part cache.occupied + neg_part cache.capacity)

unfoldable pub put : ℕ → Block → LruCache → Option (Bool × LruCache)
put key value cache =
    if is_full cache
    then elim (evict cache) [
      | none ↦ none
      | some (evicted, cache') ↦
          if evicted then some (true, push_front key value cache') else some (false, cache')
    ]
    else some (true, push_front key value cache)

-- `Keys` gives the keys of the map, each once.
abbrev pub keys : List (ℕ × ℕ) → List ℕ
keys [] = []
keys ((k, i) ∷ rest) = k ∷ keys rest

unfoldable pub remove_all : List ℕ → LruCache → Option LruCache
unfolding remove
remove_all [] cache = some cache
remove_all (key ∷ rest) cache = elim (remove key cache) [
  | none ↦ none
  | some cache' ↦ remove_all rest cache'
]

unfoldable pub purge : LruCache → Option LruCache
unfolding remove_all
purge cache = elim (remove_all (keys cache.elements) cache) [
  | none ↦ none
  | some cache' ↦ some (record cache' { capacity = pos 0; elements = []; list = [] })
]
