-- ===== src/FileCache/LruPolicy/Steps.antt =====
-- Every call of the policy on a file, and every `updateMarker`, moves one node of a list.
-- The timeout case of `clearCache` calls `updateMarker` and then `deleteExpiredNodes`; that second call
-- is no event here. `Timeout` is about the two together.
use Prim.Native.String.{String}
use cloudfuse.Base.{ℕ, refl, true, false, Option, none, some, List, [], ◌∷◌, load, arith}
use cloudfuse.FileCache.LruPolicy.{
  LruPolicy, new_lru_policy, cache_validate, remove_node, update_marker,
}
use cloudfuse.FileCache.LruPolicy.Order.{erase, front, IsPolicy, node_of}

pub data Event : Type 0 where
  valid touch purge : String → Event
  mark : Event

-- `CacheValid` of a file, a round of `asyncCacheValid`, `CachePurge`, and `updateMarker`.
unfoldable pub step : Event → LruPolicy → Option LruPolicy
step (valid name) p = cache_validate name true p
step (touch name) p = cache_validate name false p
step (purge name) p = some (remove_node name p)
step mark p = update_marker p

abbrev pub moved : Event → LruPolicy → List ℕ → List ℕ
moved (valid name) p xs = front (node_of name p) xs
moved (touch name) p xs = elim (load name p.node_map) [ none ↦ xs | some n ↦ front n xs ]
moved (purge name) p xs = elim (load name p.node_map) [ none ↦ xs | some n ↦ erase n xs ]
moved mark p xs = front p.last_marker xs

-- The list that the policy starts with is the two markers.
pub new_lru_policy-IsPolicy :
    (max_eviction : ℕ) → IsPolicy (new_lru_policy max_eviction) (0 ∷ 1 ∷ [])
unfolding new_lru_policy
new_lru_policy-IsPolicy max_eviction = record {
  list = record {
    chain = (refl, refl, (refl, refl, refl));
    distinct = ((ground arith, tt), (tt, tt));
  };
  young = (ground arith, (ground arith, tt));
  blank = λ n le. (ground (arith, le), ground (arith, le));
  has_curr = refl;
  has_last = refl;
  apart = ground arith;
  mapped = λ name n e. absurd (ground (arith, e));
}
