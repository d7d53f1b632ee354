-- ===== src/LruCache/Tests.antt =====
-- A cache with room for one block of four bytes.
use cloudfuse.Base.{ℕ, ◌≡◌, ◌⊎◌, refl, Bool, true, false, none, some, List, [], ◌∷◌, ◌++◌, arith}
use cloudfuse.Base.Int.{pos, ◌+ℤ◌, ◌-ℤ◌, ◌≤ℤ◌}
use cloudfuse.BlockList.{Block, dirty}
use cloudfuse.LruCache.{Node, LruCache, lookup, remove_node, get, resize, remove, evict, put, purge}
use cloudfuse.LruCache.Laws.{IsCache, remove-IsCache, get-IsCache, resize-IsCache}
use cloudfuse.LruCache.Purge.{purge-IsCache}
use cloudfuse.LruCache.Evict.{IsDirty, evict-oldest, IsAdded, put-IsAdded}

abbrev block : ℕ → ℕ → Block
block start end = record { start_index = start; end_index = end; flags = 0; id = "id"; bytes = [] }

abbrev one : LruCache
one = record {
  capacity = pos 4;
  list = record { id = 0; key = 0; value = block 0 4 } ∷ [];
  elements = (0, 0) ∷ [];
  occupied = pos 4;
  next_id = 1;
}

one-IsCache : IsCache one
unfolding ◌+ℤ◌ ◌-ℤ◌
one-IsCache = record {
  distinct = (tt, tt);
  old = (omega arith, tt);
  agrees = λ k. ground arith;
  counted = refl;
}

remove-IsCache_test :
    (d : LruCache) × (remove 0 one ≡ some d) × IsCache d × (lookup 0 d.elements ≡ none)
remove-IsCache_test = remove-IsCache one 0 one-IsCache

get-IsCache_test :
    ((lookup 0 one.elements ≡ none) × (get 0 one ≡ some (none, one)))
    ⊎ ((n : Node) × (d : LruCache) × (get 0 one ≡ some (some n.value, d))
        × (n.key ≡ 0)
        × (d.list ≡ n ∷ remove_node n.id one.list)
        × IsCache d)
get-IsCache_test = get-IsCache one 0 one-IsCache

resize_test : (found : Bool) × (d : LruCache) × (resize 0 2 one ≡ some (found, d)) × IsCache d
resize_test = resize-IsCache one 0 2 one-IsCache

evict-oldest_example :
    ((evict one ≡ some (false, one)) × IsDirty one.list)
    ⊎ ((d : LruCache) × (n : Node) × (before : List Node) × (after : List Node) × (evict one
          ≡ some (true, d))
        × (one.list ≡ before ++ n ∷ after)
        × (dirty n.value ≡ false)
        × IsDirty after
        × (d.list ≡ before ++ after)
        × IsCache d)
evict-oldest_example = evict-oldest one one-IsCache (ground arith)

put-IsAdded_example :
    ((¬ (one.capacity ≤ℤ one.occupied))
      × ((d : LruCache) × (put 4 (block 4 8) one ≡ some (true, d))
          × IsAdded 4 (block 4 8) one.list d))
    ⊎ (((one.capacity ≤ℤ one.occupied)
          × ((d : LruCache) × (n : Node) × (before : List Node) × (after : List Node) × (put 4
                  (block 4 8)
                  one
                ≡ some (true, d))
              × (one.list ≡ before ++ n ∷ after)
              × (dirty n.value ≡ false)
              × IsDirty after
              × IsAdded 4 (block 4 8) (before ++ after) d))
        ⊎ ((one.capacity ≤ℤ one.occupied)
            × IsDirty one.list
            × (put 4 (block 4 8) one ≡ some (false, one))))
put-IsAdded_example = put-IsAdded one 4 (block 4 8) one-IsCache (omega arith) refl

-- `Put` of a key that is there: its old node stays in the list, and its size in `occupied`.
leaks :
    put 0 (block 0 4) (record one { capacity = pos 9 })
    ≡ some (
      true,
      record {
        capacity = pos 9;
        list = record { id = 1; key = 0; value = block 0 4 } ∷ one.list;
        elements = (0, 1) ∷ [];
        occupied = pos 8;
        next_id = 2;
      },
    )
unfolding put ◌+ℤ◌ ◌-ℤ◌
leaks = refl

purge_test :
    (d : LruCache) × (purge one ≡ some d)
    × IsCache d
    × (d.list ≡ [])
    × (d.capacity ≡ pos 0)
    × (d.occupied ≡ pos 0)
purge_test = purge-IsCache one one-IsCache
