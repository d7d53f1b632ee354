-- ===== src/LockMap/Tests.antt =====
-- Two names, and a deletion between two calls.
use cloudfuse.Base.{◌≡◌, refl, []}
use cloudfuse.LockMap.{LockMap, get, delete_name, inc, on_item}
use cloudfuse.LockMap.Sharing.{still, gets, changes, get-Others}

abbrev no_locks : LockMap
no_locks = record { store = []; locks = [] }

abbrev opened : LockMap
opened = on_item inc 0 (get "b" (get "a" no_locks).1).1

get-Others_example : get "a" opened ≡ ((get "a" no_locks).0, opened)
get-Others_example = get-Others "a" no_locks opened (
    changes {m = (get "b" (get "a" no_locks).1).1} (gets {m = (get "a" no_locks).1} still "b") inc
      0)

-- After a deletion the name gets another item: who held the old one no longer shares it.
another : (get "a" (delete_name "a" (get "a" no_locks).1)).0 ≡ 1
unfolding get delete_name
another = refl
