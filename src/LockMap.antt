-- ===== src/LockMap.antt =====
-- common/lock_map.go: the locks of files, by name. Items are shared by pointer: the map names an item
-- by its place in the store, and an item that the map no longer names stays with who holds it. The
-- mutex of an item, and its download time, are left out.
pub mod Sharing
mod Tests
use Prim.Native.String.{String}
use cloudfuse.Base.{
  load, forget, ℕ, zero, suc, ◌+◌, ◌-◌, ◌%◌, ◌^◌, Bool, true, false, Option, none, some, List, [],
  ◌∷◌, ◌++◌, length, get_elem?, set, if◌then◌else◌, ◌==◌,
}

pub record LockMapItem : Type 0 where
  pub handle_count : ℕ
  pub dirty_count : ℕ
  pub lazy_open : Bool

pub record LockMap : Type 0 where
  pub store : List LockMapItem
  pub locks : List (String × ℕ)

-- `LoadOrStore` of a new item: which item the name has, and the map afterwards.
unfoldable pub get : String → LockMap → ℕ × LockMap
get name l = elim (load name l.locks) [
  | some i ↦ (i, l)
  | none ↦ (
    length l.store,
    record {
      store = l.store ++ record { handle_count = 0; dirty_count = 0; lazy_open = false } ∷ [];
      locks = (name, length l.store) ∷ l.locks;
    },
  )
]

unfoldable pub delete_name : String → LockMap → LockMap
delete_name name l = record l { locks = forget name l.locks }

-- Counts are uint32; a decrement wraps around.
abbrev pub inc : LockMapItem → LockMapItem
inc item = record item { handle_count = (item.handle_count + 1) % 2 ^ 32 }

abbrev pub dec : LockMapItem → LockMapItem
dec item = record item { handle_count = (item.handle_count + (2 ^ 32 - 1)) % 2 ^ 32 }

abbrev pub inc_dirty : LockMapItem → LockMapItem
inc_dirty item = record item { dirty_count = (item.dirty_count + 1) % 2 ^ 32 }

-- A compare-and-swap that fails starts again from the value that is there.
abbrev pub dec_dirty : LockMapItem → LockMapItem
dec_dirty item =
    if item.dirty_count == 0 then item else record item { dirty_count = item.dirty_count - 1 }

abbrev pub count : LockMapItem → ℕ
count item = item.handle_count

abbrev pub dirty_count_of : LockMapItem → ℕ
dirty_count_of item = item.dirty_count

-- A method on the item at a place of the store.
abbrev pub on_item : (LockMapItem → LockMapItem) → ℕ → LockMap → LockMap
on_item f i l = elim (get_elem? l.store i) [
  | none ↦ l
  | some item ↦ record l { store = set l.store i (f item) }
]
