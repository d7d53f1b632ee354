-- ===== src/LockMap/Sharing.antt =====
-- All who ask for the lock of a file share one item, for as long as nobody deletes the name.
use Prim.Native.String.{String}
use cloudfuse.Base.{
  same, same_refl, same_path, load, load-forget, ℕ, ◌≡◌, ◌≢◌, ap, ◌∙◌, false, none, some, get_elem?,
  Bool-cases, Option-cases, inl, inr, arith,
}
use cloudfuse.LockMap.{LockMapItem, LockMap, get, delete_name, on_item}

-- The calls of other threads: any of the operations, by any name but that `Delete` has another one.
pub data Others (name : String) (l : LockMap) : LockMap → Type 0 where
  still : Others name l l
  gets : {m : LockMap} → Others name l m → (n : String) → Others name l (get n m).1
  deletes :
      {m : LockMap} → Others name l m → (n : String) → n ≢ name → Others name l (delete_name n m)
  changes :
      {m : LockMap}
      → Others name l m
      → (f : LockMapItem → LockMapItem) (i : ℕ) → Others name l (on_item f i m)

load-get :
    (n name : String) (l : LockMap) (i : ℕ)
    → load name l.locks ≡ some i
    → load name (get n l).1.locks ≡ some i
unfolding get
load-get n name l i e = elim (Option-cases (load n l.locks)) [
  | inr (j, found) ↦ ground (arith, e, found)
  | inl missing ↦
      let other : same n name ≡ false = elim (Bool-cases (same n name)) [
        | inr apart ↦ apart
        | inl both ↦
            let path : n ≡ name = same_path n name both in
            let clash : load name l.locks ≡ none = rw path at missing in ground (arith, e, clash)
      ] in
      ground (arith, e, missing, other)
]

load-on_item :
    (f : LockMapItem → LockMapItem) (i : ℕ) (l : LockMap) → (on_item f i l).locks ≡ l.locks
load-on_item f i l = elim (Option-cases (get_elem? l.store i)) [
  | inl missing ↦ ground (arith, missing)
  | inr (item, found) ↦ ground (arith, found)
]

load-delete_name :
    (n name : String) (l : LockMap)
    → n ≢ name
    → load name (delete_name n l).locks ≡ load name l.locks
unfolding delete_name
load-delete_name n name l h = load-forget n name l.locks h

load-get_self : (name : String) (l : LockMap) → load name (get name l).1.locks ≡ some (get name l).0
unfolding get
load-get_self name l =
    let own = same_refl name in
    elim (Option-cases (load name l.locks)) [
      | inl missing ↦ ground (arith, missing, own)
      | inr (j, found) ↦ ground (arith, found)
    ]

get-load : (name : String) (l : LockMap) (i : ℕ) → load name l.locks ≡ some i → get name l ≡ (i, l)
unfolding get
get-load name l i e = ground (arith, e)

load-Others :
    {name : String} {l : LockMap} {m : LockMap} {i : ℕ}
    → load name l.locks ≡ some i
    → Others name l m
    → load name m.locks ≡ some i
load-Others e still = e
load-Others {name} e (gets {m} o n) = load-get n name m _ (load-Others e o)
load-Others {name} e (deletes {m} o n h) = load-delete_name n name m h ∙ load-Others e o
load-Others {name} e (changes {m} o f i) = ap (load name) (load-on_item f i m) ∙ load-Others e o

-- Once a thread has got the item of a name, then whatever the others do, as long as none deletes that
-- name, everyone who asks for it gets the same item, and asking changes nothing.
pub get-Others :
    (name : String) (l m : LockMap)
    → Others name (get name l).1 m
    → get name m ≡ ((get name l).0, m)
get-Others name l m o = get-load name m (get name l).0 (load-Others (load-get_self name l) o)
