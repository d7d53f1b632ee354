-- ===== src/FileCache/LruPolicy/Links.antt =====
-- component/file_cache/lru_policy.go, `extractNode` and `setHead`: the doubly linked list, as pointers.
-- A node is a number; a nil pointer is `none`.
pub mod Chain
pub mod Extract
use cloudfuse.Base.{ℕ, Bool, false, Option, none, some, ◌==◌, if◌then◌else◌}

pub record Pointers : Type 0 where
  pub head : Option ℕ
  pub next : ℕ → Option ℕ
  pub prev : ℕ → Option ℕ

abbrev pub update {ℓ} : {A : Type ℓ} → (ℕ → A) → ℕ → A → ℕ → A
update f k v j = if j == k then v else f j

-- `p == n`, for a pointer and a node
abbrev pub points_to : Option ℕ → ℕ → Bool
points_to none n = false
points_to (some m) n = n == m

abbrev pub set_prev : Option ℕ → Option ℕ → Pointers → Pointers
set_prev none q l = l
set_prev (some m) q l = record l { prev = update l.prev m q }

abbrev pub set_next : Option ℕ → Option ℕ → Pointers → Pointers
set_next none q l = l
set_next (some m) q l = record l { next = update l.next m q }

unfoldable pub extract_node : ℕ → Pointers → Pointers
extract_node n l =
    let l1 = record l { head = if points_to l.head n then l.next n else l.head } in
    let l2 = set_prev (l1.next n) (l1.prev n) l1 in
    let l3 = set_next (l2.prev n) (l2.next n) l2 in
    set_next (some n) none (set_prev (some n) none l3)

-- A nil head is dereferenced: a panic.
unfoldable pub set_head : ℕ → Pointers → Option Pointers
set_head n l =
    let l1 = set_next (some n) l.head (set_prev (some n) none l) in
    elim l1.head [
      | none ↦ none
      | some h ↦ some (record (set_prev (some h) (some n) l1) { head = some n })
    ]
