-- ===== src/FileCache/LruPolicy/Links/Extract.antt =====
-- `extractNode` takes a node out of the list, and `setHead` puts one in front.
use cloudfuse.Base.{
  ℕ, ◌≡◌, ◌≢◌, refl, sym, inl, inr, false, Option, none, some, List, [], ◌∷◌, ◌++◌, All, ◌==◌,
  if◌then◌else◌, Option-cases, arith,
}
use cloudfuse.FileCache.LruPolicy.Links.{Pointers, update, points_to, extract_node, set_head}
use cloudfuse.FileCache.LruPolicy.Links.Chain.{
  Linked, IsAbsent, IsDistinct, IsList, first_of, last_of, Linked-frame, Linked-middle,
  IsAbsent-middle, IsDistinct-middle, last_of-IsAbsent,
}

-- What every pointer is after `extractNode`, where the node does not point to itself.
module _ (n : ℕ) (l : Pointers) (no_loop : l.next n ≢ some n) (no_loop' : l.prev n ≢ some n) where
  next-extract_node :
      (x : ℕ)
      → (extract_node n l).next x
        ≡ (if x == n then none else if points_to (l.prev n) x then l.next n else l.next x)
  unfolding extract_node
  next-extract_node x = ground arith

  prev-extract_node :
      (x : ℕ)
      → (extract_node n l).prev x
        ≡ (if x == n then none else if points_to (l.next n) x then l.prev n else l.prev x)
  unfolding extract_node
  prev-extract_node x = ground arith

  head-extract_node : (extract_node n l).head ≡ (if points_to l.head n then l.next n else l.head)
  unfolding extract_node
  head-extract_node = ground arith

abbrev IsOutside : Option ℕ → List ℕ → Type 0
IsOutside p xs = All (λ x. p ≢ some x) xs

-- The pointer that leads into a list: the first, if the node stood in front, or the second.
abbrev entry : List ℕ → Option ℕ → Option ℕ → Option ℕ
entry [] a b = a
entry (x ∷ xs) a b = b

Outside-some : (p : ℕ) (xs : List ℕ) → IsAbsent p xs → IsOutside (some p) xs
Outside-some p [] h = tt
Outside-some p (x ∷ xs) h = (ground (arith, h.0), Outside-some p xs h.1)

first-absent : (k : ℕ) (xs : List ℕ) → IsAbsent k xs → first_of xs ≢ some k
first-absent k [] h = ground arith
first-absent k (x ∷ xs) h = ground (arith, h.0)

module _ (n : ℕ) (l t : Pointers)
    (next_t : (x : ℕ)
      → t.next x ≡ (if x == n then none else if points_to (l.prev n) x then l.next n else l.next x))
    (prev_t : (x : ℕ)
      → t.prev x
        ≡ (if x == n then none else if points_to (l.next n) x then l.prev n else l.prev x)) where
  same_outside :
      (xs : List ℕ)
      → IsAbsent n xs
      → IsOutside (l.prev n) xs
      → IsOutside (l.next n) xs
      → All (λ x. (t.next x ≡ l.next x) × (t.prev x ≡ l.prev x)) xs
  same_outside [] a p q = tt
  same_outside (x ∷ xs) a p q =
      let next = next_t x in
      let prev = prev_t x in
      let rest = same_outside xs a.1 p.1 q.1 in
      ((ground (arith, next, a.0, p.0), ground (arith, prev, a.0, q.0)), rest)

  entered :
      (x : ℕ) (xs : List ℕ)
      → l.prev n ≡ last_of (some x) xs
      → n ≢ x
      → IsAbsent x xs
      → t.next x ≡ entry xs (l.next n) (l.next x)
  entered x [] e h a = let next = next_t x in ground (arith, next, e, h)
  entered x (y ∷ ys) e h a =
      let next = next_t x in
      let other = last_of-IsAbsent x y ys (λ q. a.0 (sym q)) a.1 in
      ground (arith, next, e, h, other)

  -- Without the node, the rest is linked as before.
  Linked-extract :
      (before cur : Option ℕ) (xs ys : List ℕ)
      → Linked l before cur (xs ++ n ∷ ys)
      → IsDistinct (xs ++ n ∷ ys)
      → IsOutside before (xs ++ n ∷ ys)
      → Linked t before (entry xs (l.next n) cur) (xs ++ ys)
  Linked-extract before cur [] [] c d o = c.2
  Linked-extract before cur [] (y ∷ ys) c d o =
      let (_, prev, later) = c in
      let (to_y, y_prev, chain) = later in
      let next = next_t y in
      let back = prev_t y in
      let apart : IsOutside (l.prev n) ys = rw prev o.1.1 in
      let apart' : IsOutside (l.next n) ys = rw to_y (Outside-some y ys d.1.0) in
      let same = same_outside ys d.0.1 apart apart' in
      let y_next : t.next y ≡ l.next y = ground (arith, next, prev, d.0.0, o.1.0) in
      (
        to_y,
        ground (arith, back, to_y, prev, d.0.0),
        rw y_next (Linked-frame l t (some y) (l.next y) ys same chain),
      )
  Linked-extract before cur (x ∷ xs) ys c d o =
      let (here, x_prev, chain) = c in
      let (prev, next) = Linked-middle l (some x) (l.next x) xs ys n chain in
      let rest =
        Linked-extract (some x) (l.next x) xs ys chain d.1 (Outside-some x (xs ++ n ∷ ys) d.0) in
      let (apart, ax, ay) = IsAbsent-middle x xs ys n d.0 in
      let x_next : t.next x ≡ entry xs (l.next n) (l.next x) = entered x xs prev apart ax in
      let not_next = first-absent x ys ay in
      let back = prev_t x in
      (here, ground (arith, back, next, x_prev, apart, not_next), rw x_next rest)

last-absent : (k : ℕ) (xs : List ℕ) → IsAbsent k xs → last_of none xs ≢ some k
last-absent k [] h = ground arith
last-absent k (x ∷ xs) h = last_of-IsAbsent k x xs (λ q. h.0 (sym q)) h.1

IsOutside-none : (xs : List ℕ) → IsOutside none xs
IsOutside-none [] = tt
IsOutside-none (x ∷ xs) = (ground arith, IsOutside-none xs)

head_entry :
    (l : Pointers) (n : ℕ) (xs ys : List ℕ)
    → Linked l none l.head (xs ++ n ∷ ys)
    → IsAbsent n xs
    → (if points_to l.head n then l.next n else l.head) ≡ entry xs (l.next n) l.head
head_entry l n [] ys c a = ground (arith, c.0)
head_entry l n (x ∷ xs) ys c a = ground (arith, c.0, a.0)

-- The node is taken out of the list that the pointers stand for, and points nowhere.
pub extract_node-IsList :
    (l : Pointers) (xs ys : List ℕ) (n : ℕ)
    → IsList l (xs ++ n ∷ ys)
    → IsList (extract_node n l) (xs ++ ys)
      × ((extract_node n l).next n ≡ none)
      × ((extract_node n l).prev n ≡ none)
extract_node-IsList l xs ys n h =
    let (prev, next) = Linked-middle l none l.head xs ys n h.chain in
    let (rest, before, after) = IsDistinct-middle xs ys n h.distinct in
    let no_loop : l.next n ≢ some n = rw next (first-absent n ys after) in
    let no_loop' : l.prev n ≢ some n = rw prev (last-absent n xs before) in
    let next_t = next-extract_node n l no_loop no_loop' in
    let prev_t = prev-extract_node n l no_loop no_loop' in
    let head = head-extract_node n l no_loop no_loop' in
    let chain =
      Linked-extract n l (extract_node n l) next_t prev_t none l.head xs ys h.chain h.distinct
        (IsOutside-none (xs ++ n ∷ ys)) in
    let entered_at = head_entry l n xs ys h.chain before in
    (
      record { chain = rw (head, entered_at) chain; distinct = rest },
      ground (arith, next_t n),
      ground (arith, prev_t n),
    )

pub not_first :
    (l : Pointers) (xs : List ℕ) (n : ℕ) → IsList l xs → IsAbsent n xs → points_to l.head n ≡ false
not_first l [] n h a = ground (arith, h.chain)
not_first l (x ∷ xs) n h a = ground (arith, h.chain, a.0)

set_head_same :
    (l : Pointers) (x n : ℕ) (xs : List ℕ)
    → IsAbsent x xs
    → IsAbsent n xs
    → All
        (λ y.
          (update l.next n (some x) y ≡ l.next y)
          × (update (update l.prev n none) x (some n) y ≡ l.prev y))
        xs
set_head_same l x n [] a b = tt
set_head_same l x n (y ∷ ys) a b =
    ((ground (arith, a.0, b.0), ground (arith, a.0, b.0)), set_head_same l x n ys a.1 b.1)

-- A node that is in no list and points nowhere may be taken out too: the list stays.
pub extract_node-absent :
    (l : Pointers) (xs : List ℕ) (n : ℕ)
    → IsList l xs
    → IsAbsent n xs
    → l.next n ≡ none
    → l.prev n ≡ none
    → IsList (extract_node n l) xs
      × ((extract_node n l).next n ≡ none)
      × ((extract_node n l).prev n ≡ none)
extract_node-absent l xs n h absent next prev =
    let no_loop : l.next n ≢ some n = ground (arith, next) in
    let no_loop' : l.prev n ≢ some n = ground (arith, prev) in
    let next_t = next-extract_node n l no_loop no_loop' in
    let prev_t = prev-extract_node n l no_loop no_loop' in
    let head = head-extract_node n l no_loop no_loop' in
    let same =
      same_outside n l (extract_node n l) next_t prev_t xs absent (rw prev (IsOutside-none xs))
        (rw next (IsOutside-none xs)) in
    let not_head : points_to l.head n ≡ false = not_first l xs n h absent in
    let head' : (extract_node n l).head ≡ l.head = ground (arith, head, not_head) in
    (
      record {
        chain = rw head' (Linked-frame l (extract_node n l) none l.head xs same h.chain);
        distinct = h.distinct;
      },
      ground (arith, next_t n),
      ground (arith, prev_t n),
    )

-- A node that is not in the list becomes its head.
pub set_head-IsList :
    (l : Pointers) (x : ℕ) (xs : List ℕ) (n : ℕ)
    → IsList l (x ∷ xs)
    → IsAbsent n (x ∷ xs)
    → (m : Pointers) × (set_head n l ≡ some m) × IsList m (n ∷ x ∷ xs)
unfolding set_head
set_head-IsList l x xs n h absent =
    let m : Pointers = record {
      head = some n;
      next = update l.next n (some x);
      prev = update (update l.prev n none) x (some n);
    } in
    let same : All (λ y. (m.next y ≡ l.next y) × (m.prev y ≡ l.prev y)) xs =
      set_head_same l x n xs h.distinct.0 absent.1 in
    let chain = h.chain in
    let x_next : m.next x ≡ l.next x = ground (arith, absent.0) in
    (
      m,
      rw chain.0 refl,
      record {
        chain = (
          refl,
          ground (arith, absent.0),
          (
            ground arith,
            ground arith,
            rw x_next (Linked-frame l m (some x) (l.next x) xs same chain.2),
          ),
        );
        distinct = (absent, h.distinct);
      },
    )

-- The pointers of a node that is not in the list stay.
pub extract_node-frame :
    (l : Pointers) (xs ys : List ℕ) (n k : ℕ)
    → IsList l (xs ++ n ∷ ys)
    → IsAbsent k (xs ++ n ∷ ys)
    → ((extract_node n l).next k ≡ l.next k) × ((extract_node n l).prev k ≡ l.prev k)
extract_node-frame l xs ys n k h absent =
    let (prev, next) = Linked-middle l none l.head xs ys n h.chain in
    let (rest, before, after) = IsDistinct-middle xs ys n h.distinct in
    let (apart, kx, ky) = IsAbsent-middle k xs ys n absent in
    let no_loop : l.next n ≢ some n = rw next (first-absent n ys after) in
    let no_loop' : l.prev n ≢ some n = rw prev (last-absent n xs before) in
    let next_k = next-extract_node n l no_loop no_loop' k in
    let prev_k = prev-extract_node n l no_loop no_loop' k in
    let not_next : l.next n ≢ some k = rw next (first-absent k ys ky) in
    let not_prev : l.prev n ≢ some k = rw prev (last-absent k xs kx) in
    (ground (arith, next_k, not_prev, apart), ground (arith, prev_k, not_next, apart))

pub extract_node-frame_absent :
    (l : Pointers) (n k : ℕ)
    → l.next n ≡ none
    → l.prev n ≡ none
    → k ≢ n
    → ((extract_node n l).next k ≡ l.next k) × ((extract_node n l).prev k ≡ l.prev k)
unfolding extract_node
extract_node-frame_absent l n k next prev apart = ground (arith, next, prev, apart)

pub set_head-frame :
    (l m : Pointers) (n k : ℕ)
    → set_head n l ≡ some m
    → k ≢ n
    → points_to l.head k ≡ false
    → (m.next k ≡ l.next k) × (m.prev k ≡ l.prev k)
unfolding set_head
set_head-frame l m n k e apart not_head = elim (Option-cases l.head) [
  | inl empty ↦ ground (arith, e, empty)
  | inr (h, head) ↦
      (ground (arith, e, head, apart, not_head), ground (arith, e, head, apart, not_head))
]
