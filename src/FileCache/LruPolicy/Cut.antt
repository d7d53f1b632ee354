-- ===== src/FileCache/LruPolicy/Cut.antt =====
-- A list that is cut behind one of its nodes, and linked to a later part of what was cut off.
use cloudfuse.Base.{
  ℕ, ◌≡◌, ◌≢◌, refl, sym, ◌∙◌, false, Option, none, some, List, [], ◌∷◌, ◌++◌, ◌==◌, if◌then◌else◌,
  All, arith,
}
use cloudfuse.FileCache.LruPolicy.Links.{Pointers, points_to, set_prev, set_next}
use cloudfuse.FileCache.LruPolicy.Links.Chain.{
  Linked, IsAbsent, IsDistinct, IsList, first_of, Linked-frame, IsAbsent-middle, IsDistinct-middle,
}

-- Behind `n`, the list goes on with `stop`; `node` was the one that followed.
abbrev pub relink : ℕ → Option ℕ → Option ℕ → Pointers → Pointers
relink n node stop l =
    set_prev stop (some n) (set_next (some n) stop (set_prev node none (set_next (some n) none l)))

Linked-suffix :
    (l : Pointers) (before cur : Option ℕ) (ys zs : List ℕ)
    → Linked l before cur (ys ++ zs)
    → (b : Option ℕ) × Linked l b (first_of zs) zs
Linked-suffix l before cur [] [] c = (before, refl)
Linked-suffix l before cur [] (z ∷ zs) c = (before, (refl, c.1, c.2))
Linked-suffix l before cur (y ∷ ys) zs c = Linked-suffix l (some y) (l.next y) ys zs c.2

Linked-behind :
    (l : Pointers) (before cur : Option ℕ) (xs rest : List ℕ) (n : ℕ)
    → Linked l before cur (xs ++ n ∷ rest)
    → Linked l (some n) (l.next n) rest
Linked-behind l before cur [] rest n c = c.2
Linked-behind l before cur (x ∷ xs) rest n c = Linked-behind l (some x) (l.next x) xs rest n c.2

Linked-cut :
    (l m : Pointers) (before cur : Option ℕ) (xs rest zs : List ℕ) (n : ℕ)
    → Linked l before cur (xs ++ n ∷ rest)
    → All (λ x. (m.next x ≡ l.next x) × (m.prev x ≡ l.prev x)) xs
    → m.prev n ≡ l.prev n
    → m.next n ≡ first_of zs
    → Linked m (some n) (first_of zs) zs
    → Linked m before cur (xs ++ n ∷ zs)
Linked-cut l m before cur [] rest zs n c same prev next tail = (c.0, prev ∙ c.1, rw next tail)
Linked-cut l m before cur (x ∷ xs) rest zs n c same prev next tail =
    let (same_next, same_prev) = same.0 in
    let later = Linked-cut l m (some x) (l.next x) xs rest zs n c.2 same.1 prev next tail in
    (c.0, same_prev ∙ c.1, rw same_next later)

-- The parts of a list of distinct nodes.
pub IsDistinct-parts :
    (xs rest : List ℕ) (n : ℕ)
    → IsDistinct (xs ++ n ∷ rest)
    → All (λ x. (x ≢ n) × IsAbsent x rest) xs × IsAbsent n rest × IsDistinct rest
IsDistinct-parts [] rest n d = (tt, d.0, d.1)
IsDistinct-parts (x ∷ xs) rest n d =
    let (later, absent, distinct) = IsDistinct-parts xs rest n d.1 in
    let (apart, ax, ar) = IsAbsent-middle x xs rest n d.0 in
    ((((λ e. apart (sym e)), ar), later), absent, distinct)

pub IsAbsent-suffix : (k : ℕ) (ys zs : List ℕ) → IsAbsent k (ys ++ zs) → IsAbsent k zs
IsAbsent-suffix k [] zs h = h
IsAbsent-suffix k (y ∷ ys) zs h = IsAbsent-suffix k ys zs h.1

pub next-relink :
    (n : ℕ) (node stop : Option ℕ) (l : Pointers) (x : ℕ)
    → (relink n node stop l).next x ≡ (if x == n then stop else l.next x)
next-relink n none none l x = ground arith
next-relink n none (some s) l x = ground arith
next-relink n (some m) none l x = ground arith
next-relink n (some m) (some s) l x = ground arith

pub prev-relink :
    (n : ℕ) (node stop : Option ℕ) (l : Pointers) (x : ℕ)
    → (relink n node stop l).prev x
      ≡ (if points_to stop x then some n else if points_to node x then none else l.prev x)
prev-relink n none none l x = ground arith
prev-relink n none (some s) l x = ground arith
prev-relink n (some m) none l x = ground arith
prev-relink n (some m) (some s) l x = ground arith

head-relink : (n : ℕ) (node stop : Option ℕ) (l : Pointers) → (relink n node stop l).head ≡ l.head
head-relink n none none l = refl
head-relink n none (some s) l = refl
head-relink n (some m) none l = refl
head-relink n (some m) (some s) l = refl

abbrev IsOutside : Option ℕ → List ℕ → Type 0
IsOutside p xs = All (λ x. points_to p x ≡ false) xs

absent-IsOutside : (k : ℕ) (xs : List ℕ) → IsAbsent k xs → IsOutside (some k) xs
absent-IsOutside k [] h = tt
absent-IsOutside k (x ∷ xs) h = (ground (arith, h.0), absent-IsOutside k xs h.1)

first-IsOutside :
    (ys zs : List ℕ) (z : ℕ) → IsDistinct (ys ++ z ∷ zs) → IsOutside (first_of (ys ++ z ∷ zs)) zs
first-IsOutside [] zs z d = absent-IsOutside z zs d.0
first-IsOutside (y ∷ ys) zs z d =
    absent-IsOutside y zs (IsAbsent-suffix y (ys ++ z ∷ []) zs (regroup y ys zs z d.0))
  where
    regroup :
        (y : ℕ) (ys zs : List ℕ) (z : ℕ)
        → IsAbsent y (ys ++ z ∷ zs)
        → IsAbsent y ((ys ++ z ∷ []) ++ zs)
    regroup y [] zs z h = h
    regroup y (k ∷ ys) zs z h = (h.0, regroup y ys zs z h.1)

first-absent : (k : ℕ) (xs : List ℕ) → IsAbsent k xs → points_to (first_of xs) k ≡ false
first-absent k [] h = refl
first-absent k (x ∷ xs) h = ground (arith, h.0)

module _ (n : ℕ) (node stop : Option ℕ) (l : Pointers) where
  same-relink :
      (xs : List ℕ)
      → IsAbsent n xs
      → IsOutside node xs
      → IsOutside stop xs
      → All
          (λ x.
            ((relink n node stop l).next x ≡ l.next x) × ((relink n node stop l).prev x ≡ l.prev x))
          xs
  same-relink [] a b c = tt
  same-relink (x ∷ xs) a b c =
      let next = next-relink n node stop l x in
      let prev = prev-relink n node stop l x in
      ((ground (arith, next, a.0), ground (arith, prev, b.0, c.0)), same-relink xs a.1 b.1 c.1)

before-same :
    (n : ℕ) (l : Pointers) (rest zs xs : List ℕ)
    → All (λ x. (x ≢ n) × IsAbsent x rest × IsAbsent x zs) xs
    → All
        (λ x.
          ((relink n (first_of rest) (first_of zs) l).next x ≡ l.next x)
          × ((relink n (first_of rest) (first_of zs) l).prev x ≡ l.prev x))
        xs
before-same n l rest zs [] h = tt
before-same n l rest zs (x ∷ xs) h =
    let (apart, in_rest, in_zs) = h.0 in
    let next = next-relink n (first_of rest) (first_of zs) l x in
    let prev = prev-relink n (first_of rest) (first_of zs) l x in
    let a = first-absent x rest in_rest in
    let b = first-absent x zs in_zs in
    ((ground (arith, next, apart), ground (arith, prev, a, b)), before-same n l rest zs xs h.1)

Linked-tail :
    (n : ℕ) (l : Pointers) (ys zs : List ℕ) (b : Option ℕ)
    → Linked l b (first_of zs) zs
    → IsDistinct (ys ++ zs)
    → IsAbsent n (ys ++ zs)
    → Linked (relink n (first_of (ys ++ zs)) (first_of zs) l) (some n) (first_of zs) zs
Linked-tail n l ys [] b c d a = refl
Linked-tail n l ys (z ∷ zs) b c d a =
    let node = first_of (ys ++ z ∷ zs) in
    let (_, later_absent) = IsAbsent-suffix n ys (z ∷ zs) a in
    let (_, _, after) = IsDistinct-middle ys zs z d in
    let same =
      same-relink n node (some z) l zs later_absent (first-IsOutside ys zs z d)
        (absent-IsOutside z zs after) in
    let prev = prev-relink n node (some z) l z in
    let next = next-relink n node (some z) l z in
    let apart = (IsAbsent-suffix n ys (z ∷ zs) a).0 in
    let z_next : (relink n node (some z) l).next z ≡ l.next z = ground (arith, next, apart) in
    (
      refl,
      ground (arith, prev),
      rw z_next (Linked-frame l (relink n node (some z) l) (some z) (l.next z) zs same c.2),
    )

-- The nodes `ys` behind `n` leave the list.
pub relink-IsList :
    (l : Pointers) (xs ys zs : List ℕ) (n : ℕ)
    → IsList l (xs ++ n ∷ (ys ++ zs))
    → IsList (relink n (first_of (ys ++ zs)) (first_of zs) l) (xs ++ n ∷ zs)
relink-IsList l xs ys zs n h =
    let rest = ys ++ zs in
    let m = relink n (first_of rest) (first_of zs) l in
    let (before, absent, distinct) = IsDistinct-parts xs rest n h.distinct in
    let (b, suffix) =
      Linked-suffix l (some n) (l.next n) ys zs (Linked-behind l none l.head xs rest n h.chain) in
    let tail = Linked-tail n l ys zs b suffix distinct absent in
    let same = before-same n l rest zs xs (both xs ys zs n before) in
    let prev = prev-relink n (first_of rest) (first_of zs) l n in
    let next = next-relink n (first_of rest) (first_of zs) l n in
    let a = first-absent n rest absent in
    let a' = first-absent n zs (IsAbsent-suffix n ys zs absent) in
    let m_prev : m.prev n ≡ l.prev n = ground (arith, prev, a, a') in
    let m_next : m.next n ≡ first_of zs = ground (arith, next) in
    record {
      chain =
          rw (head-relink n (first_of rest) (first_of zs) l)
            (Linked-cut l m none l.head xs rest zs n h.chain same m_prev m_next tail);
      distinct = IsDistinct-cut xs ys zs n h.distinct;
    }
  where
    both :
        (xs ys zs : List ℕ) (n : ℕ)
        → All (λ x. (x ≢ n) × IsAbsent x (ys ++ zs)) xs
        → All (λ x. (x ≢ n) × IsAbsent x (ys ++ zs) × IsAbsent x zs) xs
    both [] ys zs n h = tt
    both (x ∷ xs) ys zs n h =
        let (a, b) = h.0 in ((a, b, IsAbsent-suffix x ys zs b), both xs ys zs n h.1)

    IsAbsent-cut :
        (k : ℕ) (xs ys zs : List ℕ) (n : ℕ)
        → IsAbsent k (xs ++ n ∷ (ys ++ zs))
        → IsAbsent k (xs ++ n ∷ zs)
    IsAbsent-cut k [] ys zs n h = (h.0, IsAbsent-suffix k ys zs h.1)
    IsAbsent-cut k (x ∷ xs) ys zs n h = (h.0, IsAbsent-cut k xs ys zs n h.1)

    IsDistinct-suffix : (ys zs : List ℕ) → IsDistinct (ys ++ zs) → IsDistinct zs
    IsDistinct-suffix [] zs d = d
    IsDistinct-suffix (y ∷ ys) zs d = IsDistinct-suffix ys zs d.1

    IsDistinct-cut :
        (xs ys zs : List ℕ) (n : ℕ) → IsDistinct (xs ++ n ∷ (ys ++ zs)) → IsDistinct (xs ++ n ∷ zs)
    IsDistinct-cut [] ys zs n d = (IsAbsent-suffix n ys zs d.0, IsDistinct-suffix ys zs d.1)
    IsDistinct-cut (x ∷ xs) ys zs n d =
        (IsAbsent-cut x xs ys zs n d.0, IsDistinct-cut xs ys zs n d.1)
