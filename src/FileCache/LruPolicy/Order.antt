-- ===== src/FileCache/LruPolicy/Order.antt =====
-- The policy's pointers against plain lists: each operation moves one node of a list.
use Prim.Native.String.{String}
use cloudfuse.Base.{
  ℕ, suc, ◌≤◌, ◌<◌, ◌≡◌, ◌≢◌, refl, ap, ◌∙◌, inl, inr, Bool, true, false, ◌||◌, none, some, List,
  [], ◌∷◌, ◌++◌, ◌==◌, if◌then◌else◌, All, Bool-cases, load, arith,
}
use mathlib.Core.Path.{subst}
use cloudfuse.FileCache.LruPolicy.{LruPolicy}
use cloudfuse.FileCache.LruPolicy.Links.{Pointers, extract_node, set_head}
use cloudfuse.FileCache.LruPolicy.Links.Chain.{IsAbsent, IsList, IsDistinct-middle, IsAbsent-append}
use cloudfuse.FileCache.LruPolicy.Links.Extract.{
  extract_node-IsList, extract_node-absent, set_head-IsList, extract_node-frame,
  extract_node-frame_absent, set_head-frame, not_first,
}

abbrev pub has : ℕ → List ℕ → Bool
has n [] = false
has n (x ∷ xs) = (x == n) || has n xs

abbrev pub erase : ℕ → List ℕ → List ℕ
erase n [] = []
erase n (x ∷ xs) = let rest = erase n xs in if x == n then xs else x ∷ rest

-- A node of the list, or a new one, put in front of the others.
abbrev pub front : ℕ → List ℕ → List ℕ
front n xs = n ∷ erase n xs

pub split_at :
    (n : ℕ) (xs : List ℕ)
    → has n xs ≡ true
    → (ys : List ℕ) × (zs : List ℕ) × (xs ≡ ys ++ n ∷ zs) × (erase n xs ≡ ys ++ zs) × IsAbsent n ys
split_at n [] h = ground (arith, h)
split_at n (x ∷ xs) h = elim (Bool-cases (x == n)) [
  | inl here ↦
      let eq : x ≡ n = ground (arith, here) in
      ([], xs, ap (λ y. y ∷ xs) eq, ground (arith, here), tt)
  | inr other ↦
      let (ys, zs, split, gone, before) = split_at n xs (ground (arith, h, other)) in
      (
        x ∷ ys,
        zs,
        ap (λ l. x ∷ l) split,
        ground (arith, gone, other),
        (ground (arith, other), before),
      )
]

pub erase-IsAbsent : (n : ℕ) (xs : List ℕ) → has n xs ≡ false → (erase n xs ≡ xs) × IsAbsent n xs
erase-IsAbsent n [] h = (refl, tt)
erase-IsAbsent n (x ∷ xs) h =
    let (same_rest, rest) = erase-IsAbsent n xs (ground (arith, h)) in
    (ground (arith, h, same_rest), (ground (arith, h), rest))

pub has-erase : (k n : ℕ) (xs : List ℕ) → k ≢ n → has k (erase n xs) ≡ has k xs
has-erase k n [] h = refl
has-erase k n (x ∷ xs) h = let rest = has-erase k n xs h in ground (arith, rest, h)

pub All-erase :
    (bound n : ℕ) (xs : List ℕ) → All (λ x. x < bound) xs → All (λ x. x < bound) (erase n xs)
All-erase bound n [] h = tt
All-erase bound n (x ∷ xs) h = let rest = All-erase bound n xs h.1 in ground (arith, h, rest)

pub below-of-has :
    (bound n : ℕ) (xs : List ℕ) → All (λ x. x < bound) xs → has n xs ≡ true → n < bound
below-of-has bound n [] h e = ground (arith, e)
below-of-has bound n (x ∷ xs) h e =
    let rest = below-of-has bound n xs h.1 in ground (arith, e, h.0, rest)

pub older : (bound : ℕ) (xs : List ℕ) → All (λ x. x < bound) xs → All (λ x. x < suc bound) xs
older bound [] h = tt
older bound (x ∷ xs) h = (omega (arith, h), older bound xs h.1)

-- The pointers stand for the list; both markers and every file of the map are in it, under their
-- names; and nodes to come are in no list.
pub record IsPolicy (p : LruPolicy) (xs : List ℕ) : Type 0 where
  pub list : IsList p.links xs
  pub young : All (λ x. x < p.next_node) xs
  pub blank : (n : ℕ) → p.next_node ≤ n → (p.links.next n ≡ none) × (p.links.prev n ≡ none)
  pub has_curr : has p.curr_marker xs ≡ true
  pub has_last : has p.last_marker xs ≡ true
  pub apart : p.curr_marker ≢ p.last_marker
  pub mapped :
      (name : String) (n : ℕ)
      → load name p.node_map ≡ some n
      → (has n xs ≡ true) × (p.name_of n ≡ name) × (n ≢ p.curr_marker) × (n ≢ p.last_marker)

-- The node of a file, or the next new one.
abbrev pub node_of : String → LruPolicy → ℕ
node_of name p = elim (load name p.node_map) [ none ↦ p.next_node | some n ↦ n ]

-- Nodes outside the list keep their pointers when one is moved to the front.
unfoldable pub Frame : Pointers → Pointers → ℕ → List ℕ → Type 0
Frame l m n xs = (k : ℕ) → IsAbsent k xs → k ≢ n → (m.next k ≡ l.next k) × (m.prev k ≡ l.prev k)

IsAbsent-erased : (k n : ℕ) (ys zs : List ℕ) → IsAbsent k (ys ++ n ∷ zs) → IsAbsent k (ys ++ zs)
IsAbsent-erased k n [] zs h = h.1
IsAbsent-erased k n (y ∷ ys) zs h = (h.0, IsAbsent-erased k n ys zs h.1)

set_head-rest :
    (l : Pointers) (xs : List ℕ) (x n : ℕ)
    → IsList l xs
    → IsAbsent n xs
    → has x xs ≡ true
    → (m : Pointers) × (set_head n l ≡ some m) × IsList m (n ∷ xs)
set_head-rest l [] x n h absent e = ground (arith, e)
set_head-rest l (y ∷ ys) x n h absent e = set_head-IsList l y ys n h absent

-- Some other node makes sure that the list is not empty without the moved one.
pub front-IsList :
    (l : Pointers) (xs : List ℕ) (n other : ℕ)
    → IsList l xs
    → has n xs ≡ true
    → has other xs ≡ true
    → other ≢ n
    → (m : Pointers) × (set_head n (extract_node n l) ≡ some m)
      × IsList m (front n xs)
      × Frame l m n xs
unfolding Frame
front-IsList l xs n other h at other_at apart =
    let (ys, zs, split, gone, before) = split_at n xs at in
    let whole : IsList l (ys ++ n ∷ zs) = rw split at h in
    let (out, next, prev) = extract_node-IsList l ys zs n whole in
    let (dist, ya, za) = IsDistinct-middle ys zs n whole.distinct in
    let absent = IsAbsent-append n ys zs ya za in
    let rest : has other (ys ++ zs) ≡ true =
      subst (λ (t : List ℕ). has other t ≡ true) gone (has-erase other n xs apart ∙ other_at) in
    let (m, set, linked) = set_head-rest (extract_node n l) (ys ++ zs) other n out absent rest in
    let frame : Frame l m n xs = λ k outside not_n.
      let outside' : IsAbsent k (ys ++ n ∷ zs) = rw split at outside in
      let (a, b) = extract_node-frame l ys zs n k whole outside' in
      let off =
        not_first (extract_node n l) (ys ++ zs) k out (IsAbsent-erased k n ys zs outside') in
      let (c, d) = set_head-frame (extract_node n l) m n k set not_n off in (c ∙ a, d ∙ b) in
    (m, set, rw gone linked, frame)

-- The same for a node that is not in the list yet.
pub insert-IsList :
    (l : Pointers) (xs : List ℕ) (n other : ℕ)
    → IsList l xs
    → IsAbsent n xs
    → has other xs ≡ true
    → l.next n ≡ none
    → l.prev n ≡ none
    → (m : Pointers) × (set_head n (extract_node n l) ≡ some m) × IsList m (n ∷ xs) × Frame l m n xs
unfolding Frame
insert-IsList l xs n other h absent other_at next prev =
    let (out, next', prev') = extract_node-absent l xs n h absent next prev in
    let (m, set, linked) = set_head-rest (extract_node n l) xs other n out absent other_at in
    let frame : Frame l m n xs = λ k outside not_n.
      let (a, b) = extract_node-frame_absent l n k next prev not_n in
      let off = not_first (extract_node n l) xs k out outside in
      let (c, d) = set_head-frame (extract_node n l) m n k set not_n off in (c ∙ a, d ∙ b) in
    (m, set, linked, frame)
