-- ===== src/FileCache/LruPolicy/Relink.antt =====
-- What is kept when one node of the list is put in front.
use cloudfuse.Base.{
  ℕ, ◌≤◌, ◌<◌, ◌≡◌, ◌≢◌, refl, ◌∙◌, inl, inr, Bool, true, false, some, List, [], ◌∷◌, ◌==◌, All,
  Bool-cases, arith,
}
use cloudfuse.Base.Int.{ℤ}
use cloudfuse.FileCache.LruPolicy.{LruPolicy, move_to_front}
use cloudfuse.FileCache.LruPolicy.Links.{Pointers, points_to}
use cloudfuse.FileCache.LruPolicy.Links.Chain.{IsAbsent, IsList}
use cloudfuse.FileCache.LruPolicy.Order.{
  has, front, has-erase, All-erase, below-of-has, IsPolicy, Frame, front-IsList,
}

pub has-front : (k n : ℕ) (xs : List ℕ) → has n xs ≡ true → has k (front n xs) ≡ has k xs
has-front k n xs h = elim (Bool-cases (n == k)) [
  | inl here ↦
      let eq : k ≡ n = ground (arith, here) in
      let at : has k xs ≡ true = rw eq h in ground (arith, here, at)
  | inr other ↦ let rest = has-erase k n xs (ground (arith, other)) in ground (arith, other, rest)
]

pub IsAbsent-above :
    (bound k : ℕ) (xs : List ℕ) → All (λ x. x < bound) xs → bound ≤ k → IsAbsent k xs
IsAbsent-above bound k [] h le = tt
IsAbsent-above bound k (x ∷ xs) h le = (omega (arith, h.0), IsAbsent-above bound k xs h.1 le)

pub has-absent : (n : ℕ) (xs : List ℕ) → IsAbsent n xs → has n xs ≡ false
has-absent n [] h = refl
has-absent n (x ∷ xs) h = let rest = has-absent n xs h.1 in ground (arith, h.0, rest)

-- A node of the list is put in front.
pub relinked :
    (p : LruPolicy) (xs : List ℕ) (n : ℕ) (m : Pointers)
    → IsPolicy p xs
    → has n xs ≡ true
    → IsList m (front n xs)
    → Frame p.links m n xs
    → IsPolicy (record p { links = m }) (front n xs)
unfolding Frame
relinked p xs n m h at linked frame =
    let below = below-of-has p.next_node n xs h.young at in
    record {
      list = linked;
      young = (below, All-erase p.next_node n xs h.young);
      blank = λ k le.
          let (a, b) =
            frame k (IsAbsent-above p.next_node k xs h.young le) (omega (arith, below, le)) in
          let (c, d) = h.blank k le in (a ∙ c, b ∙ d);
      has_curr = has-front p.curr_marker n xs at ∙ h.has_curr;
      has_last = has-front p.last_marker n xs at ∙ h.has_last;
      apart = h.apart;
      mapped =
          λ name k e. let (a, b, c, d) = h.mapped name k e in (has-front k n xs at ∙ a, b, c, d);
    }

-- The node is the head already.
head-front :
    (p : LruPolicy) (xs : List ℕ) (n : ℕ)
    → IsPolicy p xs
    → points_to p.links.head n ≡ true
    → front n xs ≡ xs
head-front p [] n h e = absurd (no_head p h e)
  where
    no_head : (p : LruPolicy) → IsPolicy p [] → points_to p.links.head n ≡ true → ⊥
    no_head p h e = ground (arith, e, h.list.chain)
head-front p (x ∷ xs) n h e = let eq : n ≡ x = ground (arith, e, h.list.chain) in ground (arith, eq)

pub move_to_front-IsPolicy :
    (p : LruPolicy) (xs : List ℕ) (n other : ℕ)
    → IsPolicy p xs
    → has n xs ≡ true
    → has other xs ≡ true
    → other ≢ n
    → (q : LruPolicy) × (move_to_front n p ≡ some q) × IsPolicy q (front n xs)
unfolding move_to_front
move_to_front-IsPolicy p xs n other h at other_at apart =
    elim (Bool-cases (points_to p.links.head n)) [
      | inl head ↦ (p, rw head refl, rw (head-front p xs n h head) h)
      | inr not_head ↦
          let (m, set, linked, frame) = front-IsList p.links xs n other h.list at other_at apart in
          (record p { links = m }, rw (not_head, set) refl, relinked p xs n m h at linked frame)
    ]

-- The flags of a node are no part of the order.
pub IsPolicy-marked :
    (p : LruPolicy) (xs : List ℕ) (deleted : ℕ → Bool) (usage : ℕ → ℤ)
    → IsPolicy p xs
    → IsPolicy (record p { deleted = deleted; usage = usage }) xs
IsPolicy-marked p xs deleted usage h = record {
  list = h.list;
  young = h.young;
  blank = h.blank;
  has_curr = h.has_curr;
  has_last = h.has_last;
  apart = h.apart;
  mapped = h.mapped;
}

pub has-young : (p : LruPolicy) (xs : List ℕ) → IsPolicy p xs → has p.next_node xs ≡ false
has-young p xs h =
    has-absent p.next_node xs (IsAbsent-above p.next_node p.next_node xs h.young (omega arith))

pub has-new :
    (p : LruPolicy) (xs : List ℕ) (k : ℕ) → has k xs ≡ true → has k (p.next_node ∷ xs) ≡ true
has-new p xs k h = ground (arith, h)
