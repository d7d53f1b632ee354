-- ===== src/FileCache/LruPolicy/Remaining.antt =====
-- What the first loop of `deleteExpiredNodes` of lru_policy.go leaves in the list and in the map.
use cloudfuse.Base.{ℕ, ◌≤◌, ◌<◌, ◌≡◌, refl, Bool, true, ◌||◌, none, List, [], ◌∷◌, ◌++◌, All, arith}
use cloudfuse.FileCache.LruPolicy.{LruPolicy}
use cloudfuse.FileCache.LruPolicy.Links.{Pointers}
use cloudfuse.FileCache.LruPolicy.Links.Chain.{IsList}
use cloudfuse.FileCache.LruPolicy.Order.{has, IsPolicy}
use cloudfuse.FileCache.LruPolicy.Cutting.{IsCutting}

pub All-remaining :
    (bound m : ℕ) (xs items rest : List ℕ)
    → All (λ x. x < bound) (xs ++ m ∷ (items ++ rest))
    → All (λ x. x < bound) (xs ++ m ∷ rest) × All (λ x. x < bound) items
All-remaining bound m [] [] rest h = (h, tt)
All-remaining bound m [] (n ∷ items) rest h =
    let (later, all) = All-remaining bound m [] items rest (h.0, h.1.1) in (later, (h.1.0, all))
All-remaining bound m (x ∷ xs) items rest h =
    let (later, all) = All-remaining bound m xs items rest h.1 in ((h.0, later), all)

has-remaining :
    (k m : ℕ) (xs items rest : List ℕ)
    → has k (xs ++ m ∷ (items ++ rest)) ≡ true
    → (has k (xs ++ m ∷ rest) || has k items) ≡ true
has-remaining k m [] [] rest h = ground (arith, h)
has-remaining k m [] (n ∷ items) rest h =
    let later = has-remaining k m [] items rest in ground (arith, h, later)
has-remaining k m (x ∷ xs) items rest h =
    let later = has-remaining k m xs items rest in ground (arith, h, later)

has-front_part : (k m : ℕ) (xs rest : List ℕ) → has k xs ≡ true → has k (xs ++ m ∷ rest) ≡ true
has-front_part k m [] rest h = absurd (ground (arith, h))
has-front_part k m (x ∷ xs) rest h =
    let later = has-front_part k m xs rest in ground (arith, h, later)

has-middle : (m : ℕ) (xs rest : List ℕ) → has m (xs ++ m ∷ rest) ≡ true
has-middle m [] rest = ground arith
has-middle m (x ∷ xs) rest = let later = has-middle m xs rest in ground (arith, later)

marked_deleted :
    (p : LruPolicy) (deleted : ℕ → Bool) (items : List ℕ)
    → ((n : ℕ) → has n items ≡ true → deleted n ≡ true)
    → All (λ n. n < p.next_node) items
    → All (λ n. (deleted n ≡ true) × (n < p.next_node) × (p.name_of n ≡ p.name_of n)) items
marked_deleted p deleted [] marks young = tt
marked_deleted p deleted (n ∷ items) marks young = (
  (marks n (ground arith), young.0, refl),
  marked_deleted p deleted items (λ k at. marks k (ground (arith, at))) young.1,
)

-- What the first loop leaves: the list without the nodes that it took.
pub cut-IsCutting :
    (p : LruPolicy) (l : Pointers) (deleted : ℕ → Bool) (xs items rest : List ℕ)
    → IsPolicy p (xs ++ p.last_marker ∷ (items ++ rest))
    → has p.curr_marker xs ≡ true
    → IsList l (xs ++ p.last_marker ∷ rest)
    → ((k : ℕ) → p.next_node ≤ k → (l.next k ≡ none) × (l.prev k ≡ none))
    → ((n : ℕ) → has n items ≡ true → deleted n ≡ true)
    → IsCutting p.name_of
        (record p { links = l; deleted = deleted })
        (xs ++ p.last_marker ∷ rest)
        items
cut-IsCutting p l deleted xs items rest h curr list blank marks =
    let (young, items_young) = All-remaining p.next_node p.last_marker xs items rest h.young in
    record {
      policy = record {
        list = list;
        young = young;
        blank = blank;
        has_curr = has-front_part p.curr_marker p.last_marker xs rest curr;
        has_last = has-middle p.last_marker xs rest;
        apart = h.apart;
        mapped = λ name n e. absurd (ground (arith, e));
      };
      doomed = marked_deleted p deleted items marks items_young;
      mapped = λ name n e.
          let (at, named, not_curr, not_last) = h.mapped name n e in
          (has-remaining n p.last_marker xs items rest at, named, not_curr, not_last);
    }
