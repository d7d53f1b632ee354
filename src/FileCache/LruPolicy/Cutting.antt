-- ===== src/FileCache/LruPolicy/Cutting.antt =====
-- Between the two loops of `deleteExpiredNodes` of lru_policy.go: nodes that have left the list are
-- still in the map.
use Prim.Native.String.{String}
use cloudfuse.Base.{
  ℕ, suc, ◌<◌, ◌≡◌, ◌≢◌, refl, sym, ap, ◌∙◌, inl, inr, true, false, ◌||◌, none, some, List, [], ◌∷◌,
  ◌==◌, All, Bool-cases, load, forget, load-forget, load-forget_self, same, same_path, arith,
}
use mathlib.Core.Path.{subst}
use cloudfuse.Base.Int.{pos}
use cloudfuse.Base.Int64.{add_i64}
use cloudfuse.FileCache.LruPolicy.{LruPolicy, find_node, move_to_front, cache_validate, cache_valid}
use cloudfuse.FileCache.LruPolicy.Links.{Pointers, update}
use cloudfuse.FileCache.LruPolicy.Links.Extract.{not_first}
use cloudfuse.FileCache.LruPolicy.Order.{has, below-of-has, older, IsPolicy, Frame, insert-IsList}
use cloudfuse.FileCache.LruPolicy.Relink.{IsAbsent-above, has-new}

-- The list, without a word on the map.
abbrev pub unmapped : LruPolicy → LruPolicy
unmapped p = record p { node_map = [] }

abbrev with_new : String → Pointers → LruPolicy → LruPolicy
with_new name m p = record p {
  links = m;
  node_map = (name, p.next_node) ∷ p.node_map;
  name_of = update p.name_of p.next_node name;
  next_node = suc p.next_node;
  deleted = update p.deleted p.next_node false;
  usage = update p.usage p.next_node (add_i64 (p.usage p.next_node) (pos 1));
}

new_node :
    (p : LruPolicy) (xs : List ℕ) (name : String)
    → IsPolicy (unmapped p) xs
    → load name p.node_map ≡ none
    → (m : Pointers) × (cache_validate name true p ≡ some (with_new name m p))
      × IsPolicy (unmapped (with_new name m p)) (p.next_node ∷ xs)
unfolding cache_validate find_node move_to_front Frame
new_node p xs name h missing =
    let n = p.next_node in
    let absent = IsAbsent-above n n xs h.young (omega arith) in
    let (clear_next, clear_prev) = h.blank n (omega arith) in
    let (m, set, linked, frame) =
      insert-IsList p.links xs n p.curr_marker h.list absent h.has_curr clear_next clear_prev in
    let not_head = not_first p.links xs n h.list absent in
    (
      m,
      rw (cache_validate, find_node, missing, move_to_front, not_head, set) refl,
      record {
        list = linked;
        young = (omega arith, older n xs h.young);
        blank = λ k le.
            let (a, b) =
              frame k (IsAbsent-above n k xs h.young (omega (arith, le))) (omega (arith, le)) in
            let (c, d) = h.blank k (omega (arith, le)) in (a ∙ c, b ∙ d);
        has_curr = has-new (unmapped p) xs p.curr_marker h.has_curr;
        has_last = has-new (unmapped p) xs p.last_marker h.has_last;
        apart = h.apart;
        mapped = λ other k e. absurd (ground (arith, e));
      },
    )

-- Between the loops: a file of the map has its node in the list, or among those still to be deleted.
-- `names` is what the nodes were called before.
pub record IsCutting (names : ℕ → String) (p : LruPolicy) (xs ns : List ℕ) : Type 0 where
  pub policy : IsPolicy (unmapped p) xs
  pub doomed : All (λ n. (p.deleted n ≡ true) × (n < p.next_node) × (p.name_of n ≡ names n)) ns
  pub mapped :
      (name : String) (n : ℕ)
      → load name p.node_map ≡ some n
      → ((has n xs || has n ns) ≡ true)
        × (p.name_of n ≡ name)
        × (n ≢ p.curr_marker)
        × (n ≢ p.last_marker)

pub IsPolicy-of-IsCutting :
    (names : ℕ → String) (p : LruPolicy) (xs : List ℕ) → IsCutting names p xs [] → IsPolicy p xs
IsPolicy-of-IsCutting names p xs h = record {
  list = h.policy.list;
  young = h.policy.young;
  blank = h.policy.blank;
  has_curr = h.policy.has_curr;
  has_last = h.policy.has_last;
  apart = h.policy.apart;
  mapped = λ name n e.
      let (at, named, curr, last) = h.mapped name n e in (ground (arith, at), named, curr, last);
}

still_loaded :
    (gone name : String) (d : List (String × ℕ)) {n : ℕ}
    → load name (forget gone d) ≡ some n
    → (gone ≢ name) × (load name d ≡ some n)
still_loaded gone name d {n} e =
    let differ : gone ≢ name = λ eq.
      let none_left : load name (forget gone d) ≡ none =
        subst (λ (t : String). load t (forget gone d) ≡ none) eq (load-forget_self gone d) in
      ground (arith, none_left, e) in
    (differ, sym (load-forget gone name d differ) ∙ e)

-- The first of the nodes leaves the map.
pub forgotten :
    (names : ℕ → String) (p : LruPolicy) (xs ns : List ℕ) (n : ℕ)
    → IsCutting names p xs (n ∷ ns)
    → IsCutting names (record p { node_map = forget (p.name_of n) p.node_map }) xs ns
forgotten names p xs ns n h = record {
  policy = h.policy;
  doomed = h.doomed.1;
  mapped = λ name k e.
      let (differ, known) = still_loaded (p.name_of n) name p.node_map e in
      let (at, named, curr, last) = h.mapped name k known in
      let other : k ≢ n = λ eq. differ (ap p.name_of (sym eq) ∙ named) in
      (ground (arith, at, other), named, curr, last);
}

All-new :
    (names : ℕ → String) (p : LruPolicy) (name : String) (ns : List ℕ)
    → All (λ n. (p.deleted n ≡ true) × (n < p.next_node) × (p.name_of n ≡ names n)) ns
    → All
        (λ n.
          (update p.deleted p.next_node false n ≡ true)
          × (n < suc p.next_node)
          × (update p.name_of p.next_node name n ≡ names n))
        ns
All-new names p name [] h = tt
All-new names p name (n ∷ ns) h =
    ((ground (arith, h.0), omega (arith, h.0), ground (arith, h.0)), All-new names p name ns h.1)

below_doomed :
    (names : ℕ → String) (p : LruPolicy) (k : ℕ) (ns : List ℕ)
    → All (λ n. (p.deleted n ≡ true) × (n < p.next_node) × (p.name_of n ≡ names n)) ns
    → has k ns ≡ true
    → k < p.next_node
below_doomed names p k [] h at = absurd (ground (arith, at))
below_doomed names p k (n ∷ ns) h at = elim (Bool-cases (n == k)) [
  | inl here ↦ ground (arith, here, h.0)
  | inr other ↦ below_doomed names p k ns h.1 (ground (arith, at, other))
]

below_either :
    (names : ℕ → String) (p : LruPolicy) (xs ns : List ℕ) (k : ℕ)
    → IsCutting names p xs ns
    → (has k xs || has k ns) ≡ true
    → k < p.next_node
below_either names p xs ns k h at = elim (Bool-cases (has k xs)) [
  | inl listed ↦ below-of-has p.next_node k xs h.policy.young listed
  | inr not_listed ↦ below_doomed names p k ns h.doomed (ground (arith, at, not_listed))
]

mapped-new :
    (names : ℕ → String) (p : LruPolicy) (xs ns : List ℕ) (name : String)
    → IsCutting names p xs ns
    → (other : String) (k : ℕ) → load other ((name, p.next_node) ∷ p.node_map) ≡ some k
    → ((has k (p.next_node ∷ xs) || has k ns) ≡ true)
      × (update p.name_of p.next_node name k ≡ other)
      × (k ≢ p.curr_marker)
      × (k ≢ p.last_marker)
mapped-new names p xs ns name h other k e = elim (Bool-cases (same name other)) [
  | inl is_new ↦
      let eq : k ≡ p.next_node = ground (arith, e, is_new) in
      let named = same_path name other is_new in
      let curr = below-of-has p.next_node p.curr_marker xs h.policy.young h.policy.has_curr in
      let last = below-of-has p.next_node p.last_marker xs h.policy.young h.policy.has_last in
      (
        ground (arith, eq),
        ground (arith, eq, named),
        ground (arith, eq, curr),
        ground (arith, eq, last),
      )
  | inr is_old ↦
      let known : load other p.node_map ≡ some k = ground (arith, e, is_old) in
      let (at, named, curr, last) = h.mapped other k known in
      let below = below_either names p xs ns k h at in
      (ground (arith, at), ground (arith, named, below), curr, last)
]

-- A file in use gets a new node, in front.
pub renewed_in_use :
    (names : ℕ → String) (p : LruPolicy) (xs ns : List ℕ) (name : String)
    → IsCutting names p xs ns
    → load name p.node_map ≡ none
    → (q : LruPolicy) × (cache_valid name p ≡ some q) × IsCutting names q (p.next_node ∷ xs) ns
unfolding cache_valid
renewed_in_use names p xs ns name h missing =
    let (m, validated, policy) = new_node p xs name h.policy missing in
    (
      with_new name m p,
      rw (cache_valid, missing) validated,
      record {
        policy = policy;
        doomed = All-new names p name ns h.doomed;
        mapped = mapped-new names p xs ns name h;
      },
    )
