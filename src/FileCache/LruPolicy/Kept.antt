-- ===== src/FileCache/LruPolicy/Kept.antt =====
-- What an event keeps of a file that the map knows, and of the markers.
use Prim.Native.String.{String}
use cloudfuse.Base.{
  ℕ, suc, ◌≡◌, ◌≢◌, refl, sym, inl, inr, Bool, true, false, not, Option, none, some, ◌∷◌,
  Bool-cases, Option-cases, load, load-forget, same, same_refl, same-false, arith,
}
use mathlib.Core.Path.{subst}
use cloudfuse.FileCache.LruPolicy.{
  LruPolicy, find_node, move_to_front, cache_validate, remove_node, update_marker,
}
use cloudfuse.FileCache.LruPolicy.Links.{update, points_to, extract_node, set_head}
use cloudfuse.FileCache.LruPolicy.Order.{node_of}
use cloudfuse.FileCache.LruPolicy.Steps.{Event, valid, touch, purge, mark, step}
use cloudfuse.Base.Int.{pos}
use cloudfuse.Base.Int64.{add_i64}

-- A purge of the file itself, and an `updateMarker`.
unfoldable pub spares : String → Event → Bool
spares name (valid other) = true
spares name (touch other) = true
spares name (purge other) = not (same other name)
spares name mark = true

abbrev pub curr_after : Event → LruPolicy → ℕ
curr_after (valid name) p = p.curr_marker
curr_after (touch name) p = p.curr_marker
curr_after (purge name) p = p.curr_marker
curr_after mark p = p.last_marker

abbrev pub last_after : Event → LruPolicy → ℕ
last_after (valid name) p = p.last_marker
last_after (touch name) p = p.last_marker
last_after (purge name) p = p.last_marker
last_after mark p = p.curr_marker

abbrev pub IsKept : String → Event → ℕ → LruPolicy → LruPolicy → Type 0
IsKept name e n p q =
    (load name q.node_map ≡ some n)
    × (q.curr_marker ≡ curr_after e p)
    × (q.last_marker ≡ last_after e p)

moved-kept :
    (k : ℕ) (p q : LruPolicy)
    → move_to_front k p ≡ some q
    → (q.node_map ≡ p.node_map) × (q.curr_marker ≡ p.curr_marker) × (q.last_marker ≡ p.last_marker)
unfolding move_to_front
moved-kept k p q h = elim (Bool-cases (points_to p.links.head k)) [
  | inl head ↦ ground (arith, h, head)
  | inr not_head ↦ ground (arith, h, not_head)
]

renewed-kept :
    (name other : String) (create : Bool) (n : ℕ) (p q : LruPolicy)
    → load name p.node_map ≡ some n
    → cache_validate other create p ≡ some q
    → (load name q.node_map ≡ some n)
      × (q.curr_marker ≡ p.curr_marker)
      × (q.last_marker ≡ p.last_marker)
unfolding cache_validate find_node
renewed-kept name other create n p q known h = elim (Option-cases (load other p.node_map)) [
  | inr (k, found) ↦
      let marked = record p {
        deleted = update p.deleted k false;
        usage = update p.usage k (add_i64 (p.usage k) (pos 1));
      } in
      let (same_map, curr, last) = moved-kept k marked q (
        subst (λ (t : Option LruPolicy). t ≡ some q) (rw (cache_validate, find_node, found) refl)
          h) in
      (rw same_map known, curr, last)
  | inl missing ↦ elim (Bool-cases create) [
    | inl new ↦
        let k = p.next_node in
        let added = record p {
          node_map = (other, k) ∷ p.node_map;
          name_of = update p.name_of k other;
          next_node = suc k;
          deleted = update p.deleted k false;
          usage = update p.usage k (add_i64 (p.usage k) (pos 1));
        } in
        let (same_map, curr, last) = moved-kept k added q (
          subst (λ (t : Option LruPolicy). t ≡ some q)
            (rw (cache_validate, find_node, missing, new) refl) h) in
        let apart : same other name ≡ false =
          same-false other name (λ eq. clash name other p n known missing eq) in
        (rw same_map (rw apart known), curr, last)
    | inr old ↦
        let eq : p ≡ q = some_path (
          subst (λ (t : Option LruPolicy). t ≡ some q)
            (rw (cache_validate, find_node, missing, old) refl) h) in
        (rw (sym eq) known, rw (sym eq) refl, rw (sym eq) refl)
  ]
]
  where
    clash :
        (name other : String) (p : LruPolicy) (n : ℕ)
        → load name p.node_map ≡ some n
        → load other p.node_map ≡ none
        → other ≢ name
    clash name other p n known missing eq =
        let both = subst (λ (t : String). load t p.node_map ≡ none) eq missing in
        ground (arith, known, both)

    some_path : {p q : LruPolicy} → some p ≡ some q → p ≡ q
    some_path {p} {q} h = ground (arith, h)

pub differ : (name other : String) → not (same other name) ≡ true → other ≢ name
differ name other safe eq =
    let both = subst (λ (t : String). same other t ≡ true) eq (same_refl other) in
    ground (arith, safe, both)

-- The file that is made valid, known before or not.
pub validated-kept :
    (name : String) (p q : LruPolicy)
    → cache_validate name true p ≡ some q
    → (load name q.node_map ≡ some (node_of name p))
      × (q.curr_marker ≡ p.curr_marker)
      × (q.last_marker ≡ p.last_marker)
unfolding cache_validate find_node
validated-kept name p q h = elim (Option-cases (load name p.node_map)) [
  | inr (k, found) ↦
      let node : node_of name p ≡ k = rw (node_of, found) refl in
      rw node (renewed-kept name name true k p q found h)
  | inl missing ↦
      let k = p.next_node in
      let node : node_of name p ≡ k = rw (node_of, missing) refl in
      let added = record p {
        node_map = (name, k) ∷ p.node_map;
        name_of = update p.name_of k name;
        next_node = suc k;
        deleted = update p.deleted k false;
        usage = update p.usage k (add_i64 (p.usage k) (pos 1));
      } in
      let (same_map, curr, last) = moved-kept k added q (
        subst (λ (t : Option LruPolicy). t ≡ some q) (rw (cache_validate, find_node, missing) refl)
          h) in
      (rw (node, same_map) (rw (same_refl name) refl), curr, last)
]

pub step-IsKept :
    (e : Event) (name : String) (n : ℕ) (p q : LruPolicy)
    → load name p.node_map ≡ some n
    → spares name e ≡ true
    → step e p ≡ some q
    → IsKept name e n p q
unfolding step spares remove_node update_marker
step-IsKept (valid other) name n p q known safe h = renewed-kept name other true n p q known h
step-IsKept (touch other) name n p q known safe h = renewed-kept name other false n p q known h
step-IsKept (purge other) name n p q known safe h = elim (Option-cases (load other p.node_map)) [
  | inl missing ↦ ground (arith, h, missing, known)
  | inr (k, found) ↦
      let left = load-forget other name p.node_map (λ eq. differ name other safe eq) in
      ground (arith, h, found, known, left)
]
step-IsKept mark name n p q known safe h =
    elim (Option-cases (set_head p.last_marker (extract_node p.last_marker p.links))) [
      | inl missing ↦ ground (arith, h, missing)
      | inr (m, found) ↦ ground (arith, h, found, known)
    ]
