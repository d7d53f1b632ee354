-- ===== src/LruCache/Purge.antt =====
-- `Purge`: every key is removed.
use cloudfuse.Base.{
  ℕ, ◌≡◌, refl, sym, ap, ◌∙◌, Bool, false, ◌||◌, none, some, List, [], ◌∷◌, ◌==◌, if◌then◌else◌,
  Bool-cases, Option-cases, inl, inr, arith,
}
use cloudfuse.Base.Int.{pos}
use cloudfuse.LruCache.{Node, LruCache, lookup, find_node, remove, remove_all, keys, purge}
use cloudfuse.LruCache.Nodes.{id_of, total, lookup-delete_key}
use cloudfuse.LruCache.Laws.{IsCache, remove-IsCache}

abbrev is_among : ℕ → List ℕ → Bool
is_among k [] = false
is_among k (key ∷ rest) = (k == key) || is_among k rest

keys-lookup : (es : List (ℕ × ℕ)) (k : ℕ) → is_among k (keys es) ≡ false → lookup k es ≡ none
keys-lookup [] k h = refl
keys-lookup ((key, i) ∷ es) k h = let rest = keys-lookup es k in ground (arith, rest, h)

lookup-remove :
    (c d : LruCache) (key k : ℕ)
    → IsCache c
    → remove key c ≡ some d
    → lookup k d.elements ≡ (if k == key then none else lookup k c.elements)
unfolding remove
lookup-remove c d key k h e =
    let deleted = lookup-delete_key c.elements key k in
    elim (Option-cases (lookup key c.elements)) [
      | inl missing ↦ elim (Bool-cases (k == key)) [
        | inl same ↦ let at : k ≡ key = ground (arith, same) in rw at (ground (arith, e, missing))
        | inr other ↦ ground (arith, e, missing, other)
      ]
      | inr (i, found) ↦ elim (Option-cases (find_node i c.list)) [
        | inl nowhere ↦ ground (arith, e, found, nowhere)
        | inr (n, there) ↦ ground (arith, e, found, there, deleted)
      ]
    ]

remove_all-IsCache :
    (ks : List ℕ) (c : LruCache)
    → IsCache c
    → (d : LruCache) × (remove_all ks c ≡ some d)
      × IsCache d
      × ((k : ℕ) → lookup k d.elements ≡ (if is_among k ks then none else lookup k c.elements))
unfolding remove_all
remove_all-IsCache [] c h = (c, refl, h, λ k. refl)
remove_all-IsCache (key ∷ rest) c h =
    let (c', removed, order, gone) = remove-IsCache c key h in
    let (d, all, order', left) = remove_all-IsCache rest c' order in
    (
      d,
      (rw (remove_all, removed) all),
      order',
      λ k.
          let one = lookup-remove c c' key k h removed in
          let many = left k in ground (arith, one, many),
    )

no_node : (ns : List Node) → ((k : ℕ) → id_of k ns ≡ none) → ns ≡ []
no_node [] h = refl
no_node (n ∷ ns) h = let first = h n.key in absurd (ground (arith, first))

-- `Purge` of a cache in order never fails. It takes out every block, one by one: the list and the map are empty, and the
-- occupied size is zero, so that the cache is in order again, with no capacity.
pub purge-IsCache :
    (c : LruCache)
    → IsCache c
    → (d : LruCache) × (purge c ≡ some d)
      × IsCache d
      × (d.list ≡ [])
      × (d.capacity ≡ pos 0)
      × (d.occupied ≡ pos 0)
unfolding purge
purge-IsCache c h =
    let (d, all, order, left) = remove_all-IsCache (keys c.elements) c h in
    let empty : d.list ≡ [] = no_node d.list (λ k.
      let agree = order.agrees k in
      let gone = left k in
      elim (Bool-cases (is_among k (keys c.elements))) [
        | inl present ↦ sym agree ∙ ground (arith, gone, present)
        | inr absent ↦
            let never = keys-lookup c.elements k absent in
            sym agree ∙ ground (arith, gone, absent, never)
      ]) in
    let zero : d.occupied ≡ pos 0 = order.counted ∙ ap total empty in
    (
      record d { capacity = pos 0; elements = []; list = [] },
      (rw (purge, all) refl),
      record { distinct = tt; old = tt; agrees = λ k. refl; counted = zero },
      refl,
      refl,
      zero,
    )
