-- ===== src/LruCache/Clean.antt =====
-- A cache whose blocks are clean: `Get` and `Put` never fail, and keep what holds of every node.
use cloudfuse.Base.{
  ℕ, ◌<◌, ◌≡◌, ◌≢◌, refl, sym, ap, ◌∙◌, Bool, true, false, Option, none, some, List, [], ◌∷◌, ◌++◌,
  All, Bool-cases, Option-cases, inl, inr, arith,
}
use cloudfuse.Base.Int.{pos_part}
use mathlib.Core.Option.{some-injective}
use mathlib.Core.Path.{subst}
use cloudfuse.BlockList.{Block, dirty}
use cloudfuse.LruCache.{
  Node, LruCache, lookup, find_node, remove_node, get, remove, evict, push_front, put, is_full,
  oldest_clean,
}
use cloudfuse.LruCache.Nodes.{id_of, find_node-id_of}
use cloudfuse.LruCache.Laws.{IsCache, get-IsCache, All-find_node, All-remove_node}
use cloudfuse.LruCache.Evict.{
  evict-oldest, full-nonempty, push_front-IsCache, absent-middle, IsDirty,
}

remove-capacity : (c d : LruCache) (key : ℕ) → remove key c ≡ some d → d.capacity ≡ c.capacity
unfolding remove
remove-capacity c d key e = elim (Option-cases (lookup key c.elements)) [
  | inl missing ↦ ground (arith, e, missing)
  | inr (i, found) ↦ elim (Option-cases (find_node i c.list)) [
    | inl nowhere ↦ ground (arith, e, found, nowhere)
    | inr (n, there) ↦ ground (arith, e, found, there)
  ]
]

evict-capacity :
    (c d : LruCache) (b : Bool) → c.list ≢ [] → evict c ≡ some (b, d) → d.capacity ≡ c.capacity
unfolding evict
evict-capacity c d b some_node e = elim (Option-cases (oldest_clean c.list)) [
  | inl missing ↦ ground (arith, e, missing, some_node)
  | inr (n, found) ↦ elim (Option-cases (remove n.key c)) [
    | inl fails ↦ ground (arith, e, found, fails, some_node)
    | inr (c', removed) ↦
        let same = remove-capacity c c' n.key removed in
        ground (arith, e, found, removed, some_node, same)
  ]
]

module _ (P : Node → Type 0) where
  pub get_present :
      (c : LruCache) (key i : ℕ)
      → IsCache c
      → All P c.list
      → lookup key c.elements ≡ some i
      → (n : Node) × (d : LruCache) × (get key c ≡ some (some n.value, d))
        × (n.key ≡ key)
        × P n
        × All P d.list
        × (d.capacity ≡ c.capacity)
        × IsCache d
  unfolding get
  get_present c key i h ps found =
      let named : id_of key c.list ≡ some i = sym (h.agrees key) ∙ found in
      let (n, there, id, same, sum) = find_node-id_of c.list key i h.distinct named in
      let d : LruCache = record c { list = n ∷ remove_node i c.list } in
      let e : get key c ≡ some (some n.value, d) = ground (arith, found, there) in
      let p = All-find_node P c.list i n ps there in
      elim (get-IsCache c key h) [
        | inl (missing, nothing) ↦ absurd (ground (arith, missing, found))
        | inr (n', d', e', same', list', order) ↦
            let same_d : d' ≡ d =
              ap (λ (x : Option Block × LruCache). x.1)
                (some-injective (some n'.value, d') (some n.value, d) (sym e' ∙ e)) in
            (n, d, e, same, p, (p, All-remove_node P c.list i ps), refl, subst IsCache same_d order)
      ]

  All-append_out :
      (before after : List Node) (n : Node) → All P (before ++ n ∷ after) → All P (before ++ after)
  All-append_out [] after n h = h.1
  All-append_out (m ∷ before) after n h = (h.0, All-append_out before after n h.1)

  all_clean : (ns : List Node) → ns ≢ [] → All (λ n. dirty n.value ≡ false) ns → IsDirty ns → ⊥
  all_clean [] some_node clean all = some_node refl
  all_clean (n ∷ ns) some_node clean all = ground (arith, clean, all)

  -- The new node is in front, and a node of before is gone or none is.
  pub put_absent :
      (c : LruCache) (key : ℕ) (value : Block)
      → IsCache c
      → 0 < pos_part c.capacity
      → All P c.list
      → All (λ n. dirty n.value ≡ false) c.list
      → lookup key c.elements ≡ none
      → (d : LruCache) × (n : Node) × (rest : List Node) × (put key value c ≡ some (true, d))
        × (d.list ≡ n ∷ rest)
        × (n.key ≡ key)
        × (n.value ≡ value)
        × All P rest
        × (d.capacity ≡ c.capacity)
        × IsCache d
  unfolding put
  put_absent c key value h positive ps clean absent = elim (Bool-cases (is_full c)) [
    | inr room ↦ (
      push_front key value c,
      record { id = c.next_id; key = key; value = value },
      c.list,
      ground (arith, room),
      refl,
      refl,
      refl,
      ps,
      refl,
      push_front-IsCache c key value h absent,
    )
    | inl full ↦
        let some_node = full-nonempty c h positive full in
        elim (evict-oldest c h some_node) [
          | inl (stays, all) ↦ absurd (all_clean c.list some_node clean all)
          | inr (d, n, before, after, gone, split, clean', rest, left, order) ↦
              let before_none : id_of key c.list ≡ none = sym (h.agrees key) ∙ absent in
              let none_left : id_of key (before ++ after) ≡ none =
                absent-middle before after n key (rw split at before_none) in
              let absent' : lookup key d.elements ≡ none =
                order.agrees key ∙ (ap (id_of key) left ∙ none_left) in
              (
                push_front key value d,
                record { id = d.next_id; key = key; value = value },
                d.list,
                ground (arith, full, gone),
                refl,
                refl,
                refl,
                subst (All P) (sym left) (All-append_out before after n (subst (All P) split ps)),
                evict-capacity c d true some_node gone,
                push_front-IsCache d key value order absent',
              )
        ]
  ]
