-- ===== src/LruCache/Evict.antt =====
-- `evict` and `Put`: which block makes room, and what the cache holds afterwards.
use cloudfuse.Base.{
  ℕ, suc, ◌<◌, ◌≡◌, ◌≢◌, ◌⊎◌, refl, sym, ap, ◌∙◌, true, false, none, some, List, [], ◌∷◌, ◌++◌, All,
  Bool-cases, Option-cases, inl, inr, arith,
}
use cloudfuse.Base.Int.{ℤ, pos, ◌+ℤ◌, ◌≤ℤ◌, int_laws, pos_part, neg_part}
use cloudfuse.BlockList.{Block, dirty}
use cloudfuse.LruCache.{
  Node, LruCache, size_of, lookup, find_node, remove_node, get, remove, oldest_clean, evict,
  push_front, put, is_full,
}
use cloudfuse.LruCache.Nodes.{id_of, total, IsApart, IsDistinct, lookup-delete_key}
use cloudfuse.LruCache.Laws.{IsCache, remove-IsCache}

abbrev pub IsDirty : List Node → Type 0
IsDirty ns = All (λ n. dirty n.value ≡ true) ns

-- The last clean node, with what stands before and behind it.
oldest_clean-split :
    (ns : List Node)
    → ((oldest_clean ns ≡ none) × IsDirty ns)
      ⊎ ((n : Node) × (before : List Node) × (after : List Node) × (oldest_clean ns ≡ some n)
          × (ns ≡ before ++ n ∷ after)
          × (dirty n.value ≡ false)
          × IsDirty after)
oldest_clean-split [] = inl (refl, tt)
oldest_clean-split (m ∷ ns) = elim (oldest_clean-split ns) [
  | inr (n, before, after, found, split, clean, rest) ↦
      inr (n, m ∷ before, after, ground (arith, found), ap (λ l. m ∷ l) split, clean, rest)
  | inl (missing, all) ↦ elim (Bool-cases (dirty m.value)) [
    | inl is_dirty ↦ inl (ground (arith, missing, is_dirty), (is_dirty, all))
    | inr clean ↦ inr (m, [], ns, ground (arith, missing, clean), refl, clean, all)
  ]
]

apart-middle :
    (before after : List Node) (n : Node) (i key : ℕ)
    → IsApart i key (before ++ n ∷ after)
    → (n.id ≢ i) × (n.key ≢ key)
apart-middle [] after n i key h = h.0
apart-middle (m ∷ before) after n i key h = apart-middle before after n i key h.1

id_of-middle :
    (before after : List Node) (n : Node)
    → IsDistinct (before ++ n ∷ after)
    → (id_of n.key (before ++ n ∷ after) ≡ some n.id)
      × (remove_node n.id (before ++ n ∷ after) ≡ before ++ after)
id_of-middle [] after n d = (ground arith, ground arith)
id_of-middle (m ∷ before) after n d =
    let (id, gone) = id_of-middle before after n d.1 in
    let apart = apart-middle before after n m.id m.key d.0 in
    (ground (arith, id, apart), ground (arith, gone, apart))

remove-list :
    (c : LruCache) (key i : ℕ) (d : LruCache)
    → lookup key c.elements ≡ some i
    → remove key c ≡ some d
    → d.list ≡ remove_node i c.list
unfolding remove
remove-list c key i d found e = elim (Option-cases (find_node i c.list)) [
  | inl missing ↦ ground (arith, e, found, missing)
  | inr (n, there) ↦ ground (arith, e, found, there)
]

-- In a cache in order that is not empty, `evict` either answers that every block is dirty, and
-- changes nothing; or it removes the clean block that was used least recently, and only that one.
pub evict-oldest :
    (c : LruCache)
    → IsCache c
    → c.list ≢ []
    → ((evict c ≡ some (false, c)) × IsDirty c.list)
      ⊎ ((d : LruCache) × (n : Node) × (before : List Node) × (after : List Node) × (evict c
            ≡ some (true, d))
          × (c.list ≡ before ++ n ∷ after)
          × (dirty n.value ≡ false)
          × IsDirty after
          × (d.list ≡ before ++ after)
          × IsCache d)
unfolding evict
evict-oldest c h some_node = elim (oldest_clean-split c.list) [
  | inl (missing, all) ↦ inl (ground (arith, missing, some_node), all)
  | inr (n, before, after, found, split, clean, rest) ↦
      let middle = id_of-middle before after n (rw split at h.distinct) in
      let named : id_of n.key c.list ≡ some n.id = rw split middle.0 in
      let in_map : lookup n.key c.elements ≡ some n.id = h.agrees n.key ∙ named in
      let (d, removed, order, gone) = remove-IsCache c n.key h in
      let left = remove-list c n.key n.id d in_map removed in
      let left' : d.list ≡ before ++ after = left ∙ (rw split middle.1) in
      inr (
        d,
        n,
        before,
        after,
        ground (arith, found, removed, some_node),
        split,
        clean,
        rest,
        left',
        order,
      )
]

absent-IsApart :
    (ns : List Node) (bound key : ℕ)
    → All (λ n. n.id < bound) ns
    → id_of key ns ≡ none
    → IsApart bound key ns
absent-IsApart [] bound key h e = tt
absent-IsApart (n ∷ ns) bound key h e =
    let other : n.key ≢ key = ground (arith, e) in
    let rest = absent-IsApart ns bound key h.1 (ground (arith, e)) in
    ((ground (arith, h), other), rest)

older : (ns : List Node) (bound : ℕ) → All (λ n. n.id < bound) ns → All (λ n. n.id < suc bound) ns
older [] bound h = tt
older (n ∷ ns) bound h = (omega (arith, h), older ns bound h.1)

in_front : (a t s : ℤ) → a ≡ t → a +ℤ s ≡ s +ℤ t
in_front a t s e = omega (int_laws, ap pos_part e, ap neg_part e)

pub push_front-IsCache :
    (c : LruCache) (key : ℕ) (value : Block)
    → IsCache c
    → lookup key c.elements ≡ none
    → IsCache (push_front key value c)
push_front-IsCache c key value h absent =
    let named : id_of key c.list ≡ none = sym (h.agrees key) ∙ absent in
    record {
      distinct = (absent-IsApart c.list c.next_id key h.old named, h.distinct);
      old = (omega arith, older c.list c.next_id h.old);
      agrees = λ k.
          let agree = h.agrees k in
          let left = lookup-delete_key c.elements key k in ground (arith, agree, left);
      counted = in_front c.occupied (total c.list) (size_of value) h.counted;
    }

get-push_front :
    (c : LruCache) (key : ℕ) (value : Block)
    → (e : LruCache) × (get key (push_front key value c) ≡ some (some value, e))
unfolding get
get-push_front c key value =
    let node : Node = record { id = c.next_id; key = key; value = value } in
    (
      record (push_front key value c) { list = node ∷ remove_node c.next_id (node ∷ c.list) },
      ground arith,
    )

pub absent-middle :
    (before after : List Node) (n : Node) (key : ℕ)
    → id_of key (before ++ n ∷ after) ≡ none
    → id_of key (before ++ after) ≡ none
absent-middle [] after n key e = ground (arith, e)
absent-middle (m ∷ before) after n key e =
    let rest = absent-middle before after n key in ground (arith, e, rest)

pub full-nonempty :
    (c : LruCache) → IsCache c → 0 < pos_part c.capacity → is_full c ≡ true → c.list ≢ []
full-nonempty c h positive full empty =
    let zero : c.occupied ≡ pos 0 = h.counted ∙ ap total empty in
    ground (arith, full, ap pos_part zero, ap neg_part zero, positive)

-- The cache holds the new block in a node in front of the given ones, is in order, and `Get` finds
-- the block.
abbrev pub IsAdded : ℕ → Block → List Node → LruCache → Type 0
IsAdded key value kept d =
    ((n : Node) × (d.list ≡ n ∷ kept) × (n.key ≡ key) × (n.value ≡ value))
    × IsCache d
    × ((e : LruCache) × (get key d ≡ some (some value, e)))

push_front-IsAdded :
    (c : LruCache) (key : ℕ) (value : Block)
    → IsCache c
    → lookup key c.elements ≡ none
    → IsAdded key value c.list (push_front key value c)
push_front-IsAdded c key value h absent = (
  (record { id = c.next_id; key = key; value = value }, refl, refl, refl),
  push_front-IsCache c key value h absent,
  get-push_front c key value,
)

full-le : (c : LruCache) → is_full c ≡ true → c.capacity ≤ℤ c.occupied
full-le c full = ground (arith, full)

room-lt : (c : LruCache) → is_full c ≡ false → ¬ (c.capacity ≤ℤ c.occupied)
room-lt c room = ground (arith, room)

-- Let a cache of positive capacity be in order, and the key be new. Below its capacity `Put` adds the
-- block in front of all nodes. At its capacity it first takes the clean node that was used least
-- recently, and only that one, out; if all are dirty, it adds nothing and changes nothing. Where
-- it adds the block, the cache is in order again and `Get` finds the block.
pub put-IsAdded :
    (c : LruCache) (key : ℕ) (value : Block)
    → IsCache c
    → 0 < pos_part c.capacity
    → lookup key c.elements ≡ none
    → ((¬ (c.capacity ≤ℤ c.occupied))
        × ((d : LruCache) × (put key value c ≡ some (true, d)) × IsAdded key value c.list d))
      ⊎ (((c.capacity ≤ℤ c.occupied)
            × ((d : LruCache) × (n : Node) × (before : List Node) × (after : List Node) × (put key
                    value c
                  ≡ some (true, d))
                × (c.list ≡ before ++ n ∷ after)
                × (dirty n.value ≡ false)
                × IsDirty after
                × IsAdded key value (before ++ after) d))
          ⊎ ((c.capacity ≤ℤ c.occupied) × IsDirty c.list × (put key value c ≡ some (false, c))))
unfolding put
put-IsAdded c key value h positive absent = elim (Bool-cases (is_full c)) [
  | inr room ↦ inl (
    room-lt c room,
    (push_front key value c, ground (arith, room), push_front-IsAdded c key value h absent),
  )
  | inl full ↦ elim (evict-oldest c h (full-nonempty c h positive full)) [
    | inl (stays, all) ↦ inr (inr (full-le c full, all, ground (arith, full, stays)))
    | inr (d, n, before, after, gone, split, clean, rest, left, order) ↦
        let before_none : id_of key c.list ≡ none = sym (h.agrees key) ∙ absent in
        let none_left : id_of key (before ++ after) ≡ none =
          absent-middle before after n key (rw split at before_none) in
        let absent' : lookup key d.elements ≡ none =
          order.agrees key ∙ (ap (id_of key) left ∙ none_left) in
        inr (
          inl (
            full-le c full,
            (
              push_front key value d,
              n,
              before,
              after,
              ground (arith, full, gone),
              split,
              clean,
              rest,
              rw (sym left) (push_front-IsAdded d key value order absent'),
            ),
          ))
  ]
]
