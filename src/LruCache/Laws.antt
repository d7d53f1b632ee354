-- ===== src/LruCache/Laws.antt =====
-- What every operation of the cache keeps, and which block it throws out.
use cloudfuse.Base.{
  ℕ, ◌<◌, ◌≡◌, ◌≢◌, ◌⊎◌, refl, sym, ap, ◌∙◌, Bool, true, false, none, some, List, [], ◌∷◌, ◌==◌,
  All, Bool-cases, Option-cases, inl, inr, arith,
}
use cloudfuse.Base.Int.{ℤ, pos, ◌+ℤ◌, ◌-ℤ◌, int_laws, pos_part, neg_part}
use mathlib.Core.Option.{some-injective}
use mathlib.Core.Path.{subst}
use cloudfuse.LruCache.{
  Node, LruCache, size_of, lookup, delete_key, find_node, remove_node, set_end, new_lru_cache, get,
  resize, remove,
}
use cloudfuse.LruCache.Nodes.{
  id_of, total, IsApart, IsDistinct, find_node-id_of, IsDistinct-remove_node, id_of-remove_node,
  lookup-delete_key, set_end-IsDistinct, id_of-set_end, total-set_end,
}

-- The map and the list say the same, and `occupied` is the sum of the sizes of the blocks.
pub record IsCache (c : LruCache) : Type 0 where
  pub distinct : IsDistinct c.list
  pub old : All (λ n. n.id < c.next_id) c.list
  pub agrees : (k : ℕ) → lookup k c.elements ≡ id_of k c.list
  pub counted : c.occupied ≡ total c.list

pub new_lru_cache-IsCache : (capacity : ℤ) → IsCache (new_lru_cache capacity)
new_lru_cache-IsCache capacity = record {
  distinct = tt;
  old = tt;
  agrees = λ k. refl;
  counted = refl;
}

pub All-remove_node :
    (P : Node → Type 0) (ns : List Node) (i : ℕ) → All P ns → All P (remove_node i ns)
All-remove_node P [] i h = tt
All-remove_node P (n ∷ ns) i h = let rest = All-remove_node P ns i h.1 in ground (arith, h, rest)

All-set_end :
    (bound : ℕ) (ns : List Node) (i end : ℕ)
    → All (λ n. n.id < bound) ns
    → All (λ n. n.id < bound) (set_end i end ns)
All-set_end bound [] i end h = tt
All-set_end bound (n ∷ ns) i end h =
    let rest = All-set_end bound ns i end h.1 in ground (arith, h, rest)

less : (a b c d : ℤ) → a ≡ b → b ≡ c +ℤ d → a -ℤ c ≡ d
less a b c d e h = omega (int_laws, ap pos_part e, ap neg_part e, ap pos_part h, ap neg_part h)

-- In a cache in order, `Remove` never fails; the key is gone afterwards, and the order is kept.
pub remove-IsCache :
    (c : LruCache) (key : ℕ)
    → IsCache c
    → (d : LruCache) × (remove key c ≡ some d) × IsCache d × (lookup key d.elements ≡ none)
unfolding remove
remove-IsCache c key h = elim (Option-cases (lookup key c.elements)) [
  | inl missing ↦ (c, ground (arith, missing), h, missing)
  | inr (i, found) ↦
      let named : id_of key c.list ≡ some i = sym (h.agrees key) ∙ found in
      let (n, there, id, same, sum) = find_node-id_of c.list key i h.distinct named in
      (
        record c {
          occupied = c.occupied -ℤ size_of n.value;
          elements = delete_key key c.elements;
          list = remove_node i c.list;
        },
        ground (arith, found, there),
        record {
          distinct = IsDistinct-remove_node c.list i h.distinct;
          old = All-remove_node (λ m. m.id < c.next_id) c.list i h.old;
          agrees = λ k.
              let agree = h.agrees k in
              let left = lookup-delete_key c.elements key k in
              let right = id_of-remove_node c.list key i k h.distinct named in
              ground (arith, agree, left, right);
          counted =
              less c.occupied (total c.list) (size_of n.value) (total (remove_node i c.list))
                h.counted sum;
        },
        ground (arith, lookup-delete_key c.elements key key),
      )
]

pub All-find_node :
    (P : Node → Type 0) (ns : List Node) (i : ℕ) (n : Node)
    → All P ns
    → find_node i ns ≡ some n
    → P n
All-find_node P [] i n h e = ground (arith, e)
All-find_node P (m ∷ ns) i n h e = elim (Bool-cases (m.id == i)) [
  | inl here ↦
      let same : some m ≡ some n = ground (arith, e, here) in subst P (some-injective m n same) h.0
  | inr other ↦ All-find_node P ns i n h.1 (ground (arith, e, other))
]

IsApart-find_node :
    (ns : List Node) (i : ℕ) (n : Node)
    → IsDistinct ns
    → find_node i ns ≡ some n
    → IsApart n.id n.key (remove_node i ns)
IsApart-find_node [] i n d e = ground (arith, e)
IsApart-find_node (m ∷ ns) i n d e = elim (Bool-cases (m.id == i)) [
  | inl here ↦
      let same : some m ≡ some n = ground (arith, e, here) in
      let gone : remove_node i (m ∷ ns) ≡ ns = ground (arith, here) in
      subst (λ (l : List Node). IsApart n.id n.key l) (sym gone)
        (subst (λ (x : Node). IsApart x.id x.key ns) (some-injective m n same) d.0)
  | inr other ↦
      let later : find_node i ns ≡ some n = ground (arith, e, other) in
      let rest = IsApart-find_node ns i n d.1 later in
      let apart = All-find_node (λ x. (x.id ≢ m.id) × (x.key ≢ m.key)) ns i n d.0 later in
      ground (arith, other, rest, apart)
]

-- In a cache in order, `Get` of a key that is there finds its node and moves it to the front; of another key it finds
-- nothing. The cache stays in order.
pub get-IsCache :
    (c : LruCache) (key : ℕ)
    → IsCache c
    → ((lookup key c.elements ≡ none) × (get key c ≡ some (none, c)))
      ⊎ ((n : Node) × (d : LruCache) × (get key c ≡ some (some n.value, d))
          × (n.key ≡ key)
          × (d.list ≡ n ∷ remove_node n.id c.list)
          × IsCache d)
unfolding get
get-IsCache c key h = elim (Option-cases (lookup key c.elements)) [
  | inl missing ↦ inl (missing, ground (arith, missing))
  | inr (i, found) ↦
      let named : id_of key c.list ≡ some i = sym (h.agrees key) ∙ found in
      let (n, there, id, same, sum) = find_node-id_of c.list key i h.distinct named in
      let first : n ∷ remove_node i c.list ≡ n ∷ remove_node n.id c.list =
        ap (λ j. n ∷ remove_node j c.list) (sym id) in
      inr (
        n,
        record c { list = n ∷ remove_node i c.list },
        ground (arith, found, there),
        same,
        first,
        record {
          distinct = (
            IsApart-find_node c.list i n h.distinct there,
            IsDistinct-remove_node c.list i h.distinct,
          );
          old = (
            All-find_node (λ m. m.id < c.next_id) c.list i n h.old there,
            All-remove_node (λ m. m.id < c.next_id) c.list i h.old,
          );
          agrees = λ k.
              let agree = h.agrees k in
              let right = id_of-remove_node c.list key i k h.distinct named in
              elim (Bool-cases (k == key)) [
                | inl is_key ↦
                    let at_key : k ≡ key = ground (arith, is_key) in
                    let there' : id_of k c.list ≡ some i = rw at_key named in
                    ground (arith, agree, there', at_key, id, same)
                | inr not_key ↦ ground (arith, agree, right, not_key, id, same)
              ];
          counted = h.counted ∙ sum;
        },
      )
]

more : (a b d : ℤ) → a ≡ b → a +ℤ d ≡ b +ℤ d
more a b d e = ap (λ x. x +ℤ d) e

-- In a cache in order, `Resize` of a key that is there moves `occupied` along with the block; the cache stays in order.
pub resize-IsCache :
    (c : LruCache) (key end : ℕ)
    → IsCache c
    → (found : Bool) × (d : LruCache) × (resize key end c ≡ some (found, d)) × IsCache d
unfolding resize
resize-IsCache c key end h = elim (Option-cases (lookup key c.elements)) [
  | inl missing ↦ (false, c, ground (arith, missing), h)
  | inr (i, found) ↦
      let named : id_of key c.list ≡ some i = sym (h.agrees key) ∙ found in
      let (n, there, id, same, sum) = find_node-id_of c.list key i h.distinct named in
      let grown = total-set_end c.list i end n there in
      let d = pos end -ℤ pos n.value.end_index in
      (
        true,
        record c { occupied = c.occupied +ℤ d; list = set_end i end c.list },
        ground (arith, found, there),
        record {
          distinct = set_end-IsDistinct c.list i end h.distinct;
          old = All-set_end c.next_id c.list i end h.old;
          agrees = λ k. h.agrees k ∙ sym (id_of-set_end c.list i end k);
          counted = more c.occupied (total c.list) d h.counted ∙ sym grown;
        },
      )
]
