-- ===== src/LruCache/Nodes.antt =====
-- The list of nodes and the map of elements, taken apart.
use cloudfuse.Base.{
  ℕ, ◌≡◌, ◌≢◌, refl, sym, ap, Option, none, some, List, [], ◌∷◌, ◌==◌, if◌then◌else◌, All,
  Bool-cases, inl, inr, arith,
}
use cloudfuse.Base.Int.{ℤ, pos, ◌+ℤ◌, ◌-ℤ◌, int_laws, pos_part, neg_part}
use mathlib.Core.Path.{subst}
use cloudfuse.LruCache.{Node, size_of, lookup, delete_key, find_node, remove_node, set_end}

-- The identity of the first node with a key.
abbrev pub id_of : ℕ → List Node → Option ℕ
id_of key [] = none
id_of key (n ∷ ns) = let later = id_of key ns in if n.key == key then some n.id else later

abbrev pub total : List Node → ℤ
total [] = pos 0
total (n ∷ ns) = size_of n.value +ℤ total ns

abbrev pub IsApart : ℕ → ℕ → List Node → Type 0
IsApart i key ns = All (λ m. (m.id ≢ i) × (m.key ≢ key)) ns

-- No two nodes share an identity or a key.
abbrev pub IsDistinct : List Node → Type 0
IsDistinct [] = Unit
IsDistinct (n ∷ ns) = IsApart n.id n.key ns × IsDistinct ns

IsApart-id_of :
    (ns : List Node) (i key k j : ℕ) → IsApart i key ns → id_of k ns ≡ some j → (j ≢ i) × (k ≢ key)
IsApart-id_of [] i key k j h e = ground (arith, e)
IsApart-id_of (n ∷ ns) i key k j h e =
    let rest = IsApart-id_of ns i key k j h.1 in ground (arith, e, h.0, rest)

IsApart-none : (ns : List Node) (i key k : ℕ) → IsApart i key ns → k ≡ key → id_of k ns ≡ none
IsApart-none [] i key k h e = refl
IsApart-none (n ∷ ns) i key k h e =
    let rest = IsApart-none ns i key k h.1 e in ground (arith, e, h.0, rest)

moved : (a n m b : ℤ) → a ≡ m +ℤ b → n +ℤ a ≡ m +ℤ (n +ℤ b)
moved a n m b e = omega (int_laws, ap pos_part e, ap neg_part e)

-- The node that the map names: found, with its key, and its size is part of the total.
pub find_node-id_of :
    (ns : List Node) (key i : ℕ)
    → IsDistinct ns
    → id_of key ns ≡ some i
    → (n : Node) × (find_node i ns ≡ some n)
      × (n.id ≡ i)
      × (n.key ≡ key)
      × (total ns ≡ size_of n.value +ℤ total (remove_node i ns))
find_node-id_of [] key i d e = ground (arith, e)
find_node-id_of (n ∷ ns) key i d e = elim (Bool-cases (n.key == key)) [
  | inl here ↦
      let same : n.id ≡ i = ground (arith, e, here) in
      let gone : remove_node i (n ∷ ns) ≡ ns = ground (arith, same) in
      let whole : total (n ∷ ns) ≡ size_of n.value +ℤ total (remove_node i (n ∷ ns)) =
        ap (λ l. size_of n.value +ℤ total l) (sym gone) in
      (n, ground (arith, same), same, ground (arith, here), whole)
  | inr other ↦
      let later : id_of key ns ≡ some i = ground (arith, e, other) in
      let (m, found, id, named, sum) = find_node-id_of ns key i d.1 later in
      let apart = IsApart-id_of ns n.id n.key key i d.0 later in
      let kept : remove_node i (n ∷ ns) ≡ n ∷ remove_node i ns = ground (arith, apart) in
      let whole : total (n ∷ ns) ≡ size_of m.value +ℤ total (n ∷ remove_node i ns) =
        moved (total ns) (size_of n.value) (size_of m.value) (total (remove_node i ns)) sum in
      (
        m,
        ground (arith, apart, found),
        id,
        named,
        subst (λ (l : List Node). total (n ∷ ns) ≡ size_of m.value +ℤ total l) (sym kept) whole,
      )
]

IsApart-remove_node :
    (ns : List Node) (i key j : ℕ) → IsApart i key ns → IsApart i key (remove_node j ns)
IsApart-remove_node [] i key j h = tt
IsApart-remove_node (n ∷ ns) i key j h =
    let rest = IsApart-remove_node ns i key j h.1 in ground (arith, h, rest)

pub IsDistinct-remove_node :
    (ns : List Node) (j : ℕ) → IsDistinct ns → IsDistinct (remove_node j ns)
IsDistinct-remove_node [] j d = tt
IsDistinct-remove_node (n ∷ ns) j d =
    let rest = IsDistinct-remove_node ns j d.1 in
    let apart = IsApart-remove_node ns n.id n.key j d.0 in ground (arith, d, rest, apart)

pub id_of-remove_node :
    (ns : List Node) (key i k : ℕ)
    → IsDistinct ns
    → id_of key ns ≡ some i
    → id_of k (remove_node i ns) ≡ (if k == key then none else id_of k ns)
id_of-remove_node [] key i k d e = ground (arith, e)
id_of-remove_node (n ∷ ns) key i k d e =
    let rest = id_of-remove_node ns key i k d.1 in
    let apart = IsApart-id_of ns n.id n.key key i d.0 in
    let gone = IsApart-none ns n.id n.key k d.0 in ground (arith, e, rest, apart, gone)

pub lookup-delete_key :
    (es : List (ℕ × ℕ)) (key k : ℕ)
    → lookup k (delete_key key es) ≡ (if k == key then none else lookup k es)
lookup-delete_key [] key k = ground arith
lookup-delete_key ((l, i) ∷ es) key k =
    let rest = lookup-delete_key es key k in ground (arith, rest)

set_end-IsApart :
    (ns : List Node) (i key j end : ℕ) → IsApart i key ns → IsApart i key (set_end j end ns)
set_end-IsApart [] i key j end h = tt
set_end-IsApart (n ∷ ns) i key j end h =
    let rest = set_end-IsApart ns i key j end h.1 in ground (arith, h, rest)

-- A change of the end of a block leaves identities and keys, and moves the total by the difference.
pub set_end-IsDistinct :
    (ns : List Node) (i end : ℕ) → IsDistinct ns → IsDistinct (set_end i end ns)
set_end-IsDistinct [] i end d = tt
set_end-IsDistinct (n ∷ ns) i end d =
    let rest = set_end-IsDistinct ns i end d.1 in
    let apart = set_end-IsApart ns n.id n.key i end d.0 in ground (arith, d, rest, apart)

pub id_of-set_end : (ns : List Node) (i end k : ℕ) → id_of k (set_end i end ns) ≡ id_of k ns
id_of-set_end [] i end k = refl
id_of-set_end (n ∷ ns) i end k = let rest = id_of-set_end ns i end k in ground (arith, rest)

longer :
    (a b s : ℕ) (rest : ℤ) → pos b -ℤ pos s +ℤ rest ≡ pos a -ℤ pos s +ℤ rest +ℤ (pos b -ℤ pos a)
longer a b s rest = omega int_laws

shifted : (m a b d : ℤ) → b ≡ a +ℤ d → m +ℤ b ≡ m +ℤ a +ℤ d
shifted m a b d e = omega (int_laws, ap pos_part e, ap neg_part e)

pub total-set_end :
    (ns : List Node) (i end : ℕ) (n : Node)
    → find_node i ns ≡ some n
    → total (set_end i end ns) ≡ total ns +ℤ (pos end -ℤ pos n.value.end_index)
total-set_end [] i end n e = ground (arith, e)
total-set_end (m ∷ ns) i end n e = elim (Bool-cases (m.id == i)) [
  | inl here ↦
      let same : m.value.end_index ≡ n.value.end_index = ground (arith, e, here) in
      rw (here, sym same) (longer m.value.end_index end m.value.start_index (total ns))
  | inr other ↦
      let later : find_node i ns ≡ some n = ground (arith, e, other) in
      let sum = total-set_end ns i end n later in
      rw other (
        shifted (size_of m.value) (total ns) (total (set_end i end ns))
          (pos end -ℤ pos n.value.end_index) sum)
]
