-- ===== src/BlockList/Search.antt =====
-- common/types.go, `BinarySearch`: it finds the block that covers an offset, wherever it stands.
use cloudfuse.Base.{
  ℕ, zero, suc, ◌+◌, ◌-◌, ◌/◌, ◌≤◌, ◌<◌, ◌≡◌, refl, sym, ◌⊎◌, inl, inr, true, false, some, List, [],
  ◌∷◌, length, get_elem?, All, arith,
}
use mathlib.Core.Option.{some-injective}
use cloudfuse.BlockList.{Block, BlockOffsetList, search_from, binary_search}

-- No block starts before an earlier one ends.
abbrev pub IsOrdered : List Block → Type 0
IsOrdered [] = Unit
IsOrdered (a ∷ bs) =
    (a.start_index ≤ a.end_index) × (All (λ b. a.end_index ≤ b.start_index) bs × IsOrdered bs)

abbrev pub Covers : ℕ → Block → Type 0
Covers offset b = (b.start_index ≤ offset) × (offset < b.end_index)

order : (i j : ℕ) → (i < j) ⊎ ((i ≡ j) ⊎ (j < i))
order i j = omega arith

split : (i j : ℕ) → (i < j) ⊎ (j ≤ i)
split i j = omega arith

get_elem?-some : (bs : List Block) (i : ℕ) → i < length bs → (b : Block) × (get_elem? bs i ≡ some b)
get_elem?-some [] i h = absurd (omega arith)
get_elem?-some (b ∷ bs) zero h = (b, refl)
get_elem?-some (b ∷ bs) (suc i) h = get_elem?-some bs i (omega arith)

length-get_elem? : (bs : List Block) (i : ℕ) (b : Block) → get_elem? bs i ≡ some b → i < length bs
length-get_elem? [] i b e = ground arith
length-get_elem? (c ∷ bs) zero b e = omega arith
length-get_elem? (c ∷ bs) (suc i) b e = omega (arith, length-get_elem? bs i b e)

All-get_elem? :
    (P : Block → Type 0) (bs : List Block) (i : ℕ) (b : Block)
    → All P bs
    → get_elem? bs i ≡ some b
    → P b
All-get_elem? P [] i b h e = ground arith
All-get_elem? P (c ∷ bs) zero b h e = rw (sym (some-injective c b e)) h.0
All-get_elem? P (c ∷ bs) (suc i) b h e = All-get_elem? P bs i b h.1 e

IsOrdered-self :
    (bs : List Block) (i : ℕ) (a : Block)
    → IsOrdered bs
    → get_elem? bs i ≡ some a
    → a.start_index ≤ a.end_index
IsOrdered-self [] i a o e = ground arith
IsOrdered-self (c ∷ bs) zero a o e = ground (arith, e, o)
IsOrdered-self (c ∷ bs) (suc i) a o e = IsOrdered-self bs i a o.1.1 e

IsOrdered-pair :
    (bs : List Block) (i j : ℕ) (a b : Block)
    → IsOrdered bs
    → i < j
    → get_elem? bs i ≡ some a
    → get_elem? bs j ≡ some b
    → a.end_index ≤ b.start_index
IsOrdered-pair [] i j a b o h ea eb = ground arith
IsOrdered-pair (c ∷ bs) i zero a b o h ea eb = absurd (omega arith)
IsOrdered-pair (c ∷ bs) zero (suc j) a b o h ea eb =
    let after = All-get_elem? (λ x. c.end_index ≤ x.start_index) bs j b o.1.0 eb in
    ground (arith, ea, after)
IsOrdered-pair (c ∷ bs) (suc i) (suc j) a b o h ea eb =
    IsOrdered-pair bs i j a b o.1.1 (omega arith) ea eb

search_from-finds :
    (fuel : ℕ) (bs : List Block) (offset lower above i : ℕ) (b : Block)
    → IsOrdered bs
    → get_elem? bs i ≡ some b
    → Covers offset b
    → lower ≤ i
    → i < above
    → above ≤ length bs
    → above < fuel + lower
    → search_from fuel bs offset lower above ≡ some (true, i)
unfolding search_from
search_from-finds zero bs offset lower above i b o e c hl hi ha hf = absurd (omega arith)
search_from-finds (suc fuel) bs offset lower above i b o e c hl hi ha hf =
    let middle = (lower + (above - 1)) / 2 in
    let (m, em) = get_elem?-some bs middle (omega arith) in
    let self = IsOrdered-self bs middle m o em in
    let right = search_from-finds fuel bs offset (middle + 1) above i b o e c in
    let left = search_from-finds fuel bs offset lower middle i b o e c hl in
    elim (order middle i) [
      | inl before ↦
          let apart = IsOrdered-pair bs middle i m b o before em e in
          let there = right (omega arith) hi ha (omega arith) in ground (arith, em, apart, there)
      | inr (inl same) ↦ ground (arith, em, e, same)
      | inr (inr after) ↦
          let apart = IsOrdered-pair bs i middle b m o after e em in
          let there = left after (omega arith) (omega arith) in
          ground (arith, em, apart, self, there)
    ]

-- Whatever the blocks are, if none covers the offset, then the search ends and says so.
search_from-misses :
    (fuel : ℕ) (bs : List Block) (offset lower above : ℕ)
    → All (λ b. ¬ Covers offset b) bs
    → lower ≤ above
    → above ≤ length bs
    → above < fuel + lower
    → search_from fuel bs offset lower above ≡ some (false, length bs)
unfolding search_from
search_from-misses zero bs offset lower above n hl ha hf = absurd (omega arith)
search_from-misses (suc fuel) bs offset lower above n hl ha hf =
    let middle = (lower + (above - 1)) / 2 in
    elim (split lower above) [
      | inr done ↦ ground (arith, done)
      | inl go ↦
          let (m, em) = get_elem?-some bs middle (omega arith) in
          let apart = All-get_elem? (λ b. ¬ Covers offset b) bs middle m n em in
          let right =
            search_from-misses fuel bs offset (middle + 1) above n (omega arith) ha (omega arith) in
          let left =
            search_from-misses fuel bs offset lower middle n (omega arith) (omega arith)
              (omega arith) in
          ground (arith, em, apart, right, left, go)
    ]

-- In a list of blocks in order, `BinarySearch` finds the block that covers the offset, at its index.
pub binary_search-finds :
    (bol : BlockOffsetList) (offset i : ℕ) (b : Block)
    → IsOrdered bol.block_list
    → get_elem? bol.block_list i ≡ some b
    → Covers offset b
    → binary_search offset bol ≡ some (true, i)
unfolding binary_search
binary_search-finds bol offset i b o e c =
    search_from-finds (suc (length bol.block_list)) bol.block_list offset 0 (length bol.block_list)
      i b o e c (omega arith) (length-get_elem? bol.block_list i b e) (omega arith) (omega arith)

-- If no block covers the offset, then `BinarySearch` ends and answers the length of the list, also
-- where the blocks are in no order at all.
pub binary_search-misses :
    (bol : BlockOffsetList) (offset : ℕ)
    → All (λ b. ¬ Covers offset b) bol.block_list
    → binary_search offset bol ≡ some (false, length bol.block_list)
unfolding binary_search
binary_search-misses bol offset n =
    search_from-misses (suc (length bol.block_list)) bol.block_list offset 0 (length bol.block_list)
      n (omega arith) (omega arith) (omega arith)
