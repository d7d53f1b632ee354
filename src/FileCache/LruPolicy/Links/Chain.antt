-- ===== src/FileCache/LruPolicy/Links/Chain.antt =====
-- The list of nodes that the pointers stand for.
use cloudfuse.Base.{ℕ, ◌≡◌, ◌≢◌, sym, Option, none, some, List, [], ◌∷◌, ◌++◌, All, arith}
use cloudfuse.FileCache.LruPolicy.Links.{Pointers}

-- From `cur`, whose node points back to `before`, the pointers lead through these nodes to nil.
abbrev pub Linked : Pointers → Option ℕ → Option ℕ → List ℕ → Type 0
Linked l before cur [] = cur ≡ none
Linked l before cur (x ∷ xs) =
    (cur ≡ some x) × (l.prev x ≡ before) × Linked l (some x) (l.next x) xs

abbrev pub IsAbsent : ℕ → List ℕ → Type 0
IsAbsent n xs = All (λ x. x ≢ n) xs

abbrev pub IsDistinct : List ℕ → Type 0
IsDistinct [] = Unit
IsDistinct (x ∷ xs) = IsAbsent x xs × IsDistinct xs

-- The pointers stand for the list, and no node is twice in it.
pub record IsList (l : Pointers) (xs : List ℕ) : Type 0 where
  pub chain : Linked l none l.head xs
  pub distinct : IsDistinct xs

abbrev pub first_of : List ℕ → Option ℕ
first_of [] = none
first_of (x ∷ xs) = some x

abbrev pub last_of : Option ℕ → List ℕ → Option ℕ
last_of before [] = before
last_of before (x ∷ xs) = last_of (some x) xs

pub Linked-frame :
    (l m : Pointers) (before cur : Option ℕ) (xs : List ℕ)
    → All (λ x. (m.next x ≡ l.next x) × (m.prev x ≡ l.prev x)) xs
    → Linked l before cur xs
    → Linked m before cur xs
Linked-frame l m before cur [] same c = c
Linked-frame l m before cur (x ∷ xs) same c =
    let rest = Linked-frame l m (some x) (l.next x) xs same.1 c.2 in ground (arith, same.0, c, rest)

-- The pointers of a node in the middle.
pub Linked-middle :
    (l : Pointers) (before cur : Option ℕ) (xs ys : List ℕ) (n : ℕ)
    → Linked l before cur (xs ++ n ∷ ys)
    → (l.prev n ≡ last_of before xs) × (l.next n ≡ first_of ys)
Linked-middle l before cur [] [] n c = (c.1, c.2)
Linked-middle l before cur [] (y ∷ ys) n c = (c.1, c.2.0)
Linked-middle l before cur (x ∷ xs) ys n c = Linked-middle l (some x) (l.next x) xs ys n c.2

pub IsAbsent-middle :
    (k : ℕ) (xs ys : List ℕ) (n : ℕ)
    → IsAbsent k (xs ++ n ∷ ys)
    → (n ≢ k) × IsAbsent k xs × IsAbsent k ys
IsAbsent-middle k [] ys n h = (h.0, tt, h.1)
IsAbsent-middle k (x ∷ xs) ys n h =
    let (a, b, c) = IsAbsent-middle k xs ys n h.1 in (a, (h.0, b), c)

pub IsAbsent-append :
    (k : ℕ) (xs ys : List ℕ) → IsAbsent k xs → IsAbsent k ys → IsAbsent k (xs ++ ys)
IsAbsent-append k [] ys h g = g
IsAbsent-append k (x ∷ xs) ys h g = (h.0, IsAbsent-append k xs ys h.1 g)

pub IsDistinct-middle :
    (xs ys : List ℕ) (n : ℕ)
    → IsDistinct (xs ++ n ∷ ys)
    → IsDistinct (xs ++ ys) × IsAbsent n xs × IsAbsent n ys
IsDistinct-middle [] ys n d = (d.1, tt, d.0)
IsDistinct-middle (x ∷ xs) ys n d =
    let (rest, before, after) = IsDistinct-middle xs ys n d.1 in
    let (apart, hx, hy) = IsAbsent-middle x xs ys n d.0 in
    ((IsAbsent-append x xs ys hx hy, rest), ((λ e. apart (sym e)), before), after)

-- The last node before the middle is none that is absent.
pub last_of-IsAbsent :
    (k : ℕ) (x : ℕ) (xs : List ℕ) → k ≢ x → IsAbsent k xs → last_of (some x) xs ≢ some k
last_of-IsAbsent k x [] h a e = ground (arith, e, h)
last_of-IsAbsent k x (y ∷ xs) h a e = last_of-IsAbsent k y xs (λ p. a.0 (sym p)) a.1 e
