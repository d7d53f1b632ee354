-- ===== src/FileCache/LruPolicy/Ahead.antt =====
-- Which of two nodes stands before the other, and that an event keeps it so.
use Prim.Native.String.{String}
use cloudfuse.Base.{
  ℕ, ◌≡◌, ◌≢◌, refl, sym, ap, ◌∙◌, inl, inr, Bool, true, false, some, List, [], ◌∷◌, ◌==◌,
  if◌then◌else◌, Bool-cases, Option-cases, load, ◌⊎◌, arith,
}
use mathlib.Core.Path.{subst}
use cloudfuse.FileCache.LruPolicy.{LruPolicy}
use cloudfuse.FileCache.LruPolicy.Order.{
  has, erase, front, has-erase, below-of-has, IsPolicy, node_of,
}
use cloudfuse.FileCache.LruPolicy.Steps.{Event, valid, touch, purge, mark, moved}
use cloudfuse.FileCache.LruPolicy.Kept.{spares, differ}

-- `n` stands before `m`.
abbrev pub ahead : ℕ → ℕ → List ℕ → Bool
ahead n m [] = false
ahead n m (x ∷ xs) =
    let rest = ahead n m xs in if x == n then has m xs else if x == m then false else rest

pub ahead-erase : (k n m : ℕ) (xs : List ℕ) → n ≢ k → m ≢ k → ahead n m (erase k xs) ≡ ahead n m xs
ahead-erase k n m [] a b = refl
ahead-erase k n m (x ∷ xs) a b =
    let rest = ahead-erase k n m xs a b in
    let kept = has-erase m k xs b in
    elim (Bool-cases (x == k)) [
      | inl here ↦
          let eq : x ≡ k = ground (arith, here) in
          let x_n : (x == n) ≡ false = ground (arith, eq, a) in
          let x_m : (x == m) ≡ false = ground (arith, eq, b) in rw (here, x_n, x_m) refl
      | inr other ↦ rw (other, rest, kept) refl
    ]

ahead-has : (n m : ℕ) (xs : List ℕ) → ahead n m xs ≡ true → has m xs ≡ true
ahead-has n m [] h = ground (arith, h)
ahead-has n m (x ∷ xs) h = let rest = ahead-has n m xs in ground (arith, h, rest)

-- Another node, or the first of the two itself, is put in front.
pub ahead-front :
    (k n m : ℕ) (xs : List ℕ) → m ≢ k → n ≢ m → ahead n m xs ≡ true → ahead n m (front k xs) ≡ true
ahead-front k n m xs apart distinct h = elim (Bool-cases (k == n)) [
  | inl here ↦
      let kept = has-erase m k xs apart in
      let at = ahead-has n m xs h in ground (arith, here, kept, at)
  | inr other ↦
      let rest = ahead-erase k n m xs (ground (arith, other)) apart in
      ground (arith, other, rest, h, apart)
]

abbrev pub is_mark : Event → Bool
is_mark (valid name) = false
is_mark (touch name) = false
is_mark (purge name) = false
is_mark mark = true

-- A marker that the event leaves where it is.
abbrev pub IsStill : Event → LruPolicy → ℕ → Type 0
IsStill e p m = (m ≡ p.curr_marker) ⊎ ((m ≡ p.last_marker) × (is_mark e ≡ false))

-- A marker is no file's node, and is there already.
still-apart :
    (e : Event) (p : LruPolicy) (xs : List ℕ) (m : ℕ)
    → IsPolicy p xs
    → IsStill e p m
    → ((other : String) (k : ℕ) → load other p.node_map ≡ some k → m ≢ k) × (m ≢ p.next_node)
still-apart e p xs m h (inl eq) =
    let below = below-of-has p.next_node p.curr_marker xs h.young h.has_curr in
    (
      λ other k found. let (_, _, c, d) = h.mapped other k found in ground (arith, c, eq),
      omega (arith, below, eq),
    )
still-apart e p xs m h (inr (eq, _)) =
    let below = below-of-has p.next_node p.last_marker xs h.young h.has_last in
    (
      λ other k found. let (_, _, c, d) = h.mapped other k found in ground (arith, d, eq),
      omega (arith, below, eq),
    )

pub valid-apart :
    (name : String) (p : LruPolicy) (xs : List ℕ)
    → IsPolicy p xs
    → (m : ℕ) → IsStill (valid name) p m
    → m ≢ node_of name p
valid-apart name p xs h m still =
    let (files, new) = still-apart (valid name) p xs m h still in
    elim (Option-cases (load name p.node_map)) [
      | inl missing ↦ rw (node_of, missing) new
      | inr (k, found) ↦ rw (node_of, found) (files name k found)
    ]

-- The event moves some other node than the marker.
pub moved-ahead :
    (e : Event) (name : String) (n m : ℕ) (p : LruPolicy) (xs : List ℕ)
    → IsPolicy p xs
    → load name p.node_map ≡ some n
    → spares name e ≡ true
    → IsStill e p m
    → ahead n m xs ≡ true
    → ahead n m (moved e p xs) ≡ true
unfolding spares
moved-ahead (valid other) name n m p xs h known safe still at =
    let (files, new) = still-apart (valid other) p xs m h still in
    let apart = λ (eq : n ≡ m). files name n known (sym eq) in
    elim (Option-cases (load other p.node_map)) [
      | inl missing ↦
          let node : node_of other p ≡ p.next_node = rw (node_of, missing) refl in
          subst (λ (k : ℕ). ahead n m (front k xs) ≡ true) (sym node)
            (ahead-front p.next_node n m xs new apart at)
      | inr (k, found) ↦
          let node : node_of other p ≡ k = rw (node_of, found) refl in
          subst (λ (j : ℕ). ahead n m (front j xs) ≡ true) (sym node)
            (ahead-front k n m xs (files other k found) apart at)
    ]
moved-ahead (touch other) name n m p xs h known safe still at =
    let (files, new) = still-apart (touch other) p xs m h still in
    let apart = λ (eq : n ≡ m). files name n known (sym eq) in
    elim (Option-cases (load other p.node_map)) [
      | inl missing ↦ rw (moved, missing) at
      | inr (k, found) ↦ rw (moved, found) (ahead-front k n m xs (files other k found) apart at)
    ]
moved-ahead (purge other) name n m p xs h known safe still at =
    let (files, new) = still-apart (purge other) p xs m h still in
    elim (Option-cases (load other p.node_map)) [
      | inl missing ↦ rw (moved, missing) at
      | inr (k, found) ↦
          let (_, named, _, _) = h.mapped other k found in
          let (_, named', _, _) = h.mapped name n known in
          let apart : n ≢ k =
            λ eq. differ name other safe (sym named ∙ (ap p.name_of (sym eq) ∙ named')) in
          rw (moved, found) (ahead-erase k n m xs apart (files other k found) ∙ at)
    ]
moved-ahead mark name n m p xs h known safe (inl eq) at =
    let (files, new) = still-apart mark p xs m h (inl eq) in
    let apart = λ (q : n ≡ m). files name n known (sym q) in
    ahead-front p.last_marker n m xs (λ q. h.apart (sym eq ∙ q)) apart at
moved-ahead mark name n m p xs h known safe (inr (eq, other)) at = ground (arith, other)
