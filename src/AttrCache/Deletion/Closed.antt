-- ===== src/AttrCache/Deletion/Closed.antt =====
-- What `markDeleted` reaches: when an item dies, so do its children.
use Prim.Native.String.{String}
use cloudfuse.Base.{
  ℕ, zero, suc, ◌≡◌, refl, ap, ◌∙◌, inl, inr, true, false, Option, some, List, [], ◌∷◌, ◌==◌, All,
  Bool-cases, Option-cases, arith,
}
use mathlib.Core.Path.{subst}
use cloudfuse.Bitmap.{clear}
use cloudfuse.Bitmap.Laws.{is_set-set, is_set-clear}
use cloudfuse.AttrCache.Item.{AttrCacheItem, valid, exists, is_root}
use cloudfuse.AttrCache.Tree.{CacheTreeMap, change}
use cloudfuse.AttrCache.Deletion.{each, tell_parent, flag_deleted, mark_deleted}

-- The items below `n` are no deeper than the fuel, and none of them is the root.
unfoldable pub IsShallow : CacheTreeMap → ℕ → ℕ → Type 0
IsShallow c zero n = ⊥
IsShallow c (suc fuel) n =
    All (λ e. (is_root (c.items e.1) ≡ false) × IsShallow c fuel e.1) (c.items n).children

-- No item lives again, and attributes, children and parents stay.
pub record IsLater (c d : CacheTreeMap) : Type 0 where
  pub dead : (k : ℕ) → exists (c.items k) ≡ false → exists (d.items k) ≡ false
  pub children : (k : ℕ) → (d.items k).children ≡ (c.items k).children
  pub attr : (k : ℕ) → (d.items k).attr ≡ (c.items k).attr
  pub parent : (k : ℕ) → (d.items k).parent ≡ (c.items k).parent
  pub closed :
      (k : ℕ)
      → exists (c.items k) ≡ true
      → exists (d.items k) ≡ false
      → All (λ e. exists (d.items e.1) ≡ false) (c.items k).children

all_dead :
    (c d : CacheTreeMap) (es : List (String × ℕ))
    → ((k : ℕ) → exists (c.items k) ≡ false → exists (d.items k) ≡ false)
    → All (λ e. exists (c.items e.1) ≡ false) es
    → All (λ e. exists (d.items e.1) ≡ false) es
all_dead c d [] h a = tt
all_dead c d (e ∷ es) h a = (h e.1 a.0, all_dead c d es h a.1)

IsLater-refl : (c : CacheTreeMap) → IsLater c c
IsLater-refl c = record {
  dead = λ k h. h;
  children = λ k. refl;
  attr = λ k. refl;
  parent = λ k. refl;
  closed = λ k lives dies. absurd (ground (arith, lives, dies));
}

IsLater-trans : (b c d : CacheTreeMap) → IsLater b c → IsLater c d → IsLater b d
IsLater-trans b c d p q = record {
  dead = λ k h. q.dead k (p.dead k h);
  children = λ k. q.children k ∙ p.children k;
  attr = λ k. q.attr k ∙ p.attr k;
  parent = λ k. q.parent k ∙ p.parent k;
  closed = λ k lives dies. elim (Bool-cases (exists (c.items k))) [
    | inl still ↦
        subst (λ (es : List (String × ℕ)). All (λ e. exists (d.items e.1) ≡ false) es)
          (p.children k) (q.closed k still dies)
    | inr died ↦ all_dead c d (b.items k).children q.dead (p.closed k lives died)
  ];
}

All-later :
    (c d : CacheTreeMap) (fuel : ℕ) (es : List (String × ℕ))
    → IsLater c d
    → All (λ e. (is_root (c.items e.1) ≡ false) × IsShallow c fuel e.1) es
    → ((k : ℕ) → IsShallow c fuel k → IsShallow d fuel k)
    → All (λ e. (is_root (d.items e.1) ≡ false) × IsShallow d fuel e.1) es
All-later c d fuel [] l s f = tt
All-later c d fuel (e ∷ es) l s f =
    let root : is_root (d.items e.1) ≡ false = rw (l.attr e.1) s.0.0 in
    ((root, f e.1 s.0.1), All-later c d fuel es l s.1 f)

IsShallow-later :
    (c d : CacheTreeMap) (fuel n : ℕ) → IsLater c d → IsShallow c fuel n → IsShallow d fuel n
unfolding IsShallow
IsShallow-later c d zero n l s = s
IsShallow-later c d (suc fuel) n l s =
    rw (l.children n)
      (All-later c d fuel (c.items n).children l s (λ k. IsShallow-later c d fuel k l))

exists-flag_deleted : (t : ℕ) (i : AttrCacheItem) → exists (flag_deleted t i) ≡ false
unfolding exists valid
exists-flag_deleted t i =
    let (a, _) = is_set-set (clear i.attr_flag 1).word 2 1 in
    let (b, _) = is_set-clear i.attr_flag 1 1 in ground (arith, a, b)

-- The fields that the flag does not touch, and the flag.
record IsAlike (i j : AttrCacheItem) : Type 0 where
  attr_flag : i.attr_flag ≡ j.attr_flag
  children : i.children ≡ j.children
  attr : i.attr ≡ j.attr
  parent : i.parent ≡ j.parent

exists-IsAlike : (i j : AttrCacheItem) → IsAlike i j → exists i ≡ exists j
unfolding exists valid
exists-IsAlike i j s = rw s.attr_flag refl

abbrev told : ℕ → CacheTreeMap → CacheTreeMap
told n d = tell_parent (λ e m i. record i { list_cache = [] }) n d

told-IsAlike : (n : ℕ) (d : CacheTreeMap) (k : ℕ) → IsAlike ((told n d).items k) (d.items k)
told-IsAlike n d k = elim (Option-cases (d.items n).parent) [
  | inl none_there ↦ record {
    attr_flag = rw (told, tell_parent, none_there) refl;
    children = rw (told, tell_parent, none_there) refl;
    attr = rw (told, tell_parent, none_there) refl;
    parent = rw (told, tell_parent, none_there) refl;
  }
  | inr (m, there) ↦ record {
    attr_flag = ground (arith, there);
    children = ground (arith, there);
    attr = ground (arith, there);
    parent = ground (arith, there);
  }
]

-- The item itself is flagged last, when its children are dead.
finished :
    (t n : ℕ) (d : CacheTreeMap)
    → All (λ e. exists (d.items e.1) ≡ false) (d.items n).children
    → IsLater d (change n (flag_deleted t) (told n d))
      × (exists ((change n (flag_deleted t) (told n d)).items n) ≡ false)
finished t n d below =
    let f = change n (flag_deleted t) (told n d) in
    let alike = told-IsAlike n d in
    let here : f.items n ≡ flag_deleted t ((told n d).items n) = ground arith in
    let gone : exists (f.items n) ≡ false =
      ap exists here ∙ exists-flag_deleted t ((told n d).items n) in
    let same_k = λ (k : ℕ). exists-IsAlike ((told n d).items k) (d.items k) (alike k) in
    let other = λ (k : ℕ) (apart : (k == n) ≡ false). rest t n d k apart in
    let dies = λ (k : ℕ) (h : exists (d.items k) ≡ false). dead_after t n d k gone h in
    (
      record {
        dead = dies;
        children = λ k. let a = (alike k).children in ground (arith, a);
        attr = λ k. let a = (alike k).attr in ground (arith, a);
        parent = λ k. let a = (alike k).parent in ground (arith, a);
        closed = λ k lives died. elim (Bool-cases (k == n)) [
          | inl is_n ↦
              let eq : n ≡ k = ground (arith, is_n) in
              subst (λ (j : ℕ). All (λ e. exists (f.items e.1) ≡ false) (d.items j).children) eq
                (all_dead d f (d.items n).children dies below)
          | inr apart ↦
              let same_exists = ap exists (other k apart) ∙ same_k k in
              absurd (ground (arith, same_exists, lives, died))
        ];
      },
      gone,
    )
  where
    rest :
        (t n : ℕ) (d : CacheTreeMap) (k : ℕ)
        → (k == n) ≡ false
        → (change n (flag_deleted t) (told n d)).items k ≡ (told n d).items k
    rest t n d k apart = rw apart refl

    dead_after :
        (t n : ℕ) (d : CacheTreeMap) (k : ℕ)
        → exists ((change n (flag_deleted t) (told n d)).items n) ≡ false
        → exists (d.items k) ≡ false
        → exists ((change n (flag_deleted t) (told n d)).items k) ≡ false
    dead_after t n d k gone h = elim (Bool-cases (k == n)) [
      | inl is_n ↦
          let eq : n ≡ k = ground (arith, is_n) in
          subst (λ (j : ℕ). exists ((change n (flag_deleted t) (told n d)).items j) ≡ false) eq gone
      | inr apart ↦
          ap exists (rest t n d k apart)
          ∙ (exists-IsAlike ((told n d).items k) (d.items k) (told-IsAlike n d k) ∙ h)
    ]

-- Each child in turn.
each-IsLater :
    (fuel : ℕ) (f : ℕ → CacheTreeMap → Option CacheTreeMap) (es : List (String × ℕ))
    (c : CacheTreeMap)
    → ((k : ℕ) (b : CacheTreeMap)
        → IsShallow b fuel k
        → is_root (b.items k) ≡ false
        → (d : CacheTreeMap) × (f k b ≡ some d) × IsLater b d × (exists (d.items k) ≡ false))
    → All (λ e. (is_root (c.items e.1) ≡ false) × IsShallow c fuel e.1) es
    → (d : CacheTreeMap) × (each f es c ≡ some d)
      × IsLater c d
      × All (λ e. exists (d.items e.1) ≡ false) es
each-IsLater fuel f [] c works s = (c, refl, IsLater-refl c, tt)
each-IsLater fuel f ((name, k) ∷ es) c works s =
    let (b, first, later, gone) = works k c s.0.1 s.0.0 in
    let s' = All-later c b fuel es later s.1 (λ j. IsShallow-later c b fuel j later) in
    let (d, others, later', gones) = each-IsLater fuel f es b works s' in
    (d, rw (each, first) others, IsLater-trans c b d later later', (later'.dead k gone, gones))

-- On an item that is not the root, below which the items are no deeper than the fuel (with the root not
-- among them), `markDeleted` ends. The item does not exist any more; when any item that existed has
-- stopped existing, so have all of its children; and no item lives again, or changes its attributes,
-- children or parent.
pub mark_deleted-IsLater :
    (fuel t n : ℕ) (c : CacheTreeMap)
    → IsShallow c fuel n
    → is_root (c.items n) ≡ false
    → (d : CacheTreeMap) × (mark_deleted fuel t n c ≡ some d)
      × IsLater c d
      × (exists (d.items n) ≡ false)
unfolding mark_deleted IsShallow
mark_deleted-IsLater zero t n c s r = absurd s
mark_deleted-IsLater (suc fuel) t n c s r =
    let (d, loop, later, gones) =
      each-IsLater fuel (mark_deleted fuel t) (c.items n).children c
        (λ k b. mark_deleted-IsLater fuel t k b) s in
    elim (Bool-cases (exists (c.items n))) [
      | inr dead ↦ (c, rw (mark_deleted, r, dead) refl, IsLater-refl c, dead)
      | inl lives ↦
          let below : All (λ e. exists (d.items e.1) ≡ false) (d.items n).children =
            rw (later.children n) gones in
          let (last, gone) = finished t n d below in
          let f = change n (flag_deleted t) (told n d) in
          (f, rw (mark_deleted, r, lives, loop) refl, IsLater-trans c d f later last, gone)
    ]
