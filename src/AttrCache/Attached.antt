-- ===== src/AttrCache/Attached.antt =====
-- The last step of `insertItem`: an item becomes a child of its directory.
use Prim.Native.String.{String}
use cloudfuse.Base.{
  ℕ, ◌≤◌, ◌<◌, ◌≡◌, ◌≢◌, sym, ap, ◌∙◌, ◌⊎◌, inl, inr, Bool, true, not, ◌&&◌, none, some, List,
  same_refl, same-false, load, Bool-cases, Option-cases, arith,
}
use mathlib.Core.Path.{subst}
use cloudfuse.AttrCache.Item.{
  PathLib, ObjAttr, AttrCacheItem, get_parent_dir, truncate_dir_name, create_obj_attr_dir,
  new_attr_cache_item, exists, is_in_cloud,
}
use cloudfuse.AttrCache.Tree.{CacheTreeMap, store, allocate, get, attach, usable_parent}
use cloudfuse.AttrCache.Rooted.{
  IsSame, IsSame-trans, exists-IsSame, is_in_cloud-IsSame, exists-new, is_in_cloud-new, IsRooted,
  path_of, parent_of, attach-IsSame, attach-map, load-store,
}

module _ (lib : PathLib) where
  -- What `c` with a new item `n` has become: the item is at its path, and below a directory that
  -- exists if it does; the items that were there are the same, and where one exists, its path still
  -- leads to it.
  pub record IsInserted (n : ℕ) (c d : CacheTreeMap) : Type 0 where
    pub rooted : IsRooted d
    pub grown : c.next_item ≤ d.next_item
    pub here : load (path_of lib n c) d.cache_map ≡ some n
    pub same_items : (k : ℕ) → k < c.next_item → IsSame (d.items k) (c.items k)
    pub kept :
        (path : String) (k : ℕ)
        → load path c.cache_map ≡ some k
        → exists (c.items k) ≡ true
        → path ≢ path_of lib n c
        → load path d.cache_map ≡ some k
    pub below :
        exists (c.items n) ≡ true
        → (m : ℕ) × (load (parent_of lib n c) d.cache_map ≡ some m)
          × (exists (d.items m) ≡ true)
          × ((load (parent_of lib n c) c.cache_map ≡ some m) ⊎ (is_in_cloud (d.items m) ≡ true))

  load-other :
      (a b : String) (n k : ℕ) (map : List (String × ℕ))
      → load a map ≡ some k
      → a ≢ b
      → load a (store b n map) ≡ some k
  load-other a b n k map at apart =
      let step = load-store a b n map in
      let other = same-false b a (λ e. apart (sym e)) in ground (arith, step, other, at)

  load-here : (b : String) (n : ℕ) (map : List (String × ℕ)) → load b (store b n map) ≡ some n
  load-here b n map =
      let step = load-store b b n map in let at = same_refl b in ground (arith, step, at)

  -- The last step, below a parent that is there.
  pub attached :
      (n m : ℕ) (fl : Bool) (c : CacheTreeMap)
      → IsRooted c
      → path_of lib n c ≢ ""
      → n < c.next_item
      → parent_of lib n c ≢ path_of lib n c
      → load (parent_of lib n c) c.cache_map ≡ some m
      → (exists (c.items n) ≡ true → exists (c.items m) ≡ true)
      → IsInserted n c (attach lib n m fl c)
  attached n m fl c r named new apart at holds =
      let d = attach lib n m fl c in
      let (map, next, _) = attach-map lib n m fl c in
      let items = attach-IsSame lib n m fl c in
      record {
        rooted = record {
          root = r.root;
          root_at =
              rw map (
                load-other "" (path_of lib n c) n r.root c.cache_map r.root_at
                  (λ e. named (sym e)));
          root_exists =
              exists-IsSame (d.items r.root) (c.items r.root) (items r.root) ∙ r.root_exists;
          young = λ path k e.
              let step = load-store path (path_of lib n c) n c.cache_map in
              let e' : load path (store (path_of lib n c) n c.cache_map) ≡ some k =
                subst (λ (t : List (String × ℕ)). load path t ≡ some k) map e in
              let old = r.young path k in rw next (ground (arith, e', step, old, new));
        };
        grown = rw next (omega arith);
        here = rw map (load-here (path_of lib n c) n c.cache_map);
        same_items = λ k less. items k;
        kept =
            λ path k e _ other. rw map (load-other path (path_of lib n c) n k c.cache_map e other);
        below = λ e. (
          m,
          rw map (load-other (parent_of lib n c) (path_of lib n c) n m c.cache_map at apart),
          exists-IsSame (d.items m) (c.items m) (items m) ∙ holds e,
          inl at,
        );
      }

  -- A parent that can be used exists, if the new item does.
  pub usable :
      (n m : ℕ) (c : CacheTreeMap)
      → usable_parent lib n c ≡ some m
      → (load (parent_of lib n c) c.cache_map ≡ some m)
        × (exists (c.items n) ≡ true → exists (c.items m) ≡ true)
  unfolding usable_parent get
  usable n m c h = elim (Option-cases (load (parent_of lib n c) c.cache_map)) [
    | inl missing ↦ absurd (ground (arith, h, missing))
    | inr (k, found) ↦ elim (Bool-cases (not (exists (c.items k)) && exists (c.items n))) [
      | inl dead ↦ absurd (ground (arith, h, found, dead))
      | inr fit ↦
          let eq : k ≡ m = ground (arith, h, found, fit) in
          let lives : exists (c.items n) ≡ true → exists (c.items k) ≡ true =
            λ e. ground (arith, fit, e) in
          (
            rw (sym eq) found,
            subst (λ (j : ℕ). exists (c.items n) ≡ true → exists (c.items j) ≡ true) eq lives,
          )
    ]
  ]

  pub unusable :
      (n : ℕ) (c : CacheTreeMap)
      → IsRooted c
      → usable_parent lib n c ≡ none
      → parent_of lib n c ≢ ""
  unfolding usable_parent get
  unusable n c r h e =
      let at : load (parent_of lib n c) c.cache_map ≡ some r.root = rw e r.root_at in
      ground (arith, h, at, r.root_exists)

  -- No existing item is where the parent has to be made.
  dead_parent :
      (n k : ℕ) (c : CacheTreeMap)
      → usable_parent lib n c ≡ none
      → load (parent_of lib n c) c.cache_map ≡ some k
      → exists (c.items k) ≡ true
      → ⊥
  unfolding usable_parent get
  dead_parent n k c h at e = ground (arith, h, at, e)

  pub allocated :
      (item : AttrCacheItem) (c : CacheTreeMap)
      → IsRooted c
      → IsRooted (allocate item c)
        × ((k : ℕ) → k < c.next_item → (allocate item c).items k ≡ c.items k)
        × ((allocate item c).items c.next_item ≡ item)
  allocated item c r =
      let old : (k : ℕ) → k < c.next_item → (allocate item c).items k ≡ c.items k =
        λ k less. ground (arith, less) in
      (
        record {
          root = r.root;
          root_at = r.root_at;
          root_exists = ap exists (old r.root (r.young "" r.root r.root_at)) ∙ r.root_exists;
          young = λ path k e. let less = r.young path k e in omega (arith, less);
        },
        old,
        ground arith,
      )

  pub IsSame-item : (i j : AttrCacheItem) → i ≡ j → IsSame i j
  IsSame-item i j e = record {
    attr = ap (λ (t : AttrCacheItem). t.attr) e;
    attr_flag = ap (λ (t : AttrCacheItem). t.attr_flag) e;
    cached_at = ap (λ (t : AttrCacheItem). t.cached_at) e;
    listing = ap (λ (t : AttrCacheItem). t.listing_complete) e;
  }

  -- The parent that is made for an item.
  abbrev pub made_dir : ℕ → ℕ → CacheTreeMap → AttrCacheItem
  made_dir now n c =
      new_attr_cache_item (create_obj_attr_dir lib (get_parent_dir lib (path_of lib n c)) now)
        (exists (c.items n)) (c.items n).cached_at

  -- The last step, below a parent that was made first.
  pub attached_below :
      (now n : ℕ) (fl : Bool) (c e : CacheTreeMap)
      → IsRooted c
      → path_of lib n c ≢ ""
      → n < c.next_item
      → parent_of lib n c ≢ path_of lib n c
      → usable_parent lib n c ≡ none
      → path_of lib c.next_item (allocate (made_dir now n c) c) ≡ parent_of lib n c
      → IsInserted c.next_item (allocate (made_dir now n c) c) e
      → IsInserted n c (attach lib n c.next_item fl e)
  attached_below now n fl c e r named new apart missing made_at i =
      let a = allocate (made_dir now n c) c in
      let m = c.next_item in
      let d = attach lib n m fl e in
      let (_, old, made) = allocated (made_dir now n c) c r in
      let same_n : IsSame (e.items n) (c.items n) =
        IsSame-trans (e.items n) (a.items n) (c.items n) (i.same_items n (omega (arith, new)))
          (IsSame-item (a.items n) (c.items n) (old n new)) in
      let path : path_of lib n e ≡ path_of lib n c =
        ap (λ (t : ObjAttr). truncate_dir_name lib t.path) same_n.attr in
      let above : parent_of lib n e ≡ parent_of lib n c =
        ap (λ (t : String). truncate_dir_name lib (get_parent_dir lib t)) path in
      let here : load (parent_of lib n c) e.cache_map ≡ some m =
        subst (λ (t : String). load t e.cache_map ≡ some m) made_at i.here in
      let same_m : IsSame (e.items m) (made_dir now n c) =
        IsSame-trans (e.items m) (a.items m) (made_dir now n c) (i.same_items m (omega arith))
          (IsSame-item (a.items m) (made_dir now n c) made) in
      let lives : exists (e.items n) ≡ true → exists (e.items m) ≡ true = λ t.
        exists-IsSame (e.items m) (made_dir now n c) same_m
        ∙ (exists-new (create_obj_attr_dir lib (get_parent_dir lib (path_of lib n c)) now)
              (exists (c.items n)) (c.items n).cached_at
            ∙ (sym (exists-IsSame (e.items n) (c.items n) same_n) ∙ t)) in
      let last =
        attached n m fl e i.rooted (λ t. named (sym path ∙ t)) (omega (arith, i.grown, new))
          (λ t. apart (sym above ∙ (t ∙ path))) (rw above here) lives in
      let items = attach-IsSame lib n m fl e in
      record {
        rooted = last.rooted;
        grown = omega (arith, i.grown, last.grown);
        here = subst (λ (t : String). load t d.cache_map ≡ some n) path last.here;
        same_items = λ k less. IsSame-trans (d.items k) (e.items k) (c.items k) (items k) (
            IsSame-trans (e.items k) (a.items k) (c.items k) (i.same_items k (omega (arith, less)))
              (IsSame-item (a.items k) (c.items k) (old k less)));
        kept = λ p k at lives_k other.
            let less = r.young p k at in
            let still : exists (a.items k) ≡ true = ap exists (old k less) ∙ lives_k in
            let not_made : p ≢ path_of lib m a = λ t.
              dead_parent n k c missing
                (subst (λ (q : String). load q c.cache_map ≡ some k) (t ∙ made_at) at) lives_k in
            let at' = i.kept p k at still not_made in
            let still' : exists (e.items k) ≡ true =
              exists-IsSame (e.items k) (a.items k) (i.same_items k (omega (arith, less)))
              ∙ still in
            last.kept p k at' still' (λ t. other (t ∙ path));
        below = λ t.
            let (j, j_at, j_lives, from) =
              last.below (exists-IsSame (e.items n) (c.items n) same_n ∙ t) in
            let fresh : is_in_cloud (d.items m) ≡ true =
              is_in_cloud-IsSame (d.items m) (made_dir now n c)
                (IsSame-trans (d.items m) (e.items m) (made_dir now n c) (items m) same_m)
              ∙ is_in_cloud-new lib (get_parent_dir lib (path_of lib n c)) now (exists (c.items n))
                  (c.items n).cached_at in
            let in_cloud : is_in_cloud (d.items j) ≡ true = elim from [
              | inr yes_it ↦ yes_it
              | inl at ↦
                  let at_c : load (parent_of lib n c) e.cache_map ≡ some j =
                    subst (λ (q : String). load q e.cache_map ≡ some j) above at in
                  let eq : m ≡ j = ground (arith, at_c, here) in
                  subst (λ (q : ℕ). is_in_cloud (d.items q) ≡ true) eq fresh
            ] in
            (
              j,
              subst (λ (q : String). load q d.cache_map ≡ some j) above j_at,
              j_lives,
              inr in_cloud,
            );
      }
