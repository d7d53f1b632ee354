-- ===== src/AttrCache/Answers.antt =====
-- What `insert` and `GetAttr` give, and what a second `GetAttr` answers.
use Prim.Native.String.{String}
use cloudfuse.Base.{
  ℕ, zero, suc, ◌+◌, ◌≤◌, ◌<◌, ◌≡◌, ◌≢◌, refl, sym, ap, ◌∙◌, inl, inr, Bool, true, false, none,
  some, same, same_refl, same_path, same-false, load, Bool-cases, leb, ltb, length, arith,
}
use mathlib.Core.Path.{subst}
use cloudfuse.AttrCache.Item.{
  PathLib, ObjAttr, AttrCacheItem, get_parent_dir, truncate_dir_name, new_attr_cache_item, exists,
  is_in_cloud,
}
use cloudfuse.AttrCache.Tree.{CacheTreeMap, allocate, get, insert}
use cloudfuse.AttrCache.Ancestors.{is_known, mark_ancestors_in_cloud}
use cloudfuse.AttrCache.Handlers.{Response, ok, look_up, get_attr}
use cloudfuse.AttrCache.Rooted.{
  IsPaths, IsSame, IsSame-trans, exists-IsSame, valid-IsSame, is_in_cloud-IsSame, exists-new,
  valid-new, IsRooted, path_of, parent_of,
}
use cloudfuse.AttrCache.Attached.{IsInserted, allocated, IsSame-item}
use cloudfuse.AttrCache.Insert.{insert_item-IsInserted}

module _ (lib : PathLib) (depth : String → ℕ) (paths : IsPaths lib depth) where
  new_path :
      (attr : ObjAttr) (does_exist : Bool) (t : ℕ) (c : CacheTreeMap)
      → (allocate (new_attr_cache_item attr does_exist t) c).items c.next_item
        ≡ new_attr_cache_item attr does_exist t
      → path_of lib c.next_item (allocate (new_attr_cache_item attr does_exist t) c)
        ≡ truncate_dir_name lib attr.path
  unfolding new_attr_cache_item
  new_path attr does_exist t c made =
      ap (λ (i : AttrCacheItem). truncate_dir_name lib i.attr.path) made

  -- Let the parent of a path be less deep than the path. While the cache is not full, and its root exists,
  -- an insertion of attributes, whose path is not empty, nor becomes so without a slash at its end, succeeds.
  -- The path then leads to a new item with these attributes, flags and time; if the item exists, its
  -- directory is cached and exists; and every path that led to an existing item, except this one, still
  -- leads to it, with the same attributes, flags and time.
  pub insert-IsInserted :
      (attr : ObjAttr) (does_exist fl : Bool) (now t : ℕ) (c : CacheTreeMap)
      → IsRooted c
      → length c.cache_map < c.max_files
      → attr.path ≢ ""
      → truncate_dir_name lib attr.path ≢ ""
      → (d : CacheTreeMap) × (insert lib depth now attr does_exist t fl c
          ≡ some (some c.next_item, d))
        × IsInserted lib c.next_item (allocate (new_attr_cache_item attr does_exist t) c) d
        × IsSame (d.items c.next_item) (new_attr_cache_item attr does_exist t)
  unfolding insert
  insert-IsInserted attr does_exist fl now t c r room named named' =
      let item = new_attr_cache_item attr does_exist t in
      let a = allocate item c in
      let (r', old, made) = allocated lib item c r in
      let path : path_of lib c.next_item a ≡ truncate_dir_name lib attr.path =
        new_path attr does_exist t c made in
      let (d, inserts, i) =
        insert_item-IsInserted lib depth paths (depth (truncate_dir_name lib attr.path)) now
          c.next_item fl a r' (λ e. named' (sym path ∙ e)) (omega arith)
          (subst (λ (p : String). depth p ≤ depth (truncate_dir_name lib attr.path)) (sym path)
            (omega arith)) in
      let not_full : leb c.max_files (length c.cache_map) ≡ false = ground (arith, room) in
      let some_path = same-false attr.path "" named in
      let same_new =
        IsSame-trans (d.items c.next_item) (a.items c.next_item) item
          (i.same_items c.next_item (omega arith))
          (IsSame-item lib (a.items c.next_item) item made) in
      (d, rw (insert, not_full, some_path, inserts) refl, i, same_new)

  mark_known :
      (fuel now : ℕ) (dir : String) (c : CacheTreeMap)
      → is_known lib depth dir c ≡ true
      → (fuel ≡ 0 → dir ≡ "")
      → mark_ancestors_in_cloud lib depth fuel dir now c ≡ some c
  unfolding mark_ancestors_in_cloud
  mark_known zero now dir c known h =
      let at : same dir "" ≡ true =
        subst (λ (t : String). same t "" ≡ true) (sym (h refl)) (same_refl "") in
      rw (mark_ancestors_in_cloud, at) refl
  mark_known (suc fuel) now dir c known h = elim (Bool-cases (same dir "")) [
    | inl root ↦ rw (mark_ancestors_in_cloud, root) refl
    | inr other ↦ rw (mark_ancestors_in_cloud, other, known) refl
  ]

  -- The item answers for its path until its time is over.
  answers :
      (cache_timeout later t n : ℕ) (name : String) (attr : ObjAttr) (response : Response)
      (d : CacheTreeMap)
      → load (truncate_dir_name lib name) d.cache_map ≡ some n
      → IsSame (d.items n) (new_attr_cache_item attr true t)
      → later < t + cache_timeout
      → get_attr lib depth cache_timeout name later response d
        ≡ some (record { attr = some attr; err = none; asked = false }, d)
  unfolding look_up get_attr
  answers cache_timeout later t n name attr response d at is fresh =
      let found : get lib name d ≡ some n = unfold get in at in
      let lives =
        exists-IsSame (d.items n) (new_attr_cache_item attr true t) is ∙ exists-new attr true t in
      let is_valid =
        valid-IsSame (d.items n) (new_attr_cache_item attr true t) is ∙ valid-new attr true t in
      let attr_is : (d.items n).attr ≡ attr = is.attr ∙ (unfold new_attr_cache_item in refl) in
      let time_is : (d.items n).cached_at ≡ t =
        is.cached_at ∙ (unfold new_attr_cache_item in refl) in
      let in_time : ltb later ((d.items n).cached_at + cache_timeout) ≡ true =
        ground (arith, time_is, fresh) in
      let answer : look_up lib depth cache_timeout name later d
          ≡ record { attr = some attr; err = none; respond = true } =
        rw (look_up, found, is_valid, lives, in_time, attr_is) refl in
      rw (get_attr, answer) refl

  known_parent :
      (name : String) (attr : ObjAttr) (now : ℕ) (c d : CacheTreeMap)
      → IsInserted lib c.next_item (allocate (new_attr_cache_item attr true now) c) d
      → IsRooted c
      → path_of lib c.next_item (allocate (new_attr_cache_item attr true now) c) ≡ name
      → ((m : ℕ)
          → get lib (get_parent_dir lib name) c ≡ some m
          → exists (c.items m) ≡ true
          → is_in_cloud (c.items m) ≡ true)
      → is_known lib depth (get_parent_dir lib name) d ≡ true
  unfolding is_known get
  known_parent name attr now c d i r path stands =
      let item = new_attr_cache_item attr true now in
      let a = allocate item c in
      let (_, old, made) = allocated lib item c r in
      let parent : parent_of lib c.next_item a ≡ truncate_dir_name lib (get_parent_dir lib name) =
        ap (λ (t : String). truncate_dir_name lib (get_parent_dir lib t)) path in
      let (m, at, lives, from) = i.below (ap exists made ∙ exists-new attr true now) in
      let found : load (truncate_dir_name lib (get_parent_dir lib name)) d.cache_map ≡ some m =
        subst (λ (t : String). load t d.cache_map ≡ some m) parent at in
      let in_cloud : is_in_cloud (d.items m) ≡ true = elim from [
        | inr made_there ↦ made_there
        | inl was ↦
            let was' : load (truncate_dir_name lib (get_parent_dir lib name)) c.cache_map ≡ some m =
              subst (λ (t : String). load t c.cache_map ≡ some m) parent was in
            let less = r.young (truncate_dir_name lib (get_parent_dir lib name)) m was' in
            let is : IsSame (d.items m) (c.items m) =
              IsSame-trans (d.items m) (a.items m) (c.items m)
                (i.same_items m (omega (arith, less)))
                (IsSame-item lib (a.items m) (c.items m) (old m less)) in
            is_in_cloud-IsSame (d.items m) (c.items m) is
            ∙ stands m was' (sym (exists-IsSame (d.items m) (c.items m) is) ∙ lives)
      ] in
      rw (is_known, get, found, lives, in_cloud) refl

  -- Let the parent of a path be less deep than the path. The cache is not full, its root exists, and the directory of the name, where it is cached and exists, is
  -- known to be in the cloud. When the cache does not answer for a name (not empty, with no slash at its
  -- end) and the next component gives the attributes of that name, `GetAttr` returns these; and until the
  -- cache timeout is over, it returns them again without asking, whatever the next component would say.
  pub get_attr-get_attr :
      (cache_timeout now : ℕ) (name : String) (attr : ObjAttr) (c : CacheTreeMap)
      → IsRooted c
      → length c.cache_map < c.max_files
      → name ≢ ""
      → truncate_dir_name lib name ≡ name
      → attr.path ≡ name
      → (look_up lib depth cache_timeout name now c).respond ≡ false
      → ((m : ℕ)
          → get lib (get_parent_dir lib name) c ≡ some m
          → exists (c.items m) ≡ true
          → is_in_cloud (c.items m) ≡ true)
      → (d : CacheTreeMap) × (get_attr lib depth cache_timeout name now (ok attr) c
          ≡ some (record { attr = some attr; err = none; asked = true }, d))
        × ((later : ℕ) (response : Response)
            → later < now + cache_timeout
            → get_attr lib depth cache_timeout name later response d
              ≡ some (record { attr = some attr; err = none; asked = false }, d))
  unfolding get_attr
  get_attr-get_attr cache_timeout now name attr c r room named trimmed path silent stands =
      let (d, inserts, i, is) =
        insert-IsInserted attr true false now now c r room (λ e. named (sym path ∙ e))
          (λ e.
            named (sym trimmed ∙ (ap (λ (t : String). truncate_dir_name lib t) (sym path) ∙ e))) in
      let (_, _, made) = allocated lib (new_attr_cache_item attr true now) c r in
      let at_name : path_of lib c.next_item (allocate (new_attr_cache_item attr true now) c)
          ≡ name =
        new_path attr true now c made
        ∙ (ap (λ (t : String). truncate_dir_name lib t) path ∙ trimmed) in
      let known = known_parent name attr now c d i r at_name stands in
      let marks =
        mark_known (depth (get_parent_dir lib name)) now (get_parent_dir lib name) d known
          (top name) in
      let found : load (truncate_dir_name lib name) d.cache_map ≡ some c.next_item =
        subst (λ (t : String). load t d.cache_map ≡ some c.next_item) (at_name ∙ sym trimmed)
          i.here in
      (
        d,
        rw (get_attr, silent, inserts, marks) refl,
        λ later response less.
            answers cache_timeout later now c.next_item name attr response d found is less,
      )
    where
      top : (name : String) → depth (get_parent_dir lib name) ≡ 0 → get_parent_dir lib name ≡ ""
      top name zero_depth = elim (Bool-cases (same (get_parent_dir lib name) "")) [
        | inl here ↦ same_path (get_parent_dir lib name) "" here
        | inr other ↦
            let less = paths.above (get_parent_dir lib name) (λ e.
              let both = subst (λ (t : String). same t "" ≡ true) (sym e) (same_refl "") in
              ground (arith, other, both)) in
            absurd (omega (arith, less, zero_depth))
      ]
