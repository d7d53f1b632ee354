-- ===== src/AttrCache/Tests.antt =====
-- Runs of the attribute cache over paths of one level, and the theorems at them.
use Prim.Native.String.{String}
use cloudfuse.Base.{
  ℕ, ◌+◌, ◌<◌, ◌≡◌, ◌≢◌, refl, true, false, ◌||◌, Option, none, some, same, same-false, ap, length,
  inl, inr, Bool-cases, if◌then◌else◌, arith, [], ◌∷◌, ltb,
}
use cloudfuse.Bitmap.{is_set, set, clear}
use cloudfuse.AttrCache.Item.{
  is_root, PathLib, ObjAttr, get_parent_dir, create_obj_attr, create_obj_attr_dir,
  new_attr_cache_item, is_dir, valid, exists, is_in_cloud, mark_in_cloud,
  touch_modify_and_change_times, set_mode,
}
use cloudfuse.AttrCache.Tree.{
  CacheTreeMap, new_cache_tree_map, get, attach, usable_parent, insert_item, insert,
  get_cached_parent, allocate,
}
use cloudfuse.AttrCache.Rooted.{IsPaths, IsRooted, IsSame}
use cloudfuse.AttrCache.Attached.{IsInserted}
use cloudfuse.AttrCache.Answers.{insert-IsInserted, get_attr-get_attr}
use cloudfuse.AttrCache.Deletion.{mark_deleted}
use cloudfuse.AttrCache.Deletion.Closed.{IsShallow, IsLater, mark_deleted-IsLater}
use cloudfuse.AttrCache.Renames.{rename_dir, move_cached_item}
use cloudfuse.AttrCache.Listings.{
  fetched, expired, fetch_cached_dir_list, cache_list_segment, is_dir_empty,
  fetch-cache_list_segment,
}
use cloudfuse.AttrCache.Ancestors.{
  get_or_insert_dir, is_known, mark_ancestors_in_cloud, touch_parent_dir_times,
}
use cloudfuse.AttrCache.Handlers.{
  not_found, enoent, Response, ok, Reply, look_up, get_attr, mark_listing_complete, create_file,
  truncate_file,
}

-- Paths "a", "d", "d/a" and "d/b".
abbrev toy_dir : String → String
toy_dir name = if same name "d/a" || same name "d/b" then "d" else "."

abbrev toy : PathLib
toy = record { trim_slash = λ s. s; dir = toy_dir; base = λ s. s }

abbrev toy_depth : String → ℕ
toy_depth name = if same name "" then 0 else if same name "d/a" || same name "d/b" then 2 else 1

abbrev start : CacheTreeMap
start = new_cache_tree_map toy 10 0

abbrev attr_of : String → ObjAttr
attr_of name = create_obj_attr toy name 7 0

-- A file and its directory's listing are cached at time 0, another file is created at time 90; after
-- a timeout of 100 the first file is said not to exist, for the other 90.
abbrev scenario : ℕ → Option Reply
scenario now = elim (get_attr toy toy_depth 100 "d/a" 0 (ok (attr_of "d/a")) start) [
  | none ↦ none
  | some (r, c) ↦
      elim (create_file toy toy_depth 100 "d/b" 0 90
        (mark_listing_complete toy toy_depth 100 "d" 0 c)) [
          | none ↦ none
          | some d ↦ elim (get_attr toy toy_depth 100 "d/a" now (ok (attr_of "d/a")) d) [
            | none ↦ none
            | some (q, e) ↦ some q
          ]
        ]
]

before_test : scenario 99 ≡ some (record { attr = some (attr_of "d/a"); err = none; asked = false })
unfolding get_attr mark_listing_complete create_file insert insert_item attach usable_parent get
    mark_ancestors_in_cloud touch_parent_dir_times get_or_insert_dir is_known look_up
    get_cached_parent exists valid is_in_cloud mark_in_cloud new_attr_cache_item create_obj_attr
    create_obj_attr_dir is_set set clear is_dir get_parent_dir new_cache_tree_map
    touch_modify_and_change_times set_mode
before_test = refl

expired_test :
    scenario 101 ≡ some (record { attr = some (attr_of "d/a"); err = some enoent; asked = false })
unfolding get_attr mark_listing_complete create_file insert insert_item attach usable_parent get
    mark_ancestors_in_cloud touch_parent_dir_times get_or_insert_dir is_known look_up
    get_cached_parent exists valid is_in_cloud mark_in_cloud new_attr_cache_item create_obj_attr
    create_obj_attr_dir is_set set clear is_dir get_parent_dir new_cache_tree_map
    touch_modify_and_change_times set_mode
expired_test = refl

-- A full cache, and a file that is not in it: the nil item is dereferenced.
full_test : truncate_file toy toy_depth 100 "a" 5 0 (new_cache_tree_map toy 1 0) ≡ none
unfolding truncate_file insert get new_cache_tree_map
full_test = refl

parent_deep : (p : String) → (same p "d/a" || same p "d/b") ≡ true → get_parent_dir toy p ≡ "d"
unfolding get_parent_dir
parent_deep p deep = rw (get_parent_dir, toy_dir, deep) refl

parent_flat : (p : String) → (same p "d/a" || same p "d/b") ≡ false → get_parent_dir toy p ≡ ""
unfolding get_parent_dir
parent_flat p flat = rw (get_parent_dir, toy_dir, flat) refl

toy-IsPaths : IsPaths toy toy_depth
toy-IsPaths = record {
  above = λ p named.
      let other = same-false p "" named in
      elim (Bool-cases (same p "d/a" || same p "d/b")) [
        | inl deep ↦ rw (parent_deep p deep, toy_depth, other, deep) (omega arith)
        | inr flat ↦ rw (parent_flat p flat, toy_depth, other, flat) (omega arith)
      ];
  trimmed_depth = λ p. omega arith;
  trimmed = λ p. refl;
}

start-IsRooted : IsRooted start
unfolding new_cache_tree_map exists valid new_attr_cache_item is_set set
start-IsRooted = record {
  root = 0;
  root_at = refl;
  root_exists = refl;
  young = λ path n e. ground (arith, e);
}

start_room : length start.cache_map < start.max_files
unfolding new_cache_tree_map
start_room = omega arith

named : (attr_of "d/a").path ≢ ""
unfolding create_obj_attr
named e =
    let both : same "d/a" "" ≡ same "" "" = ap (λ (t : String). same t "") e in ground (arith, both)

name_given : ◌≢◌ {A = String} "d/a" ""
name_given = λ (e : ◌≡◌ {A = String} "d/a" "").
    let both : same "d/a" "" ≡ same "" "" = ap (λ (t : String). same t "") e in ground (arith, both)

path_is : (attr_of "d/a").path ≡ "d/a"
unfolding create_obj_attr
path_is = refl

silent : (look_up toy toy_depth 100 "d/a" 0 start).respond ≡ false
unfolding look_up get get_cached_parent get_parent_dir new_cache_tree_map valid exists
    new_attr_cache_item is_set set
silent = refl

no_parent :
    (m : ℕ)
    → get toy (get_parent_dir toy "d/a") start ≡ some m
    → exists (start.items m) ≡ true
    → is_in_cloud (start.items m) ≡ true
unfolding get get_parent_dir new_cache_tree_map
no_parent m at lives = ground (arith, at)

insert-IsInserted_example :
    (d : CacheTreeMap) × (insert toy toy_depth 0 (attr_of "d/a") true 0 false start
      ≡ some (some start.next_item, d))
    × IsInserted toy start.next_item (allocate (new_attr_cache_item (attr_of "d/a") true 0) start) d
    × IsSame (d.items start.next_item) (new_attr_cache_item (attr_of "d/a") true 0)
insert-IsInserted_example =
    insert-IsInserted toy toy_depth toy-IsPaths (attr_of "d/a") true false 0 0 start start-IsRooted
      start_room named named

get_attr-get_attr_example :
    (d : CacheTreeMap) × (get_attr toy toy_depth 100 "d/a" 0 (ok (attr_of "d/a")) start
      ≡ some (record { attr = some (attr_of "d/a"); err = none; asked = true }, d))
    × ((later : ℕ) (response : Response)
        → later < 0 + 100
        → get_attr toy toy_depth 100 "d/a" later response d
          ≡ some (record { attr = some (attr_of "d/a"); err = none; asked = false }, d))
get_attr-get_attr_example =
    get_attr-get_attr toy toy_depth toy-IsPaths 100 0 "d/a" (attr_of "d/a") start start-IsRooted
      start_room name_given refl path_is silent no_parent

-- "d/a" is cached below "d"; then a listing of the root inserts "d" again, without children. When "d" is
-- renamed to "a", "d/a" is still said to exist.
abbrev relisted : Option CacheTreeMap
relisted = elim (insert toy toy_depth 0 (attr_of "d/a") true 0 false start) [
  | none ↦ none
  | some (n, c) ↦ elim (insert toy toy_depth 1 (create_obj_attr_dir toy "d" 1) true 1 true c) [
    | none ↦ none
    | some (m, d) ↦ some d
  ]
]

abbrev after_rename : Option Reply
after_rename = elim relisted [
  | none ↦ none
  | some c ↦ elim (rename_dir toy toy_depth (λ s old new. new) "d" "a" 2 c) [
    | none ↦ none
    | some (s, d) ↦ elim (get_attr toy toy_depth 100 "d/a" 3 not_found d) [
      | none ↦ none
      | some (r, e) ↦ some r
    ]
  ]
]

orphan_test :
    after_rename ≡ some (record { attr = some (attr_of "d/a"); err = none; asked = false })
unfolding rename_dir move_cached_item mark_deleted get_attr insert insert_item attach usable_parent
    get touch_parent_dir_times get_or_insert_dir look_up get_cached_parent exists valid is_in_cloud
    mark_in_cloud new_attr_cache_item create_obj_attr create_obj_attr_dir is_set set clear is_dir
    get_parent_dir new_cache_tree_map touch_modify_and_change_times
orphan_test = refl

-- One directory, with one file: items 2 and 1.
abbrev one_dir : CacheTreeMap
one_dir = elim (insert toy toy_depth 0 (attr_of "d/a") true 0 false start) [
  | none ↦ start
  | some (n, c) ↦ c
]

one_dir-IsShallow : IsShallow one_dir 2 2
unfolding IsShallow insert insert_item attach usable_parent get exists valid new_attr_cache_item
    create_obj_attr create_obj_attr_dir is_set set clear is_dir get_parent_dir new_cache_tree_map
one_dir-IsShallow = ((refl, tt), tt)

dir_not_root : is_root (one_dir.items 2) ≡ false
unfolding insert insert_item attach usable_parent get exists valid new_attr_cache_item
    create_obj_attr create_obj_attr_dir is_set set clear is_dir get_parent_dir new_cache_tree_map
dir_not_root = refl

mark_deleted-IsLater_example :
    (d : CacheTreeMap) × (mark_deleted 2 5 2 one_dir ≡ some d)
    × IsLater one_dir d
    × (exists (d.items 2) ≡ false)
mark_deleted-IsLater_example = mark_deleted-IsLater 2 5 2 one_dir one_dir-IsShallow dir_not_root

root_there : get toy "" start ≡ some 0
unfolding get new_cache_tree_map
root_there = refl

fetch-cache_list_segment_example :
    ((later : ℕ)
      → fetch_cached_dir_list toy toy_depth 100 true "" "t" later
          (cache_list_segment toy toy_depth 100 true (attr_of "a" ∷ []) "" "t" "u" 5 start)
        ≡ (if ltb later (5 + 100)
            then fetched (attr_of "a" ∷ []) "u"
            else expired (attr_of "a" ∷ [])))
    × ((later : ℕ) (other : String)
        → ◌≢◌ {A = String} "t" other
        → fetch_cached_dir_list toy toy_depth 100 true "" other later
            (cache_list_segment toy toy_depth 100 true (attr_of "a" ∷ []) "" "t" "u" 5 start)
          ≡ fetch_cached_dir_list toy toy_depth 100 true "" other later start)
fetch-cache_list_segment_example =
    fetch-cache_list_segment toy toy_depth 100 true "" "t" "u" (attr_of "a" ∷ []) 5 0 start refl
      root_there

-- A directory of which the cache knows a file is not empty, whatever the storage says.
empty_test : is_dir_empty toy toy_depth 100 true "d" true 0 one_dir ≡ false
unfolding is_dir_empty insert insert_item attach usable_parent get exists valid new_attr_cache_item
    create_obj_attr create_obj_attr_dir is_set set clear is_dir get_parent_dir new_cache_tree_map
empty_test = refl
