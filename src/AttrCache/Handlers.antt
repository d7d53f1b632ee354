-- ===== src/AttrCache/Handlers.antt =====
-- component/attr_cache/attr_cache.go, the calls of the component on one path. What the next component
-- answered is an argument, and so is the time. `none` is a panic, or no fuel.
use Prim.Native.String.{String}
use cloudfuse.Base.{
  ℕ, suc, ◌+◌, Bool, true, false, not, ◌||◌, Option, none, some, ltb, if◌then◌else◌,
}
use cloudfuse.Bitmap.{set}
use cloudfuse.AttrCache.Item.{
  PathLib, ObjAttr, AttrCacheItem, prop_flag_symlink, get_parent_dir, create_obj_attr, valid,
  exists, set_size, set_mode,
}
use cloudfuse.AttrCache.Tree.{CacheTreeMap, change, get, insert, get_cached_parent}
use cloudfuse.AttrCache.Ancestors.{mark_ancestors_in_cloud, touch_parent_dir_times}

pub data Error : Type 0 where
  enoent unreachable enoent_and_unreachable no_cached_data : Error
  other : ℕ → Error

-- The next component's answer, with its errors told apart.
pub data Response : Type 0 where
  ok : ObjAttr → Response
  not_found cloud_unreachable : Response
  failed : ℕ → Response

pub record Cached : Type 0 where
  pub attr : Option ObjAttr
  pub err : Option Error
  pub respond : Bool

-- What a call returns, and whether it asked the next component.
pub record Reply : Type 0 where
  pub attr : Option ObjAttr
  pub err : Option Error
  pub asked : Bool

module _ (lib : PathLib) (depth : String → ℕ) (cache_timeout : ℕ) where
  -- `time.Since(cachedAt) < timeout`
  abbrev pub is_fresh : ℕ → AttrCacheItem → Bool
  is_fresh now item = ltb now (item.cached_at + cache_timeout)

  abbrev pub from_entry : ℕ → Option ℕ → CacheTreeMap → Cached
  from_entry now none c = record { attr = none; err = none; respond = false }
  from_entry now (some n) c =
      let value = c.items n in
      if valid value
      then record {
        attr = if exists value then some value.attr else none;
        err = if exists value then none else some enoent;
        respond = is_fresh now value;
      }
      else record { attr = none; err = none; respond = false }

  abbrev pub from_parent : ℕ → Option ℕ → CacheTreeMap → Cached → Cached
  from_parent now none c answer = answer
  from_parent now (some m) c answer =
      let parent = c.items m in
      if not (exists parent) || parent.listing_complete
      then record { attr = answer.attr; err = some enoent; respond = is_fresh now parent }
      else answer

  -- What the cache answers.
  unfoldable pub look_up : String → ℕ → CacheTreeMap → Cached
  look_up name now c =
      let answer = from_entry now (get lib name c) c in
      if answer.respond
      then answer
      else from_parent now (get_cached_parent lib (suc (depth name)) name c) c answer

  unfoldable pub get_attr : String → ℕ → Response → CacheTreeMap → Option (Reply × CacheTreeMap)
  unfolding look_up
  get_attr name now response c =
      let cached = look_up name now c in
      let stale_err : Error = elim cached.err [
        | none ↦ unreachable
        | some e ↦ enoent_and_unreachable
      ] in
      if cached.respond
      then some (record { attr = cached.attr; err = cached.err; asked = false }, c)
      else elim response [
        | ok attr ↦ elim (insert lib depth now attr true now false c) [
          | none ↦ none
          | some (n, d) ↦
              elim (mark_ancestors_in_cloud lib depth (depth (get_parent_dir lib name))
                (get_parent_dir lib name) now d) [
                  | none ↦ none
                  | some e ↦ some (record { attr = some attr; err = none; asked = true }, e)
                ]
        ]
        | not_found ↦
            elim (insert lib depth now (create_obj_attr lib name 0 now) false now false c) [
              | none ↦ none
              | some (n, d) ↦ some (record { attr = none; err = some enoent; asked = true }, d)
            ]
        | cloud_unreachable ↦
            let reply : Reply = elim cached.attr [
              | some attr ↦ record { attr = some attr; err = some stale_err; asked = true }
              | none ↦ elim cached.err [
                | some e ↦ record { attr = none; err = some stale_err; asked = true }
                | none ↦ record { attr = none; err = some no_cached_data; asked = true }
              ]
            ] in
            some (reply, c)
        | failed code ↦ some (record { attr = none; err = some (other code); asked = true }, c)
      ]

  unfoldable pub mark_listing_complete : String → ℕ → CacheTreeMap → CacheTreeMap
  mark_listing_complete list_dir_path now c = elim (get lib list_dir_path c) [
    | none ↦ c
    | some n ↦ change n (λ i. record i { listing_complete = true; cached_at = now }) c
  ]

  -- After the next component has created the file.
  unfoldable pub create_file : String → ℕ → ℕ → CacheTreeMap → Option CacheTreeMap
  create_file name mode now c =
      elim (mark_ancestors_in_cloud lib depth (depth (get_parent_dir lib name))
        (get_parent_dir lib name) now c) [
          | none ↦ none
          | some d ↦ elim (insert lib depth now (create_obj_attr lib name 0 now) true now false d) [
            | none ↦ none
            | some (none, e) ↦ touch_parent_dir_times lib depth name now e
            | some (some n, e) ↦
                touch_parent_dir_times lib depth name now (change n (set_mode mode now) e)
          ]
        ]

  -- After the next component has made the link; `target_size` is the length of its target.
  unfoldable pub create_link : String → ℕ → ℕ → CacheTreeMap → Option CacheTreeMap
  create_link name target_size now c =
      let attr = create_obj_attr lib name target_size now in
      let link_attr = record attr { flags = (set attr.flags prop_flag_symlink).word } in
      elim (insert lib depth now link_attr true now false c) [
        | none ↦ none
        | some (n, d) ↦
            elim (mark_ancestors_in_cloud lib depth (depth (get_parent_dir lib name))
              (get_parent_dir lib name) now d) [
                | none ↦ none
                | some e ↦ touch_parent_dir_times lib depth name now e
              ]
      ]

  -- After the next component has truncated the file: the nil item of a full cache is dereferenced.
  unfoldable pub truncate_file : String → ℕ → ℕ → CacheTreeMap → Option CacheTreeMap
  truncate_file name new_size now c =
      let fresh = insert lib depth now (create_obj_attr lib name new_size now) true now false c in
      let found : Option (Option ℕ × CacheTreeMap) = elim (get lib name c) [
        | none ↦ fresh
        | some n ↦ if exists (c.items n) then some (some n, c) else fresh
      ] in
      elim found [
        | none ↦ none
        | some (none, d) ↦ none
        | some (some n, d) ↦ some (change n (set_size new_size now) d)
      ]

  unfoldable pub chmod : String → ℕ → ℕ → CacheTreeMap → CacheTreeMap
  chmod name mode now c = elim (get lib name c) [
    | none ↦ c
    | some n ↦ if exists (c.items n) then change n (set_mode mode now) c else c
  ]
