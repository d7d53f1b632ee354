-- ===== src/AttrCache/Listings.antt =====
-- component/attr_cache/attr_cache.go, the cached listings of directories. The next component's answer is an
-- argument, and so is the time.
use Prim.Native.String.{String}
use cloudfuse.Base.{
  ℕ, ◌+◌, ◌≡◌, ◌≢◌, Bool, true, false, not, ◌&&◌, ◌||◌, Option, none, some, List, [], ◌∷◌, ◌++◌,
  ltb, if◌then◌else◌, same_refl, same-false, load, forget, load-forget, length, arith,
}
use cloudfuse.AttrCache.Item.{PathLib, ObjAttr, ListCacheSegment, exists, is_in_cloud}
use cloudfuse.AttrCache.Tree.{CacheTreeMap, change, get, insert}
use cloudfuse.AttrCache.Ancestors.{mark_ancestors_in_cloud}

-- Nothing cached, a segment whose time is over, or a segment.
pub data Fetched : Type 0 where
  not_cached : Fetched
  expired : List ObjAttr → Fetched
  fetched : List ObjAttr → String → Fetched

abbrev pub put_segment :
    String → ListCacheSegment → List (String × ListCacheSegment) → List (String × ListCacheSegment)
put_segment token segment segments = (token, segment) ∷ forget token segments

abbrev pub not_in_cloud : List (String × ℕ) → CacheTreeMap → List ObjAttr
not_in_cloud [] c = []
not_in_cloud ((name, n) ∷ rest) c =
    let others = not_in_cloud rest c in
    if exists (c.items n) && not (is_in_cloud (c.items n))
    then (c.items n).attr ∷ others
    else others

abbrev pub has_children : List (String × ℕ) → CacheTreeMap → Bool
has_children [] c = false
has_children ((name, n) ∷ rest) c = exists (c.items n) || has_children rest c

module _ (lib : PathLib) (depth : String → ℕ) (cache_timeout : ℕ) (cache_on_list : Bool) where
  unfoldable pub fetch_cached_dir_list : String → String → ℕ → CacheTreeMap → Fetched
  fetch_cached_dir_list path token now c =
      if cache_on_list
      then elim (get lib path c) [
        | none ↦ not_cached
        | some n ↦ elim (load token (c.items n).list_cache) [
          | none ↦ not_cached
          | some segment ↦
              if ltb now (segment.cached_at + cache_timeout)
              then fetched segment.entries segment.next_token
              else expired segment.entries
        ]
      ]
      else not_cached

  abbrev pub insert_all : List ObjAttr → ℕ → CacheTreeMap → Option CacheTreeMap
  insert_all [] now c = some c
  insert_all (attr ∷ rest) now c = elim (insert lib depth now attr true now true c) [
    | none ↦ none
    | some (n, d) ↦ insert_all rest now d
  ]

  unfoldable pub cache_attributes : List ObjAttr → String → ℕ → CacheTreeMap → Option CacheTreeMap
  cache_attributes path_list list_dir_path now c =
      let marked : Option CacheTreeMap =
        if ltb 0 (length path_list)
        then mark_ancestors_in_cloud lib depth (depth list_dir_path) list_dir_path now c
        else some c in
      if cache_on_list
      then elim marked [ none ↦ none | some d ↦ insert_all path_list now d ]
      else some c

  unfoldable pub cache_list_segment :
      List ObjAttr → String → String → String → ℕ → CacheTreeMap → CacheTreeMap
  cache_list_segment path_list list_dir_path token next_token now c =
      if cache_on_list
      then elim (get lib list_dir_path c) [
        | none ↦ c
        | some n ↦
            change n
              (λ i. record i {
                list_cache =
                    put_segment token
                      (record { entries = path_list; next_token = next_token; cached_at = now })
                      i.list_cache;
              })
              c
      ]
      else c

  unfoldable pub add_dirs_not_in_cloud_to_listing :
      String → List ObjAttr → CacheTreeMap → List ObjAttr
  add_dirs_not_in_cloud_to_listing list_path path_list c = elim (get lib list_path c) [
    | none ↦ path_list
    | some n ↦
        if exists (c.items n) then path_list ++ not_in_cloud (c.items n).children c else path_list
  ]

  -- `storage_empty` is what the next component would answer.
  unfoldable pub is_dir_empty : String → Bool → ℕ → CacheTreeMap → Bool
  is_dir_empty name storage_empty now c = elim (get lib name c) [
    | none ↦ storage_empty
    | some n ↦
        let item = c.items n in
        if not (exists item)
        then storage_empty
        else if has_children item.children c
        then false
        else if item.listing_complete && ltb now (item.cached_at + cache_timeout)
        then true
        else storage_empty
  ]

  -- With listings cached, a segment that is cached for a directory in the cache is fetched again under its
  -- token, until the timeout is over, and from then on as expired; and what is fetched under any other token
  -- stays as it was. What is fetched is the one segment of the token, for the first page too.
  pub fetch-cache_list_segment :
      (path token next_token : String) (entries : List ObjAttr) (now n : ℕ) (c : CacheTreeMap)
      → cache_on_list ≡ true
      → get lib path c ≡ some n
      → ((later : ℕ)
          → fetch_cached_dir_list path token later
              (cache_list_segment entries path token next_token now c)
            ≡ (if ltb later (now + cache_timeout)
                then fetched entries next_token
                else expired entries))
        × ((later : ℕ) (other : String)
            → token ≢ other
            → fetch_cached_dir_list path other later
                (cache_list_segment entries path token next_token now c)
              ≡ fetch_cached_dir_list path other later c)
  unfolding fetch_cached_dir_list cache_list_segment get
  fetch-cache_list_segment path token next_token entries now n c on there =
      let same_token = same_refl token in
      (
        λ later. ground (arith, on, there, same_token),
        λ later other apart.
            let kept = load-forget token other (c.items n).list_cache apart in
            let differs = same-false token other apart in ground (arith, on, there, kept, differs),
      )
