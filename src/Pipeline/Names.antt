-- ===== src/Pipeline/Names.antt =====
-- common/util.go: a pipeline keeps to one cache when a command line switches to another one.
use Prim.Native.String.{String}
use cloudfuse.Base.{
  same, same_path, ℕ, suc, ◌≤◌, ◌≡◌, ◌⊎◌, refl, ap, sym, ◌∙◌, Bool, true, false, ◌||◌, none, some,
  List, [], ◌∷◌, ◌++◌, if◌then◌else◌, Bool-cases, inl, inr, arith,
}
use cloudfuse.Pipeline.{component_in_pipeline, validate_pipeline, replace_first, update_pipeline}

abbrev pub all_caches : List String
all_caches = "file_cache" ∷ "block_cache" ∷ "xload" ∷ []

abbrev pub is_cache : String → Bool
is_cache name = same name "file_cache" || (same name "block_cache" || same name "xload")

-- How many of the given names stand in the pipeline.
abbrev pub present : List String → List String → ℕ
present names [] = 0
present names (c ∷ cs) =
    let rest = present names cs in if component_in_pipeline names c then suc rest else rest

-- How an error spells a cache.
abbrev pub spelled : String → String
spelled name =
    if same name "file_cache"
    then "file-cache"
    else if same name "block_cache"
    then "block-cache"
    else name

-- The error of `ValidatePipeline` names two different caches that are both in the pipeline.
abbrev pub IsClash : List String → String → String → Type 0
IsClash names c d =
    (is_cache c ≡ true)
    × (is_cache d ≡ true)
    × (same c d ≡ false)
    × (component_in_pipeline names c ≡ true)
    × (component_in_pipeline names d ≡ true)
    × (validate_pipeline names ≡ some (spelled c, spelled d))

-- `ValidatePipeline` accepts a pipeline in which at most one of the three caches stands, and refuses
-- every other one, with an error that names two different caches that both stand in it.
pub validate_pipeline_lem :
    (names : List String)
    → ((validate_pipeline names ≡ none) × (present names all_caches ≤ 1))
      ⊎ ((2 ≤ present names all_caches) × (c : String) × (d : String) × IsClash names c d)
unfolding validate_pipeline
validate_pipeline_lem names = elim (Bool-cases (component_in_pipeline names "file_cache")) [
  | inl file ↦ elim (Bool-cases (component_in_pipeline names "block_cache")) [
    | inl block ↦ inr (
      ground (arith, file, block),
      "file_cache",
      "block_cache",
      (refl, refl, refl, file, block, ground (arith, file, block)),
    )
    | inr no_block ↦ elim (Bool-cases (component_in_pipeline names "xload")) [
      | inl xload ↦ inr (
        ground (arith, file, xload),
        "file_cache",
        "xload",
        (refl, refl, refl, file, xload, ground (arith, file, no_block, xload)),
      )
      | inr no_xload ↦
          inl (ground (arith, file, no_block, no_xload), ground (arith, file, no_block, no_xload))
    ]
  ]
  | inr no_file ↦ elim (Bool-cases (component_in_pipeline names "block_cache")) [
    | inl block ↦ elim (Bool-cases (component_in_pipeline names "xload")) [
      | inl xload ↦ inr (
        ground (arith, block, xload),
        "block_cache",
        "xload",
        (refl, refl, refl, block, xload, ground (arith, no_file, block, xload)),
      )
      | inr no_xload ↦
          inl (ground (arith, no_file, block, no_xload), ground (arith, no_file, block, no_xload))
    ]
    | inr no_block ↦ inl (ground (arith, no_file, no_block), ground (arith, no_file, no_block))
  ]
]

-- No name of the list is that of a cache.
abbrev pub is_cacheless : List String → Bool
is_cacheless [] = true
is_cacheless (name ∷ names) = if is_cache name then false else is_cacheless names

-- The new names: the first cache has made place for the component.
abbrev pub IsSwapped : List String → String → List String → Type 0
IsSwapped names component result =
    (before : List String) × (cache : String) × (after : List String) × (names
      ≡ before ++ cache ∷ after)
    × (is_cacheless before ≡ true)
    × (is_cache cache ≡ true)
    × (result ≡ before ++ component ∷ after)

replace_first-IsSwapped :
    (a b component : String) (names : List String)
    → ((n : String) → same n component ≡ false → is_cache n ≡ (same n a || same n b))
    → component_in_pipeline names component ≡ false
    → IsSwapped names component (replace_first a b component names)
      ⊎ ((replace_first a b component names ≡ names) × (is_cacheless names ≡ true))
unfolding replace_first
replace_first-IsSwapped a b component [] agree absent = inr (refl, refl)
replace_first-IsSwapped a b component (comp ∷ comps) agree absent =
    let other : same comp component ≡ false = ground (arith, absent) in
    let rest : component_in_pipeline comps component ≡ false = ground (arith, absent) in
    let cache = agree comp other in
    elim (Bool-cases (same comp a || same comp b)) [
      | inl here ↦ inl ([], comp, comps, refl, refl, cache ∙ here, rw here refl)
      | inr skip ↦ elim (replace_first-IsSwapped a b component comps agree rest) [
        | inl (before, c, after, split, none_before, found, result) ↦ inl (
          comp ∷ before,
          c,
          after,
          ap (λ l. comp ∷ l) split,
          rw (cache ∙ skip) none_before,
          found,
          rw skip (ap (λ l. comp ∷ l) result),
        )
        | inr (kept, none_left) ↦
            inr (rw skip (ap (λ l. comp ∷ l) kept), rw (cache ∙ skip) none_left)
      ]
    ]

only_two : (a b c : Bool) → c ≡ false → (a || (b || c)) ≡ (a || b)
only_two a b c h = ground (arith, h)

-- The components that take the place of another cache.
abbrev pub can_take_over : String → Bool
can_take_over component = same component "xload" || same component "block_cache"

-- If the component is `xload` or `block_cache`, is not in the pipeline, and some cache is, then
-- `UpdatePipeline` puts the component in place of the first cache, and keeps every other name
-- where it stands. In every other case the pipeline stays as it is.
pub update_pipeline-IsSwapped :
    (names : List String) (component : String)
    → ((can_take_over component ≡ true)
        × (component_in_pipeline names component ≡ false)
        × IsSwapped names component (update_pipeline names component))
      ⊎ ((update_pipeline names component ≡ names)
          × ((can_take_over component ≡ false)
              ⊎ ((component_in_pipeline names component ≡ true) ⊎ (is_cacheless names ≡ true))))
unfolding update_pipeline
update_pipeline-IsSwapped names component =
    elim (Bool-cases (component_in_pipeline names component)) [
      | inl there ↦ inr (rw there refl, inr (inl there))
      | inr absent ↦ elim (Bool-cases (same component "xload")) [
        | inl xload ↦
            let only : (n : String)
                → same n component ≡ false
                → is_cache n ≡ (same n "file_cache" || same n "block_cache") =
              λ n apart.
                let not_xload : same n "xload" ≡ false =
                  rw (sym (same_path component "xload" xload)) apart in
                only_two (same n "file_cache") (same n "block_cache") (same n "xload") not_xload in
            elim (replace_first-IsSwapped "file_cache" "block_cache" component names only absent) [
              | inl swapped ↦ inl (rw xload refl, absent, rw (absent, xload) swapped)
              | inr (kept, none_left) ↦ inr (rw (absent, xload) kept, inr (inr none_left))
            ]
        | inr other ↦ elim (Bool-cases (same component "block_cache")) [
          | inl block ↦
              let only : (n : String)
                  → same n component ≡ false
                  → is_cache n ≡ (same n "file_cache" || same n "xload") =
                λ n apart.
                  let not_block : same n "block_cache" ≡ false =
                    rw (sym (same_path component "block_cache" block)) apart in
                  rw not_block refl in
              elim (replace_first-IsSwapped "file_cache" "xload" component names only absent) [
                | inl swapped ↦
                    inl (rw (other, block) refl, absent, rw (absent, other, block) swapped)
                | inr (kept, none_left) ↦ inr (rw (absent, other, block) kept, inr (inr none_left))
              ]
          | inr neither ↦ inr (rw (absent, other, neither) refl, inl (rw (other, neither) refl))
        ]
      ]
    ]
