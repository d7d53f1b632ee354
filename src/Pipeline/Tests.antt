-- ===== src/Pipeline/Tests.antt =====
-- Pipelines of two components: one that starts, and one whose storage fails.
use Prim.Native.String.{String}
use cloudfuse.Base.{
  same, ℕ, List, ◌⊎◌, ◌≤◌, ◌≡◌, ◌↔◌, refl, true, false, Option, none, some, [], ◌∷◌, get_elem?,
  take, All, if◌then◌else◌, arith,
}
use cloudfuse.Pipeline.{
  Component, created, new_pipeline, out_of_order, validate_pipeline, update_pipeline, start,
  producer, component_in_pipeline,
}
use cloudfuse.Pipeline.Names.{
  all_caches, present, IsClash, validate_pipeline_lem, is_cacheless, IsSwapped, can_take_over,
  update_pipeline-IsSwapped,
}
use cloudfuse.Pipeline.Build.{IsBuilt, new_pipeline-created}
use cloudfuse.Pipeline.Life.{start-up, start-errs}

abbrev fuse : Component ℕ
fuse = record {
  name = "libfuse";
  priority = 1000;
  configure = λ p. none;
  start = none;
  stop = none;
}

abbrev storage : Component ℕ
storage = record {
  name = "azstorage";
  priority = 100;
  configure = λ p. none;
  start = some 5;
  stop = none;
}

abbrev registry : String → Option (Component ℕ)
registry name =
    if same name "libfuse" then some fuse else if same name "azstorage" then some storage else none

abbrev file_names : List String
file_names = "libfuse" ∷ "file_cache" ∷ []

abbrev clash : List String
clash = "xload" ∷ "libfuse" ∷ "file_cache" ∷ []

-- The storage fails to start, and the file system in front of it is started nevertheless.
half_started : (start (fuse ∷ storage ∷ [])).up ≡ true ∷ false ∷ []
unfolding start
half_started = refl

wrong_order : new_pipeline registry ("azstorage" ∷ "libfuse" ∷ []) true ≡ out_of_order "libfuse"
unfolding new_pipeline
wrong_order = refl

update_pipeline-IsSwapped_example :
    ((can_take_over "xload" ≡ true)
      × (component_in_pipeline file_names "xload" ≡ false)
      × IsSwapped file_names "xload" (update_pipeline file_names "xload"))
    ⊎ ((update_pipeline file_names "xload" ≡ file_names)
        × ((can_take_over "xload" ≡ false)
            ⊎ ((component_in_pipeline file_names "xload" ≡ true)
                ⊎ (is_cacheless file_names ≡ true))))
update_pipeline-IsSwapped_example = update_pipeline-IsSwapped file_names "xload"

validate_pipeline_lem_example :
    ((validate_pipeline clash ≡ none) × (present clash all_caches ≤ 1))
    ⊎ ((2 ≤ present clash all_caches) × (c : String) × (d : String) × IsClash clash c d)
validate_pipeline_lem_example = validate_pipeline_lem clash

new_pipeline-created_example :
    new_pipeline registry ("libfuse" ∷ "azstorage" ∷ []) true ≡ created (fuse ∷ storage ∷ [])
    ↔ IsBuilt registry true producer ("libfuse" ∷ "azstorage" ∷ []) (fuse ∷ storage ∷ [])
new_pipeline-created_example =
    new_pipeline-created registry true ("libfuse" ∷ "azstorage" ∷ []) (fuse ∷ storage ∷ [])

start-up_example :
    get_elem? (start (fuse ∷ storage ∷ [])).up 1 ≡ some true
    ↔ All (λ (c : Component ℕ). c.start ≡ none) (take 2 (fuse ∷ storage ∷ []))
start-up_example = start-up (fuse ∷ storage ∷ []) 1 (omega arith)

start-errs_example :
    (start (fuse ∷ storage ∷ [])).errs ≡ []
    ↔ All (λ (c : Component ℕ). c.start ≡ none) (fuse ∷ storage ∷ [])
start-errs_example = start-errs (fuse ∷ storage ∷ [])
