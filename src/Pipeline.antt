-- ===== src/Pipeline.antt =====
-- internal/pipeline.go: the pipeline of components, and common/util.go: which names it may hold.
-- A component's own `Configure`, `Start` and `Stop` are parameters: each says which error it returns.
pub mod Names
pub mod Build
pub mod Life
mod Tests
use Prim.Native.String.{String}
use mathlib.Core.Option.{Option}
use cloudfuse.Base.{
  same, ℕ, suc, Bool, true, false, ◌||◌, ◌&&◌, none, some, List, [], ◌∷◌, ◌++◌, ltb, if◌then◌else◌,
  map,
}

-- `slices.Contains`
abbrev pub component_in_pipeline : List String → String → Bool
component_in_pipeline [] component = false
component_in_pipeline (name ∷ names) component =
    same name component || component_in_pipeline names component

-- The three checks of `ValidatePipeline`, in order; the answer is the pair that it complains about.
unfoldable pub validate_pipeline : List String → Option (String × String)
validate_pipeline pipeline =
    if component_in_pipeline pipeline "file_cache" && component_in_pipeline pipeline "block_cache"
    then some ("file-cache", "block-cache")
    else if component_in_pipeline pipeline "file_cache" && component_in_pipeline pipeline "xload"
    then some ("file-cache", "xload")
    else if component_in_pipeline pipeline "block_cache" && component_in_pipeline pipeline "xload"
    then some ("block-cache", "xload")
    else none

-- The loop: the first of the two names is replaced.
replace_first : String → String → String → List String → List String
replace_first a b component [] = []
replace_first a b component (comp ∷ comps) =
    if same comp a || same comp b
    then component ∷ comps
    else comp ∷ replace_first a b component comps

unfoldable pub update_pipeline : List String → String → List String
unfolding replace_first
update_pipeline pipeline component =
    if component_in_pipeline pipeline component
    then pipeline
    else if same component "xload"
    then replace_first "file_cache" "block_cache" component pipeline
    else if same component "block_cache"
    then replace_first "file_cache" "xload" component pipeline
    else pipeline

pub record Component (Error : Type 0) : Type 0 where
  pub name : String
  pub priority : ℕ
  pub configure : Bool → Option Error
  pub start : Option Error
  pub stop : Option Error

-- `EComponentPriority.Producer()`
abbrev pub producer : ℕ
producer = 1000

pub data NewPipeline (Error : Type 0) : Type 0 where
  created : List (Component Error) → NewPipeline Error
  not_configured : Error → NewPipeline Error
  out_of_order not_registered : String → NewPipeline Error

-- Which components are started and not stopped, and the errors so far.
pub record Running (Error : Type 0) : Type 0 where
  pub up : List Bool
  pub errs : List Error

module _ {Error : Type 0} where
  -- The loop of `NewPipeline`, with what it keeps between two names.
  create_all :
      (String → Option (Component Error))
      → Bool
      → ℕ
      → List (Component Error)
      → List String
      → NewPipeline Error
  create_all registered is_parent last_priority comps [] = created comps
  create_all registered is_parent last_priority comps (name ∷ names) = elim (registered name) [
    | none ↦ not_registered name
    | some comp ↦ elim (comp.configure is_parent) [
      | some e ↦ not_configured e
      | none ↦
          let rest = create_all registered is_parent comp.priority (comps ++ comp ∷ []) names in
          if ltb last_priority comp.priority then out_of_order name else rest
    ]
  ]

  unfoldable pub new_pipeline :
      (String → Option (Component Error)) → List String → Bool → NewPipeline Error
  unfolding create_all
  new_pipeline registered components is_parent =
      create_all registered is_parent producer [] components

  abbrev error_list : Option Error → List Error
  error_list none = []
  error_list (some e) = e ∷ []

  -- The inner loop: `Stop` of every component after the one that failed.
  stop_all : List (Component Error) → List Error → Running Error
  stop_all [] errs = record { up = []; errs = errs }
  stop_all (c ∷ cs) errs =
      let rest = stop_all cs (errs ++ error_list c.stop) in
      record { up = false ∷ rest.up; errs = rest.errs }

  -- From the last component back to the first, whatever fails. The call of `Create` before the loop is
  -- left out; it panics where there is no component.
  unfoldable pub start : List (Component Error) → Running Error
  unfolding stop_all
  start [] = record { up = []; errs = [] }
  start (c ∷ cs) =
      let later = start cs in
      elim c.start [
        | none ↦ record { up = true ∷ later.up; errs = later.errs }
        | some e ↦
            let stopped = stop_all cs (later.errs ++ e ∷ []) in
            record { up = false ∷ stopped.up; errs = stopped.errs }
      ]

  -- `Stop` of the pipeline: every component, from the first on.
  unfoldable pub stop : List (Component Error) → Running Error
  unfolding stop_all
  stop comps = stop_all comps []
