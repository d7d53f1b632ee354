-- ===== src/Pipeline/Build.antt =====
-- internal/pipeline.go, `NewPipeline`: which lists of names become a pipeline.
use Prim.Native.String.{String}
use cloudfuse.Base.{
  ℕ, ◌≤◌, ◌≡◌, refl, ◌↔◌, Bool, Option, none, some, List, [], ◌∷◌, ◌++◌, Option-cases, inl, inr,
  arith,
}
use mathlib.Core.Path.{subst⁻¹}
use cloudfuse.Pipeline.{Component, created, producer, create_all, new_pipeline}

module _ {Error : Type 0} (registered : String → Option (Component Error)) (is_parent : Bool) where
  -- Every name is registered for the component in its place, each component configures itself, and
  -- none has a higher priority than the one above it.
  abbrev pub IsBuilt : ℕ → List String → List (Component Error) → Type 0
  IsBuilt above [] [] = Unit
  IsBuilt above [] (c ∷ cs) = ⊥
  IsBuilt above (n ∷ ns) [] = ⊥
  IsBuilt above (n ∷ ns) (c ∷ cs) =
      (registered n ≡ some c)
      × (c.configure is_parent ≡ none)
      × (c.priority ≤ above)
      × IsBuilt c.priority ns cs

  append_nil : (cs : List (Component Error)) → cs ++ [] ≡ cs
  append_nil [] = refl
  append_nil (c ∷ cs) = rw (append_nil cs) refl

  append_one :
      (cs ds : List (Component Error)) (c : Component Error) → (cs ++ c ∷ []) ++ ds ≡ cs ++ c ∷ ds
  append_one [] ds c = refl
  append_one (b ∷ cs) ds c = rw (append_one cs ds c)

  create_all-IsBuilt :
      (above : ℕ) (acc : List (Component Error)) (names : List String) (cs : List (Component Error))
      → IsBuilt above names cs
      → create_all registered is_parent above acc names ≡ created (acc ++ cs)
  unfolding create_all
  create_all-IsBuilt above acc [] [] h = let end = append_nil acc in ground (arith, end)
  create_all-IsBuilt above acc [] (c ∷ cs) h = absurd h
  create_all-IsBuilt above acc (n ∷ ns) [] h = absurd h
  create_all-IsBuilt above acc (n ∷ ns) (c ∷ cs) h =
      let rest = create_all-IsBuilt c.priority (acc ++ c ∷ []) ns cs h.3 in
      let same = append_one acc cs c in ground (arith, h, rest, same)

  create_all-created :
      (above : ℕ) (acc : List (Component Error)) (names : List String)
      (out : List (Component Error))
      → create_all registered is_parent above acc names ≡ created out
      → (cs : List (Component Error)) × (out ≡ acc ++ cs) × IsBuilt above names cs
  unfolding create_all
  create_all-created above acc [] out e =
      let end = append_nil acc in ([], ground (arith, e, end), tt)
  create_all-created above acc (n ∷ ns) out e = elim (Option-cases (registered n)) [
    | inl missing ↦ ground (arith, e, missing)
    | inr (c, found) ↦
        let ready : (c.configure is_parent ≡ none)
            × (c.priority ≤ above)
            × (create_all registered is_parent c.priority (acc ++ c ∷ []) ns ≡ created out) =
          ground (arith, e, found) in
        let (cs, joined, built) = create_all-created c.priority (acc ++ c ∷ []) ns out ready.2 in
        let same = append_one acc cs c in
        (c ∷ cs, ground (arith, joined, same), (found, ready.0, ready.1, built))
  ]

  -- `NewPipeline` creates a pipeline of these components exactly if every name is registered for the
  -- component in its place, each of them configures itself, and their priorities never rise.
  pub new_pipeline-created :
      (names : List String) (cs : List (Component Error))
      → new_pipeline registered names is_parent ≡ created cs ↔ IsBuilt producer names cs
  unfolding new_pipeline
  new_pipeline-created names cs =
      let there = create_all-IsBuilt producer [] names cs in
      (
        λ e.
            let (out, same, built) = create_all-created producer [] names cs e in
            subst⁻¹ (IsBuilt producer names) same built,
        there,
      )
