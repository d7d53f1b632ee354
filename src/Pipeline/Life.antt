-- ===== src/Pipeline/Life.antt =====
-- internal/pipeline.go, `Start` and `Stop`: which components run afterwards, and which errors come.
use cloudfuse.Base.{
  ℕ, zero, suc, ◌<◌, ◌≡◌, ◌≢◌, refl, ◌↔◌, inl, inr, true, none, some, List, [], ◌∷◌, ◌++◌, length,
  get_elem?, take, All, Option-cases, arith,
}
use cloudfuse.Pipeline.{Component, stop_all, start, error_list}

module _ {Error : Type 0} where
  stop_all-down :
      (cs : List (Component Error)) (errs : List Error) (j : ℕ)
      → get_elem? (stop_all cs errs).up j ≢ some true
  unfolding stop_all
  stop_all-down [] errs j e = ground arith
  stop_all-down (c ∷ cs) errs zero e = ground (arith, e)
  stop_all-down (c ∷ cs) errs (suc j) e = stop_all-down cs (errs ++ error_list c.stop) j e

  append_nonempty : (es ds : List Error) → es ≢ [] → es ++ ds ≢ []
  append_nonempty [] ds h = absurd (h refl)
  append_nonempty (e ∷ es) ds h = ground arith

  append_end : (es : List Error) (e : Error) → es ++ e ∷ [] ≢ []
  append_end [] e = ground arith
  append_end (d ∷ es) e = ground arith

  stop_all-errs :
      (cs : List (Component Error)) (errs : List Error) → errs ≢ [] → (stop_all cs errs).errs ≢ []
  unfolding stop_all
  stop_all-errs [] errs h = h
  stop_all-errs (c ∷ cs) errs h =
      stop_all-errs cs (errs ++ error_list c.stop) (append_nonempty errs (error_list c.stop) h)

  -- After `Start`, a component runs exactly if it and all components before it in the pipeline
  -- started: a failure stops what comes after it, and never what comes before it.
  pub start-up :
      (cs : List (Component Error)) (j : ℕ)
      → j < length cs
      → get_elem? (start cs).up j ≡ some true
        ↔ All (λ (c : Component Error). c.start ≡ none) (take (suc j) cs)
  unfolding start
  start-up [] j h = absurd (omega arith)
  start-up (c ∷ cs) zero h = ground arith
  start-up (c ∷ cs) (suc j) h =
      let rest = start-up cs j (omega arith) in
      elim (Option-cases c.start) [
        | inl ok ↦ ground (arith, ok, rest)
        | inr (e, failed) ↦
            let down = stop_all-down cs ((start cs).errs ++ e ∷ []) j in
            ground (arith, failed, down)
      ]

  -- `Start` returns no error exactly if every component starts.
  pub start-errs :
      (cs : List (Component Error))
      → (start cs).errs ≡ [] ↔ All (λ (c : Component Error). c.start ≡ none) cs
  unfolding start
  start-errs [] = (λ e. tt, λ h. refl)
  start-errs (c ∷ cs) =
      let rest = start-errs cs in
      elim (Option-cases c.start) [
        | inl ok ↦ ground (arith, ok, rest)
        | inr (e, failed) ↦
            let late =
              stop_all-errs cs ((start cs).errs ++ e ∷ []) (append_end (start cs).errs e) in
            ground (arith, failed, late)
      ]
