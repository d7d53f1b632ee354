-- ===== src/Base/Dict.antt =====
-- Dictionaries with texts as keys, as association lists: Go's `map[string]T` and `sync.Map`.
use Prim.Native.String.{String, compare}
use text.Mathlib.Text.{is_eq}
use text.Mathlib.TextEquality.{path_by_compare}
use text.Mathlib.TextPositions.{compare_refl}
use mathlib.Core.Path.{◌≡◌, refl, sym, ap, ◌∙◌}
use mathlib.Core.Logic.{◌≢◌, inl, inr}
use mathlib.Core.Bool.{Bool, true, false}
use mathlib.Core.Option.{Option, none, some}
use mathlib.Core.List.{List, [], ◌∷◌}
use native.Mathlib.Omega.{arith}
use cloudfuse.Base.Tests.{if◌then◌else◌, Bool-cases}

-- Go's `==` of strings.
abbrev pub same : String → String → Bool
same s t = is_eq (compare s t)

pub same_refl : (s : String) → same s s ≡ true
same_refl s = ap is_eq (compare_refl s)

pub same_path : (s t : String) → same s t ≡ true → s ≡ t
same_path s t e = path_by_compare s t (ground (arith, e))

pub same-false : (s t : String) → s ≢ t → same s t ≡ false
same-false s t h = elim (Bool-cases (same s t)) [ inl e ↦ absurd (h (same_path s t e)) | inr e ↦ e ]

module _ {ℓ} {A : Type ℓ} where
  abbrev pub load : String → List (String × A) → Option A
  load name [] = none
  load name ((n, a) ∷ rest) = let later = load name rest in if same n name then some a else later

  abbrev pub forget : String → List (String × A) → List (String × A)
  forget name [] = []
  forget name ((n, a) ∷ rest) =
      let later = forget name rest in if same n name then later else (n, a) ∷ later

  pub load-forget_self : (name : String) (d : List (String × A)) → load name (forget name d) ≡ none
  load-forget_self name [] = refl
  load-forget_self name ((n, a) ∷ rest) =
      let later = load-forget_self name rest in ground (arith, later)

  pub load-forget :
      (n name : String) (d : List (String × A)) → n ≢ name → load name (forget n d) ≡ load name d
  load-forget n name [] h = refl
  load-forget n name ((k, a) ∷ rest) h =
      let later = load-forget n name rest h in
      elim (Bool-cases (same k n)) [
        | inl here ↦
            let other : same k name ≡ false =
              same-false k name (λ both. h (sym (same_path k n here) ∙ both)) in
            ground (arith, here, other, later)
        | inr apart ↦ ground (arith, apart, later)
      ]
