-- ===== src/Base/Slices.antt =====
-- Go's `copy` on slices: as many elements as both have.
use Prim.Native.Nat.{suc}
use mathlib.Core.Path.{◌≡◌, refl, ap}
use mathlib.Core.List.{List, [], ◌∷◌}
use native.Mathlib.Omega.{arith}
use cloudfuse.Base.Lists.{length}

module _ {ℓ} {A : Type ℓ} where
  -- `copy(dst, src)`: the contents of `dst` afterwards.
  abbrev pub copy : List A → List A → List A
  copy [] src = []
  copy (d ∷ dst) [] = d ∷ dst
  copy (d ∷ dst) (s ∷ src) = s ∷ copy dst src

  pub length-copy : (dst src : List A) → length (copy dst src) ≡ length dst
  length-copy [] src = refl
  length-copy (d ∷ dst) [] = refl
  length-copy (d ∷ dst) (s ∷ src) = ap suc (length-copy dst src)

  -- Over a destination of the same size, the copy is the source.
  pub copy_whole : (dst src : List A) → length dst ≡ length src → copy dst src ≡ src
  copy_whole [] [] h = refl
  copy_whole [] (s ∷ src) h = absurd (omega arith)
  copy_whole (d ∷ dst) [] h = absurd (omega arith)
  copy_whole (d ∷ dst) (s ∷ src) h = ap (◌∷◌ s) (copy_whole dst src (omega arith))
