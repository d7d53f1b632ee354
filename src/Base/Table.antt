-- ===== src/Base/Table.antt =====
-- A map with numbers as keys, as a list of its entries.
use Prim.Native.Nat.{ℕ}
use mathlib.Core.List.{List, [], ◌∷◌}
use mathlib.Core.Option.{Option, none, some}
use cloudfuse.Base.Tests.{◌==◌, if◌then◌else◌}

module _ {ℓ} {A : Type ℓ} where
  abbrev pub at_key : ℕ → List (ℕ × A) → Option A
  at_key k [] = none
  at_key k ((j, a) ∷ rest) = let later = at_key k rest in if j == k then some a else later
