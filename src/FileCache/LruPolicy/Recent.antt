-- ===== src/FileCache/LruPolicy/Recent.antt =====
-- A file that was used lately stands before the last marker, where no eviction looks.
use Prim.Native.String.{String}
use cloudfuse.Base.{ℕ, suc, ◌≡◌, Bool, true, false, Option, none, some, List, [], ◌∷◌, All, load}
use cloudfuse.FileCache.LruPolicy.{LruPolicy}
use cloudfuse.FileCache.LruPolicy.Steps.{Event, valid, touch, purge, mark, step}
use cloudfuse.FileCache.LruPolicy.Kept.{spares}
use cloudfuse.FileCache.LruPolicy.Ahead.{ahead}

unfoldable pub marks : List Event → ℕ
marks [] = 0
marks (valid name ∷ es) = marks es
marks (touch name ∷ es) = marks es
marks (purge name ∷ es) = marks es
marks (mark ∷ es) = suc (marks es)

unfoldable pub run : List Event → LruPolicy → Option LruPolicy
unfolding step
run [] p = some p
run (e ∷ es) p = elim (step e p) [ none ↦ none | some q ↦ run es q ]

-- The file's node stands before the last marker, and before the current one until an
-- `updateMarker` came.
abbrev pub IsRecent : Bool → String → ℕ → LruPolicy → List ℕ → Type 0
IsRecent true name n p xs = (load name p.node_map ≡ some n) × (ahead n p.last_marker xs ≡ true)
IsRecent false name n p xs =
    (load name p.node_map ≡ some n)
    × (ahead n p.last_marker xs ≡ true)
    × (ahead n p.curr_marker xs ≡ true)

abbrev pub IsSpared : String → List Event → Type 0
IsSpared name es = All (λ e. spares name e ≡ true) es
