-- ===== src/ConvertName/RoundTrip.antt =====
-- The two conversions undo each other on the names that each of them is made for.
use cloudfuse.Base.{ℕ, ◌≡◌, ◌≢◌, refl, none, List, [], ◌∷◌, All, arith}
use cloudfuse.ConvertName.{
  cloud_to_file_map, file_to_cloud_map, find, replace_rune, windows_file_to_cloud,
  windows_cloud_to_file,
}

-- No rune of the name is a key of the map.
abbrev pub IsFree : List (ℕ × ℕ) → List ℕ → Type 0
IsFree m name = All (λ r. find m r ≡ none) name

there_and_back :
    (r : ℕ)
    → find file_to_cloud_map r ≡ none
    → replace_rune file_to_cloud_map (replace_rune cloud_to_file_map r) ≡ r
there_and_back r h = ground (arith, h)

back_and_there :
    (r : ℕ)
    → find cloud_to_file_map r ≡ none
    → replace_rune cloud_to_file_map (replace_rune file_to_cloud_map r) ≡ r
back_and_there r h = ground (arith, h)

-- The runes of `"`, `*`, `:`, `<`, `>`, `?` and `|`.
abbrev pub reserved : List ℕ
reserved = 34 ∷ 42 ∷ 58 ∷ 60 ∷ 62 ∷ 63 ∷ 124 ∷ []

-- No rune of the name is one of these seven.
abbrev pub HasNoReserved : List ℕ → Type 0
HasNoReserved name = All (λ r. All (λ c. r ≢ c) reserved) name

none_left : (r : ℕ) → All (λ c. replace_rune cloud_to_file_map r ≢ c) reserved
none_left r = ground arith

-- A name of the cloud in which no rune is one of the seven full-width forms comes back from its file
-- name unchanged, and no rune of that file name is one of the seven characters `"`, `*`, `:`, `<`, `>`,
-- `?` and `|`. (The names are lists of runes; other characters stay as they are.)
pub windows_file_to_cloud-windows_cloud_to_file :
    (cloudname : List ℕ)
    → IsFree file_to_cloud_map cloudname
    → (windows_file_to_cloud (windows_cloud_to_file cloudname) ≡ cloudname)
      × HasNoReserved (windows_cloud_to_file cloudname)
unfolding windows_file_to_cloud windows_cloud_to_file
windows_file_to_cloud-windows_cloud_to_file [] h = (refl, tt)
windows_file_to_cloud-windows_cloud_to_file (r ∷ runes) h =
    let (same, free) = windows_file_to_cloud-windows_cloud_to_file runes h.1 in
    (rw (there_and_back r h.0, same) refl, (none_left r, free))

-- A file name without any of the seven characters `"`, `*`, `:`, `<`, `>`, `?` and `|` comes back from its name in the cloud unchanged.
pub windows_cloud_to_file-windows_file_to_cloud :
    (filename : List ℕ)
    → IsFree cloud_to_file_map filename
    → windows_cloud_to_file (windows_file_to_cloud filename) ≡ filename
unfolding windows_file_to_cloud windows_cloud_to_file
windows_cloud_to_file-windows_file_to_cloud [] h = refl
windows_cloud_to_file-windows_file_to_cloud (r ∷ runes) h =
    rw (back_and_there r h.0, windows_cloud_to_file-windows_file_to_cloud runes h.1) refl
