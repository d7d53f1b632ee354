-- ===== src/ConvertName.antt =====
-- internal/convertname/convert.go: names of the cloud and file names of Windows, as lists of
-- runes. So the conversions between strings and runes are left out, and names that are not UTF-8 are
-- not covered.
pub mod RoundTrip
mod Tests
use cloudfuse.Base.{ℕ, Option, none, some, List, [], ◌∷◌, ◌==◌, if◌then◌else◌, map}

-- Seven characters that Windows forbids in a file name, and their full-width forms.
abbrev pub cloud_to_file_map : List (ℕ × ℕ)
cloud_to_file_map =
    (34, 65282)
    ∷ (42, 65290)
    ∷ (58, 65306)
    ∷ (60, 65308)
    ∷ (62, 65310)
    ∷ (63, 65311)
    ∷ (124, 65372)
    ∷ []

abbrev pub reverse_map : List (ℕ × ℕ) → List (ℕ × ℕ)
reverse_map [] = []
reverse_map ((k, v) ∷ rest) = (v, k) ∷ reverse_map rest

abbrev pub file_to_cloud_map : List (ℕ × ℕ)
file_to_cloud_map = reverse_map cloud_to_file_map

-- `m[r]`, for the maps of this file, which have no key twice.
abbrev pub find : List (ℕ × ℕ) → ℕ → Option ℕ
find [] r = none
find ((k, v) ∷ rest) r = let later = find rest r in if r == k then some v else later

abbrev pub replace_rune : List (ℕ × ℕ) → ℕ → ℕ
replace_rune m r = elim (find m r) [ none ↦ r | some val ↦ val ]

abbrev pub replace_with_map : List ℕ → List (ℕ × ℕ) → List ℕ
replace_with_map [] m = []
replace_with_map (r ∷ runes) m = replace_rune m r ∷ replace_with_map runes m

unfoldable pub windows_file_to_cloud : List ℕ → List ℕ
windows_file_to_cloud filename = replace_with_map filename file_to_cloud_map

unfoldable pub windows_cloud_to_file : List ℕ → List ℕ
windows_cloud_to_file cloudname = replace_with_map cloudname cloud_to_file_map
