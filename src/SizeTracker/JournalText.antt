-- ===== src/SizeTracker/JournalText.antt =====
-- component/size_tracker/journal.go, `sync`: the text of the journal file, written and read back.
-- `bytes.TrimSpace` is that of ASCII text. A legacy journal is 8 bytes, the size in big-endian order.
pub mod RoundTrip
use Prim.Native.String.{String}
use Prim.Native.Char.{code}
use cloudfuse.Base.{
  ℕ, zero, suc, ◌+◌, ◌*◌, ◌^◌, ◌≤◌, ◌<◌, ◌≡◌, ◌≢◌, refl, ap, Bool, true, false, ◌&&◌, ◌||◌, Option,
  none, some, List, [], ◌∷◌, ◌++◌, ltb, leb, ◌==◌, if◌then◌else◌, length, All, All-append, All-map,
  u64_mod, arith,
}
use cloudfuse.SizeTracker.Decimal.{
  print_uint, parse_uint64, parse-print, IsDigit, print_uint-IsDigit,
}

abbrev pub codes : String → List ℕ
codes String.[] = []
codes (String.◌∷◌ c s) = code c ∷ codes s

is_space : ℕ → Bool
is_space c = c == 32 || (leb 9 c && leb c 13)

trim_left : List ℕ → List ℕ
trim_left [] = []
trim_left (c ∷ cs) = if is_space c then trim_left cs else c ∷ cs

trim_right : List ℕ → List ℕ
trim_right [] = []
trim_right (c ∷ cs) = elim (trim_right cs) [
  | [] ↦ if is_space c then [] else c ∷ []
  | d ∷ ds ↦ c ∷ d ∷ ds
]

-- `bytes.TrimSpace`
trim_space : List ℕ → List ℕ
unfolding trim_left trim_right is_space
trim_space cs = trim_right (trim_left cs)

prepend : ℕ → List (List ℕ) → List (List ℕ)
prepend c [] = (c ∷ []) ∷ []
prepend c (line ∷ lines) = (c ∷ line) ∷ lines

-- `bytes.SplitSeq(data, "\n")`
split_lines : List ℕ → List (List ℕ)
unfolding prepend
split_lines [] = [] ∷ []
split_lines (c ∷ cs) = let rest = split_lines cs in if c == b'\n' then [] ∷ rest else prepend c rest

-- `bytes.SplitN(ln, "=", 2)`, where it has two parts.
cut_at_equals : List ℕ → Option (List ℕ × List ℕ)
cut_at_equals [] = none
cut_at_equals (c ∷ cs) =
    let rest = cut_at_equals cs in
    if c == b'='
    then some ([], cs)
    else (elim rest [ none ↦ none | some (key, value) ↦ some (c ∷ key, value) ])

bytes_eq : List ℕ → List ℕ → Bool
bytes_eq [] [] = true
bytes_eq [] (d ∷ ds) = false
bytes_eq (c ∷ cs) [] = false
bytes_eq (c ∷ cs) (d ∷ ds) = c == d && bytes_eq cs ds

-- What a journal says: the size and the epoch, each 0 where it is missing.
pub record Entry : Type 0 where
  pub size : ℕ
  pub epoch : ℕ

abbrev pub no_entry : Entry
no_entry = record { size = 0; epoch = 0 }

read_pair : List ℕ → List ℕ → Entry → Entry
unfolding bytes_eq
read_pair key value e =
    if bytes_eq key (codes "epoch")
    then elim (parse_uint64 value) [ none ↦ e | some n ↦ record e { epoch = n } ]
    else if bytes_eq key (codes "size_bytes")
    then elim (parse_uint64 value) [ none ↦ e | some n ↦ record e { size = n } ]
    else e

starts_comment : List ℕ → Bool
starts_comment [] = true
starts_comment (c ∷ cs) = c == b'#' || c == b';'

-- One line of the file; empty lines, comments and lines without `=` are skipped.
read_line : List ℕ → Entry → Entry
unfolding trim_space cut_at_equals read_pair starts_comment
read_line line e =
    let ln = trim_space line in
    if starts_comment ln then e else elim (cut_at_equals ln) [
      | none ↦ e
      | some (key, value) ↦ read_pair (trim_space key) (trim_space value) e
    ]

read_lines : List (List ℕ) → Entry → Entry
unfolding read_line
read_lines [] e = e
read_lines (line ∷ lines) e = read_lines lines (read_line line e)

-- `binary.BigEndian.Uint64`
big_endian : ℕ → List ℕ → ℕ
big_endian acc [] = acc
big_endian acc (b ∷ bs) = big_endian (acc * 256 + b) bs

-- What `sync` reads, given the epoch of the mount.
unfoldable pub read_journal : ℕ → List ℕ → Entry
unfolding split_lines read_lines big_endian
read_journal my_epoch [] = no_entry
read_journal my_epoch (b ∷ bs) =
    if length (b ∷ bs) == 8 && my_epoch == 0
    then record { size = big_endian 0 (b ∷ bs); epoch = 0 }
    else read_lines (split_lines (b ∷ bs)) no_entry

abbrev pub put_line : List ℕ → List ℕ → List ℕ
put_line line rest = line ++ b'\n' ∷ rest

-- The four lines that `sync` writes; `stamp` is the time in milliseconds, as printed.
unfoldable pub write_journal : Entry → List ℕ → List ℕ
write_journal e stamp = put_line (codes "version=1") (
    put_line (codes "epoch=" ++ print_uint e.epoch) (
      put_line (codes "size_bytes=" ++ print_uint e.size)
        (put_line (codes "updated_unix_ms=" ++ stamp) [])))
