-- ===== src/SizeTracker/JournalText/RoundTrip.antt =====
-- What `sync` writes to the journal is what the next `sync`, of any mount, reads.
use cloudfuse.Base.{
  ℕ, ◌≤◌, ◌<◌, ◌≡◌, ◌≢◌, refl, ◌∙◌, false, some, List, [], ◌∷◌, ◌++◌, length, All, All-append,
  All-map, u64_mod, arith,
}
use cloudfuse.SizeTracker.Decimal.{print_uint, parse-print, IsDigit, print_uint-IsDigit}
use cloudfuse.SizeTracker.JournalText.{
  Entry, no_entry, codes, is_space, trim_right, trim_space, split_lines, prepend, cut_at_equals,
  read_pair, read_line, read_lines, read_journal, write_journal, starts_comment,
}

-- A visible character other than `=`.
abbrev pub IsPlain : ℕ → Type 0
IsPlain c = (33 ≤ c) × (c ≢ 61)

digit-IsPlain : (c : ℕ) → IsDigit c → IsPlain c
digit-IsPlain c h = omega arith

trim_right_id : (cs : List ℕ) → All (λ c. 33 ≤ c) cs → trim_right cs ≡ cs
unfolding trim_right is_space
trim_right_id [] h = refl
trim_right_id (c ∷ []) h = ground arith
trim_right_id (c ∷ d ∷ cs) h = rw (trim_right_id (d ∷ cs) h.1)

trim_space_id : (cs : List ℕ) → All (λ c. 33 ≤ c) cs → trim_space cs ≡ cs
unfolding trim_space
trim_space_id [] h = refl
trim_space_id (c ∷ cs) h =
    let visible : is_space c ≡ false = unfold is_space in ground arith in
    rw visible (trim_right_id (c ∷ cs) h)

split_line :
    (cs rest : List ℕ)
    → All (λ c. 33 ≤ c) cs
    → split_lines (cs ++ 10 ∷ rest) ≡ cs ∷ split_lines rest
unfolding split_lines prepend
split_line [] rest h = refl
split_line (c ∷ cs) rest h = rw (split_line cs rest h.1) (ground arith)

cut_pair :
    (key value : List ℕ) → All IsPlain key → cut_at_equals (key ++ 61 ∷ value) ≡ some (key, value)
unfolding cut_at_equals
cut_pair [] value h = refl
cut_pair (c ∷ key) value h = rw (cut_pair key value h.1) (ground arith)

plain-visible : (cs : List ℕ) → All IsPlain cs → All (λ c. 33 ≤ c) cs
plain-visible cs h = All-map cs (λ c p. p.0) h

-- A line `key=value` of plain characters is read as that pair.
read_line_pair :
    (c : ℕ) (key value : List ℕ) (e : Entry)
    → starts_comment (c ∷ key) ≡ false
    → All IsPlain (c ∷ key)
    → All (λ d. 33 ≤ d) value
    → read_line ((c ∷ key) ++ 61 ∷ value) e ≡ read_pair (c ∷ key) value e
unfolding read_line
read_line_pair c key value e starts plain visible =
    let line : All (λ d. 33 ≤ d) ((c ∷ key) ++ 61 ∷ value) =
      All-append (λ d. 33 ≤ d) (c ∷ key) (61 ∷ value) (plain-visible (c ∷ key) plain)
        (omega arith, visible) in
    rw (trim_space_id ((c ∷ key) ++ 61 ∷ value) line, cut_pair key value plain.1)
      (ground (
        arith,
        trim_space_id (c ∷ key) (plain-visible (c ∷ key) plain),
        trim_space_id value visible,
      ))

read_lines-cons :
    (line : List ℕ) (lines : List (List ℕ)) (e : Entry)
    → read_lines (line ∷ lines) e ≡ read_lines lines (read_line line e)
unfolding read_lines
read_lines-cons line lines e = refl

-- A file longer than a legacy journal is read line by line.
read_journal_text :
    (my_epoch : ℕ) (bytes : List ℕ)
    → 8 < length bytes
    → read_journal my_epoch bytes ≡ read_lines (split_lines bytes) no_entry
unfolding read_journal
read_journal_text my_epoch [] h = absurd (omega arith)
read_journal_text my_epoch (b ∷ bs) h = ground arith

module _ (e : Entry) (stamp : List ℕ) (dated : All (λ c. 33 ≤ c) stamp)
    (size_fits : e.size < u64_mod) (epoch_fits : e.epoch < u64_mod) where
  digits-visible : (n : ℕ) → All (λ c. 33 ≤ c) (print_uint n)
  digits-visible n = All-map (print_uint n) (λ c h. omega arith) (print_uint-IsDigit n)

  epoch_line : codes "epoch=" ++ print_uint e.epoch ≡ (codes "epoch") ++ 61 ∷ print_uint e.epoch
  epoch_line = refl

  read_epoch :
      (x : Entry)
      → read_line (codes "epoch=" ++ print_uint e.epoch) x ≡ record x { epoch = e.epoch }
  unfolding starts_comment
  read_epoch x =
      read_line_pair b'e' (codes "poch") (print_uint e.epoch) x refl (omega arith)
        (digits-visible e.epoch)
      ∙ (unfold read_pair in rw (parse-print e.epoch epoch_fits))

  read_size :
      (x : Entry)
      → read_line (codes "size_bytes=" ++ print_uint e.size) x ≡ record x { size = e.size }
  unfolding starts_comment
  read_size x =
      read_line_pair b's' (codes "ize_bytes") (print_uint e.size) x refl (omega arith)
        (digits-visible e.size)
      ∙ (unfold read_pair in rw (parse-print e.size size_fits))

  read_stamp : (x : Entry) → read_line (codes "updated_unix_ms=" ++ stamp) x ≡ x
  unfolding starts_comment
  read_stamp x =
      read_line_pair b'u' (codes "pdated_unix_ms") stamp x refl (omega arith) dated
      ∙ (unfold read_pair in refl)

  read_version : (x : Entry) → read_line (codes "version=1") x ≡ x
  read_version x = unfold read_line read_pair in refl

  split_journal :
      split_lines (write_journal e stamp)
      ≡ codes "version=1"
        ∷ (codes "epoch=" ++ print_uint e.epoch)
        ∷ (codes "size_bytes=" ++ print_uint e.size)
        ∷ (codes "updated_unix_ms=" ++ stamp)
        ∷ []
        ∷ []
  unfolding write_journal
  split_journal =
      rw
        (
          split_line (codes "version=1") _ (omega arith),
          split_line (codes "epoch=" ++ print_uint e.epoch) _
              (All-append (λ c. 33 ≤ c) (codes "epoch=") _ (omega arith) (digits-visible e.epoch)),
          split_line (codes "size_bytes=" ++ print_uint e.size) _ (
              All-append (λ c. 33 ≤ c) (codes "size_bytes=") _ (omega arith)
                (digits-visible e.size)),
          split_line (codes "updated_unix_ms=" ++ stamp) []
              (All-append (λ c. 33 ≤ c) (codes "updated_unix_ms=") stamp (omega arith) dated),
        )
        (unfold split_lines in refl)

  -- Let the size and the epoch fit into 64 bits, and let the time stamp be printed without spaces.
  -- Whatever the epoch of the mount that reads the journal, it gets the entry that was written.
  pub read-write : (my_epoch : ℕ) → read_journal my_epoch (write_journal e stamp) ≡ e
  read-write my_epoch =
      rw
        (
          read_journal_text my_epoch (write_journal e stamp) (unfold write_journal in omega arith),
          split_journal,
        )
        (rw
          (
            read_lines-cons, read_version, read_lines-cons, read_epoch, read_lines-cons, read_size,
            read_lines-cons, read_stamp,
          )
          (unfold read_lines in refl))
