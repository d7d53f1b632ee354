-- ===== src/Encryption/Frame.antt =====
-- The framing alone: a salt, a nonce and a ciphertext are read back as they were written.
use cloudfuse.Base.{
  ℕ, ◌+◌, ◌-◌, ◌^◌, ◌<◌, ◌≡◌, refl, ap, ◌∙◌, List, [], ◌∷◌, ◌++◌, length, length-append, take, drop,
  arith,
}
use mathlib.Core.Path.{subst}
use cloudfuse.Encryption.{
  ok, slice, get_uint16, put_uint16, uint16_at, extract_salt, extract_nonce_and_ciphertext,
}

abbrev pub frame : List ℕ → List ℕ → List ℕ → List ℕ
frame salt nonce ciphertext =
    put_uint16 (length salt) ++ (salt ++ (put_uint16 (length nonce) ++ (nonce ++ ciphertext)))

take-append : (xs ys : List ℕ) → take (length xs) (xs ++ ys) ≡ xs
take-append [] ys = refl
take-append (x ∷ xs) ys = rw (take-append xs ys) refl

take_whole : (xs : List ℕ) → take (length xs) xs ≡ xs
take_whole [] = refl
take_whole (x ∷ xs) = rw (take_whole xs) refl

drop-append : (xs ys : List ℕ) → drop (length xs) (xs ++ ys) ≡ ys
drop-append [] ys = refl
drop-append (x ∷ xs) ys = drop-append xs ys

append_assoc : (xs ys zs : List ℕ) → (xs ++ ys) ++ zs ≡ xs ++ (ys ++ zs)
append_assoc [] ys zs = refl
append_assoc (x ∷ xs) ys zs = rw (append_assoc xs ys zs) refl

-- A slice of what stands between two lists.
slice-middle :
    (xs ys zs : List ℕ) (from to : ℕ)
    → from ≡ length xs
    → to ≡ length xs + length ys
    → slice (xs ++ (ys ++ zs)) from to ≡ ok ys
slice-middle xs ys zs from to hf ht =
    let all = length-append xs (ys ++ zs) in
    let tail = length-append ys zs in
    let dropped : drop from (xs ++ (ys ++ zs)) ≡ ys ++ zs = rw hf (drop-append xs (ys ++ zs)) in
    let size : to - from ≡ length ys = omega arith in
    let taken : take (to - from) (drop from (xs ++ (ys ++ zs))) ≡ ys =
      rw (dropped, size) (take-append ys zs) in
    ground (arith, all, tail, taken, hf, ht)

get_uint16-put : (n : ℕ) → n < 2 ^ 16 → get_uint16 (put_uint16 n) ≡ ok n
get_uint16-put n h = ap ok (omega arith)

uint16_at-put :
    (xs zs : List ℕ) (n from : ℕ)
    → from ≡ length xs
    → n < 2 ^ 16
    → uint16_at (xs ++ (put_uint16 n ++ zs)) from ≡ ok n
unfolding uint16_at
uint16_at-put xs zs n from hf h =
    rw (slice-middle xs (put_uint16 n) zs from (from + 2) hf (omega arith)) (get_uint16-put n h)

slice-rest :
    (xs ys : List ℕ) (from to : ℕ)
    → from ≡ length xs
    → to ≡ length (xs ++ ys)
    → slice (xs ++ ys) from to ≡ ok ys
slice-rest xs ys from to hf ht =
    let all = length-append xs ys in
    let dropped : drop from (xs ++ ys) ≡ ys = rw hf (drop-append xs ys) in
    let size : to - from ≡ length ys = omega arith in
    let taken : take (to - from) (drop from (xs ++ ys)) ≡ ys = rw (dropped, size) (take_whole ys) in
    ground (arith, all, taken, hf, ht)

slice-middle_of :
    (f xs ys zs : List ℕ) (from to : ℕ)
    → xs ++ (ys ++ zs) ≡ f
    → from ≡ length xs
    → to ≡ length xs + length ys
    → slice f from to ≡ ok ys
slice-middle_of f xs ys zs from to e hf ht =
    subst (λ (l : List ℕ). slice l from to ≡ ok ys) e (slice-middle xs ys zs from to hf ht)

slice-rest_of :
    (f xs ys : List ℕ) (from : ℕ)
    → xs ++ ys ≡ f
    → from ≡ length xs
    → slice f from (length f) ≡ ok ys
slice-rest_of f xs ys from e hf =
    subst (λ (l : List ℕ). slice l from (length l) ≡ ok ys) e
      (slice-rest xs ys from (length (xs ++ ys)) hf refl)

-- What the slices of the data have to be.
record IsFramed (f salt nonce ciphertext : List ℕ) : Type 0 where
  size : length f ≡ 4 + length salt + length nonce + length ciphertext
  salt_len : uint16_at f 0 ≡ ok (length salt)
  salt_bytes : slice f 2 (2 + length salt) ≡ ok salt
  nonce_len : uint16_at f (2 + length salt) ≡ ok (length nonce)
  nonce_bytes : slice f (2 + length salt + 2) (2 + length salt + 2 + length nonce) ≡ ok nonce
  rest : slice f (2 + length salt + 2 + length nonce) (length f) ≡ ok ciphertext

extract-IsFramed :
    (f salt nonce ciphertext : List ℕ)
    → IsFramed f salt nonce ciphertext
    → (extract_salt f ≡ ok salt) × (extract_nonce_and_ciphertext f ≡ ok (nonce, ciphertext))
unfolding extract_salt extract_nonce_and_ciphertext
extract-IsFramed f salt nonce ciphertext h = (ground (arith, h), ground (arith, h))

frame-IsFramed :
    (salt nonce ciphertext : List ℕ)
    → length salt < 2 ^ 16
    → length nonce < 2 ^ 16
    → IsFramed (frame salt nonce ciphertext) salt nonce ciphertext
frame-IsFramed salt nonce ciphertext hs hn =
    let nonce_field = put_uint16 (length nonce) in
    let head = put_uint16 (length salt) ++ salt in
    let upto = head ++ nonce_field in
    let upto_length = length-append salt nonce_field in
    let before = upto ++ nonce in
    let before_length = length-append upto nonce in
    let joined : upto ++ (nonce ++ ciphertext) ≡ frame salt nonce ciphertext =
      ap (λ l. put_uint16 (length salt) ++ l)
        (append_assoc salt nonce_field (nonce ++ ciphertext)) in
    let joined' : before ++ ciphertext ≡ frame salt nonce ciphertext =
      append_assoc upto nonce ciphertext ∙ joined in
    let all = length-append salt (nonce_field ++ (nonce ++ ciphertext)) in
    let last = length-append nonce ciphertext in
    record {
      size = omega (arith, all, last);
      salt_len =
          uint16_at-put [] (salt ++ (nonce_field ++ (nonce ++ ciphertext))) (length salt) 0 refl hs;
      salt_bytes =
          slice-middle (put_uint16 (length salt)) salt (nonce_field ++ (nonce ++ ciphertext)) 2
            (2 + length salt) refl (omega arith);
      nonce_len =
          uint16_at-put head (nonce ++ ciphertext) (length nonce) (2 + length salt) (omega arith)
            hn;
      nonce_bytes =
          slice-middle_of (frame salt nonce ciphertext) upto nonce ciphertext (2 + length salt + 2)
            (2 + length salt + 2 + length nonce) joined (omega (arith, upto_length))
            (omega (arith, upto_length));
      rest =
          slice-rest_of (frame salt nonce ciphertext) before ciphertext
            (2 + length salt + 2 + length nonce) joined'
            (omega (arith, upto_length, before_length));
    }

-- The parts of a frame are read back, if the salt and the nonce are shorter than 2^16 bytes.
pub extract-frame :
    (salt nonce ciphertext : List ℕ)
    → length salt < 2 ^ 16
    → length nonce < 2 ^ 16
    → (extract_salt (frame salt nonce ciphertext) ≡ ok salt)
      × (extract_nonce_and_ciphertext (frame salt nonce ciphertext) ≡ ok (nonce, ciphertext))
extract-frame salt nonce ciphertext hs hn =
    extract-IsFramed (frame salt nonce ciphertext) salt nonce ciphertext
      (frame-IsFramed salt nonce ciphertext hs hn)
