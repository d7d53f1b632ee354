-- ===== src/Encryption/RoundTrip.antt =====
-- What `EncryptData` writes, `DecryptData` reads; and `DecryptData` never panics.
use cloudfuse.Base.{
  ℕ, ◌+◌, ◌-◌, ◌^◌, ◌≤◌, ◌<◌, ◌≡◌, ◌≢◌, refl, sym, Option, none, some, List, [], ◌∷◌, length,
  length-drop, take, drop, Option-cases, inl, inr, arith,
}
use cloudfuse.Encryption.{
  ok, panic, Crypto, get_uint16, uint16_at, extract_salt, extract_nonce_and_ciphertext,
  encrypt_data, decrypt_data, open_password,
}
use cloudfuse.Encryption.Frame.{frame, extract-frame}

get_uint16_safe : (bytes : List ℕ) → 2 ≤ length bytes → get_uint16 (take 2 bytes) ≢ panic
get_uint16_safe [] h e = absurd (omega arith)
get_uint16_safe (a ∷ []) h e = absurd (omega arith)
get_uint16_safe (a ∷ b ∷ bytes) h e = ground (arith, e)

uint16_at_safe :
    (bytes : List ℕ) (from : ℕ) → from + 2 ≤ length bytes → uint16_at bytes from ≢ panic
unfolding uint16_at
uint16_at_safe bytes from h e =
    let width : from + 2 - from ≡ 2 = omega arith in
    let size = length-drop from bytes in
    let two : get_uint16 (take (from + 2 - from) (drop from bytes)) ≢ panic =
      rw width (get_uint16_safe (drop from bytes) (omega arith)) in
    ground (arith, e, two)

extract_salt_safe : (cipher_data : List ℕ) → extract_salt cipher_data ≢ panic
unfolding extract_salt
extract_salt_safe cipher_data e =
    let first = uint16_at_safe cipher_data 0 in ground (arith, e, first)

extract_nonce_and_ciphertext_safe :
    (cipher_data : List ℕ) → extract_nonce_and_ciphertext cipher_data ≢ panic
unfolding extract_nonce_and_ciphertext
extract_nonce_and_ciphertext_safe cipher_data e =
    let first = uint16_at_safe cipher_data 0 in
    let safe = uint16_at_safe cipher_data in grind (arith, e, first, safe)

module _ (crypto : Crypto) where
  open crypto use {Gcm, derive_key, new_gcm, nonce_size, seal, open_sealed}

  encrypt_data-ok :
      (salt_rand nonce_rand : ℕ → Option (List ℕ)) (plain_data sealed : List ℕ)
      (password : Option (Option (List ℕ)))
      → ((n : ℕ) (bytes : List ℕ) → salt_rand n ≡ some bytes → length bytes ≡ n)
      → ((n : ℕ) (bytes : List ℕ) → nonce_rand n ≡ some bytes → length bytes ≡ n)
      → encrypt_data crypto salt_rand nonce_rand plain_data password ≡ ok sealed
      → (secret : List ℕ) × (salt : List ℕ) × (gcm : Gcm) × (nonce : List ℕ) × (open_password
            password
          ≡ ok secret)
        × (salt_rand 16 ≡ some salt)
        × (new_gcm (derive_key secret salt) ≡ some gcm)
        × (nonce_rand (nonce_size gcm) ≡ some nonce)
        × (sealed ≡ frame salt nonce (seal gcm nonce plain_data))
  unfolding encrypt_data
  encrypt_data-ok salt_rand nonce_rand plain_data sealed none fills fills' e = ground (arith, e)
  encrypt_data-ok salt_rand nonce_rand plain_data sealed (some none) fills fills' e =
      ground (arith, e)
  encrypt_data-ok salt_rand nonce_rand plain_data sealed (some (some secret)) fills fills' e =
      elim (Option-cases (salt_rand 16)) [
        | inl missing ↦ ground (arith, e, missing)
        | inr (salt, salted) ↦ elim (Option-cases (new_gcm (derive_key secret salt))) [
          | inl missing ↦ ground (arith, e, salted, missing)
          | inr (gcm, cipher) ↦ elim (Option-cases (nonce_rand (nonce_size gcm))) [
            | inl missing ↦ ground (arith, e, salted, cipher, missing)
            | inr (nonce, random) ↦
                let size = fills 16 salt salted in
                let size' = fills' (nonce_size gcm) nonce random in
                let same : frame salt nonce (seal gcm nonce plain_data) ≡ sealed =
                  ground (arith, e, salted, cipher, random, size, size') in
                (secret, salt, gcm, nonce, refl, salted, cipher, random, sym same)
          ]
        ]
      ]

  -- If AES-GCM opens what it sealed, its nonce is shorter than 2^16 bytes, and the random generator
  -- fills what it is asked to fill, then `DecryptData` gives back, with the same password, every
  -- text that `EncryptData` encrypted.
  pub decrypt_data-encrypt_data :
      (salt_rand nonce_rand : ℕ → Option (List ℕ)) (plain_data sealed : List ℕ)
      (password : Option (Option (List ℕ)))
      → ((gcm : Gcm) (nonce plain : List ℕ)
          → length nonce ≡ nonce_size gcm
          → open_sealed gcm nonce (seal gcm nonce plain) ≡ some plain)
      → ((gcm : Gcm) → nonce_size gcm < 2 ^ 16)
      → ((n : ℕ) (bytes : List ℕ) → salt_rand n ≡ some bytes → length bytes ≡ n)
      → ((n : ℕ) (bytes : List ℕ) → nonce_rand n ≡ some bytes → length bytes ≡ n)
      → encrypt_data crypto salt_rand nonce_rand plain_data password ≡ ok sealed
      → decrypt_data crypto sealed password ≡ ok plain_data
  unfolding encrypt_data decrypt_data
  decrypt_data-encrypt_data salt_rand nonce_rand plain_data sealed password opens short fills fills'
        e =
      let (secret, salt, gcm, nonce, opened, salted, cipher, random, framed) =
        encrypt_data-ok salt_rand nonce_rand plain_data sealed password fills fills' e in
      let size = fills (16) salt salted in
      let size' = fills' (nonce_size gcm) nonce random in
      let small = short gcm in
      let (salt_back, parts_back) =
        extract-frame salt nonce (seal gcm nonce plain_data) (omega arith) (omega arith) in
      let back = opens gcm nonce plain_data size' in
      rw framed (ground (arith, opened, cipher, salt_back, parts_back, back, size'))

  -- Whatever the bytes are, also cut off or with lengths that lie, `DecryptData` does not index out
  -- of range and hands AES-GCM no nonce of another length: it returns a text or an error.
  pub decrypt_data_never_panics :
      (cipher_data : List ℕ) (password : Option (Option (List ℕ)))
      → decrypt_data crypto cipher_data password ≢ panic
  unfolding decrypt_data
  decrypt_data_never_panics cipher_data password e =
      let salt_safe = extract_salt_safe cipher_data in
      let parts_safe = extract_nonce_and_ciphertext_safe cipher_data in
      ground (arith, e, salt_safe, parts_safe)
