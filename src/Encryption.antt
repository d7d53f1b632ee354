-- ===== src/Encryption.antt =====
-- common/util.go: `EncryptData` and `DecryptData`, the framing of a salt, a nonce and a ciphertext.
-- The key derivation and AES-GCM are a parameter, and so is what the random generator yields.
pub mod Frame
pub mod RoundTrip
mod Tests
use cloudfuse.Base.{
  ℕ, ◌+◌, ◌-◌, ◌*◌, ◌/◌, ◌%◌, Bool, true, false, ◌&&◌, Option, none, some, List, [], ◌∷◌, ◌++◌, ltb,
  leb, ◌==◌, if◌then◌else◌, length, take, drop,
}

pub data Error : Type 0 where
  empty_password no_password no_random no_cipher : Error
  short_salt short_nonce invalid_length nonce_length not_opened : Error

-- A run that ends by an index out of range, or by a nonce that AES-GCM does not take, is a panic.
pub data Result (A : Type 0) : Type 0 where
  ok : A → Result A
  err : Error → Result A
  panic : Result A

-- golang.org/x/crypto/argon2 and crypto/cipher, as far as they are called.
pub record Crypto : Type 1 where
  pub Gcm : Type 0
  pub derive_key : List ℕ → List ℕ → List ℕ
  pub new_gcm : List ℕ → Option Gcm
  pub nonce_size : Gcm → ℕ
  pub seal : Gcm → List ℕ → List ℕ → List ℕ
  pub open_sealed : Gcm → List ℕ → List ℕ → Option (List ℕ)

abbrev pub salt_length : ℕ
salt_length = 16

abbrev pub uint16_size : ℕ
uint16_size = 2

-- `binary.Write` of a uint16 in little-endian order, and `binary.LittleEndian.Uint16`.
abbrev pub put_uint16 : ℕ → List ℕ
put_uint16 n = n % 256 ∷ n / 256 % 256 ∷ []

abbrev pub get_uint16 : List ℕ → Result ℕ
get_uint16 [] = panic
get_uint16 (a ∷ []) = panic
get_uint16 (a ∷ b ∷ bytes) = ok (a + b * 256)

-- `data[from:to]`
abbrev pub slice : List ℕ → ℕ → ℕ → Result (List ℕ)
slice bytes from to =
    if leb from to && leb to (length bytes) then ok (take (to - from) (drop from bytes)) else panic

abbrev pub and_then : {A B : Type 0} → Result A → (A → Result B) → Result B
and_then (ok a) f = f a
and_then (err e) f = err e
and_then panic f = panic

-- The number that a slice of two bytes holds.
unfoldable pub uint16_at : List ℕ → ℕ → Result ℕ
uint16_at bytes from = and_then (slice bytes from (from + uint16_size)) get_uint16

unfoldable pub extract_salt : List ℕ → Result (List ℕ)
extract_salt cipher_data =
    if ltb (length cipher_data) uint16_size
    then err short_salt
    else and_then (uint16_at cipher_data 0) (λ salt_len.
      if ltb (length cipher_data) (uint16_size + salt_len)
      then err invalid_length
      else slice cipher_data uint16_size (uint16_size + salt_len))

unfoldable pub extract_nonce_and_ciphertext : List ℕ → Result (List ℕ × List ℕ)
extract_nonce_and_ciphertext cipher_data =
    if ltb (length cipher_data) uint16_size
    then err short_salt
    else and_then (uint16_at cipher_data 0) (λ salt_len.
      let offset = uint16_size + salt_len in
      if ltb (length cipher_data) (offset + uint16_size)
      then err short_nonce
      else and_then (uint16_at cipher_data offset) (λ nonce_len.
        let start = offset + uint16_size in
        if ltb (length cipher_data) (start + nonce_len)
        then err invalid_length
        else and_then (slice cipher_data start (start + nonce_len)) (λ nonce.
          and_then (slice cipher_data (start + nonce_len) (length cipher_data))
            (λ ciphertext. ok (nonce, ciphertext)))))

-- The password: missing, or with what `Open` of its enclave gives.
abbrev pub open_password : Option (Option (List ℕ)) → Result (List ℕ)
open_password none = err empty_password
open_password (some none) = err no_password
open_password (some (some secret)) = ok secret

abbrev pub from_option : {A : Type 0} → Error → Option A → Result A
from_option e none = err e
from_option e (some a) = ok a

module _ (crypto : Crypto) where
  open crypto use {Gcm, derive_key, new_gcm, nonce_size, seal, open_sealed}

  -- `gcm.Open` panics at a nonce of another length.
  abbrev gcm_open : Gcm → List ℕ → List ℕ → Result (List ℕ)
  gcm_open gcm nonce ciphertext =
      if length nonce == nonce_size gcm
      then from_option not_opened (open_sealed gcm nonce ciphertext)
      else panic

  -- `salt_rand` and `nonce_rand` are what the two reads of the random generator give, by the size.
  unfoldable pub encrypt_data :
      (ℕ → Option (List ℕ))
      → (ℕ → Option (List ℕ))
      → List ℕ
      → Option (Option (List ℕ))
      → Result (List ℕ)
  encrypt_data salt_rand nonce_rand plain_data password =
      and_then (open_password password) (λ secret.
        and_then (from_option no_random (salt_rand salt_length)) (λ salt.
          and_then (from_option no_cipher (new_gcm (derive_key secret salt))) (λ gcm.
            and_then (from_option no_random (nonce_rand (nonce_size gcm))) (λ nonce. ok (
              put_uint16 salt_length
              ++ (salt
                  ++ (put_uint16 (nonce_size gcm) ++ (nonce ++ seal gcm nonce plain_data))))))))

  unfoldable pub decrypt_data : List ℕ → Option (Option (List ℕ)) → Result (List ℕ)
  decrypt_data cipher_data password = and_then (open_password password) (λ secret.
      and_then (extract_salt cipher_data) (λ salt.
        and_then (from_option no_cipher (new_gcm (derive_key secret salt))) (λ gcm.
          and_then (extract_nonce_and_ciphertext cipher_data) (λ parts.
            if length parts.0 == nonce_size gcm
            then gcm_open gcm parts.0 parts.1
            else err nonce_length))))
