-- ===== src/Encryption/Tests.antt =====
-- A cipher that adds the first byte of its nonce to every byte, with a nonce of one byte.
use cloudfuse.Base.{
  ℕ, ◌+◌, ◌-◌, ◌≡◌, ◌≢◌, refl, ap, Option, some, List, [], ◌∷◌, ◌++◌, map, replicate, length,
  length-replicate, get_or, arith,
}
use cloudfuse.Encryption.{
  ok, err, invalid_length, panic, Crypto, encrypt_data, decrypt_data, uint16_at, extract_salt,
}
use cloudfuse.Encryption.RoundTrip.{decrypt_data-encrypt_data, decrypt_data_never_panics}

abbrev shift : List ℕ → List ℕ → List ℕ
shift nonce bytes = map (λ b. b + get_or nonce 0 0) bytes

abbrev unshift : List ℕ → List ℕ → List ℕ
unshift nonce bytes = map (λ b. b - get_or nonce 0 0) bytes

unshift-shift : (nonce bytes : List ℕ) → unshift nonce (shift nonce bytes) ≡ bytes
unshift-shift nonce [] = refl
unshift-shift nonce (b ∷ bytes) =
    let back : b + get_or nonce 0 0 - get_or nonce 0 0 ≡ b = omega arith in
    rw (back, unshift-shift nonce bytes) refl

abbrev toy : Crypto
toy = record {
  Gcm = Unit;
  derive_key = λ secret salt. salt;
  new_gcm = λ key. some tt;
  nonce_size = λ gcm. 1;
  seal = λ gcm nonce plain. shift nonce plain;
  open_sealed = λ gcm nonce cipher. some (unshift nonce cipher);
}

abbrev sevens : ℕ → Option (List ℕ)
sevens n = some (replicate n 7)

sevens_fill : (n : ℕ) (bytes : List ℕ) → sevens n ≡ some bytes → length bytes ≡ n
sevens_fill n bytes e =
    let seven : ℕ = 7 in let size = length-replicate n seven in ground (arith, e, size)

abbrev sealed : List ℕ
sealed = (16 ∷ 0 ∷ []) ++ (replicate 16 7 ++ (1 ∷ 0 ∷ 7 ∷ 10 ∷ 11 ∷ []))

seals : encrypt_data toy sevens sevens (3 ∷ 4 ∷ []) (some (some [])) ≡ ok sealed
unfolding encrypt_data
seals = refl

-- A salt that claims more bytes than there are.
lies : decrypt_data toy (200 ∷ 1 ∷ 2 ∷ 3 ∷ []) (some (some [])) ≡ err invalid_length
unfolding decrypt_data extract_salt uint16_at
lies = refl

decrypt_data-encrypt_data_example : decrypt_data toy sealed (some (some [])) ≡ ok (3 ∷ 4 ∷ [])
decrypt_data-encrypt_data_example =
    decrypt_data-encrypt_data toy sevens sevens (3 ∷ 4 ∷ []) sealed (some (some []))
      (λ gcm nonce plain h. ap some (unshift-shift nonce plain)) (λ gcm. omega arith) sevens_fill
      sevens_fill seals

decrypt_data_never_panics_example : decrypt_data toy (200 ∷ 1 ∷ 2 ∷ 3 ∷ []) (some (some [])) ≢ panic
decrypt_data_never_panics_example =
    decrypt_data_never_panics toy (200 ∷ 1 ∷ 2 ∷ 3 ∷ []) (some (some []))
