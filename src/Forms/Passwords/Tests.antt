-- ===== src/Forms/Passwords/Tests.antt =====
-- Stored passwords at concrete inputs.
use formaldehyde.Prelude.{
  ℕ, ◌+◌, ◌-◌, ◌*◌, ◌/◌, ◌%◌, ◌≡◌, refl, arith, Bool, true, false, List, [], ◌∷◌, ◌++◌, none, some,
  codes, same_text, contains, ap₂,
}
use formaldehyde.Prelude.Partial.{done}
use formaldehyde.Forms.Passwords.{
  Crypto, ScryptHash, scrypt_hash_from_password, encode, scrypt_hash_from_hash_string, validate,
  crypto_rand_64,
}
use formaldehyde.Forms.Passwords.Stored.{AllBytes, IsHex, validate-encode}

-- Two letters from `a` on for a byte.
abbrev letters : List ℕ → List ℕ
letters [] = []
letters (b ∷ bs) = (b / 16 + b'a') ∷ (b % 16 + b'a') ∷ letters bs

abbrev add_byte : ℕ → List ℕ × Bool → List ℕ × Bool
add_byte b (bs, failed) = (b ∷ bs, failed)

abbrev bytes_of : List ℕ → List ℕ × Bool
bytes_of [] = ([], false)
bytes_of (x ∷ []) = ([], true)
bytes_of (x ∷ y ∷ cs) = let rest = bytes_of cs in add_byte ((x - b'a') * 16 + (y - b'a')) rest

abbrev crypto : Crypto
crypto = record {
  key = λ password salt n r p len. some (password ++ salt);
  read_full = λ n. some (1 ∷ 2 ∷ 3 ∷ 4 ∷ 5 ∷ 6 ∷ 7 ∷ 8 ∷ []);
  encode = letters;
  decode = bytes_of;
}

bytes_of-letters : (bs : List ℕ) → bytes_of (letters bs) ≡ (bs, false)
bytes_of-letters [] = refl
bytes_of-letters (b ∷ bs) = ap₂ (λ x r. add_byte x r) (digits b) (bytes_of-letters bs)
  where
    digits : (x : ℕ) → (x / 16 + b'a' - b'a') * 16 + (x % 16 + b'a' - b'a') ≡ x
    digits x = omega arith

letters-contains : (bs : List ℕ) → contains (letters bs) b':' ≡ false
letters-contains [] = refl
letters-contains (b ∷ bs) = ground (arith, letters-contains bs)

crypto-IsHex : IsHex crypto
crypto-IsHex = record { back = λ bs h. bytes_of-letters bs; no_colon = λ bs h. letters-contains bs }

abbrev stored : ScryptHash
stored = record {
  hash = codes "hi" ++ 1 ∷ 2 ∷ 3 ∷ 4 ∷ 5 ∷ 6 ∷ 7 ∷ 8 ∷ [];
  salt = 1 ∷ 2 ∷ 3 ∷ 4 ∷ 5 ∷ 6 ∷ 7 ∷ 8 ∷ [];
}

stored_made : scrypt_hash_from_password crypto (codes "hi") ≡ done stored
unfolding scrypt_hash_from_password
stored_made = refl

stored_salt-AllBytes : AllBytes stored.salt
stored_salt-AllBytes = (
  omega arith,
  (
    omega arith,
    (omega arith, (omega arith, (omega arith, (omega arith, (omega arith, (omega arith, tt)))))),
  ),
)

stored_hash-AllBytes : AllBytes stored.hash
stored_hash-AllBytes = (omega arith, (omega arith, stored_salt-AllBytes))

validate-encode_example :
    (scrypt_hash_from_hash_string crypto (encode crypto stored) ≡ (some stored, none))
    × (validate crypto stored (codes "ho")
        ≡ done (same_text (codes "ho" ++ stored.salt) stored.hash))
    × (validate crypto stored (codes "hi") ≡ done true)
validate-encode_example =
    validate-encode crypto (codes "hi") (codes "ho") (codes "ho" ++ stored.salt) stored crypto-IsHex
      stored_salt-AllBytes stored_hash-AllBytes stored_made refl

rand_64 : crypto_rand_64 crypto ≡ done 0x0102030405060708
unfolding crypto_rand_64
rand_64 = refl
