-- ===== src/Forms/Passwords.antt =====
-- Passwords, of src/github.com/latacora/formaldehyd/my/security.go.
pub mod Stored
mod Tests
use formaldehyde.Prelude.{
  ℕ, ◌^◌, ◌%◌, ◌<<◌, bit_or, Bool, true, false, List, [], ◌∷◌, ◌++◌, Option, none, some, same_text,
  split,
}
use formaldehyde.Prelude.Partial.{Partial, done, panic, ◌>>=◌}

-- What the source takes of other packages: `scrypt.Key` of a password, a salt and four numbers, the
-- random bytes that `io.ReadFull` reads, and hexadecimal text. `none` is an error; `decode` says with its
-- bytes whether there was one.
pub record Crypto : Type 0 where
  pub key : List ℕ → List ℕ → ℕ → ℕ → ℕ → ℕ → Option (List ℕ)
  pub read_full : ℕ → Option (List ℕ)
  pub encode : List ℕ → List ℕ
  pub decode : List ℕ → List ℕ × Bool

pub record ScryptHash : Type 0 where
  pub hash : List ℕ
  pub salt : List ℕ

pub data HashError : Type 0 where
  invalid_hash invalid_hex : HashError

abbrev pub or_panic : {A : Type 0} → Option A → Partial A
or_panic none = panic
or_panic (some a) = done a

-- The error of a decoding.
abbrev pub hex_error : Bool → Option HashError
hex_error true = some invalid_hex
hex_error false = none

module _ (cr : Crypto) where
  unfoldable pub crypto_rand_bytes : ℕ → Partial (List ℕ)
  crypto_rand_bytes n = or_panic (cr.read_full n)

  abbrev pub password_key : List ℕ → List ℕ → Partial (List ℕ)
  password_key password salt = or_panic (cr.key password salt 16384 8 1 32)

  unfoldable pub scrypt_hash_from_password : List ℕ → Partial ScryptHash
  unfolding crypto_rand_bytes
  scrypt_hash_from_password password = crypto_rand_bytes 8 >>= λ salt.
      password_key password salt >>= λ key. done (record { hash = key; salt = salt })

  unfoldable pub encode : ScryptHash → List ℕ
  encode s = cr.encode s.salt ++ b':' ∷ cr.encode s.hash

  -- After the salt is decoded.
  unfoldable pub decode_hash : List ℕ × Bool → List ℕ → Option ScryptHash × Option HashError
  decode_hash (salt, true) hash = (some (record { hash = []; salt = salt }), some invalid_hex)
  decode_hash (salt, false) hash =
      let (bytes, failed) = cr.decode hash in
      (some (record { hash = bytes; salt = salt }), hex_error failed)

  -- The parts of a text between its colons.
  unfoldable pub from_parts : List (List ℕ) → Option ScryptHash × Option HashError
  unfolding decode_hash
  from_parts (salt ∷ hash ∷ []) = decode_hash (cr.decode salt) hash
  from_parts _ = (none, some invalid_hash)

  unfoldable pub scrypt_hash_from_hash_string : List ℕ → Option ScryptHash × Option HashError
  unfolding from_parts
  scrypt_hash_from_hash_string hash = from_parts (split b':' hash)

  unfoldable pub validate : ScryptHash → List ℕ → Partial Bool
  validate s password = password_key password s.salt >>= λ h. done (same_text h s.hash)

  -- The loop of `CryptoRand64`.
  unfoldable pub fold_bytes : ℕ → List ℕ → ℕ
  fold_bytes ret [] = ret
  fold_bytes ret (b ∷ bs) = fold_bytes (bit_or ((ret << 8) % 2 ^ 64) b) bs

  unfoldable pub crypto_rand_64 : Partial ℕ
  unfolding fold_bytes
  crypto_rand_64 = or_panic (cr.read_full 8) >>= λ buf. done (fold_bytes 0 buf)
