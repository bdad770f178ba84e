-- ===== src/Forms/Passwords/Stored.antt =====
-- What a stored password lets in.
use formaldehyde.Prelude.{
  ℕ, ◌<◌, ◌≡◌, refl, ap, ◌∙◌, true, false, List, [], ◌∷◌, Option, none, some, same_text,
  same_text_refl, split-append, split-single, contains,
}
use mathlib.Core.Path.{subst}
use formaldehyde.Prelude.Partial.{Partial, done, panic, out_of_fuel, ◌>>=◌}
use formaldehyde.Forms.Passwords.{
  Crypto, ScryptHash, or_panic, password_key, encode, decode_hash, from_parts,
  scrypt_hash_from_hash_string, validate, scrypt_hash_from_password,
}

abbrev pub AllBytes : List ℕ → Type 0
AllBytes [] = Unit
AllBytes (b ∷ bs) = (b < 256) × AllBytes bs

-- Hexadecimal text of bytes is read back and has no colon.
pub record IsHex (cr : Crypto) : Type 0 where
  pub back : (bytes : List ℕ) → AllBytes bytes → cr.decode (cr.encode bytes) ≡ (bytes, false)
  pub no_colon : (bytes : List ℕ) → AllBytes bytes → contains (cr.encode bytes) b':' ≡ false

-- What is read back of a stored password is what was stored.
scrypt_hash_from_hash_string-encode :
    (cr : Crypto) (s : ScryptHash)
    → IsHex cr
    → AllBytes s.salt
    → AllBytes s.hash
    → scrypt_hash_from_hash_string cr (encode cr s) ≡ (some s, none)
unfolding scrypt_hash_from_hash_string encode from_parts decode_hash
scrypt_hash_from_hash_string-encode cr s hex salt hash =
    ap (from_parts cr) (
      split-append b':' (cr.encode s.salt) (cr.encode s.hash) (hex.no_colon s.salt salt)
      ∙ ap (λ parts. cr.encode s.salt ∷ parts)
          (split-single b':' (cr.encode s.hash) (hex.no_colon s.hash hash)))
    ∙ decoded
  where
    decoded : from_parts cr (cr.encode s.salt ∷ cr.encode s.hash ∷ []) ≡ (some s, none)
    decoded = rw (hex.back s.salt salt, hex.back s.hash hash) refl

-- What `ScryptHashFromPassword` makes holds the key of the password with its salt.
made-key :
    (cr : Crypto) (password salt : List ℕ) (key : Option (List ℕ)) (s : ScryptHash)
    → cr.key password salt 16384 8 1 32 ≡ key
    → (or_panic key >>= λ k. done (record { hash = k; salt = salt })) ≡ done s
    → cr.key password s.salt 16384 8 1 32 ≡ some s.hash
made-key cr password salt (some k) s e h =
    subst (λ (t : ScryptHash). cr.key password t.salt 16384 8 1 32 ≡ some t.hash) (ap (result s) h)
      e
  where
    result : ScryptHash → Partial ScryptHash → ScryptHash
    result t (done r) = r
    result t panic = t
    result t out_of_fuel = t
made-key cr password salt none s e h = cc

made-password :
    (cr : Crypto) (password : List ℕ) (bytes : Option (List ℕ)) (s : ScryptHash)
    → (or_panic bytes >>= λ salt.
        password_key cr password salt >>= λ k. done (record { hash = k; salt = salt }))
      ≡ done s
    → cr.key password s.salt 16384 8 1 32 ≡ some s.hash
made-password cr password (some salt) s h =
    made-key cr password salt (cr.key password salt 16384 8 1 32) s refl h
made-password cr password none s h = cc

-- What `ScryptHashFromPassword` makes of a password is read back from what `Encode` writes of it. `Validate` then says of a password whether its key with the same salt is the stored one, and accepts the password that was made, if the salt and the key are bytes, the hexadecimal text of bytes is read back and has no colon, and scrypt has a key for the password that is tried.
pub validate-encode :
    (cr : Crypto) (password tried other : List ℕ) (s : ScryptHash)
    → IsHex cr
    → AllBytes s.salt
    → AllBytes s.hash
    → scrypt_hash_from_password cr password ≡ done s
    → cr.key tried s.salt 16384 8 1 32 ≡ some other
    → (scrypt_hash_from_hash_string cr (encode cr s) ≡ (some s, none))
      × (validate cr s tried ≡ done (same_text other s.hash))
      × (validate cr s password ≡ done true)
unfolding validate scrypt_hash_from_password
validate-encode cr password tried other s hex salt hash made key = (
  scrypt_hash_from_hash_string-encode cr s hex salt hash,
  ap (λ k. or_panic k >>= λ h. done (same_text h s.hash)) key,
  ap (λ k. or_panic k >>= λ h. done (same_text h s.hash))
        (made-password cr password (cr.read_full 8) s made)
      ∙ ap done (same_text_refl s.hash),
)
