-- ===== src/Cpuserver/Session.antt =====
-- src/newmadrid/cpuserver/session.go: sessions that a browser keeps, enciphered and sealed. The HMAC
-- in its base64 form, base64 itself, the stream cipher and JSON are parameters.
pub mod Laws
use formaldehyde.Prelude.{
  ℕ, ◌==◌, ◌&&◌, ltb, if◌then◌else◌, List, [], ◌∷◌, ◌++◌, Option, none, some, length, take, drop,
  codes, same_text,
}
use formaldehyde.Prelude.Partial.{Partial, done, panic}

-- What follows three dashes, if the text begins with them.
unfoldable pub strip_dashes : List ℕ → Option (List ℕ)
strip_dashes (a ∷ b ∷ c ∷ rest) = if a == b'-' && b == b'-' && c == b'-' then some rest else none
strip_dashes _ = none

-- The pieces of a text, from its first byte, what follows dashes at its begin, and the pieces of
-- the text without that byte.
unfoldable pub pieces : ℕ → Option (List ℕ) → Option (List ℕ × List ℕ) → Option (List ℕ × List ℕ)
pieces a (some tail) rest = some ([], tail)
pieces a none none = none
pieces a none (some (l, r)) = some (a ∷ l, r)

-- `bytes.SplitN(ct, "---", 2)`, with `none` for a single piece.
unfoldable pub split_dashes : List ℕ → Option (List ℕ × List ℕ)
split_dashes [] = none
split_dashes (a ∷ xs) = pieces a (strip_dashes (a ∷ xs)) (split_dashes xs)

module _ (mac : List ℕ → List ℕ) where
  unfoldable pub seal : List ℕ → List ℕ
  seal ct = ct ++ b'-' ∷ b'-' ∷ b'-' ∷ mac ct

  -- `verify` after the split; `none` is a nil slice.
  unfoldable pub check : Option (List ℕ × List ℕ) → Option (List ℕ)
  check none = none
  check (some (blob, tag)) = if same_text tag (mac blob) then some blob else none

  unfoldable pub verify : List ℕ → Option (List ℕ)
  unfolding check
  verify ct = check (split_dashes ct)

  module _ {S : Type 0} (base64 unbase64 : List ℕ → List ℕ) (cipher : List ℕ → List ℕ → List ℕ)
      (marshal : S → List ℕ) (unmarshal : List ℕ → Option S) where
    -- `encode`, with the random bytes of the initial vector.
    unfoldable pub encode : List ℕ → S → List ℕ
    encode iv session = base64 (seal (iv ++ cipher iv (marshal session)))

    -- After `verify`: fewer than 16 bytes panic.
    unfoldable pub decipher : List ℕ → Partial (Option S)
    decipher raw =
        if ltb (length raw) 16 then panic else done (unmarshal (cipher (take 16 raw) (drop 16 raw)))

    unfoldable pub decode : List ℕ → Partial (Option S)
    decode raw = elim (verify (unbase64 raw)) [ none ↦ done none | some ct ↦ decipher ct ]
