-- ===== src/Cpuserver/Tests/Sessions.antt =====
-- Sessions with a toy cipher and a tag of one byte.
use formaldehyde.Prelude.{
  ℕ, ◌+◌, ◌-◌, ◌%◌, ◌≡◌, refl, List, [], ◌∷◌, ◌++◌, none, some, length, map, codes,
}
use formaldehyde.Prelude.Partial.{done}
use formaldehyde.Cpuserver.Session.{
  split_dashes, strip_dashes, pieces, check, seal, verify, encode, decode,
}
use formaldehyde.Cpuserver.Session.Laws.{verify-sealed, verify-dash, decode-encode}

abbrev mac : List ℕ → List ℕ
mac x = (length x % 64 + 48) ∷ []

-- Each byte is subtracted from 255, which undoes itself.
abbrev flip : List ℕ → List ℕ → List ℕ
flip iv x = map (λ b. 255 - b) x

abbrev iv : List ℕ
iv = codes "0123456789abcdef"

decode-encode_example :
    decode mac
      (λ x. x)
      (λ x. x)
      flip
      (λ s. s)
      (λ x. some x)
      (encode mac (λ x. x) (λ x. x) flip (λ s. s) (λ x. some x) iv (codes "{}"))
    ≡ done (some (codes "{}"))
unfolding split_dashes strip_dashes pieces
decode-encode_example =
    decode-encode mac (λ x. x) (λ x. x) flip (λ s. s) (λ x. some x) iv (codes "{}") (λ x. refl) refl
      refl refl refl

verify-sealed_example : codes "ab---2" ≡ seal mac (codes "ab")
unfolding verify split_dashes strip_dashes pieces check
verify-sealed_example = verify-sealed mac (codes "ab---2") (codes "ab") refl

verify-dash_example : verify mac (seal mac (codes "ab" ++ b'-' ∷ [])) ≡ none
unfolding split_dashes strip_dashes pieces
verify-dash_example = verify-dash mac (codes "ab") (λ a b. refl) refl
