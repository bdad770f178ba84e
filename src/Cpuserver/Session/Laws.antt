-- ===== src/Cpuserver/Session/Laws.antt =====
-- Sealed sessions: what is accepted, and which sessions survive.
use formaldehyde.Prelude.{
  ℕ, ◌≡◌, refl, ap, arith, false, ltb, List, [], ◌∷◌, ◌++◌, Option, none, some, length,
  length-append, take-append, drop-append, same_text, same_text-eq, same_text_refl, Bool-cases, inl,
  inr,
}
use mathlib.Core.List.{append_assoc}
use formaldehyde.Prelude.Partial.{done}
use formaldehyde.Cpuserver.Session.{
  strip_dashes, pieces, check, split_dashes, seal, verify, encode, decipher, decode,
}

-- In the text with three dashes after it, those are the first three in a row.
abbrev pub Unbroken : List ℕ → Type 0
Unbroken ct = split_dashes (ct ++ b'-' ∷ b'-' ∷ []) ≡ none

strip-longer :
    (a : ℕ) (ct tag : List ℕ)
    → strip_dashes (a ∷ (ct ++ b'-' ∷ b'-' ∷ [])) ≡ none
    → strip_dashes (a ∷ (ct ++ b'-' ∷ b'-' ∷ b'-' ∷ tag)) ≡ none
unfolding strip_dashes
strip-longer a [] tag h = ground arith
strip-longer a (b ∷ []) tag h = ground arith
strip-longer a (b ∷ c ∷ ct) tag h = ground arith

Unbroken-tail :
    (a : ℕ) (ct : List ℕ)
    → Unbroken (a ∷ ct)
    → (strip_dashes (a ∷ (ct ++ b'-' ∷ b'-' ∷ [])) ≡ none) × Unbroken ct
unfolding split_dashes pieces
Unbroken-tail a ct h = ground arith

split-sealed :
    (ct tag : List ℕ) → Unbroken ct → split_dashes (ct ++ b'-' ∷ b'-' ∷ b'-' ∷ tag) ≡ some (ct, tag)
unfolding split_dashes strip_dashes pieces
split-sealed [] tag h = refl
split-sealed (a ∷ ct) tag h =
    let (s, u) = Unbroken-tail a ct h in
    rw (split_dashes, pieces, strip-longer a ct tag s, split-sealed ct tag u) refl

strip-eq : (xs tail : List ℕ) → strip_dashes xs ≡ some tail → xs ≡ b'-' ∷ b'-' ∷ b'-' ∷ tail
unfolding strip_dashes
strip-eq [] tail h = cc
strip-eq (a ∷ []) tail h = cc
strip-eq (a ∷ b ∷ []) tail h = cc
strip-eq (a ∷ b ∷ c ∷ rest) tail h = ground arith

split-eq : (xs l r : List ℕ) → split_dashes xs ≡ some (l, r) → xs ≡ l ++ b'-' ∷ b'-' ∷ b'-' ∷ r
unfolding split_dashes pieces
split-eq [] l r h = cc
split-eq (a ∷ xs) l r h = go (strip_dashes (a ∷ xs)) refl (split_dashes xs) refl (split-eq xs) h
  where
    go :
        (s : Option (List ℕ))
        → strip_dashes (a ∷ xs) ≡ s
        → (t : Option (List ℕ × List ℕ)) → split_dashes xs ≡ t
        → ((l' r' : List ℕ) → split_dashes xs ≡ some (l', r') → xs ≡ l' ++ b'-' ∷ b'-' ∷ b'-' ∷ r')
        → pieces a s t ≡ some (l, r)
        → a ∷ xs ≡ l ++ b'-' ∷ b'-' ∷ b'-' ∷ r
    go (some tail) e t e' again q = let e'' = strip-eq (a ∷ xs) tail e in ground arith
    go none e none e' again q = cc
    go none e (some (l', r')) e' again q = let e'' = again l' r' e' in ground arith

longer : (c : ℕ) (a b : List ℕ) → length a ≡ length b → same_text (c ∷ a) b ≡ false
longer c a b h = elim (Bool-cases (same_text (c ∷ a) b)) [
  | inl y ↦ absurd (omega (arith, h, ap length (same_text-eq (c ∷ a) b y)))
  | inr n ↦ n
]

module _ (mac : List ℕ → List ℕ) where
  -- Only what `seal` makes is accepted: the text that `verify` returns, sealed, is the text that was
  -- verified.
  pub verify-sealed : (raw ct : List ℕ) → verify mac raw ≡ some ct → raw ≡ seal mac ct
  unfolding verify seal check
  verify-sealed raw ct h = go (split_dashes raw) refl h
    where
      go :
          (s : Option (List ℕ × List ℕ))
          → split_dashes raw ≡ s
          → check mac s ≡ some ct
          → raw ≡ seal mac ct
      go none e h' = cc
      go (some (blob, tag)) e h' =
          let e' = split-eq raw blob tag e in
          elim (Bool-cases (same_text tag (mac blob))) [
            | inl y ↦ let e'' = same_text-eq tag (mac blob) y in ground arith
            | inr n ↦ ground arith
          ]

  -- What is sealed is verified when the dashes of the seal are the first three in a row.
  verify-seal : (ct : List ℕ) → Unbroken ct → verify mac (seal mac ct) ≡ some ct
  unfolding verify seal check
  verify-seal ct u = rw (split-sealed ct (mac ct) u, same_text_refl (mac ct)) refl

  -- A text that ends with a single dash does not survive its seal, if no three dashes in a row come
  -- before and all tags have one length.
  pub verify-dash :
      (ct : List ℕ)
      → ((a b : List ℕ) → length (mac a) ≡ length (mac b))
      → Unbroken ct
      → verify mac (seal mac (ct ++ b'-' ∷ [])) ≡ none
  unfolding verify seal check
  verify-dash ct same u =
      rw
        (
          append_assoc ct (b'-' ∷ []) (b'-' ∷ b'-' ∷ b'-' ∷ mac (ct ++ b'-' ∷ [])),
          split-sealed ct (b'-' ∷ mac (ct ++ b'-' ∷ [])) u,
        )
        (rw (longer b'-' (mac (ct ++ b'-' ∷ [])) (mac ct) (same (ct ++ b'-' ∷ []) ct)) refl)

  module _ {S : Type 0} (base64 unbase64 : List ℕ → List ℕ) (cipher : List ℕ → List ℕ → List ℕ)
      (marshal : S → List ℕ) (unmarshal : List ℕ → Option S) where
    decipher-cipher :
        (iv : List ℕ) (session : S)
        → length iv ≡ 16
        → cipher iv (cipher iv (marshal session)) ≡ marshal session
        → unmarshal (marshal session) ≡ some session
        → decipher mac base64 unbase64 cipher marshal unmarshal (iv ++ cipher iv (marshal session))
          ≡ done (some session)
    unfolding decipher
    decipher-cipher iv session l c j =
        let ct = cipher iv (marshal session) in
        let long : ltb (length (iv ++ ct)) 16 ≡ false = ground (arith, length-append iv ct, l) in
        rw (decipher, long, take-append 16 iv ct l, drop-append 16 iv ct l, c, j) refl

    -- A session is read back from its cookie, if base64, the cipher and JSON are undone by what undoes
    -- them, the initial vector has 16 bytes, and the first three dashes in a row are those of the seal.
    pub decode-encode :
        (iv : List ℕ) (session : S)
        → ((x : List ℕ) → unbase64 (base64 x) ≡ x)
        → length iv ≡ 16
        → cipher iv (cipher iv (marshal session)) ≡ marshal session
        → unmarshal (marshal session) ≡ some session
        → Unbroken (iv ++ cipher iv (marshal session))
        → decode mac base64 unbase64 cipher marshal unmarshal
            (encode mac base64 unbase64 cipher marshal unmarshal iv session)
          ≡ done (some session)
    unfolding encode decode
    decode-encode iv session b l c j u =
        rw
          (
            decode,
            encode,
            b (seal mac (iv ++ cipher iv (marshal session))),
            verify-seal (iv ++ cipher iv (marshal session)) u,
          )
          (decipher-cipher iv session l c j)
