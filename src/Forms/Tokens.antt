-- ===== src/Forms/Tokens.antt =====
-- `tokenize` of src/github.com/latacora/formaldehyd/parse.go, and what its parser reads of a token. The
-- scanner is a package outside the repository, and so a parameter.
use formaldehyde.Prelude.{
  ℕ, zero, suc, Bool, true, false, if◌then◌else◌, List, [], ◌∷◌, ◌++◌, codes,
}
use formaldehyde.Prelude.Partial.{Partial, done, panic, out_of_fuel}

-- The codes of the tokens: the constants, the characters that stand for themselves, and the end.
pub data Code : Type 0 where
  ws newline phrase dash_line squig_line plus_minus slider o_button c_button : Code
  switch_on switch_off eof : Code
  open_paren close_paren open_bracket close_bracket star hash pipe : Code

-- The operations of a scanner that `tokenize` uses. Its state holds the tokens that are emitted.
pub record Scanner (S T : Type 0) : Type 0 where
  pub new : List ℕ → S
  pub is_eof : S → Bool
  pub peek : List ℕ → S → Bool
  pub next : S → S
  pub back : S → S
  pub discard : List ℕ → S → S
  pub accept : List ℕ → S → S
  pub accept_run : List ℕ → S → S
  pub accept_exact : List ℕ → S → Bool × S
  pub emit : Code → S → S
  pub accept_and_emit : List ℕ → Code → S → S
  pub emit_run : List ℕ → Code → S → S
  pub emitted : S → List T
  pub chars_ident : List ℕ
  pub chars_hz_ws : List ℕ

module _ {S T : Type 0} (sc : Scanner S T) where
  abbrev pub start_alnum : List ℕ
  start_alnum = sc.chars_ident

  abbrev pub inner_alnum : List ℕ
  inner_alnum = sc.chars_ident ++ codes ".!?,;\"*'(@+-`#)&:<>/\\{}[]"

  -- A round of `scanPhrase`, before its test.
  abbrev pub phrase_part : S → S
  phrase_part s = sc.accept_run inner_alnum (sc.accept start_alnum s)

  unfoldable pub scan_phrase : ℕ → S → Partial S
  scan_phrase zero s = out_of_fuel
  scan_phrase (suc fuel) s =
      let part = phrase_part s in
      let over = sc.next part in
      elim (sc.peek sc.chars_hz_ws part) [
        | false ↦ done (sc.emit phrase part)
        | true ↦ elim (sc.peek start_alnum over) [
          | false ↦ done (sc.emit phrase (sc.back over))
          | true ↦ scan_phrase fuel over
        ]
      ]

  -- The cases of the `switch` that take a text of two or three characters, in their order.
  abbrev pub exact_cases : List (List ℕ × Code)
  exact_cases =
      (codes "+/-", plus_minus)
      ∷ (codes "-o-", slider)
      ∷ (codes "<-", phrase)
      ∷ (codes "->", phrase)
      ∷ (codes "[(", o_button)
      ∷ (codes ")]", c_button)
      ∷ (codes "*_", switch_on)
      ∷ (codes "_*", switch_off)
      ∷ []

  -- The cases that take one character.
  abbrev pub char_cases : List (List ℕ × Code)
  char_cases =
      (codes "(", open_paren)
      ∷ (codes ")", close_paren)
      ∷ (codes "[", open_bracket)
      ∷ (codes "]", close_bracket)
      ∷ (codes "*", star)
      ∷ (codes "#", hash)
      ∷ (codes "|", pipe)
      ∷ []

  -- From the case of "(" on.
  unfoldable pub scan_char : List (List ℕ × Code) → S → S
  scan_char [] s =
      if sc.peek (codes "-") s
      then sc.emit_run (codes "-") dash_line s
      else if sc.peek (codes "~") s
      then sc.emit_run (codes "~") squig_line s
      else sc.next s
  scan_char ((c, code) ∷ rest) s =
      let other = scan_char rest s in if sc.peek c s then sc.accept_and_emit c code s else other

  -- From the case of "+/-" on.
  unfoldable pub scan_exact : ℕ → List (List ℕ × Code) → S → Partial S
  unfolding scan_char scan_phrase
  scan_exact fuel [] s =
      if sc.peek start_alnum s then scan_phrase fuel s else done (scan_char char_cases s)
  scan_exact fuel ((text, code) ∷ rest) s =
      let (found, s') = sc.accept_exact text s in
      elim found [ true ↦ done (sc.emit code s') | false ↦ scan_exact fuel rest s' ]

  -- The `switch`.
  unfoldable pub scan_one : ℕ → S → Partial S
  unfolding scan_exact
  scan_one fuel s =
      if sc.peek (codes "\r") s
      then done (sc.discard (codes "\r") s)
      else if sc.peek (codes "\n") s
      then done (sc.accept_and_emit (codes "\n") newline s)
      else if sc.peek sc.chars_hz_ws s
      then done (sc.emit_run sc.chars_hz_ws ws s)
      else scan_exact fuel exact_cases s

  unfoldable pub scan_loop : ℕ → ℕ → S → Partial S
  scan_loop zero fuel s = out_of_fuel
  scan_loop (suc n) fuel s = elim (sc.is_eof s) [
    | true ↦ done s
    | false ↦ elim (scan_one fuel s) [ done s' ↦ scan_loop n fuel s' | r ↦ r ]
  ]

  unfoldable pub tokenize : ℕ → List ℕ → Partial (List T)
  unfolding scan_loop
  tokenize fuel buf = elim (scan_loop fuel fuel (sc.new buf)) [
    | done s ↦ done (sc.emitted s)
    | panic ↦ panic
    | out_of_fuel ↦ out_of_fuel
  ]
