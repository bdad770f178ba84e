-- ===== src/Forms/Parser/Total.antt =====
-- What `document` does with a token of a form ends, and keeps the nodes a tree.
use formaldehyde.Prelude.{
  ℕ, zero, suc, ◌<◌, ◌≡◌, refl, ap, arith, Bool, true, false, List, [], ◌∷◌, ◌++◌, Option, none,
  some,
}
use formaldehyde.Prelude.Partial.{Partial, done, panic, out_of_fuel, Finishes}
use formaldehyde.Prelude.Process.{◌>>=◌, ◌>>◌, return, modify}
use formaldehyde.Forms.Tokens.{
  Code, ws, newline, phrase, dash_line, squig_line, o_button, c_button, open_paren, open_bracket,
  star, hash,
}
use formaldehyde.Forms.Nodes.{
  Kind, FormError, no_button_label, button_lines, Parser, Lexis, here, leave, fail, add_accum,
  need_next, reset_accum, add_accum_child, accum_text, is_newline,
}
use formaldehyde.Forms.Nodes.Tree.{class_of}
use formaldehyde.Forms.Rounds.{on_code}
use formaldehyde.Forms.Fields.{open_labelled}
use formaldehyde.Forms.Parser.{
  page_at, page, heading_loop, end_heading, hashtag_token, hashtag_or_header, is_newline_token,
  text_token, text, opt_token, opt, end_button, button_token, button, document_token,
}
use formaldehyde.Forms.Parser.Steps.{
  is_nesting, At-weaken, At, After, Keeps, Keeps-then, Keeps-map, At-After, leave-At, resting,
  in_page, in_document, fail-At, open_labelled-At, take_token-At,
}
use formaldehyde.Forms.Parser.Moves.{
  Moves, Moves-then, Moves-seq, Within, within, without, end-After, unexpected-After,
}
use formaldehyde.Forms.Parser.Loops.{
  due-pos, Round, Turns, go_on-Turns, stop-Turns, Turns-if, loop_in, each_token-Keeps,
}
use formaldehyde.Forms.Parser.Fields.{
  is_leaf, leaf-At, reset_accum-At, add_accum-At, field-After, need_next-Moves,
}

document_of : (k : Kind) → resting k ≡ true → in_page k ≡ false → in_document k ≡ true
document_of k h e = ground arith

module _ {T : Type 0} (lx : Lexis T) where
  open_page-At : Moves (At in_document) (At resting) (open_labelled lx Kind.page)
  open_page-At = record {
    run = λ n p h.
        Keeps-map (At in_page n) (At resting n) (open_labelled lx Kind.page p)
          (open_labelled-At lx in_document in_page Kind.page n p (λ j e. ground arith)
            (λ j e. ground arith) (λ j e. ground arith) refl h)
          (λ q. At-weaken in_page resting n q (λ j e. ground arith));
  }

  leave_page-At : Moves (At in_page) (At in_document) (leave {T = T})
  leave_page-At = record {
    run = λ n p.
        leave-At in_page in_document n p (λ k e. (ground arith, ground arith))
          (λ k j e f. ground arith);
  }

  -- A page is never inside another.
  page_at-At :
      (k : Kind) (n : ℕ) (p : Parser T)
      → (here p).kind ≡ k
      → At resting n p
      → Keeps (At resting n) (page_at lx k p)
  unfolding page_at
  page_at-At Kind.document n p e (t, q, i, d) = open_page-At.run n p (t, q, ap in_document e, d)
  page_at-At Kind.page n p e (t, q, i, d) =
      (Moves-seq leave_page-At open_page-At).run n p (t, q, ap in_page e, d)
  page_at-At k n p e (t, q, i, d) = absurd cc

  page-At : Moves (At resting) (At resting) (page lx)
  unfolding page
  page-At = record { run = λ n p. page_at-At (here p).kind n p refl }

  leaf_accum-At :
      (k : Kind)
      → is_leaf (class_of k) ≡ true
      → Moves (At resting) (At resting) (add_accum_child lx k)
  unfolding add_accum_child reset_accum
  leaf_accum-At k e = record {
    run = λ n p. (Moves-then (leaf-At lx k p.accum e) (λ id. reset_accum-At resting)).run n p;
  }

  -- What a loop of a heading with `fuel` rounds does is known.
  abbrev KnownHeading : ℕ → Type 0
  KnownHeading fuel =
      (n : ℕ) (t : T) (p : Parser T)
      → n < fuel
      → At resting n p
      → Keeps (At resting n) (heading_loop lx fuel t p)

  heading_step :
      (fuel n : ℕ) (t : T) (p : Parser T) (e : Option FormError)
      → p.err ≡ e
      → n < suc fuel
      → KnownHeading fuel
      → At resting n p
      → Keeps (At resting n) (elim e [
        | some e ↦ done (tt, p)
        | none ↦ (add_accum t >> need_next lx >>= heading_loop lx fuel) p
      ])
  unfolding add_accum
  heading_step fuel n t p (some e) g l known h = h
  heading_step fuel zero t p none g l known (tree, q, i, d) = absurd (due-pos p zero g d refl)
  heading_step fuel (suc n) t p none g l known h =
      let p' = record p { accum = p.accum ++ t ∷ [] } in
      Keeps-map (At resting n) (At resting (suc n)) ((need_next lx >>= heading_loop lx fuel) p')
        (Keeps-then (At resting n) (At resting n) (need_next lx) (heading_loop lx fuel) p'
          (take_token-At lx resting n p' g h) (λ t' p'' h'. known n t' p'' (omega (arith, l)) h'))
        (λ q (tree, k, i, d). (tree, k, i, omega (arith, d)))

  heading_loop-At : (fuel : ℕ) → KnownHeading fuel
  unfolding heading_loop
  heading_loop-At zero n t p l h = absurd (omega (arith, l))
  heading_loop-At (suc fuel) n t p l h =
      elim (is_newline (lx.code t))
        as (λ b. Keeps (At resting n) (elim b [
          | true ↦ done (tt, p)
          | false ↦ elim p.err [
            | some e ↦ done (tt, p)
            | none ↦ (add_accum t >> need_next lx >>= heading_loop lx fuel) p
          ]
        ])) [ true ↦ h | false ↦ heading_step fuel n t p p.err refl l (heading_loop-At fuel) h ]

  end_heading-At : Moves (At resting) (At resting) (end_heading lx)
  unfolding end_heading
  end_heading-At = record { run = λ n p. go n p p.err }
    where
      go :
          (n : ℕ) (p : Parser T) (e : Option FormError)
          → At resting n p
          → Keeps
              (At resting n)
              (elim e [ some e ↦ done (tt, p) | none ↦ add_accum_child lx Kind.heading p ])
      go n p none h = (leaf_accum-At Kind.heading refl).run n p h
      go n p (some e) h = h

  -- What is set besides the nodes, the error and the tokens.
  set_hash-At :
      (name : List ℕ)
      → Moves
          (At resting)
          (At resting)
          (modify (λ (p : Parser T). record p { current_hash = name }))
  set_hash-At name = record { run = λ n p h. h }

  hashtag_token-At :
      (fuel : ℕ) (c : Code) (t : T)
      → Moves (Within fuel resting) (After resting) (hashtag_token lx fuel c t)
  unfolding hashtag_token
  hashtag_token-At fuel phrase t =
      without fuel resting (end-After resting (set_hash-At (lx.token_text (t ∷ []))))
  hashtag_token-At fuel ws t =
      Moves-seq {J = At resting} (record { run = λ n p (l, h). heading_loop-At fuel n t p l h })
        (end-After resting end_heading-At)
  hashtag_token-At fuel _ t = without fuel resting (unexpected-After lx resting resting t _ _)

  hashtag_or_header-At :
      (fuel : ℕ) → Moves (Within fuel resting) (After resting) (hashtag_or_header lx fuel)
  unfolding hashtag_or_header
  hashtag_or_header-At fuel =
      Moves-then (within fuel resting resting (need_next-Moves lx resting))
        (λ t. hashtag_token-At fuel (lx.code t) t)

  text_token-Turns :
      (fuel : ℕ) (prev : Option T) (c : Code) (t : T)
      → Turns fuel resting (After resting) (text_token lx fuel prev c t)
  unfolding text_token
  text_token-Turns fuel prev ws t = go_on-Turns (without fuel resting (add_accum-At resting t))
  text_token-Turns fuel prev newline t = go_on-Turns (without fuel resting (add_accum-At resting t))
  text_token-Turns fuel prev phrase t = go_on-Turns (without fuel resting (add_accum-At resting t))
  text_token-Turns fuel prev hash t =
      Turns-if (is_newline_token lx prev)
        (stop-Turns (
          Moves-seq (within fuel resting resting (leaf_accum-At Kind.text refl))
            (hashtag_or_header-At fuel)))
        (go_on-Turns (without fuel resting (add_accum-At resting t)))
  text_token-Turns fuel prev dash_line t =
      stop-Turns (without fuel resting (end-After resting page-At))
  text_token-Turns fuel prev open_bracket t = stop-Turns (field-After lx fuel t)
  text_token-Turns fuel prev open_paren t = stop-Turns (field-After lx fuel t)
  text_token-Turns fuel prev star t = stop-Turns (field-After lx fuel t)
  text_token-Turns fuel prev _ t =
      stop-Turns (without fuel resting (unexpected-After lx resting resting t _ _))

  round-ends :
      (n : ℕ) (m : Partial (Bool × Parser T))
      → Finishes (Round (At resting n) (After resting n)) m
      → Keeps (After resting n) m
  round-ends n (done (true, p)) h = At-After resting n p h
  round-ends n (done (false, p)) h = h
  round-ends n panic h = h
  round-ends n out_of_fuel h = h

  text-After : (fuel : ℕ) (t : T) → Moves (Within fuel resting) (After resting) (text lx fuel t)
  unfolding text
  text-After fuel t = record {
    run = λ n p (l, h).
        each_token-Keeps lx resting (λ prev. on_code lx (text_token lx fuel prev)) n
          (λ m q prev t' le e i.
            round-ends m (text_token lx fuel prev (lx.code t') t' q)
              ((text_token-Turns fuel prev (lx.code t') t').run m q (omega (arith, l, le), i)))
          fuel n p none (some t) (omega arith) l (At-After resting n p h);
  }

  set_opt-At :
      Moves
        (At resting)
        (At resting)
        (modify (λ (p : Parser T). record p { opt_tag = accum_text lx p }))
  set_opt-At = record { run = λ n p h. h }

  opt_token-Turns :
      (fuel : ℕ) (c : Code) (t : T) → Turns fuel resting (At resting) (opt_token lx c t)
  unfolding opt_token
  opt_token-Turns fuel newline t = stop-Turns (without fuel resting set_opt-At)
  opt_token-Turns fuel squig_line t = stop-Turns (without fuel resting set_opt-At)
  opt_token-Turns fuel _ t = go_on-Turns (without fuel resting (add_accum-At resting t))

  opt-At : (fuel : ℕ) → Moves (Within fuel resting) (At resting) (opt lx fuel)
  unfolding opt
  opt-At fuel =
      loop_in lx resting (on_code lx (opt_token lx)) fuel (λ t. opt_token-Turns fuel (lx.code t) t)

  fail_with-At :
      (e : FormError)
      → is_nesting (some e) ≡ false
      → Moves (At resting) (At resting) (fail {T = T} e)
  fail_with-At e h = record { run = λ n p. fail-At resting e n p h }

  end_button-Turns :
      (fuel : ℕ) (accum : List T) → Turns fuel resting (At resting) (end_button lx accum)
  unfolding end_button
  end_button-Turns fuel [] = go_on-Turns (without fuel resting (fail_with-At no_button_label refl))
  end_button-Turns fuel (t ∷ ts) =
      stop-Turns (without fuel resting (leaf_accum-At Kind.button refl))

  button_token-Turns :
      (fuel : ℕ) (c : Code) (t : T) → Turns fuel resting (At resting) (button_token lx c t)
  unfolding button_token
  button_token-Turns fuel c_button t = record {
    run = λ n p. (end_button-Turns fuel p.accum).run n p;
  }
  button_token-Turns fuel newline t =
      go_on-Turns (without fuel resting (fail_with-At button_lines refl))
  button_token-Turns fuel _ t = go_on-Turns (without fuel resting (add_accum-At resting t))

  button-At : (fuel : ℕ) → Moves (Within fuel resting) (At resting) (button lx fuel)
  unfolding button
  button-At fuel =
      loop_in lx resting (on_code lx (button_token lx)) fuel
        (λ t. button_token-Turns fuel (lx.code t) t)

  nothing-After : Moves (At resting) (After resting) (return {S = Parser T} tt)
  nothing-After = record { run = λ n p h. At-After resting n p h }

  pub document_token-After :
      (fuel : ℕ) (c : Code) (t : T)
      → Moves (Within fuel resting) (After resting) (document_token lx fuel c t)
  unfolding document_token
  document_token-After fuel ws t = without fuel resting nothing-After
  document_token-After fuel newline t = without fuel resting nothing-After
  document_token-After fuel phrase t = text-After fuel t
  document_token-After fuel o_button t = end-After resting (button-At fuel)
  document_token-After fuel squig_line t = end-After resting (opt-At fuel)
  document_token-After fuel hash t = hashtag_or_header-At fuel
  document_token-After fuel _ t = without fuel resting (unexpected-After lx resting resting t _ _)
