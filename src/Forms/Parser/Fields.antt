-- ===== src/Forms/Parser/Fields.antt =====
-- The fields of a form: their parser ends, and keeps the nodes a tree.
use formaldehyde.Prelude.{
  ℕ, ◌+◌, ◌-◌, ◌≡◌, refl, arith, Bool, true, false, List, [], ◌∷◌, Option, none, some, codes, drop,
}
use formaldehyde.Prelude.Process.{modify}
use formaldehyde.Forms.Tokens.{
  Code, ws, newline, phrase, dash_line, plus_minus, slider, switch_on, switch_off, open_paren,
  close_paren, open_bracket, close_bracket, star,
}
use formaldehyde.Forms.Nodes.{
  Kind, Attr, Parser, Lexis, set_kind, set_attr, leave, add_accum, add_child, need_next,
  reset_accum, add_accum_child, accum_text,
}
use formaldehyde.Forms.Nodes.Tree.{Class, leaf, class_of, fits, is_open, is_rest}
use formaldehyde.Forms.Rounds.{on_code}
use formaldehyde.Forms.Fields.{
  height_of, end_text_field, widen, number_mark, text_field_token, text_field, is_close, end_check,
  begin_text, check_token, check_or_text, is_box, after_blank, is_phrase, drop_next_token,
  drop_next_field, drop_field_token, is_dash_line, drop_field, radio_token, radio, split_last_line,
  text_before, open_labelled, field_token, field,
}
use formaldehyde.Forms.Parser.Steps.{
  At, After, Keeps-map, At-After, set_kind-At, set_attr-At, leave-At, resting, in_field, in_known,
  in_document, add_accum_child-At, add_child-At, open_labelled-At, need_next-At, At-weaken,
}
use formaldehyde.Forms.Parser.Moves.{
  Moves, Moves-then, Moves-seq, Moves-if, Within, within, without, unexpected-At, unexpected-After,
}
use formaldehyde.Forms.Parser.Loops.{
  Turns, go_on-Turns, stop-Turns, return-Turns, Turns-if, loop_in, loop_out,
}

known-below : (k : Kind) → in_known k ≡ true → in_document k ≡ false
known-below k h = ground arith

abbrev pub is_leaf : Class → Bool
is_leaf leaf = true
is_leaf _ = false

leaf-fits : (c d : Class) → is_rest c ≡ true → is_leaf d ≡ true → fits c d ≡ true
leaf-fits c d h e = ground arith

leaf-known : (k : Kind) → is_leaf (class_of k) ≡ true → is_open k ≡ false
leaf-known k e = ground arith

module _ {T : Type 0} where
  -- An attribute of a field.
  pub field_attr :
      (key : Attr) (value : List ℕ) → Moves (At in_known) (At in_known) (set_attr {T = T} key value)
  field_attr key value = record { run = λ n p h. set_attr-At in_known key value n p known-below h }

  pub open_attr :
      (key : Attr) (value : List ℕ) → Moves (At in_field) (At in_field) (set_attr {T = T} key value)
  open_attr key value = record {
    run = λ n p h. set_attr-At in_field key value n p (λ k e. ground arith) h;
  }

  -- What leaves the nodes, the error and the tokens alone.
  pub widen_by :
      (w : Parser T → ℕ)
      → Moves (At in_known) (At in_known) (modify (λ (p : Parser T). record p { twidth = w p }))
  widen_by w = record { run = λ n p h. h }

  pub add_accum-At : (P : Kind → Bool) (t : T) → Moves (At P) (At P) (add_accum t)
  unfolding add_accum
  add_accum-At P t = record { run = λ n p h. h }

  pub reset_accum-At : (P : Kind → Bool) → Moves (At P) (At P) (reset_accum {T = T})
  unfolding reset_accum
  reset_accum-At P = record { run = λ n p h. h }

  -- The kind of a field.
  pub into_kind :
      (k : Kind) → in_known k ≡ true → Moves (At in_field) (At in_known) (set_kind {T = T} k)
  into_kind k e = record { run = λ n p h. set_kind-At k n p e h }

  pub into_known :
      (k : Kind) → in_known k ≡ true → Moves (At in_known) (At in_known) (set_kind {T = T} k)
  into_known k e = record {
    run = λ n p h. set_kind-At k n p e (At-weaken in_known in_field n p (λ j i. ground arith) h);
  }

  -- The end of a field.
  pub leave_field : Moves (At in_known) (After resting) (leave {T = T})
  leave_field = record {
    run = λ n p h.
        Keeps-map (At resting n) (After resting n) (leave p)
          (leave-At in_known resting n p (λ k e. ground arith) (λ k j e f. ground arith) h)
          (λ q. At-After resting n q);
  }

module _ {T : Type 0} (lx : Lexis T) where
  end_text_field-After : Moves (At in_known) (After resting) (end_text_field lx)
  unfolding end_text_field
  end_text_field-After = record {
    run = λ n p.
        (Moves-seq
            (Moves-seq
              (Moves-seq
                (Moves-seq (field_attr Attr.width (lx.itoa p.twidth))
                  (field_attr Attr.height (lx.itoa (height_of lx p.accum))))
                (field_attr Attr.default (accum_text lx p)))
              (widen_by (λ _. 0)))
            leave_field).run
          n p;
  }

  number_mark-At : (key : Attr) → Moves (At in_known) (At in_known) (number_mark lx key)
  unfolding number_mark
  number_mark-At key = Moves-seq (into_known Kind.number_field refl) (field_attr key (codes "t"))

  widen-At : (t : T) → Moves (At in_known) (At in_known) (widen lx t)
  unfolding widen
  widen-At t =
      Moves-seq (widen_by (λ p. p.twidth + lx.token_span (t ∷ []))) (add_accum-At in_known t)

  text_field_token-Turns :
      (fuel : ℕ) (c : Code) (t : T) → Turns fuel in_known (After resting) (text_field_token lx c t)
  unfolding text_field_token
  text_field_token-Turns fuel close_bracket t =
      stop-Turns (without fuel in_known end_text_field-After)
  text_field_token-Turns fuel plus_minus t =
      go_on-Turns (without fuel in_known (number_mark-At Attr.plusminus))
  text_field_token-Turns fuel slider t =
      go_on-Turns (without fuel in_known (number_mark-At Attr.slider))
  text_field_token-Turns fuel _ t = go_on-Turns (without fuel in_known (widen-At t))

  text_field-After : (fuel : ℕ) → Moves (Within fuel in_known) (After resting) (text_field lx fuel)
  unfolding text_field
  text_field-After fuel =
      loop_out lx in_known (on_code lx (text_field_token lx)) fuel resting
        (λ t. text_field_token-Turns fuel (lx.code t) t)

  pub need_next-Moves : (P : Kind → Bool) → Moves (At P) (At P) (need_next lx)
  need_next-Moves P = record { run = need_next-At lx P }

  end_check-After : Moves (At in_field) (After resting) (end_check lx)
  unfolding end_check
  end_check-After =
      Moves-then (Moves-seq (into_kind Kind.check_field refl) (need_next-Moves in_known)) (λ t.
        Moves-if (is_close lx (lx.code t)) leave_field
          (unexpected-After lx in_known resting t "parsing a checkbox" "a ] to close the checkbox"))

  begin_text-After :
      (fuel : ℕ) (t : T) → Moves (Within fuel in_field) (After resting) (begin_text lx fuel t)
  unfolding begin_text
  begin_text-After fuel t =
      Moves-seq
        (within fuel in_field in_known
          (Moves-seq (into_kind Kind.text_field refl) (widen_by (λ _. 0))))
        (Moves-if (is_close lx (lx.code t)) (without fuel in_known leave_field) (
          Moves-seq
            (within fuel in_known in_known (
              Moves-seq (add_accum-At in_known t)
                (widen_by (λ p. p.twidth + lx.token_span (t ∷ [])))))
            (text_field-After fuel)))

  check_token-After :
      (fuel : ℕ) (c : Code) (t : T)
      → Moves (Within fuel in_field) (After resting) (check_token lx fuel c t)
  unfolding check_token
  check_token-After fuel star t = record {
    run = λ n p.
        (Moves-if (is_box lx t p)
            (without fuel in_field (Moves-seq (open_attr Attr.checked (codes "t")) end_check-After))
            (begin_text-After fuel t)).run
          n p;
  }
  check_token-After fuel ws t = record {
    run = λ n p.
        (Moves-if (is_box lx t p) (without fuel in_field end_check-After)
            (begin_text-After fuel t)).run
          n p;
  }
  check_token-After fuel _ t = record { run = (begin_text-After fuel t).run }

  check_or_text-After :
      (fuel : ℕ) → Moves (Within fuel in_field) (After resting) (check_or_text lx fuel)
  unfolding check_or_text
  check_or_text-After fuel =
      Moves-then (within fuel in_field in_field (need_next-Moves in_field))
        (λ t. check_token-After fuel (lx.code t) t)

  selection-At : Moves (At in_known) (At in_known) (add_accum_child lx Kind.selection)
  selection-At = record {
    run = λ n p. add_accum_child-At lx in_known Kind.selection n p (λ j e. ground arith) refl;
  }

  drop_next_token-Turns :
      (fuel : ℕ) (c : Code) (t : T) → Turns fuel in_known (At in_known) (drop_next_token lx c t)
  unfolding drop_next_token
  drop_next_token-Turns fuel ws t = go_on-Turns (without fuel in_known (add_accum-At in_known t))
  drop_next_token-Turns fuel phrase t =
      go_on-Turns (without fuel in_known (add_accum-At in_known t))
  drop_next_token-Turns fuel newline t = record {
    run = λ n p.
        (Turns-if {P = in_known} {R = At in_known}
            (is_phrase lx (after_blank lx (drop (p.taken - 1) p.tokens)))
            (go_on-Turns (without fuel in_known (add_accum-At in_known t)))
            (stop-Turns (without fuel in_known selection-At))).run
          n p;
  }
  drop_next_token-Turns fuel _ t = return-Turns

  drop_next_field-At :
      (fuel : ℕ) → Moves (Within fuel in_known) (At in_known) (drop_next_field lx fuel)
  unfolding drop_next_field
  drop_next_field-At fuel =
      loop_in lx in_known (on_code lx (drop_next_token lx)) fuel
        (λ t. drop_next_token-Turns fuel (lx.code t) t)

  drop_field_token-Turns :
      (fuel : ℕ) (c : Code) (t : T)
      → Turns fuel in_known (After resting) (drop_field_token lx fuel c t)
  unfolding drop_field_token
  drop_field_token-Turns fuel ws t = return-Turns
  drop_field_token-Turns fuel newline t = return-Turns
  drop_field_token-Turns fuel star t = go_on-Turns (drop_next_field-At fuel)
  drop_field_token-Turns fuel dash_line t = stop-Turns (without fuel in_known leave_field)
  drop_field_token-Turns fuel _ t =
      go_on-Turns (without fuel in_known (unexpected-At lx in_known t _ _))

  drop_field-After : (fuel : ℕ) → Moves (Within fuel in_known) (After resting) (drop_field lx fuel)
  unfolding drop_field
  drop_field-After fuel =
      Moves-then (within fuel in_known in_known (need_next-Moves in_known)) (λ t.
        Moves-if (is_dash_line lx (lx.code t))
          (loop_out lx in_known (on_code lx (drop_field_token lx fuel)) fuel resting
            (λ t'. drop_field_token-Turns fuel (lx.code t') t'))
          (without fuel in_known (unexpected-After lx in_known resting t _ _)))

  radio_token-Turns :
      (fuel : ℕ) (c : Code) (t : T) → Turns fuel in_known (After resting) (radio_token lx c t)
  unfolding radio_token
  radio_token-Turns fuel star t =
      go_on-Turns (without fuel in_known (field_attr Attr.selected (codes "t")))
  radio_token-Turns fuel switch_on t = go_on-Turns (
      without fuel in_known
        (Moves-seq (into_known Kind.switch_field refl) (field_attr Attr.on (codes "t"))))
  radio_token-Turns fuel switch_off t =
      go_on-Turns (without fuel in_known (into_known Kind.switch_field refl))
  radio_token-Turns fuel close_paren t = stop-Turns (without fuel in_known leave_field)
  radio_token-Turns fuel ws t = return-Turns
  radio_token-Turns fuel _ t = go_on-Turns (without fuel in_known (unexpected-At lx in_known t _ _))

  radio-After : (fuel : ℕ) → Moves (Within fuel in_known) (After resting) (radio lx fuel)
  unfolding radio
  radio-After fuel =
      loop_out lx in_known (on_code lx (radio_token lx)) fuel resting
        (λ t. radio_token-Turns fuel (lx.code t) t)

  -- A node that holds nothing.
  pub leaf-At :
      (k : Kind) (tox : List T)
      → is_leaf (class_of k) ≡ true
      → Moves (At resting) (At resting) (add_child lx k tox)
  leaf-At k tox e = record {
    run = λ n p.
        add_child-At lx resting k tox n p (λ j i. leaf-fits (class_of j) (class_of k) i e)
          (leaf-known k e);
  }

  text_before-At :
      (o : Option (List T × List T)) → Moves (At resting) (At resting) (text_before lx o)
  unfolding text_before
  text_before-At none = record { run = λ n p h. h }
  text_before-At (some (before, after)) =
      Moves-then (leaf-At Kind.text before refl) (λ id. record { run = λ n p h. h })

  open_field-At : Moves (At resting) (At in_field) (open_labelled lx Kind.field)
  open_field-At = record {
    run = λ n p.
        open_labelled-At lx resting in_field Kind.field n p (λ j e. ground arith)
          (λ j e. ground arith) (λ j e. ground arith) refl;
  }

  field_token-After :
      (fuel : ℕ) (c : Code) → Moves (Within fuel in_field) (After resting) (field_token lx fuel c)
  unfolding field_token
  field_token-After fuel open_bracket = check_or_text-After fuel
  field_token-After fuel open_paren =
      Moves-seq (within fuel in_field in_known (into_kind Kind.radio_field refl)) (radio-After fuel)
  field_token-After fuel _ =
      Moves-seq (within fuel in_field in_known (into_kind Kind.drop_field refl))
        (drop_field-After fuel)

  pub field-After :
      (fuel : ℕ) (t : T) → Moves (Within fuel resting) (After resting) (field lx fuel t)
  unfolding field
  field-After fuel t =
      Moves-seq
        (within fuel resting in_field (
          Moves-seq {J = At resting}
            (record { run = λ n p. (text_before-At (split_last_line lx p.accum)).run n p })
            open_field-At))
        (field_token-After fuel (lx.code t))
