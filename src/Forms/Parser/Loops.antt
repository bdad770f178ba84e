-- ===== src/Forms/Parser/Loops.antt =====
-- The rules for the loops of the parser of forms: each ends, since a round takes a token or finds an error.
use formaldehyde.Prelude.{
  ℕ, zero, suc, ◌+◌, ◌-◌, ◌≤◌, ◌<◌, ◌≡◌, ◌≢◌, refl, arith, Bool, true, false, if◌then◌else◌, Option,
  none, some, get_elem?, length,
}
use formaldehyde.Prelude.Partial.{Partial, done, Finishes}
use formaldehyde.Prelude.Process.{return, ◌>>=◌, Finishes-then}
use formaldehyde.Forms.Nodes.{need_next, Kind, FormError, Parser, Parse, Lexis, next, take_token}
use formaldehyde.Forms.Rounds.{while_ok, each_token, go_on, stop}
use formaldehyde.Forms.Parser.Steps.{
  take_token-At, rounds, left, due, At, After, After-le, Keeps, Keeps-map, Keeps-then, get_elem?-lt,
}
use formaldehyde.Forms.Parser.Moves.{Within, Moves}

module _ {T : Type 0} where
  -- While there is no error, a round is due.
  pub due-pos : (p : Parser T) (n : ℕ) → p.err ≡ none → due p ≤ n → n ≢ 0
  due-pos p zero e d = absurd (ground (arith, e, d))
  due-pos p (suc n) e d = λ z. omega (arith, z)

  -- After a round: `I` if the loop goes on, and `R` if it does not.
  abbrev pub Round : (Parser T → Type 0) → (Parser T → Type 0) → Bool × Parser T → Type 0
  Round I R (true, p) = I p
  Round I R (false, p) = R p

  module _ (I R : ℕ → Parser T → Type 0) (body : Parse T Bool) (limit : ℕ)
      (bound : (n : ℕ) (p : Parser T) → I n p → due p ≤ n)
      (le : (n m : ℕ) (p : Parser T) → n ≤ m → R n p → R m p)
      (stopped : (n : ℕ) (p : Parser T) (e : FormError) → p.err ≡ some e → I n p → R n p)
      (round : (n : ℕ) (p : Parser T)
        → suc n ≤ limit
        → p.err ≡ none
        → I (suc n) p
        → Finishes (Round (I n) (R n)) (body p)) where
    -- What the loop with `fuel` rounds does is known.
    abbrev Known : ℕ → Type 0
    Known fuel =
        (n : ℕ) (p : Parser T) → n ≤ limit → n < fuel → I n p → Keeps (R n) (while_ok fuel body p)

    after_round :
        (fuel n : ℕ)
        → n < fuel
        → suc n ≤ limit
        → Known fuel
        → (more : Bool) (p : Parser T) → Round (I n) (R n) (more, p)
        → Keeps (R (suc n)) (elim more as (λ b. Partial (Unit {0} × Parser T)) [
          | true ↦ while_ok fuel body p
          | false ↦ done (tt, p)
        ])
    after_round fuel n f l known true p h =
        Keeps-map (R n) (R (suc n)) (while_ok fuel body p) (known n p (omega (arith, l)) f h)
          (λ q. le n (suc n) q (omega arith))
    after_round fuel n f l known false p h = le n (suc n) p (omega arith) h

    one_round :
        (fuel n : ℕ) (p : Parser T) (o : Option FormError)
        → p.err ≡ o
        → n ≤ limit
        → n < suc fuel
        → Known fuel
        → I n p
        → Keeps (R n) (elim o [
          | some e ↦ done (tt, p)
          | none ↦
              (body >>= λ more.
              λ p'. elim more [ true ↦ while_ok fuel body p' | false ↦ done (tt, p') ])
                p
        ])
    one_round fuel n p (some e) g l f known h = stopped n p e g h
    one_round fuel zero p none g l f known h = absurd (due-pos p zero g (bound zero p h) refl)
    one_round fuel (suc n) p none g l f known h =
        Finishes-then (Round (I n) (R n)) (λ r. R (suc n) r.1) body
          (λ more. λ p'. elim more as (λ b. Partial (Unit {0} × Parser T)) [
            | true ↦ while_ok fuel body p'
            | false ↦ done (tt, p')
          ])
          p (round n p l g h) (λ more p' r. after_round fuel n (omega (arith, f)) l known more p' r)

    pub while_ok-Keeps : (fuel : ℕ) → Known fuel
    unfolding while_ok
    while_ok-Keeps zero n p l f h = absurd (omega arith)
    while_ok-Keeps (suc fuel) n p l f h = one_round fuel n p p.err refl l f (while_ok-Keeps fuel) h

module _ {T : Type 0} (lx : Lexis T) (P : Kind → Bool) (body : Option T → T → Parse T Bool)
    (limit : ℕ)
    (round : (n : ℕ) (p : Parser T) (prev : Option T) (t : T)
      → n ≤ limit
      → p.err ≡ none
      → At P n p
      → Finishes (λ r. After P n r.1) (body prev t p)) where
  abbrev KnownEach : ℕ → Type 0
  KnownEach fuel =
      (n : ℕ) (p : Parser T) (prev o : Option T)
      → n ≤ limit
      → n < fuel
      → After P n p
      → Keeps (After P n) (each_token lx fuel body prev o p)

  -- Without a token the loop ends.
  each_token-none :
      (fuel n : ℕ) (p : Parser T) (prev : Option T)
      → 0 < fuel
      → After P n p
      → Keeps (After P n) (each_token lx fuel body prev none p)
  unfolding each_token
  each_token-none zero n p prev f h = absurd (omega (arith, f))
  each_token-none (suc fuel) n p prev f h = h

  -- The next token makes a round less due.
  taken-After :
      (n : ℕ) (p : Parser T) (t : T)
      → get_elem? p.tokens p.taken ≡ some t
      → After P (suc n) p
      → After P n (take_token lx (some t) p).1
  taken-After n p t g (tree, q, k, d) = (tree, q, k, less p.err d)
    where
      less :
          (e : Option FormError)
          → rounds e (left p) ≤ suc n
          → rounds e (length p.tokens - (p.taken + 1)) ≤ n
      less none d = omega (arith, d, get_elem?-lt p.tokens p.taken t g)
      less (some e) d = omega arith

  each_more :
      (fuel n : ℕ) (p : Parser T) (t : T) (more : Bool)
      → suc n ≤ limit
      → n < fuel
      → KnownEach fuel
      → After P (suc n) p
      → Keeps (After P (suc n)) (elim more as (λ b. Partial (Unit {0} × Parser T)) [
        | true ↦ (next lx >>= each_token lx fuel body (some t)) p
        | false ↦ done (tt, p)
      ])
  unfolding next
  each_more fuel n p t false l f known h = h
  each_more fuel n p t true l f known h = go (get_elem? p.tokens p.taken) refl
    where
      go :
          (o : Option T)
          → get_elem? p.tokens p.taken ≡ o
          → Keeps
              (After P (suc n))
              (each_token lx fuel body (some t) (take_token lx o p).0 (take_token lx o p).1)
      go none g = each_token-none fuel (suc n) p (some t) (omega (arith, f)) h
      go (some t') g =
          let p' = (take_token lx (some t') p).1 in
          Keeps-map (After P n) (After P (suc n)) (each_token lx fuel body (some t) (some t') p')
            (known n p' (some t) (some t') (omega (arith, l)) f (taken-After n p t' g h))
            (λ q. After-le P n (suc n) q (omega arith))

  one_each :
      (fuel n : ℕ) (p : Parser T) (prev : Option T) (t : T) (e : Option FormError)
      → p.err ≡ e
      → n ≤ limit
      → n < suc fuel
      → KnownEach fuel
      → After P n p
      → Keeps (After P n) (elim e [
        | some e ↦ done (tt, p)
        | none ↦
            (body prev t >>= λ more. λ p'. elim more [
              | true ↦ (next lx >>= each_token lx fuel body (some t)) p'
              | false ↦ done (tt, p')
            ])
              p
      ])
  one_each fuel n p prev t (some e) g l f known h = h
  one_each fuel zero p prev t none g l f known (tree, q, k, d) = absurd (due-pos p zero g d refl)
  one_each fuel (suc n) p prev t none g l f known (tree, q, k, d) =
      Keeps-then (After P (suc n)) (After P (suc n)) (body prev t)
        (λ more. λ p'. elim more as (λ b. Partial (Unit {0} × Parser T)) [
          | true ↦ (next lx >>= each_token lx fuel body (some t)) p'
          | false ↦ done (tt, p')
        ])
        p (round (suc n) p prev t l g (tree, q, k g, d))
        (λ more p' h'. each_more fuel n p' t more l (omega (arith, f)) known h')

  pub each_token-Keeps : (fuel : ℕ) → KnownEach fuel
  unfolding each_token
  each_token-Keeps zero n p prev o l f h = absurd (omega (arith, f))
  each_token-Keeps (suc fuel) n p prev none l f h = h
  each_token-Keeps (suc fuel) n p prev (some t) l f h =
      one_each fuel n p prev t p.err refl l f (each_token-Keeps fuel) h

-- A round of a loop that works at `P` and ends at `R`.
pub record Turns {T : Type 0} (fuel : ℕ) (P : Kind → Bool) (R : ℕ → Parser T → Type 0)
    (m : Parse T Bool) : Type 0 where
  pub run : (n : ℕ) (p : Parser T) → Within fuel P n p → Finishes (Round (At P n) (R n)) (m p)

module _ {T : Type 0} {fuel : ℕ} {P : Kind → Bool} {R : ℕ → Parser T → Type 0} where
  pub go_on-Turns :
      {m : Parse T (Unit {0})} → Moves (Within fuel P) (At P) m → Turns fuel P R (go_on m)
  go_on-Turns {m = m} h = record {
    run = λ n p i.
        Finishes-then (λ r. At P n r.1) (Round (At P n) (R n)) m (λ _. return true) p (h.run n p i)
          (λ _ p' h'. h');
  }

  pub stop-Turns : {m : Parse T (Unit {0})} → Moves (Within fuel P) R m → Turns fuel P R (stop m)
  stop-Turns {m = m} h = record {
    run = λ n p i.
        Finishes-then (λ r. R n r.1) (Round (At P n) (R n)) m (λ _. return false) p (h.run n p i)
          (λ _ p' h'. h');
  }

  pub return-Turns : Turns fuel P R (return true)
  return-Turns = record { run = λ n p (l, i). i }

  pub Turns-if :
      {m k : Parse T Bool} (b : Bool)
      → Turns fuel P R m
      → Turns fuel P R k
      → Turns fuel P R (if b then m else k)
  Turns-if true h g = h
  Turns-if false h g = g

module _ {T : Type 0} (lx : Lexis T) (P : Kind → Bool) (step : T → Parse T Bool) (fuel : ℕ) where
  -- A loop whose body takes a token first, of a state that has fewer rounds due than fuel.
  token_loop :
      (R : ℕ → Parser T → Type 0)
      → ((n m : ℕ) (p : Parser T) → n ≤ m → R n p → R m p)
      → ((n : ℕ) (p : Parser T) (e : FormError) → p.err ≡ some e → At P n p → R n p)
      → ((t : T) → Turns fuel P R (step t))
      → Moves (Within fuel P) R (while_ok fuel (need_next lx >>= step))
  token_loop R le stopped turn = record {
    run = λ n p (f, i).
        while_ok-Keeps (At P) R (need_next lx >>= step) n (λ n p (t, q, k, d). d) le stopped
          (λ n' p l g h.
            Finishes-then (λ r. At P n' r.1) (Round (At P n') (R n')) (need_next lx) step p
              (take_token-At lx P n' p g h)
              (λ t p' h'. (turn t).run n' p' (omega (arith, l, f), h')))
          fuel n p (omega arith) f i;
  }

  -- The loop leads elsewhere, if there is no error.
  pub loop_out :
      (Q : Kind → Bool)
      → ((t : T) → Turns fuel P (After Q) (step t))
      → Moves (Within fuel P) (After Q) (while_ok fuel (need_next lx >>= step))
  loop_out Q = token_loop (After Q) (After-le Q) (λ n p e g (t, q, k, d). (t, q, (λ z. cc), d))

  -- The loop stays where it is.
  pub loop_in :
      ((t : T) → Turns fuel P (At P) (step t))
      → Moves (Within fuel P) (At P) (while_ok fuel (need_next lx >>= step))
  loop_in =
      token_loop (At P) (λ n m p l (t, q, k, d). (t, q, k, omega (arith, d, l))) (λ n p e g h. h)
