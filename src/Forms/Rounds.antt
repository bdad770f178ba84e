-- ===== src/Forms/Rounds.antt =====
-- The two forms of loop of the parser of src/github.com/latacora/formaldehyd/parse.go.
use formaldehyde.Prelude.{ℕ, zero, suc, Bool, true, false, Option, none, some}
use formaldehyde.Prelude.Partial.{done, out_of_fuel}
use formaldehyde.Prelude.Process.{◌>>=◌, ◌>>◌, return}
use formaldehyde.Forms.Tokens.{Code}
use formaldehyde.Forms.Nodes.{Lexis, Parse, next}

module _ {T : Type 0} where
  -- A loop `for p.err == nil`, whose body says whether it goes on.
  unfoldable pub while_ok : ℕ → Parse T Bool → Parse T (Unit {0})
  while_ok zero body p = out_of_fuel
  while_ok (suc fuel) body p = elim p.err [
    | some e ↦ done (tt, p)
    | none ↦
        (body >>= λ more. λ p'. elim more [ true ↦ while_ok fuel body p' | false ↦ done (tt, p') ])
          p
  ]

  abbrev pub go_on : Parse T (Unit {0}) → Parse T Bool
  go_on m = m >> return true

  abbrev pub stop : Parse T (Unit {0}) → Parse T Bool
  stop m = m >> return false

module _ {T : Type 0} (lx : Lexis T) where
  -- A loop `for t != nil && p.err == nil { …; prev = t; t = p.next() }`, whose body has the last token
  -- before and says whether it goes on.
  unfoldable pub each_token :
      ℕ → (Option T → T → Parse T Bool) → Option T → Option T → Parse T (Unit {0})
  each_token zero body prev t p = out_of_fuel
  each_token (suc fuel) body prev none p = done (tt, p)
  each_token (suc fuel) body prev (some t) p = elim p.err [
    | some e ↦ done (tt, p)
    | none ↦
        (body prev t >>= λ more. λ p'. elim more [
          | true ↦ (next lx >>= each_token fuel body (some t)) p'
          | false ↦ done (tt, p')
        ])
          p
  ]

  -- What is done with a token depends on its code.
  abbrev pub on_code : {A : Type 0} → (Code → T → Parse T A) → T → Parse T A
  on_code step t = step (lx.code t) t
