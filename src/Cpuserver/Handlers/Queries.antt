-- ===== src/Cpuserver/Handlers/Queries.antt =====
-- The requests that only read a machine.
use formaldehyde.Prelude.{
  ℕ, ℤ, ◌≡◌, ◌≢◌, ap, inl, inr, Option, some, none, cpu_error, bad_address_fault, List, Result,
}
use formaldehyde.Prelude
use formaldehyde.Prelude.Outcome.{Outcome, ok, panic}
use formaldehyde.Msp43x.Slice.{Slice}
use formaldehyde.Msp43x.Insn.{Insn}
use formaldehyde.Msp43x.Listing.{Format}
use formaldehyde.Cpuserver.Site.{Redis}
use formaldehyde.Cpuserver.UserCpu.{UserCpu}
use formaldehyde.Cpuserver.Handlers.{
  Handler, get_regs_handler, get_state_handler, get_memory, get_insns,
}

-- The handler answers, and the machine is as it was.
abbrev pub Answers : {S A : Type 0} → S → Outcome S A → Type 0
Answers s (ok a t) = t ≡ s
Answers s _ = ⊥

-- The same, or it panics.
abbrev pub AnswersOrPanics : {S A : Type 0} → S → Outcome S A → Type 0
AnswersOrPanics s (ok a t) = t ≡ s
AnswersOrPanics s panic = Unit
AnswersOrPanics s _ = ⊥

-- A parser returns, with an error or without.
abbrev pub NeverPanics : (List ℕ → Result ℤ) → Type 0
NeverPanics parse = (text : List ℕ) → parse text ≢ Prelude.Result.panic

pub data Query : Type 0 where
  regs state : Query
  memory : (List ℕ → Result ℤ) → (List ℕ → Result ℤ) → List ℕ → List ℕ → Query
  insns : Format → (List ℕ → Result ℤ) → (List ℕ → Result ℤ) → List ℕ → List ℕ → Query

module _ {D : Type 0} (db : Redis D) (polls depth : ℕ) where
  unfoldable pub answer : Query → Handler D
  answer regs = get_regs_handler
  answer state = get_state_handler
  answer (memory parse_hex parse_len addr len) =
      get_memory db polls depth parse_hex parse_len addr len
  answer (insns fmt parse_hex parse_count addr cnt) =
      get_insns db polls depth fmt parse_hex parse_count addr cnt

  -- What is known of the answer to a query.
  abbrev pub Unchanged : Query → UserCpu D → Type 0
  Unchanged (insns fmt parse_hex parse_count addr cnt) u =
      AnswersOrPanics u (answer (insns fmt parse_hex parse_count addr cnt) u)
  Unchanged q u = Answers u (answer q u)

  -- The parsers that the handler of GET memory calls return.
  abbrev pub ParsersReturn : Query → Type 0
  ParsersReturn (memory parse_hex parse_len addr len) =
      NeverPanics parse_hex × NeverPanics parse_len
  ParsersReturn _ = Unit
