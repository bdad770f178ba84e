-- ===== src/Cpuserver/UserCpu/Laws.antt =====
-- How a machine stops: the loop of src/newmadrid/cpuserver/user_cpu.go with no request arriving.
use formaldehyde.Prelude.{
  ℕ, zero, suc, pos, ◌≡◌, ◌≢◌, refl, ◌∙◌, ap, ◌⊎◌, inl, inr, true, List, [], ◌∷◌, Option, none,
  some, Error,
}
use formaldehyde.Prelude.Outcome.{ok, err, ◌>>◌, ◌>>=◌, modify}
use formaldehyde.Msp43x.Slice.{Slice}
use formaldehyde.Msp43x.Cpu.{Cpu, pc}
use formaldehyde.Msp43x.Step
use formaldehyde.Cpuserver.Site.{Redis, CpuState, stopped, running, fault, stepping, io_sleep}
use formaldehyde.Cpuserver.Hooks.{Store}
use formaldehyde.Cpuserver.UserCpu.{
  UserCpu, state_of, set_state, on_mcu, break_kind, at_breakpoint, faulted, run_turn,
  after_breakpoint, step_in, turn, loop, mem, Request,
}

module _ {D : Type 0} (db : Redis D) (polls depth : ℕ) where
  -- `n` rounds in which no request arrives.
  abbrev pub idle : ℕ → List (Option (Request db polls depth))
  idle zero = []
  idle (suc n) = none ∷ idle n

  turn-waiting : (u : UserCpu D) → state_of u ≢ running → turn db polls depth none u ≡ ok tt u
  unfolding turn
  turn-waiting u h = go (state_of u) refl
    where
      go : (s : CpuState) → state_of u ≡ s → turn db polls depth none u ≡ ok tt u
      go running e = absurd (h e)
      go stopped e = rw e refl
      go fault e = rw e refl
      go stepping e = rw e refl
      go io_sleep e = rw e refl

  -- However many rounds pass without a request, a machine that is not running stays as it is.
  pub loop-waiting :
      (n : ℕ) (u : UserCpu D) → state_of u ≢ running → loop db polls depth (idle n) u ≡ ok tt u
  unfolding loop
  loop-waiting zero u h = refl
  loop-waiting (suc n) u h = rw (◌>>◌, ◌>>=◌, turn-waiting u h) (loop-waiting n u h)

  turn-running :
      (u : UserCpu D)
      → state_of u ≡ running
      → turn db polls depth none u ≡ run_turn db polls depth u
  unfolding turn
  turn-running u r = rw r refl

  turn-break :
      (u : UserCpu D)
      → state_of u ≡ running
      → u.breakpoints (pc u.mcu) ≡ some (pos 0)
      → turn db polls depth none u ≡ ok tt (set_state stopped u)
  unfolding run_turn at_breakpoint break_kind after_breakpoint step_in
  turn-break u r b =
      turn-running u r ∙ ap (λ o. after_breakpoint db polls depth (pc u.mcu) (at_breakpoint o u)) b

  -- A running machine whose program counter stands at a stop breakpoint stops in the next round
  -- without a request, before any instruction is executed, and stays so however many rounds follow.
  pub loop-breakpoint :
      (n : ℕ) (u : UserCpu D)
      → state_of u ≡ running
      → u.breakpoints (pc u.mcu) ≡ some (pos 0)
      → loop db polls depth (idle (suc n)) u ≡ ok tt (set_state stopped u)
  unfolding loop
  loop-breakpoint n u r b =
      rw (◌>>◌, ◌>>=◌, turn-break u r b) (loop-waiting n (set_state stopped u) λ e. cc)

  -- The load at an address returns, with or without an error, and leaves a memory.
  abbrev pub Loads : ℕ → UserCpu D → Store D → Type 0
  Loads address u m =
      let r = (mem db polls depth).load_6_bytes address u.mcu.memory in
      ((raw : Slice) × (r ≡ ok raw m)) ⊎ ((e : Error) × (r ≡ err e m))

  -- The step that a machine at a step breakpoint takes, whatever it ends in.
  turn-single :
      (u : UserCpu D)
      → state_of u ≡ running
      → u.breakpoints (pc u.mcu) ≡ some (pos 1)
      → turn db polls depth none u
        ≡ ((λ w. faulted db polls depth (pc u.mcu) (on_mcu (Step.step (mem db polls depth)) w))
              >> modify (set_state stopped))
            u
  unfolding run_turn at_breakpoint break_kind after_breakpoint step_in
  turn-single u r b =
      turn-running u r
      ∙ ap (λ o. after_breakpoint db polls depth (pc u.mcu) (at_breakpoint o u)) b
      ∙ ap (λ s. step_in db polls depth s (pc u.mcu) true u) r

  -- A running machine at a step breakpoint whose instruction ends with an error stops all the same,
  -- as if there had been none, if the load for the line that reports the fault returns: the fault is
  -- overwritten, and the machine stays stopped however many rounds follow.
  pub loop-single_step :
      (n : ℕ) (u : UserCpu D) (e : Error) (after : Cpu (Store D)) (m : Store D)
      → state_of u ≡ running
      → u.breakpoints (pc u.mcu) ≡ some (pos 1)
      → Step.step (mem db polls depth) u.mcu ≡ err e after
      → Loads (pc u.mcu) (set_state fault (record u { mcu = after })) m
      → loop db polls depth (idle (suc n)) u
        ≡ ok tt (set_state stopped (record u { mcu = record after { memory = m } }))
  unfolding loop faulted
  loop-single_step n u e after m r b f (inl (raw, l)) =
      rw (◌>>◌, ◌>>=◌, turn-single u r b, f, l)
        (loop-waiting n (set_state stopped (record u { mcu = record after { memory = m } }))
          λ e. cc)
  loop-single_step n u e after m r b f (inr (e', l)) =
      rw (◌>>◌, ◌>>=◌, turn-single u r b, f, l)
        (loop-waiting n (set_state stopped (record u { mcu = record after { memory = m } }))
          λ e. cc)
