-- ===== src/Cpuserver/UserCpu.antt =====
-- src/newmadrid/cpuserver/user_cpu.go: a user's machine, and the loop that runs it.
-- `UserCpu.Mem` is the memory of `UserCpu.MCU`; the name, the hash and the state, which the hooks
-- reach too, are in that memory's world. The lines that the loop prints are left out.
pub mod Laws
use formaldehyde.Prelude.{
  ℕ, zero, suc, ◌+◌, ℤ, pos, negsuc, Bool, true, false, ◌==◌, if◌then◌else◌, List, [], ◌∷◌, Option,
  none, some,
}
use formaldehyde.Prelude.Outcome.{Outcome, ok, err, panic, blocked, ◌>>=◌, ◌>>◌, return, modify}
use formaldehyde.Msp43x.Memory.{Memory}
use formaldehyde.Msp43x.SimpleMemory.{SimpleMemory}
use formaldehyde.Msp43x.HookableMemory
use formaldehyde.Msp43x.HookableMemory.{
  HookableMemory, hookable_memory, new_hookable_memory, set_write_hook,
}
use formaldehyde.Msp43x.Cpu.{Cpu, pc, set_regs}
use formaldehyde.Msp43x.Step
use formaldehyde.Cpuserver.Site.{Redis, Site, CpuState, stopped, running, fault, stepping, io_sleep}
use formaldehyde.Cpuserver.Hooks.{
  Store, WriteHook, write_user_output, read_user_input, debug_log_hook, alarm, airflow, lock,
  temperature, cpu_hooks, m_user_output_byte, m_user_input_buf_length, m_log_debug_buf_length,
  m_io_alarm, m_io_airflow, m_io_lock, m_io_temperature,
}

pub record UserCpu (D : Type 0) : Type 0 where
  pub mcu : Cpu (Store D)
  pub image : List ℕ
  pub breakpoints : ℕ → Option ℤ

-- The kinds of a breakpoint; another number is none of them.
pub data BreakKind : Type 0 where
  break_stop break_step break_trace no_kind : BreakKind

unfoldable pub break_kind : ℤ → BreakKind
break_kind (pos zero) = break_stop
break_kind (pos (suc zero)) = break_step
break_kind (pos (suc (suc zero))) = break_trace
break_kind _ = no_kind

-- `[16]uint16{0x4400}`.
abbrev pub boot_regs : ℕ → ℕ
boot_regs r = if r == 0 then 0x4400 else 0

module _ {D : Type 0} where
  abbrev pub state_of : UserCpu D → CpuState
  state_of u = u.mcu.memory.world.state

  -- `ucpu.State = …`.
  abbrev pub set_state : CpuState → UserCpu D → UserCpu D
  set_state state u = record u {
    mcu = record u.mcu {
      memory = record u.mcu.memory { world = record u.mcu.memory.world { state = state } };
    };
  }

  -- A call of a method of `ucpu.MCU`.
  abbrev pub on_mcu :
      {A : Type 0} → (Cpu (Store D) → Outcome (Cpu (Store D)) A) → UserCpu D → Outcome (UserCpu D) A
  on_mcu m u = elim (m u.mcu) [
    | ok a mcu' ↦ ok a (record u { mcu = mcu' })
    | err e mcu' ↦ err e (record u { mcu = mcu' })
    | panic ↦ panic
    | blocked ↦ blocked
  ]

  -- `NewUserCpu`, with the image "boot".
  unfoldable pub new_user_cpu : List ℕ → List ℕ → D → UserCpu D
  unfolding new_hookable_memory set_write_hook
  new_user_cpu boot name redis =
      let site : Site D = record { name = name; hash = []; state = stopped; redis = redis } in
      let m₀ : Store D = new_hookable_memory (record { byte = λ a. 0 }) site in
      let m₁ = set_write_hook m_user_output_byte write_user_output m₀ in
      let m₂ = set_write_hook m_user_input_buf_length read_user_input m₁ in
      let m₃ = set_write_hook m_log_debug_buf_length debug_log_hook m₂ in
      let m₄ = set_write_hook m_io_alarm alarm m₃ in
      let m₅ = set_write_hook m_io_airflow airflow m₄ in
      let m₆ = set_write_hook m_io_lock lock m₅ in
      let m₇ = set_write_hook m_io_temperature temperature m₆ in
      record {
        mcu = record { regs = boot_regs; memory = m₇ };
        image = boot;
        breakpoints = λ a. none;
      }

  -- What a breakpoint does before the step: the machine, and `nowStop`.
  unfoldable pub at_breakpoint : Option ℤ → UserCpu D → UserCpu D × Bool
  unfolding break_kind
  at_breakpoint none u = (u, false)
  at_breakpoint (some kind) u = elim (break_kind kind) [
    | break_stop ↦ (set_state stopped u, false)
    | break_step ↦ (u, true)
    | break_trace ↦ (u, false)
    | no_kind ↦ (u, false)
  ]

module _ {D : Type 0} (db : Redis D) (polls depth : ℕ) where
  abbrev pub mem : Memory (Store D)
  mem = hookable_memory (cpu_hooks db polls depth)

  -- `cpu.Step()`, and what the loop does with its error: a fault, and a load for the printed line,
  -- whose error is dropped.
  unfoldable pub faulted : ℕ → Outcome (UserCpu D) (Unit {0}) → Outcome (UserCpu D) (Unit {0})
  faulted cur (ok a u) = ok a u
  faulted cur (err e u) =
      let v = set_state fault u in
      elim (mem.load_6_bytes cur v.mcu.memory) [
        | ok bytes m ↦ ok tt (record v { mcu = record v.mcu { memory = m } })
        | err e' m ↦ ok tt (record v { mcu = record v.mcu { memory = m } })
        | panic ↦ panic
        | blocked ↦ blocked
      ]
  faulted cur panic = panic
  faulted cur blocked = blocked

  -- The step of a machine in a state, and `nowStop`.
  unfoldable pub step_in : CpuState → ℕ → Bool → UserCpu D → Outcome (UserCpu D) (Unit {0})
  unfolding faulted
  step_in running cur now_stop =
      (λ u. faulted cur (on_mcu (Step.step mem) u))
      >> modify (λ u. if now_stop then set_state stopped u else u)
  step_in _ cur now_stop = return tt

  unfoldable pub after_breakpoint : ℕ → UserCpu D × Bool → Outcome (UserCpu D) (Unit {0})
  after_breakpoint cur (u, now_stop) = step_in (state_of u) cur now_stop u

  -- The `default` of the `select`, at a machine that runs.
  unfoldable pub run_turn : UserCpu D → Outcome (UserCpu D) (Unit {0})
  unfolding at_breakpoint after_breakpoint step_in
  run_turn u = let cur = pc u.mcu in after_breakpoint cur (at_breakpoint (u.breakpoints cur) u)

  -- A round of `Loop`: with a request it is served, and without one a machine that runs takes a turn
  -- and any other waits.
  abbrev pub Request : Type 0
  Request = UserCpu D → Outcome (UserCpu D) (Unit {0})

  unfoldable pub turn : Option Request → UserCpu D → Outcome (UserCpu D) (Unit {0})
  turn (some req) u = req u
  turn none u = elim (state_of u) [ running ↦ run_turn u | _ ↦ ok tt u ]

  -- `Loop`, over what arrives in each round.
  unfoldable pub loop : List (Option Request) → UserCpu D → Outcome (UserCpu D) (Unit {0})
  loop [] = return tt
  loop (r ∷ rs) = turn r >> loop rs
