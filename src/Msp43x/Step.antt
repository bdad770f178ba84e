-- ===== src/Msp43x/Step.antt =====
-- `Step` of src/newmadrid/msp43x/cpu.go: fetch, decode, advance the program counter and execute. The
-- lines that it prints are not modelled.
pub mod Laws
use formaldehyde.Prelude.{
  ℕ, ◌+◌, ◌-◌, Bool, true, false, u16, Error, cpu_error, again, if◌then◌else◌,
}
use formaldehyde.Prelude.Outcome.{Outcome, ok, err, panic, blocked, ◌>>=◌, ◌>>◌, modify, lift}
use formaldehyde.Msp43x.Memory.{Memory}
use formaldehyde.Msp43x.Disasm.{disassemble}
use formaldehyde.Msp43x.Cpu.{Cpu, pc, set_reg, on_memory}
use formaldehyde.Msp43x.Execute.{execute}

unfoldable pub is_again : Error → Bool
is_again (cpu_error again msg) = true
is_again _ = false

module _ {M : Type 0} where
  unfoldable pub advance : ℕ → Cpu M → Cpu M
  advance width cpu = set_reg 0 (u16 (pc cpu + width)) cpu

  unfoldable pub retreat : ℕ → Cpu M → Cpu M
  retreat width cpu = set_reg 0 (u16 (pc cpu + 65536 - width)) cpu

  -- `if isAgain(err) { cpu.regs[0] -= uint16(i.Width) }`.
  unfoldable pub retry : ℕ → Outcome (Cpu M) (Unit {0}) → Outcome (Cpu M) (Unit {0})
  unfolding retreat is_again
  retry width (ok a cpu) = ok a cpu
  retry width (err e cpu) = err e (if is_again e then retreat width cpu else cpu)
  retry width panic = panic
  retry width blocked = blocked

module _ {M : Type 0} (mem : Memory M) where
  unfoldable pub step : Cpu M → Outcome (Cpu M) (Unit {0})
  unfolding advance retry
  step = do
    bytes ← (λ cpu. on_memory (mem.load_6_bytes (pc cpu)) cpu)
    i ← lift (disassemble bytes)
    modify (advance i.width)
    (λ cpu. retry i.width (execute mem i cpu))
