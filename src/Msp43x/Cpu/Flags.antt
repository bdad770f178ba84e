-- ===== src/Msp43x/Cpu/Flags.antt =====
-- The status register as the flags that it packs, and what the four setters of
-- src/newmadrid/msp43x/cpu.go do to each of them.
use formaldehyde.Prelude.{ℕ, ◌/◌, ◌%◌, ◌<◌, ◌≡◌, arith}
use formaldehyde.Bits.{bit_and-one, set_bit_0, set_bit_1, set_bit_2, set_bit_8}
use formaldehyde.Msp43x.Cpu.{Cpu, s_c, s_z, s_n, s_v, set_c, set_z, set_n, set_v}

-- The flags as numbers: carry, zero, negative, CPUOFF, overflow.
pub record Flags : Type 0 where
  pub c : ℕ
  pub z : ℕ
  pub n : ℕ
  pub off : ℕ
  pub v : ℕ

unfoldable pub flags_of : ℕ → Flags
flags_of sr = record {
  c = sr % 2;
  z = sr / 2 % 2;
  n = sr / 4 % 2;
  off = sr / 16 % 2;
  v = sr / 256 % 2;
}

module _ {M : Type 0} where
  abbrev pub flags : Cpu M → Flags
  flags cpu = flags_of (cpu.regs 2)

  -- The getters read those fields.
  pub getters :
      (cpu : Cpu M)
      → (s_c cpu ≡ (flags cpu).c)
        × (s_z cpu ≡ (flags cpu).z)
        × (s_n cpu ≡ (flags cpu).n)
        × (s_v cpu ≡ (flags cpu).v)
  unfolding s_c s_z s_n s_v flags_of
  getters cpu = (bit_and-one _, bit_and-one _, bit_and-one _, bit_and-one _)

  -- Setting the carry flag or the overflow flag changes that flag alone.
  pub flags-set_c :
      (i : ℕ) (cpu : Cpu M) → i < 2 → flags (set_c i cpu) ≡ record (flags cpu) { c = i }
  unfolding set_c flags_of
  flags-set_c i cpu h = ground (arith, set_bit_0 (cpu.regs 2) i)

  pub flags-set_v :
      (i : ℕ) (cpu : Cpu M) → i < 2 → flags (set_v i cpu) ≡ record (flags cpu) { v = i }
  unfolding set_v flags_of
  flags-set_v i cpu h = ground (arith, set_bit_8 (cpu.regs 2) i)

  -- Setting the zero flag or the negative flag also clears the overflow flag.
  pub flags-set_z :
      (i : ℕ) (cpu : Cpu M) → i < 2 → flags (set_z i cpu) ≡ record (flags cpu) { z = i; v = 0 }
  unfolding set_z flags_of
  flags-set_z i cpu h = ground (arith, set_bit_1 (cpu.regs 2) i)

  pub flags-set_n :
      (i : ℕ) (cpu : Cpu M) → i < 2 → flags (set_n i cpu) ≡ record (flags cpu) { n = i; v = 0 }
  unfolding set_n flags_of
  flags-set_n i cpu h = ground (arith, set_bit_2 (cpu.regs 2) i)

  -- Each of the four setters sets its flag; those of carry and overflow leave the other flags alone,
  -- and those of zero and negative also clear the overflow flag. None changes CPUOFF.
  pub setters :
      (i : ℕ) (cpu : Cpu M)
      → i < 2
      → (flags (set_c i cpu) ≡ record (flags cpu) { c = i })
        × (flags (set_v i cpu) ≡ record (flags cpu) { v = i })
        × (flags (set_z i cpu) ≡ record (flags cpu) { z = i; v = 0 })
        × (flags (set_n i cpu) ≡ record (flags cpu) { n = i; v = 0 })
  setters i cpu h =
      (flags-set_c i cpu h, flags-set_v i cpu h, flags-set_z i cpu h, flags-set_n i cpu h)
