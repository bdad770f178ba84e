-- ===== src/Msp43x/Tests/Arithmetic.antt =====
-- Values and flags.
use formaldehyde.Prelude.{◌-◌, ◌+◌, ◌%◌, ◌≡◌, refl, arith, false, int16, negsuc}
use formaldehyde.Msp43x.Constants.Op2
use formaldehyde.Msp43x.Cpu.{set_c, set_v, set_z, set_n}
use formaldehyde.Msp43x.Cpu.Flags.{flags, setters}
use formaldehyde.Msp43x.Alu.{rra, sxt, eval_double, double_flags}
use formaldehyde.Msp43x.Alu.Flags.{flags-add}
use formaldehyde.Msp43x.Alu.Values.{eval_subc}
use formaldehyde.Msp43x.TestMachine.{cpu}

halves_lost : rra false 0x0004 ≡ 0
unfolding rra
halves_lost = refl

sign_extended : int16 (sxt 0x80) ≡ negsuc 127
unfolding sxt
sign_extended = refl

setters_example :
    (flags (set_c 1 cpu) ≡ record (flags cpu) { c = 1 })
    × (flags (set_v 1 cpu) ≡ record (flags cpu) { v = 1 })
    × (flags (set_z 1 cpu) ≡ record (flags cpu) { z = 1; v = 0 })
    × (flags (set_n 1 cpu) ≡ record (flags cpu) { n = 1; v = 0 })
setters_example = setters 1 cpu (omega arith)

flags-add_example :
    flags (double_flags Op2.add false 0xfff0 0x20 0x10 cpu)
    ≡ record { c = 1; z = 0; n = 0; off = (flags cpu).off; v = 0 }
flags-add_example = flags-add Op2.add false 0xfff0 0x20 0x10 cpu refl (omega arith)

eval_subc_example : eval_double Op2.subc false 1 3 10 ≡ (10 + (65536 - 3) + 1) % 65536
eval_subc_example = eval_subc false 1 3 10 (omega arith) (omega arith) (omega arith)
