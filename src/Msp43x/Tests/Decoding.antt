-- ===== src/Msp43x/Tests/Decoding.antt =====
-- Decoding of concrete words.
use formaldehyde.Prelude.{ℕ, ◌≡◌, refl, arith, ok, Returns, negsuc, ◌==◌, if◌then◌else◌}
use formaldehyde.Msp43x.Constants.{cond_jump}
use formaldehyde.Msp43x.Constants.Cond
use formaldehyde.Msp43x.Constants.Op1
use formaldehyde.Msp43x.Constants.Op2
use formaldehyde.Msp43x.Slice.{Slice}
use formaldehyde.Msp43x.Insn.{blank}
use formaldehyde.Msp43x.Disasm.{disassemble}
use formaldehyde.Msp43x.Disasm.Words.{Holds}
use formaldehyde.Msp43x.Disasm.Encode.{Source, Destination}
use formaldehyde.Msp43x.Disasm.Range.{IsDecoded, disassemble-IsDecoded}
use formaldehyde.Msp43x.Disasm.RoundTrip.{disassemble-double}
use formaldehyde.Msp43x.Disasm.RoundTripSingle.{single_insn, disassemble-single, disassemble-jump}
use formaldehyde.Msp43x.TestMachine.{raw, insn}

abbrev two_bytes : ℕ → ℕ → Slice
two_bytes lo hi = record {
  at = λ k. if k == 0 then lo else if k == 1 then hi else 0;
  len = 6;
  cap = 6;
}

raw-Holds : Holds raw 0 0x5506
raw-Holds = record { low = refl; high = refl; inside = omega arith; is_word = omega arith }

disassemble-IsDecoded_example : Returns IsDecoded (disassemble raw)
disassemble-IsDecoded_example = disassemble-IsDecoded raw (omega arith) (omega arith)

disassemble-double_example : disassemble raw ≡ ok (insn Op2.add)
disassemble-double_example =
    disassemble-double Op2.add 0 (Source.in_register 5) (Destination.in_register 6) raw
      (omega arith) (omega arith) (omega arith) (omega arith) (omega arith) raw-Holds tt
      (omega arith)

-- `SXT R7`.
abbrev sxt_raw : Slice
sxt_raw = two_bytes 0x87 0x11

sxt-Holds : Holds sxt_raw 0 0x1187
sxt-Holds = record { low = refl; high = refl; inside = omega arith; is_word = omega arith }

disassemble-single_example :
    disassemble sxt_raw ≡ ok (single_insn Op1.sxt 0 (Source.in_register 7) sxt_raw)
disassemble-single_example =
    disassemble-single Op1.sxt 0 (Source.in_register 7) sxt_raw (omega arith) (omega arith)
      (omega arith) sxt-Holds tt (omega arith)

-- `JMP $-2`.
abbrev jump_raw : Slice
jump_raw = two_bytes 0xfe 0x3f

jump-Holds : Holds jump_raw 0 0x3ffe
jump-Holds = record { low = refl; high = refl; inside = omega arith; is_word = omega arith }

disassemble-jump_example :
    disassemble jump_raw
    ≡ ok (record blank {
      family = cond_jump;
      condition = 7;
      offset = negsuc 3;
      raw = record jump_raw { len = 2 };
    })
disassemble-jump_example =
    disassemble-jump Cond.jmp 1022 jump_raw (omega arith) (omega arith) jump-Holds (omega arith)
