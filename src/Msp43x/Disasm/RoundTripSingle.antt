-- ===== src/Msp43x/Disasm/RoundTripSingle.antt =====
-- `Disassemble` of src/newmadrid/msp43x/disasm.go inverts the encoding of jumps and of instructions of
-- one operand.
use formaldehyde.Prelude.{
  ℕ, ◌+◌, ◌*◌, ◌/◌, ◌≤◌, ◌<◌, ◌≡◌, arith, ℤ, pos, sub_ℕ, none, ok, ◌∙◌, ◌>>=◌, bit_and, ltb,
  if◌then◌else◌,
}
use formaldehyde.Bits.{bit_and_mask, bit_and-one, bit_and_bit, bit_or_fields}
use formaldehyde.Msp43x.Constants.{single_operand, cond_jump}
use formaldehyde.Msp43x.Slice.{Slice, reslice}
use formaldehyde.Msp43x.Insn.{Insn, blank}
use formaldehyde.Msp43x.Disasm.{
  interp_as, decode_family, decode_jump, disassemble, single_fields, extend_single, decode_single,
  jump_offset,
}
use formaldehyde.Msp43x.Disasm.Words.{Holds}
use formaldehyde.Msp43x.Disasm.Encode
use formaldehyde.Msp43x.Disasm.Encode.{
  Source, source_register, source_as, source_mode, source_word, IsSource, constant,
}
use formaldehyde.Msp43x.Disasm.RoundTrip.{
  HoldsWords, WordsAt, words_at, extension, size, finish, begins, family_of_single, family_of_jump,
  source_ranges,
}

-- The first word of an instruction of one operand: 000100, the opcode, the width, `As`, the register.
abbrev pub single_word : ℕ → ℕ → Source → ℕ
single_word op bw src = 4096 + op * 128 + bw * 64 + source_as src * 16 + source_register src

abbrev pub single_insn : ℕ → ℕ → Source → Slice → Insn
single_insn op bw src raw =
    let width = 2 + size (source_word src) in
    record blank {
      mode = source_mode src;
      opcode = op;
      bw = bw;
      as_bits = source_as src;
      source = source_register src;
      srcx = extension (source_word src);
      width = width;
      raw = record raw { len = width };
    }

fields_of : ℕ → ℕ → ℕ → ℕ → Insn
fields_of op bw as_bits s = record blank {
  opcode = op;
  bw = bw;
  as_bits = as_bits;
  source = s;
  mode = interp_as as_bits;
}

single_fields-word :
    (op bw as_bits s : ℕ)
    → op < 8
    → bw < 2
    → as_bits < 4
    → s < 16
    → single_fields (4096 + op * 128 + bw * 64 + as_bits * 16 + s) ≡ fields_of op bw as_bits s
unfolding single_fields fields_of
single_fields-word op bw as_bits s p q r t =
    let n = 4096 + op * 128 + bw * 64 + as_bits * 16 + s in
    let op_field : bit_and (n / 128) 7 ≡ op = omega (arith, bit_and_mask 3 (n / 128)) in
    let bw_field : bit_and (n / 64) 1 ≡ bw = omega (arith, bit_and-one (n / 64)) in
    let as_field : bit_and (n / 16) 3 ≡ as_bits = omega (arith, bit_and_mask 2 (n / 16)) in
    let s_field : bit_and n 15 ≡ s = omega (arith, bit_and_mask 4 n) in ground arith

extend :
    (op bw : ℕ) (src : Source) (raw : Slice)
    → IsSource src
    → WordsAt raw (source_word src) none
    → 6 ≤ raw.cap
    → (extend_single raw (fields_of op bw (source_as src) (source_register src)) >>= finish raw)
      ≡ ok (single_insn op bw src raw)
unfolding extend_single fields_of interp_as reslice
extend op bw (Source.in_register r) raw p w cap = ground arith
extend op bw (constant Encode.zero) raw p w cap = ground arith
extend op bw _ raw p w cap = ground arith

-- An encoded instruction of one operand is decoded to the instruction that it means, for every
-- opcode and every operand.
pub disassemble-single :
    (op bw : ℕ) (src : Source) (raw : Slice)
    → op < 8
    → bw < 2
    → IsSource src
    → Holds raw 0 (single_word op bw src)
    → HoldsWords raw (source_word src) none
    → 6 ≤ raw.cap
    → disassemble raw ≡ ok (single_insn op bw src raw)
disassemble-single op bw src raw high b is_src w words cap =
    begins raw (single_word op bw src) single_operand w cap
      (family_of_single _ (omega (arith, source_ranges src is_src)))
    ∙ (unfold decode_family decode_single in
        rw (single_fields-word op bw _ _ high b ranges.1 ranges.0)
          (extend op bw src raw is_src (words_at raw (source_word src) none words) cap))
  where
    ranges : (source_register src < 16) × (source_as src < 4)
    ranges = source_ranges src is_src

-- The first word of a jump: 001, the condition, ten bits of offset.
abbrev pub jump_word : ℕ → ℕ → ℕ
jump_word cond off = 8192 + cond * 1024 + off

-- Twice the offset, as a signed number of ten bits.
abbrev pub signed_offset : ℕ → ℤ
signed_offset off = if ltb off 512 then pos (2 * off) else sub_ℕ (2 * off) 2048

jump_offset-word :
    (cond off : ℕ) → cond < 8 → off < 1024 → jump_offset (jump_word cond off) ≡ signed_offset off
unfolding jump_offset
jump_offset-word cond off p q =
    ground (arith, bit_and_mask 10 (jump_word cond off), bit_and_bit 9 off, bit_or_fields 10 63 off)

-- An encoded jump is decoded to its condition and to twice its signed offset.
pub disassemble-jump :
    (cond off : ℕ) (raw : Slice)
    → cond < 8
    → off < 1024
    → Holds raw 0 (jump_word cond off)
    → 6 ≤ raw.cap
    → disassemble raw
      ≡ ok (record blank {
        family = cond_jump;
        condition = cond;
        offset = signed_offset off;
        raw = record raw { len = 2 };
      })
unfolding decode_family decode_jump reslice
disassemble-jump cond off raw p q w cap =
    begins raw (jump_word cond off) cond_jump w cap (family_of_jump _ (omega arith) (omega arith))
    ∙ ground (arith, jump_offset-word cond off, bit_and_mask 3 (jump_word cond off / 1024))
