-- ===== src/Msp43x/Disasm.antt =====
-- `Disassemble` of src/newmadrid/msp43x/disasm.go: from the bytes at the program counter to an `Insn`.
-- With an error the source also returns what it has decoded so far, which its callers drop.
pub mod Words
pub mod Range
pub mod Encode
pub mod RoundTrip
pub mod RoundTripSingle
use formaldehyde.Prelude.{
  ℕ, String, ◌+◌, ◌*◌, ◌<<◌, ◌>>>◌, bit_and, bit_or, ℤ, pos, ◌*ℤ◌, int16, Bool, true, false, ltb,
  ◌==◌, not, ◌&&◌, if◌then◌else◌, u16, Result, ok, err, panic, ◌>>=◌, cpu_error, too_short,
}
use formaldehyde.Msp43x.Constants.{
  Family, single_operand, cond_jump, double_operand, AddrMode, reg_direct, indexed, reg_indirect,
  indirect_incr, immediate, absolute, const_4, const_8, const_0, const_1, const_2, const_neg_1,
}
use formaldehyde.Msp43x.Slice.{Slice, index, reslice}
use formaldehyde.Msp43x.Insn.{Insn, blank}

unfoldable pub interp_as : ℕ → AddrMode
interp_as as_bits =
    if as_bits == 0
    then reg_direct
    else if as_bits == 1
    then indexed
    else if as_bits == 2
    then reg_indirect
    else if as_bits == 3
    then indirect_incr
    else reg_direct

-- The closures `isConstant` and `constantMode`.
unfoldable pub is_constant : Insn → Bool
is_constant i =
    if not (i.source == 2) && not (i.source == 3)
    then false
    else if i.source == 2 && (not (i.as_bits == 2) && not (i.as_bits == 3))
    then false
    else true

unfoldable pub constant_mode : Insn → Result AddrMode
constant_mode i =
    if i.as_bits == 0 && i.source == 3
    then ok const_0
    else if i.as_bits == 1 && i.source == 3
    then ok const_1
    else if i.as_bits == 2 && i.source == 3
    then ok const_2
    else if i.as_bits == 3 && i.source == 3
    then ok const_neg_1
    else if i.as_bits == 2 && i.source == 2
    then ok const_4
    else if i.as_bits == 3 && i.source == 2
    then ok const_8
    else panic

-- `int(raw[k+1])<<8 | int(raw[k])`.
unfoldable pub word_at : Slice → ℕ → Result ℕ
unfolding index
word_at raw k = do hi ← index raw (k + 1); lo ← index raw k; ok (bit_or (hi << 8) lo)

-- `if cap(raw) < n { return too short }`.
abbrev need : Slice → ℕ → String → Result Insn → Result Insn
need raw n msg rest = if ltb raw.cap n then err (cpu_error too_short msg) else rest

abbrev flag_bit : ℕ → ℕ → ℕ
flag_bit iword k = if bit_and (iword >>> k) 1 == 0 then 0 else 1

unfoldable pub family_of : ℕ → Family
family_of iword =
    let top = bit_and (iword >>> 13) 7 in
    if top == 0 then single_operand else if top == 1 then cond_jump else double_operand

-- The fields of an instruction of one operand.
unfoldable pub single_fields : ℕ → Insn
single_fields iword =
    let as_bits = bit_and (iword >>> 4) 3 in
    record blank {
      family = single_operand;
      opcode = bit_and (iword >>> 7) 7;
      bw = flag_bit iword 6;
      as_bits = as_bits;
      source = bit_and iword 15;
      mode = interp_as as_bits;
    }

unfoldable pub extend_single : Slice → Insn → Result Insn
unfolding is_constant constant_mode word_at
extend_single raw i =
    if is_constant i
    then (do mode ← constant_mode i; ok (record i { mode = mode }))
    else if i.as_bits == 1
    then (need raw 4 "missing index word" (do
      srcx ← word_at raw 2
      ok (record i {
        srcx = int16 srcx;
        width = 4;
        mode = if i.source == 2 then absolute else i.mode;
      })))
    else if i.as_bits == 3 && i.source == 0
    then (need raw 4 "missing immediate word"
        (do srcx ← word_at raw 2; ok (record i { srcx = int16 srcx; width = 4; mode = immediate })))
    else ok i

unfoldable pub decode_single : Slice → ℕ → Result Insn
decode_single raw iword = extend_single raw (single_fields iword)

-- `int16(off) * 2` stays within an `int16`, as `off` is a signed number of ten bits.
unfoldable pub jump_offset : ℕ → ℤ
jump_offset iword =
    let off = bit_and iword 1023 in
    if bit_and off 0x200 == 0 then int16 (off * 2) else int16 (bit_or (0x3f << 10) off) *ℤ pos 2

unfoldable pub decode_jump : ℕ → Insn
unfolding jump_offset
decode_jump iword = record blank {
  family = cond_jump;
  condition = bit_and (iword >>> 10) 7;
  offset = jump_offset iword;
}

-- The fields of an instruction of two operands. The source also sets `dstMode` before this for an
-- absolute source, and always overwrites that.
unfoldable pub double_fields : ℕ → Insn
double_fields iword =
    let as_bits = bit_and (iword >>> 4) 3 in
    let ad = flag_bit iword 7 in
    let destination = bit_and iword 15 in
    record blank {
      family = double_operand;
      opcode = bit_and (iword >>> 12) 15;
      source = bit_and (iword >>> 8) 15;
      ad = ad;
      bw = flag_bit iword 6;
      as_bits = as_bits;
      destination = destination;
      mode = interp_as as_bits;
      dst_mode = if ad == 1 then (if destination == 2 then absolute else indexed) else reg_direct;
    }

-- `case i.ad == 1`, which the constant case falls through to.
abbrev dst_word : Slice → Insn → Result Insn
dst_word raw i =
    need raw 4 "missing dst index word"
      (do dstx ← word_at raw 2; ok (record i { dstx = int16 dstx; width = 4 }))

-- The `switch` that reads the words after the instruction word.
unfoldable pub extension_words : Slice → Insn → Result Insn
unfolding is_constant constant_mode word_at
extension_words raw i =
    if not (is_constant i) && (i.as_bits == 1 && i.ad == 1)
    then (need raw 6 "missing src and dst index words" (do
      srcx ← word_at raw 2
      dstx ← word_at raw 4
      ok (record i { srcx = int16 srcx; dstx = int16 dstx; width = 6 })))
    else if not (is_constant i) && i.as_bits == 1
    then (need raw 4 "missing src index word"
        (do srcx ← word_at raw 2; ok (record i { srcx = int16 srcx; width = 4 })))
    else if i.as_bits == 3 && (i.source == 0 && i.ad == 1)
    then (need raw 6 "missing src immed and dst index words" (do
      srcx ← word_at raw 2
      dstx ← word_at raw 4
      ok (record i { srcx = int16 srcx; dstx = int16 dstx; width = 6; mode = immediate })))
    else if i.as_bits == 3 && (i.source == 0 && i.ad == 0)
    then (need raw 4 "missing src immed word"
        (do srcx ← word_at raw 2; ok (record i { srcx = int16 srcx; width = 4; mode = immediate })))
    else if is_constant i && i.ad == 1
    then (do mode ← constant_mode i; dst_word raw (record i { mode = mode }))
    else if i.ad == 1
    then dst_word raw i
    else ok i

abbrev is_indexed : AddrMode → Bool
is_indexed indexed = true
is_indexed _ = false

-- The three tests that end the case of two operands.
unfoldable pub adjust_modes : Insn → Result Insn
unfolding is_constant constant_mode
adjust_modes i =
    let mode = if is_indexed i.mode && i.source == 2 then absolute else i.mode in
    let dst_mode = if is_indexed i.dst_mode && i.destination == 2 then absolute else i.dst_mode in
    let j = record i { mode = mode; dst_mode = dst_mode } in
    if is_constant j then (do m ← constant_mode j; ok (record j { mode = m })) else ok j

unfoldable pub decode_double : Slice → ℕ → Result Insn
decode_double raw iword = do i ← extension_words raw (double_fields iword); adjust_modes i

unfoldable pub decode_family : Family → Slice → ℕ → Result Insn
decode_family single_operand raw iword = decode_single raw iword
decode_family cond_jump raw iword = ok (decode_jump iword)
decode_family double_operand raw iword = decode_double raw iword

unfoldable pub disassemble : Slice → Result Insn
disassemble raw = if ltb raw.cap 2 then err (cpu_error too_short "less than 2 bytes") else (do
  w ← word_at raw 0
  let iword = u16 w
  i ← decode_family (family_of iword) raw iword
  s ← reslice raw i.width
  ok (record i { raw = s }))
