-- ===== src/Msp43x/Disasm/Range.antt =====
-- `Disassemble` of src/newmadrid/msp43x/disasm.go on six bytes: it always returns, and what it returns
-- is in range.
use formaldehyde.Prelude.{
  Bool, true, false, if◌then◌else◌, ◌&&◌, ◌==◌, bit_and, ℕ, ◌/◌, ◌≤◌, ◌<◌, ◌≡◌, ◌≢◌, ◌⊎◌, refl,
  arith, ℤ, pos, negsuc, int16, ok, Returns, Returns-bind, ◌>>=◌, le→ltb, u16,
}
use formaldehyde.Bits.{bit_and_mask, bit_and_bit, bit_or_fields}
use formaldehyde.Msp43x.Constants.{
  Family, AddrMode, symbolic, reg_direct, indexed, absolute, single_operand, cond_jump,
  double_operand,
}
use formaldehyde.Msp43x.Slice.{Slice, reslice}
use formaldehyde.Msp43x.Insn.{Insn}
use formaldehyde.Msp43x.Disasm.{
  jump_offset, decode_single, decode_double, decode_jump, decode_family, disassemble, extend_single,
  single_fields, interp_as, word_at, family_of, adjust_modes, constant_mode, is_constant,
  is_indexed, extension_words, double_fields,
}

-- `int16`.
abbrev pub IsInt16 : ℤ → Type 0
IsInt16 (pos n) = n < 32768
IsInt16 (negsuc n) = n < 32768

-- The ranges of the fields of a decoded instruction, and the modes that `Disassemble` sets.
pub record InRange (i : Insn) : Type 0 where
  pub width_range : (i.width ≡ 2) ⊎ (i.width ≡ 4) ⊎ (i.width ≡ 6)
  pub opcode_range : i.opcode < 16
  pub condition_range : i.condition < 8
  pub bw_range : i.bw < 2
  pub as_range : i.as_bits < 4
  pub ad_range : i.ad < 2
  pub source_range : i.source < 16
  pub destination_range : i.destination < 16
  pub mode_range : i.mode ≢ symbolic
  pub dst_mode_range : (i.dst_mode ≡ reg_direct) ⊎ (i.dst_mode ≡ indexed) ⊎ (i.dst_mode ≡ absolute)
  pub offset_range : IsInt16 i.offset
  pub srcx_range : IsInt16 i.srcx
  pub dstx_range : IsInt16 i.dstx

int16-range : (n : ℕ) → IsInt16 (int16 n)
int16-range n = ground arith

jump_offset-range : (iword : ℕ) → IsInt16 (jump_offset iword)
unfolding jump_offset
jump_offset-range iword =
    let off = bit_and iword 1023 in
    ground (arith, bit_and_mask 10 iword, bit_and_bit 9 off, bit_or_fields 10 63 off)

extend_single-InRange :
    (raw : Slice) (i : Insn)
    → 6 ≤ raw.len
    → raw.len ≤ raw.cap
    → InRange i
    → i.width ≡ 2
    → Returns InRange (extend_single raw i)
unfolding extend_single
extend_single-InRange raw i long fits h w = ground arith

single_fields-InRange : (iword : ℕ) → InRange (single_fields iword)
unfolding single_fields interp_as
single_fields-InRange iword =
    ground (arith, bit_and_mask 3 (iword / 128), bit_and_mask 2 (iword / 16), bit_and_mask 4 iword)

decode_jump-InRange : (iword : ℕ) → InRange (decode_jump iword)
unfolding decode_jump
decode_jump-InRange iword = ground (arith, bit_and_mask 3 (iword / 1024), jump_offset-range iword)

double_fields-InRange : (iword : ℕ) → InRange (double_fields iword)
unfolding double_fields interp_as
double_fields-InRange iword = ground (
  arith,
  bit_and_mask 4 (iword / 4096),
  bit_and_mask 4 (iword / 256),
  bit_and_mask 2 (iword / 16),
  bit_and_mask 4 iword,
)

extension_words-InRange :
    (raw : Slice) (i : Insn)
    → 6 ≤ raw.len
    → raw.len ≤ raw.cap
    → InRange i
    → i.width ≡ 2
    → Returns InRange (extension_words raw i)
unfolding extension_words
extension_words-InRange raw i long fits h w = ground arith

-- What `Disassemble` leaves in `dstMode`.
abbrev IsDstMode : AddrMode → Type 0
IsDstMode m = (m ≡ reg_direct) ⊎ (m ≡ indexed) ⊎ (m ≡ absolute)

-- Other modes of the kinds that `Disassemble` sets.
modes-InRange :
    (i : Insn) (mode dst_mode : AddrMode)
    → InRange i
    → mode ≢ symbolic
    → IsDstMode dst_mode
    → InRange (record i { mode = mode; dst_mode = dst_mode })
modes-InRange i mode dst_mode h m d = record {
  width_range = h.width_range;
  opcode_range = h.opcode_range;
  condition_range = h.condition_range;
  bw_range = h.bw_range;
  as_range = h.as_range;
  ad_range = h.ad_range;
  source_range = h.source_range;
  destination_range = h.destination_range;
  mode_range = m;
  dst_mode_range = d;
  offset_range = h.offset_range;
  srcx_range = h.srcx_range;
  dstx_range = h.dstx_range;
}

-- The mode of an indexed operand on register 2.
abbrev on_status : AddrMode → ℕ → AddrMode
on_status mode r = if is_indexed mode && r == 2 then absolute else mode

on_status-symbolic : (mode : AddrMode) (r : ℕ) → mode ≢ symbolic → on_status mode r ≢ symbolic
on_status-symbolic mode r h = ground arith

on_status-IsDstMode : (mode : AddrMode) (r : ℕ) → IsDstMode mode → IsDstMode (on_status mode r)
on_status-IsDstMode mode r h = ground arith

constant_mode-symbolic :
    (j : Insn)
    → j.as_bits < 4
    → is_constant j ≡ true
    → Returns (λ m. m ≢ symbolic) (constant_mode j)
unfolding constant_mode is_constant
constant_mode-symbolic j a e = ground arith

adjust_modes-InRange : (i : Insn) → InRange i → Returns InRange (adjust_modes i)
unfolding adjust_modes
adjust_modes-InRange i h = at_constant (is_constant j) refl
  where
    j : Insn
    j = record i { mode = on_status i.mode i.source; dst_mode = on_status i.dst_mode i.destination }

    j-InRange : InRange j
    j-InRange =
        modes-InRange i (on_status i.mode i.source) (on_status i.dst_mode i.destination) h
          (on_status-symbolic i.mode i.source h.mode_range)
          (on_status-IsDstMode i.dst_mode i.destination h.dst_mode_range)

    at_constant :
        (b : Bool)
        → is_constant j ≡ b
        → Returns InRange
            (if b then (constant_mode j >>= λ m. ok (record j { mode = m })) else ok j)
    at_constant true e =
        Returns-bind (λ m. m ≢ symbolic) InRange (constant_mode j) _
          (constant_mode-symbolic j h.as_range e)
          (λ m k. modes-InRange j m j.dst_mode j-InRange k j-InRange.dst_mode_range)
    at_constant false e = j-InRange

decode_family-InRange :
    (raw : Slice) (iword : ℕ) (family : Family)
    → 6 ≤ raw.len
    → raw.len ≤ raw.cap
    → Returns InRange (decode_family family raw iword)
unfolding decode_family
decode_family-InRange raw iword single_operand long fits =
    unfold decode_single in
    extend_single-InRange raw (single_fields iword) long fits (single_fields-InRange iword)
      (unfold single_fields in refl)
decode_family-InRange raw iword cond_jump long fits = decode_jump-InRange iword
decode_family-InRange raw iword double_operand long fits =
    unfold decode_double in
    Returns-bind InRange InRange (extension_words raw (double_fields iword)) adjust_modes
      (extension_words-InRange raw (double_fields iword) long fits (double_fields-InRange iword)
        (unfold double_fields in refl))
      adjust_modes-InRange

-- The bytes that an instruction was decoded from, cut to its width.
abbrev pub IsDecoded : Insn → Type 0
IsDecoded i = InRange i × (i.raw.len ≡ i.width)

cut-IsDecoded :
    (raw : Slice) (i : Insn)
    → 6 ≤ raw.len
    → raw.len ≤ raw.cap
    → InRange i
    → Returns IsDecoded (reslice raw i.width >>= λ s. ok (record i { raw = s }))
unfolding reslice
cut-IsDecoded raw i long fits h = ground arith

first_word : (raw : Slice) → 6 ≤ raw.len → Returns (λ w. Unit {0}) (word_at raw 0)
unfolding word_at
first_word raw long = ground arith

-- Every six bytes are decoded: `Disassemble` neither returns an error nor panics. The width is 2, 4
-- or 6, and `raw` has that many bytes; the opcode and both registers are below 16, the condition is
-- below 8, `bw` and `ad` are below 2, `as` is below 4; the source's mode is never symbolic, the
-- destination's is a register, indexed or absolute; the jump's offset and both extension words are
-- signed 16-bit numbers.
pub disassemble-IsDecoded :
    (raw : Slice) → 6 ≤ raw.len → raw.len ≤ raw.cap → Returns IsDecoded (disassemble raw)
unfolding disassemble
disassemble-IsDecoded raw long fits = rw (le→ltb raw.cap 2 (omega arith)) (
    Returns-bind (λ w. Unit {0}) IsDecoded (word_at raw 0) _ (first_word raw long)
      λ w _.
        Returns-bind InRange IsDecoded (decode_family (family_of (u16 w)) raw (u16 w)) _
          (decode_family-InRange raw (u16 w) (family_of (u16 w)) long fits)
          (λ i h. cut-IsDecoded raw i long fits h))
