-- ===== src/Msp43x/Disasm/RoundTrip.antt =====
-- `Disassemble` of src/newmadrid/msp43x/disasm.go inverts the MSP430's encoding.
use formaldehyde.Prelude.{
  ℕ, ◌+◌, ◌*◌, ◌/◌, ◌≤◌, ◌<◌, ◌≡◌, refl, arith, ℤ, pos, int16, Option, none, some, ok, u16, ◌∙◌,
  Result, ◌>>=◌, le→ltb, bit_and, ◌==◌, if◌then◌else◌,
}
use formaldehyde.Bits.{bit_and_mask, bit_and-one}
use formaldehyde.Msp43x.Constants.{
  Family, single_operand, cond_jump, double_operand, absolute, indexed, reg_direct,
}
use formaldehyde.Msp43x.Slice.{Slice, reslice}
use formaldehyde.Msp43x.Insn.{Insn, blank}
use formaldehyde.Msp43x.Disasm.{
  interp_as, word_at, double_fields, extension_words, adjust_modes, decode_family, decode_double,
  family_of, disassemble,
}
use formaldehyde.Msp43x.Disasm.Encode
use formaldehyde.Msp43x.Disasm.Words.{Holds, word_at-Holds}
use formaldehyde.Msp43x.Disasm.Encode.{
  Source, Destination, in_register, at_index, at_address, at_register, at_register_then_next,
  literal, constant, source_register, source_as, source_mode, source_word, destination_register,
  destination_mode, destination_word, IsSource, IsDestination,
}

-- The words of an instruction after the first.
abbrev pub HoldsWords : Slice → Option ℕ → Option ℕ → Type 0
HoldsWords raw none none = Unit {0}
HoldsWords raw (some x) none = Holds raw 2 x
HoldsWords raw none (some y) = Holds raw 2 y
HoldsWords raw (some x) (some y) = Holds raw 2 x × Holds raw 4 y

abbrev pub extension : Option ℕ → ℤ
extension none = pos 0
extension (some x) = int16 x

abbrev pub size : Option ℕ → ℕ
size none = 0
size (some x) = 2

-- `Ad` of a destination.
abbrev pub destination_ad : Destination → ℕ
destination_ad (in_register r) = 0
destination_ad _ = 1

-- The first word of an instruction of two operands.
abbrev pub double_word : ℕ → ℕ → Source → Destination → ℕ
double_word op bw src dst =
    op * 4096
    + source_register src * 256
    + destination_ad dst * 128
    + bw * 64
    + source_as src * 16
    + destination_register dst

-- The instruction that it means.
abbrev pub double_insn : ℕ → ℕ → Source → Destination → Slice → Insn
double_insn op bw src dst raw =
    let width = 2 + size (source_word src) + size (destination_word dst) in
    record {
      family = double_operand;
      mode = source_mode src;
      dst_mode = destination_mode dst;
      opcode = op;
      condition = 0;
      bw = bw;
      as_bits = source_as src;
      offset = pos 0;
      ad = destination_ad dst;
      source = source_register src;
      destination = destination_register dst;
      srcx = extension (source_word src);
      dstx = extension (destination_word dst);
      width = width;
      raw = record raw { len = width };
    }

pub source_ranges : (src : Source) → IsSource src → (source_register src < 16) × (source_as src < 4)
source_ranges (Source.in_register r) h = omega arith
source_ranges (constant Encode.zero) h = omega arith
source_ranges _ h = omega arith

destination_ranges :
    (dst : Destination)
    → IsDestination dst
    → (destination_register dst < 16) × (destination_ad dst < 2)
destination_ranges (in_register r) h = omega arith
destination_ranges _ h = omega arith

-- The fields of an instruction word of two operands.
fields_of : ℕ → ℕ → ℕ → ℕ → ℕ → ℕ → Insn
fields_of op s ad bw as_bits d = record blank {
  family = double_operand;
  opcode = op;
  source = s;
  ad = ad;
  bw = bw;
  as_bits = as_bits;
  destination = d;
  mode = interp_as as_bits;
  dst_mode = if ad == 1 then (if d == 2 then absolute else indexed) else reg_direct;
}

double_fields-word :
    (op s ad bw as_bits d : ℕ)
    → op < 16
    → s < 16
    → ad < 2
    → bw < 2
    → as_bits < 4
    → d < 16
    → double_fields (op * 4096 + s * 256 + ad * 128 + bw * 64 + as_bits * 16 + d)
      ≡ fields_of op s ad bw as_bits d
unfolding double_fields fields_of
double_fields-word op s ad bw as_bits d p q r t u w =
    let n = op * 4096 + s * 256 + ad * 128 + bw * 64 + as_bits * 16 + d in
    let op_field : bit_and (n / 4096) 15 ≡ op = omega (arith, bit_and_mask 4 (n / 4096)) in
    let s_field : bit_and (n / 256) 15 ≡ s = omega (arith, bit_and_mask 4 (n / 256)) in
    let ad_field : bit_and (n / 128) 1 ≡ ad = omega (arith, bit_and-one (n / 128)) in
    let bw_field : bit_and (n / 64) 1 ≡ bw = omega (arith, bit_and-one (n / 64)) in
    let as_field : bit_and (n / 16) 3 ≡ as_bits = omega (arith, bit_and_mask 2 (n / 16)) in
    let d_field : bit_and n 15 ≡ d = omega (arith, bit_and_mask 4 n) in ground arith

-- What the decoder reads of those words.
abbrev pub WordsAt : Slice → Option ℕ → Option ℕ → Type 0
WordsAt raw none none = Unit {0}
WordsAt raw (some x) none = word_at raw 2 ≡ ok x
WordsAt raw none (some y) = word_at raw 2 ≡ ok y
WordsAt raw (some x) (some y) = (word_at raw 2 ≡ ok x) × (word_at raw 4 ≡ ok y)

pub words_at : (raw : Slice) (a b : Option ℕ) → HoldsWords raw a b → WordsAt raw a b
words_at raw none none w = tt
words_at raw (some x) none w = word_at-Holds w
words_at raw none (some y) w = word_at-Holds w
words_at raw (some x) (some y) w = (word_at-Holds w.0, word_at-Holds w.1)

abbrev pub finish : Slice → Insn → Result Insn
finish raw j = reslice raw j.width >>= λ s. ok (record j { raw = s })

extend_double :
    (op bw : ℕ) (src : Source) (dst : Destination) (raw : Slice)
    → IsSource src
    → IsDestination dst
    → WordsAt raw (source_word src) (destination_word dst)
    → 6 ≤ raw.cap
    → (extension_words raw (
          fields_of op
            (source_register src)
            (destination_ad dst)
            bw
            (source_as src)
            (destination_register dst))
        >>= adjust_modes
        >>= finish raw)
      ≡ ok (double_insn op bw src dst raw)
unfolding extension_words adjust_modes fields_of interp_as reslice
extend_double op bw (Source.in_register r) (in_register q) raw p q' w cap = ground arith
extend_double op bw (constant Encode.zero) (in_register q) raw p q' w cap = ground arith
extend_double op bw _ _ raw p q' w cap = ground arith

family_of_double : (n : ℕ) → 16384 ≤ n → n < 65536 → family_of n ≡ double_operand
unfolding family_of
family_of_double n p q = ground (arith, bit_and_mask 3 (n / 8192))

pub family_of_jump : (n : ℕ) → 8192 ≤ n → n < 16384 → family_of n ≡ cond_jump
unfolding family_of
family_of_jump n p q = ground (arith, bit_and_mask 3 (n / 8192))

pub family_of_single : (n : ℕ) → n < 8192 → family_of n ≡ single_operand
unfolding family_of
family_of_single n q = ground (arith, bit_and_mask 3 (n / 8192))

-- `Disassemble` up to the decoding by family.
pub begins :
    (raw : Slice) (n : ℕ) (family : Family)
    → Holds raw 0 n
    → 6 ≤ raw.cap
    → family_of n ≡ family
    → disassemble raw ≡ (decode_family family raw n >>= finish raw)
unfolding disassemble
begins raw n family w cap f =
    rw (le→ltb raw.cap 2 (omega arith), word_at-Holds w, wraps n w.is_word, f) refl
  where
    wraps : (n : ℕ) → n < 65536 → u16 n ≡ n
    wraps n h = omega arith

-- An encoded instruction of two operands is decoded to the instruction that it means, for every
-- opcode and every pair of operands.
pub disassemble-double :
    (op bw : ℕ) (src : Source) (dst : Destination) (raw : Slice)
    → 4 ≤ op
    → op < 16
    → bw < 2
    → IsSource src
    → IsDestination dst
    → Holds raw 0 (double_word op bw src dst)
    → HoldsWords raw (source_word src) (destination_word dst)
    → 6 ≤ raw.cap
    → disassemble raw ≡ ok (double_insn op bw src dst raw)
disassemble-double op bw src dst raw low high b is_src is_dst w words cap =
    begins raw (double_word op bw src dst) double_operand w cap
      (family_of_double _ (omega arith) w.is_word)
    ∙ (unfold decode_family decode_double in
        rw (double_fields-word op _ _ bw _ _ high ranges.0 dst_ranges.1 b ranges.1 dst_ranges.0) (
          extend_double op bw src dst raw is_src is_dst
            (words_at raw (source_word src) (destination_word dst) words) cap))
  where
    ranges : (source_register src < 16) × (source_as src < 4)
    ranges = source_ranges src is_src

    dst_ranges : (destination_register dst < 16) × (destination_ad dst < 2)
    dst_ranges = destination_ranges dst is_dst
