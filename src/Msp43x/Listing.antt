-- ===== src/Msp43x/Listing.antt =====
-- `mode_string` and `Insn.String` of src/newmadrid/msp43x/disasm.go: an instruction in assembly.
-- What `fmt.Sprintf` prints for a number is a parameter.
use formaldehyde.Prelude.{
  ℕ, zero, suc, ◌+◌, ℤ, pos, ◌+ℤ◌, ◌==◌, true, false, ltb, if◌then◌else◌, String, u16_of, int16,
}
use Prim.Native.String.{◌++◌}
use formaldehyde.Msp43x.Constants.{
  Family, single_operand, cond_jump, double_operand, AddrMode, reg_direct, indexed, reg_indirect,
  indirect_incr, immediate, const_4, const_8, const_0, const_1, const_2, const_neg_1, opcode_string,
  condition_string,
}
use formaldehyde.Msp43x.Insn.{Insn, is_byte}
use formaldehyde.Msp43x.Slice.{Slice}

-- The verbs `%d` of a number, `%d` and `%0.2x` of an `int16`, and `%0.2x` of a byte.
pub record Format : Type 0 where
  pub dec : ℕ → String
  pub dec_int : ℤ → String
  pub hex_int : ℤ → String
  pub hex : ℕ → String

module _ (fmt : Format) where
  -- The second `switch`, which register 3 never reaches.
  unfoldable pub register_string : AddrMode → ℕ → ℤ → String
  register_string reg_direct reg ext = "R" ++ fmt.dec reg
  register_string indexed reg ext =
      if reg == 2 then "&" ++ fmt.hex_int ext else fmt.dec_int ext ++ ("(R" ++ (fmt.dec reg ++ ")"))
  register_string reg_indirect reg ext = "@R" ++ fmt.dec reg
  register_string indirect_incr reg ext = "@R" ++ (fmt.dec reg ++ "+")
  register_string _ reg ext = "???"

  -- The third `switch`, for register 3.
  unfoldable pub generator_string : AddrMode → String
  generator_string reg_direct = "4"
  generator_string indexed = "8"
  generator_string reg_indirect = "0"
  generator_string indirect_incr = "-1"
  generator_string _ = "???"

  unfoldable pub mode_string : AddrMode → ℕ → ℤ → String
  mode_string immediate reg ext = "#" ++ fmt.dec_int ext
  mode_string const_8 reg ext = "#8"
  mode_string const_4 reg ext = "#4"
  mode_string const_2 reg ext = "#2"
  mode_string const_1 reg ext = "#1"
  mode_string const_0 reg ext = "#0"
  mode_string const_neg_1 reg ext = "#-1"
  mode_string mode reg ext =
      if reg == 3 then generator_string mode else register_string mode reg ext

  -- The loop over the raw bytes, from byte `k`, with `n` columns left.
  unfoldable pub raw_string : Slice → ℕ → ℕ → String
  raw_string raw k zero = ""
  raw_string raw k (suc n) =
      let rest = raw_string raw (k + 1) n in
      (if ltb k raw.len then fmt.hex (raw.at k) ++ " " else "   ") ++ rest

  unfoldable pub byte_suffix : Insn → String
  byte_suffix i = if is_byte i then ".B" else ""

  -- The last `switch` of `String`.
  unfoldable pub operation_string : Family → Insn → String
  operation_string single_operand i =
      opcode_string i.opcode true ++ (byte_suffix i ++ (" " ++ mode_string i.mode i.source i.srcx))
  operation_string cond_jump i =
      condition_string i.condition ++ (" $" ++ fmt.dec_int (int16 (u16_of (i.offset +ℤ pos 2))))
  operation_string double_operand i =
      opcode_string i.opcode false
      ++ (byte_suffix i
          ++ (" "
              ++ (mode_string i.mode i.source i.srcx
                  ++ (", " ++ mode_string i.dst_mode i.destination i.dstx))))

  -- `Insn.String`.
  unfoldable pub insn_string : Insn → String
  insn_string i = raw_string i.raw 0 6 ++ ("\t" ++ operation_string i.family i)
