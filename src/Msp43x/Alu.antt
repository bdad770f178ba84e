-- ===== src/Msp43x/Alu.antt =====
-- The arithmetic of `Execute` in src/newmadrid/msp43x/cpu.go: the value that each opcode computes (S2)
-- and the flags that it sets (S3). `src`, `dst` and `tmp` are `uint16`s.
pub mod Flags
pub mod Values
use formaldehyde.Prelude.{
  ℕ, ◌+◌, ◌<<◌, ◌>>>◌, bit_and, bit_or, bit_xor, Bool, true, false, ltb, leb, ◌==◌, ◌||◌, ◌&&◌,
  if◌then◌else◌, u8, u16, not16, int8, int16, is_neg, is_pos,
}
use formaldehyde.Msp43x.Constants.Op1
use formaldehyde.Msp43x.Constants.Op2
use formaldehyde.Msp43x.Cpu.{Cpu, set_c, set_z, set_n, set_v}

-- `Op1Rrc`: `c` is the carry flag before.
unfoldable pub rrc : Bool → ℕ → ℕ → ℕ
rrc true c src = bit_or (u8 (u8 c << 7)) (u8 (src >>> 1))
rrc false c src = bit_or (u16 (u16 c << 15)) (src >>> 1)

unfoldable pub swpb : ℕ → ℕ
swpb src = bit_or (src >>> 8) (u16 (bit_and src 0xff << 8))

unfoldable pub rra : Bool → ℕ → ℕ
rra true src =
    let y = bit_and (src >>> 7) 1 in u8 (bit_or (bit_and (src >>> 1) 0x40) (u16 (y << 7)))
rra false src =
    let y = bit_and (src >>> 15) 1 in bit_or (bit_and (src >>> 1) 0x4000) (u16 (y << 15))

unfoldable pub sxt : ℕ → ℕ
sxt src = if bit_and src 0x80 == 0 then bit_and src 0xff else bit_or 0xff00 src

-- The `switch` of the two-operand S2; `c` is the carry flag. `Op2Bic` complements `src` and computes
-- nothing, and `Op2Dadd` is not implemented, so `tmp` stays 0 for both.
unfoldable pub eval_double : ℕ → Bool → ℕ → ℕ → ℕ → ℕ
eval_double opcode byte c src dst =
    if opcode == Op2.mov
    then (if byte then bit_and src 0xff else src)
    else if opcode == Op2.add
    then (if byte then u8 (u8 src + u8 dst) else u16 (src + dst))
    else if opcode == Op2.addc
    then (if byte
        then (if c == 0 then u8 (u8 src + u8 dst) else u8 (u8 (u8 src + u8 dst) + 1))
        else (if c == 0 then u16 (src + dst) else u16 (u16 (src + dst) + 1)))
    else if opcode == Op2.cmp || opcode == Op2.sub
    then (if byte then u8 (u8 dst + u8 (u16 (not16 src + 1))) else u16 (dst + u16 (not16 src + 1)))
    else if opcode == Op2.subc
    then (if byte
        then u8 (u8 (u8 dst + u8 (u16 (not16 src + 1))) + u8 c)
        else u16 (u16 (dst + u16 (not16 src + 1)) + u16 c))
    else if opcode == Op2.bis
    then (if byte then bit_or (u8 src) (u8 dst) else bit_or src dst)
    else if opcode == Op2.xor
    then (if byte then bit_xor (u8 src) (u8 dst) else bit_xor src dst)
    else if opcode == Op2.bit || opcode == Op2.and
    then (if byte then bit_and (u8 src) (u8 dst) else bit_and src dst)
    else 0

abbrev pub is_add : ℕ → Bool
is_add opcode = opcode == Op2.add || opcode == Op2.addc

abbrev pub is_subtract : ℕ → Bool
is_subtract opcode = opcode == Op2.sub || opcode == Op2.subc || opcode == Op2.cmp

abbrev pub is_logic : ℕ → Bool
is_logic opcode = opcode == Op2.xor || opcode == Op2.bit || opcode == Op2.and

abbrev pub is_shift : ℕ → Bool
is_shift opcode = opcode == Op1.rrc || opcode == Op1.rra || opcode == Op1.sxt

module _ {M : Type 0} where
  -- The flags of one operand: the four `switch`es of its S3. A result that is not negative clears
  -- the zero flag, as the source has it.
  unfoldable pub single_c : ℕ → ℕ → Cpu M → Cpu M
  single_c opcode tmp cpu =
      if opcode == Op1.sxt then (if tmp == 0 then set_c 0 cpu else set_c 1 cpu) else cpu

  unfoldable pub single_v : ℕ → Cpu M → Cpu M
  single_v opcode cpu = if is_shift opcode then set_v 0 cpu else cpu

  unfoldable pub single_z : ℕ → ℕ → Cpu M → Cpu M
  single_z opcode tmp cpu =
      if is_shift opcode then (if tmp == 0 then set_z 1 cpu else set_z 0 cpu) else cpu

  unfoldable pub single_n : ℕ → Bool → ℕ → Cpu M → Cpu M
  single_n opcode byte tmp cpu =
      if is_shift opcode
      then (if (if byte then is_neg (int8 tmp) else is_neg (int16 tmp))
          then set_n 1 cpu
          else set_z 0 cpu)
      else cpu

  unfoldable pub single_flags : ℕ → Bool → ℕ → Cpu M → Cpu M
  single_flags opcode byte tmp cpu =
      single_n opcode byte tmp (single_z opcode tmp (single_v opcode (single_c opcode tmp cpu)))

  -- The flags of two operands.
  unfoldable pub double_c : ℕ → Bool → ℕ → ℕ → ℕ → Cpu M → Cpu M
  double_c opcode byte src dst tmp cpu =
      if is_add opcode
      then (if ltb (if byte then 0xff else 0xffff) (src + dst) then set_c 1 cpu else set_c 0 cpu)
      else if is_subtract opcode
      then (if leb src dst then set_c 1 cpu else set_c 0 cpu)
      else if is_logic opcode
      then (if tmp == 0 then set_c 0 cpu else set_c 1 cpu)
      else cpu

  unfoldable pub double_v : ℕ → ℕ → ℕ → ℕ → Cpu M → Cpu M
  double_v opcode src dst tmp cpu =
      if is_add opcode
      then (if (is_pos (int16 src) && is_pos (int16 dst) && is_neg (int16 tmp))
            || (is_neg (int16 src) && is_neg (int16 dst) && is_pos (int16 tmp))
          then set_v 1 cpu
          else set_v 0 cpu)
      else if is_subtract opcode
      then (if (is_pos (int16 src) && is_neg (int16 dst) && is_neg (int16 tmp))
            || (is_neg (int16 src) && is_pos (int16 dst) && is_pos (int16 tmp))
          then set_v 1 cpu
          else set_v 0 cpu)
      else if opcode == Op2.bit || opcode == Op2.and
      then set_v 0 cpu
      else if opcode == Op2.xor
      then (if is_neg (int16 dst) && is_neg (int16 src) then set_v 1 cpu else set_v 0 cpu)
      else cpu

  unfoldable pub double_n : ℕ → Bool → ℕ → Cpu M → Cpu M
  double_n opcode byte tmp cpu =
      if is_add opcode || is_subtract opcode
      then (if is_neg (int16 tmp) then set_n 1 cpu else set_n 0 cpu)
      else if is_logic opcode
      then (if bit_and tmp (if byte then 0x80 else 0x8000) == 0 then set_n 0 cpu else set_n 1 cpu)
      else cpu

  unfoldable pub double_z : ℕ → ℕ → Cpu M → Cpu M
  double_z opcode tmp cpu =
      if is_add opcode || is_subtract opcode || is_logic opcode
      then (if tmp == 0 then set_z 1 cpu else set_z 0 cpu)
      else cpu

  unfoldable pub double_flags : ℕ → Bool → ℕ → ℕ → ℕ → Cpu M → Cpu M
  double_flags opcode byte src dst tmp cpu = double_z opcode tmp (
      double_n opcode byte tmp (double_v opcode src dst tmp (double_c opcode byte src dst tmp cpu)))
