-- ===== src/Msp43x/Constants.antt =====
-- src/newmadrid/msp43x/constants.go. Opcodes and conditions stay numbers, as the source computes
-- them from the instruction word and lets the two groups of opcodes overlap.
pub mod Cond
pub mod Op1
pub mod Op2
use formaldehyde.Prelude.{ℕ, Bool, true, false, String, ◌==◌, if◌then◌else◌}

pub data Family : Type 0 where
  single_operand cond_jump double_operand : Family

pub data AddrMode : Type 0 where
  reg_direct indexed reg_indirect indirect_incr symbolic immediate absolute : AddrMode
  const_4 const_8 const_0 const_1 const_2 const_neg_1 : AddrMode

pub family_string : Family → String
family_string single_operand = "Single Operand"
family_string cond_jump = "Conditional Jump"
family_string double_operand = "Double Operand"

pub mode_name : AddrMode → String
mode_name reg_direct = "RegDirect"
mode_name indexed = "Indexed"
mode_name reg_indirect = "RegIndirect"
mode_name indirect_incr = "IndirectIncr"
mode_name symbolic = "Symbolic"
mode_name immediate = "Immediate"
mode_name absolute = "Absolute"
mode_name const_4 = "Const4"
mode_name const_8 = "Const8"
mode_name const_0 = "Const0"
mode_name const_1 = "Const1"
mode_name const_2 = "Const2"
mode_name const_neg_1 = "ConstNeg1"

pub condition_string : ℕ → String
condition_string c =
    if c == Cond.jnz
    then "JNZ"
    else if c == Cond.jz
    then "JZ"
    else if c == Cond.jnc
    then "JNC"
    else if c == Cond.jc
    then "JC"
    else if c == Cond.jn
    then "JN"
    else if c == Cond.jge
    then "JGE"
    else if c == Cond.jl
    then "JL"
    else if c == Cond.jmp
    then "JMP"
    else "Invalid"

single_string : ℕ → String
single_string o =
    if o == Op1.rrc
    then "RRC"
    else if o == Op1.swpb
    then "SWPB"
    else if o == Op1.rra
    then "RRA"
    else if o == Op1.sxt
    then "SXT"
    else if o == Op1.push
    then "PUSH"
    else if o == Op1.call
    then "CALL"
    else if o == Op1.reti
    then "RETI"
    else "INVALID"

double_string : ℕ → String
double_string o =
    if o == Op2.mov
    then "MOV"
    else if o == Op2.add
    then "ADD"
    else if o == Op2.addc
    then "ADDC"
    else if o == Op2.subc
    then "SUBC"
    else if o == Op2.sub
    then "SUB"
    else if o == Op2.cmp
    then "CMP"
    else if o == Op2.dadd
    then "DADD"
    else if o == Op2.bit
    then "BIT"
    else if o == Op2.bic
    then "BIC"
    else if o == Op2.bis
    then "BIS"
    else if o == Op2.xor
    then "XOR"
    else if o == Op2.and
    then "AND"
    else "INVALID"

unfoldable pub opcode_string : ℕ → Bool → String
unfolding single_string double_string
opcode_string o true = single_string o
opcode_string o false = double_string o
