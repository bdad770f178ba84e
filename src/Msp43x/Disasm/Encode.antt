-- ===== src/Msp43x/Disasm/Encode.antt =====
-- The MSP430's encoding of instructions, written down apart from the decoder, for the theorems that
-- `Disassemble` of src/newmadrid/msp43x/disasm.go inverts it.
use formaldehyde.Prelude.{ℕ, ◌<◌, ◌≢◌, Option, none, some}
use formaldehyde.Msp43x.Constants.{
  AddrMode, reg_direct, indexed, reg_indirect, indirect_incr, immediate, absolute, const_4, const_8,
  const_0, const_1, const_2, const_neg_1,
}

-- The constants that the two constant generators give.
pub data Const : Type 0 where
  zero one two minus_one four eight : Const

-- A source operand, and a destination operand.
pub data Source : Type 0 where
  in_register : ℕ → Source
  at_index : ℕ → ℕ → Source
  at_register : ℕ → Source
  at_register_then_next : ℕ → Source
  literal : ℕ → Source
  at_address : ℕ → Source
  constant : Const → Source

pub data Destination : Type 0 where
  in_register : ℕ → Destination
  at_index : ℕ → ℕ → Destination
  at_address : ℕ → Destination

abbrev pub const_register : Const → ℕ
const_register four = 2
const_register eight = 2
const_register _ = 3

abbrev pub const_as : Const → ℕ
const_as zero = 0
const_as one = 1
const_as two = 2
const_as minus_one = 3
const_as four = 2
const_as eight = 3

abbrev pub const_mode : Const → AddrMode
const_mode zero = const_0
const_mode one = const_1
const_mode two = const_2
const_mode minus_one = const_neg_1
const_mode four = const_4
const_mode eight = const_8

abbrev pub source_register : Source → ℕ
source_register (Source.in_register r) = r
source_register (Source.at_index r x) = r
source_register (at_register r) = r
source_register (at_register_then_next r) = r
source_register (literal n) = 0
source_register (Source.at_address a) = 2
source_register (constant c) = const_register c

abbrev pub source_as : Source → ℕ
source_as (Source.in_register r) = 0
source_as (Source.at_index r x) = 1
source_as (at_register r) = 2
source_as (at_register_then_next r) = 3
source_as (literal n) = 3
source_as (Source.at_address a) = 1
source_as (constant c) = const_as c

abbrev pub source_mode : Source → AddrMode
source_mode (Source.in_register r) = reg_direct
source_mode (Source.at_index r x) = indexed
source_mode (at_register r) = reg_indirect
source_mode (at_register_then_next r) = indirect_incr
source_mode (literal n) = immediate
source_mode (Source.at_address a) = absolute
source_mode (constant c) = const_mode c

-- The word after the instruction word, if the operand has one.
abbrev pub source_word : Source → Option ℕ
source_word (Source.at_index r x) = some x
source_word (literal n) = some n
source_word (Source.at_address a) = some a
source_word _ = none

abbrev pub destination_register : Destination → ℕ
destination_register (in_register r) = r
destination_register (at_index r x) = r
destination_register (at_address a) = 2

abbrev pub destination_mode : Destination → AddrMode
destination_mode (in_register r) = reg_direct
destination_mode (at_index r x) = indexed
destination_mode (at_address a) = absolute

abbrev pub destination_word : Destination → Option ℕ
destination_word (in_register r) = none
destination_word (at_index r x) = some x
destination_word (at_address a) = some a

-- The registers that an operand can name without meaning another operand.
abbrev pub IsSource : Source → Type 0
IsSource (Source.in_register r) = (r < 16) × (r ≢ 3)
IsSource (Source.at_index r x) = (r < 16) × (r ≢ 2) × (r ≢ 3) × (x < 65536)
IsSource (at_register r) = (r < 16) × (r ≢ 2) × (r ≢ 3)
IsSource (at_register_then_next r) = (r < 16) × (r ≢ 0) × (r ≢ 2) × (r ≢ 3)
IsSource (literal n) = n < 65536
IsSource (Source.at_address a) = a < 65536
IsSource (constant c) = Unit {0}

abbrev pub IsDestination : Destination → Type 0
IsDestination (in_register r) = r < 16
IsDestination (at_index r x) = (r < 16) × (r ≢ 2) × (x < 65536)
IsDestination (at_address a) = a < 65536
