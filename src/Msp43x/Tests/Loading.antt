-- ===== src/Msp43x/Tests/Loading.antt =====
-- An image of one record, loaded, and an instruction printed.
use formaldehyde.Prelude.{
  ℕ, ◌+◌, ◌-◌, ◌*◌, ◌^◌, ◌≡◌, refl, arith, ℤ, pos, leb, ltb, ◌&&◌, if◌then◌else◌, List, [], ◌∷◌,
  Option, none, some, Result, ok, err, plain_error, get_elem?,
}
use formaldehyde.Msp43x.Slice.{Slice}
use formaldehyde.Msp43x.Insn.{is_byte}
use formaldehyde.Msp43x.Constants.{opcode_string, indexed}
use formaldehyde.Msp43x.Loader.{load_hex}
use formaldehyde.Msp43x.Loader.Laws.{store_records, load_hex-IsImage}
use formaldehyde.Msp43x.Listing.{
  Format, register_string, raw_string, operation_string, byte_suffix, mode_string, insn_string,
}
use formaldehyde.Msp43x.TestMachine.{mem, store, insn}

abbrev digit : ℕ → Option ℕ
digit c =
    if leb 48 c && leb c 57
    then some (c - 48)
    else if leb 97 c && leb c 102
    then some (c - 87)
    else none

abbrev digits_value : ℕ → List ℕ → Option ℕ
digits_value acc [] = some acc
digits_value acc (c ∷ cs) = elim (digit c) [ none ↦ none | some d ↦ digits_value (acc * 16 + d) cs ]

-- Lower-case digits with no sign, as `strconv.ParseInt` reads them in base 16.
abbrev parse_hex : List ℕ → ℕ → ℕ → Result ℤ
parse_hex cs base bits = elim (digits_value 0 cs) [
  | none ↦ err (plain_error "invalid syntax")
  | some v ↦ if ltb v (2 ^ (bits - 1)) then ok (pos v) else err (plain_error "value out of range")
]

-- ":0244000006550a", with the two data bytes 06 and 55.
abbrev characters : List ℕ
characters = 58 ∷ 48 ∷ 50 ∷ 52 ∷ 52 ∷ 48 ∷ 48 ∷ 48 ∷ 48 ∷ 48 ∷ 54 ∷ 53 ∷ 53 ∷ 48 ∷ 97 ∷ []

abbrev line : Slice
line = record {
  at = λ k. elim (get_elem? characters k) [ none ↦ 0 | some c ↦ c ];
  len = 15;
  cap = 4096;
}

load_hex-IsImage_example :
    load_hex mem parse_hex (line ∷ []) store
    ≡ store_records mem parse_hex ((0x4400, 0x06 ∷ 0x55 ∷ []) ∷ []) (mem.clear store)
load_hex-IsImage_example =
    load_hex-IsImage mem parse_hex (line ∷ []) ((0x4400, 0x06 ∷ 0x55 ∷ []) ∷ []) store
      ((omega arith, omega arith, refl, refl, (refl, omega arith, (refl, omega arith, tt))), tt)

-- A format that prints no digits.
abbrev fmt : Format
fmt = record { dec = λ n. "n"; dec_int = λ z. "z"; hex_int = λ z. "x"; hex = λ n. "h" }

mode_string_example : mode_string fmt indexed 4 (pos 2) ≡ "z(Rn)"
unfolding mode_string register_string
mode_string_example = refl

insn_string_example : insn_string fmt (insn 5) ≡ "h h             \tADD Rn, Rn"
unfolding insn_string raw_string operation_string byte_suffix opcode_string is_byte mode_string
    register_string
insn_string_example = refl
