-- ===== src/Msp43x/Loader.antt =====
-- `LoadHex` of src/newmadrid/msp43x/loader.go: an image of hexadecimal records is stored in a memory.
-- The reader is the list of the lines that `ReadLine` returns before its first error.
-- `strconv.ParseInt` of a text, a base and a bit size is a parameter.
pub mod Laws
use formaldehyde.Prelude.{
  ℕ, zero, suc, ◌+◌, ◌-◌, ◌*◌, ℤ, pos_part, neg_part, ltb, leb, ◌&&◌, if◌then◌else◌, List, [], ◌∷◌,
  Result, ok, panic, u8_of, u16_of, u16, plain_error, tabulate,
}
use formaldehyde.Prelude.Outcome.{Outcome, lift, fail, return, modify, ◌>>=◌, ◌>>◌}
use formaldehyde.Msp43x.Slice.{Slice}
use formaldehyde.Msp43x.Memory.{Memory}

-- `string(line[lo:hi])`. A line is a slice of the reader's buffer, so `hi` may pass its length.
unfoldable pub text : Slice → ℕ → ℕ → Result (List ℕ)
text line lo hi = if leb lo hi && leb hi line.cap then ok (tabulate line.at lo (hi - lo)) else panic

module _ {M : Type 0} (memory : Memory M) (parse_int : List ℕ → ℕ → ℕ → Result ℤ) where
  unfoldable pub field : Slice → ℕ → ℕ → ℕ → M → Outcome M ℤ
  unfolding text
  field line lo hi bits = lift (text line lo hi) >>= λ s. lift (parse_int s 16 bits)

  -- The inner loop, with `n` bytes left: byte `i` of the record goes to `addr`.
  unfoldable pub store_bytes : ℕ → ℕ → ℕ → Slice → M → Outcome M (Unit {0})
  store_bytes zero i addr line = return tt
  store_bytes (suc n) i addr line = field line (9 + i * 2) (9 + i * 2 + 2) 16 >>= λ byte.
      memory.store_byte addr (u8_of byte) >> store_bytes n (i + 1) (u16 (addr + 1)) line

  -- One round of the outer loop. A negative length stores nothing.
  unfoldable pub load_line : Slice → M → Outcome M (Unit {0})
  load_line line =
      if ltb line.len 3
      then fail (plain_error "line too short")
      else (field line 1 3 8 >>= λ bytelen.
          if ltb (line.len + neg_part bytelen * 2) (11 + pos_part bytelen * 2)
          then fail (plain_error "line too short for len")
          else (field line 3 7 32 >>= λ baseaddr.
              store_bytes (pos_part bytelen) 0 (u16_of baseaddr) line))

  unfoldable pub load_lines : List Slice → M → Outcome M (Unit {0})
  load_lines [] = return tt
  load_lines (line ∷ lines) = load_line line >> load_lines lines

  unfoldable pub load_hex : List Slice → M → Outcome M (Unit {0})
  load_hex lines = modify memory.clear >> load_lines lines
