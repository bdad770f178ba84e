-- ===== src/Msp43x/SimpleMemory.antt =====
-- src/newmadrid/msp43x/simple_memory.go: a memory that is just an array of 65536 bytes, here the
-- function from an address to its byte. An index is a `uint16`, so it is in range after the wrap.
-- `*SimpleMemory` has no `LoadWordDirect` or `StoreWordDirect`, so it is no `Memory` by itself.
pub mod Laws
pub mod Bounds
use formaldehyde.Prelude.{
  ℕ, ◌+◌, ◌<<◌, ◌>>>◌, bit_and, bit_or, Bool, ltb, ◌==◌, not, if◌then◌else◌, u8, u16, update,
  cpu_error, address_unaligned, address_too_high,
}
use formaldehyde.Prelude.Outcome.{Outcome, ok, err, lift}
use formaldehyde.Msp43x.Slice.{Slice, slice_array}

pub record SimpleMemory : Type 0 where
  pub byte : ℕ → ℕ

-- `Clear`.
unfoldable pub clear : SimpleMemory → SimpleMemory
clear mem = record { byte = λ i. 0 }

abbrev is_odd : ℕ → Bool
is_odd address = not (bit_and address 1 == 0)

-- The bounds of the slice are `uint16`s, `address + 6` too.
unfoldable pub load_6_bytes : ℕ → SimpleMemory → Outcome SimpleMemory Slice
unfolding slice_array
load_6_bytes address mem =
    if is_odd address
    then err (cpu_error address_unaligned "insn address unaligned") mem
    else if ltb 0xfffa address
    then err (cpu_error address_too_high "insn address would wrap") mem
    else lift (slice_array mem.byte 65536 address (u16 (address + 6))) mem

unfoldable pub load_word : ℕ → SimpleMemory → Outcome SimpleMemory ℕ
load_word address mem =
    if is_odd address
    then err (cpu_error address_unaligned "load address unaligned") mem
    else if ltb 0xfffc address
    then err (cpu_error address_too_high "load address would wrap") mem
    else ok (u16 (bit_or (mem.byte (u16 (address + 1)) << 8) (mem.byte address))) mem

unfoldable pub store_word : ℕ → ℕ → SimpleMemory → Outcome SimpleMemory (Unit {0})
store_word address value mem =
    let high = update mem.byte (u16 (address + 1)) (u8 (bit_and (value >>> 8) 0xff)) in
    ok tt (record { byte = update high address (u8 (bit_and value 0xff)) })

unfoldable pub load_byte : ℕ → SimpleMemory → Outcome SimpleMemory ℕ
load_byte address mem = ok (mem.byte address) mem

unfoldable pub store_byte : ℕ → ℕ → SimpleMemory → Outcome SimpleMemory (Unit {0})
store_byte address value mem = ok tt (record { byte = update mem.byte address value })

unfoldable pub read : ℕ → ℕ → SimpleMemory → Outcome SimpleMemory Slice
unfolding slice_array
read address len mem =
    if ltb (u16 (address + len)) address
    then err (cpu_error address_too_high "read address would wrap") mem
    else lift (slice_array mem.byte 65536 address (u16 (address + len))) mem
