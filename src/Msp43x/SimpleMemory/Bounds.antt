-- ===== src/Msp43x/SimpleMemory/Bounds.antt =====
-- Which accesses src/newmadrid/msp43x/simple_memory.go refuses, and which of them panic.
use formaldehyde.Prelude.{
  ℕ, ◌+◌, ◌-◌, ◌*◌, ◌%◌, ◌≤◌, ◌<◌, ◌≡◌, ◌⊎◌, inl, inr, arith, cpu_error, address_unaligned,
  address_too_high, parity, order_cases, lt-cases,
}
use formaldehyde.Prelude.Outcome.{ok, err, panic}
use formaldehyde.Bits.{bit_and-one}
use formaldehyde.Msp43x.Slice.{Slice}
use formaldehyde.Msp43x.SimpleMemory.{SimpleMemory, load_6_bytes, load_word, read}
use formaldehyde.Msp43x.SimpleMemory.Laws.{IsBytes, load_word-bytes}

-- `length` bytes of the memory from an address on.
abbrev pub view : SimpleMemory → ℕ → ℕ → Slice
view mem address length = record {
  at = λ k. mem.byte (address + k);
  len = length;
  cap = 65536 - address;
}

-- `Load6Bytes` at each address: an odd one is refused; an even one below 0xfffa gives the six bytes
-- there; 0xfffa itself, whose six bytes are the last of the memory, panics, since the end of the
-- slice wraps to 0; the even ones above are refused.
pub load_6_bytes_cases :
    (address : ℕ) (mem : SimpleMemory)
    → ((address % 2 ≡ 1)
        × (load_6_bytes address mem
            ≡ err (cpu_error address_unaligned "insn address unaligned") mem))
      ⊎ ((address % 2 ≡ 0)
          × (address < 0xfffa)
          × (load_6_bytes address mem ≡ ok (view mem address 6) mem))
      ⊎ ((address ≡ 0xfffa) × (load_6_bytes address mem ≡ panic))
      ⊎ ((address % 2 ≡ 0)
          × (0xfffa < address)
          × (load_6_bytes address mem
              ≡ err (cpu_error address_too_high "insn address would wrap") mem))
unfolding load_6_bytes
load_6_bytes_cases address mem = elim (parity address) [
  | inl odd ↦ inl (odd, ground (arith, bit_and-one address))
  | inr even ↦ elim (order_cases address 0xfffa) [
    | inl below ↦ inr (inl (even, below, ground (arith, bit_and-one address)))
    | inr (inl at) ↦ inr (inr (inl (at, ground (arith, bit_and-one address))))
    | inr (inr above) ↦ inr (inr (inr (even, above, ground (arith, bit_and-one address))))
  ]
]

-- `LoadWord` at each address, in a memory of bytes: an odd one is refused; an even one up to 0xfffc
-- gives the little-endian word there; the even ones above are refused, 0xfffe with its two bytes
-- inside the memory among them.
load_word_cases :
    (address : ℕ) (mem : SimpleMemory)
    → IsBytes mem
    → ((address % 2 ≡ 1)
        × (load_word address mem ≡ err (cpu_error address_unaligned "load address unaligned") mem))
      ⊎ ((address % 2 ≡ 0)
          × (address ≤ 0xfffc)
          × (load_word address mem ≡ ok (mem.byte (address + 1) * 256 + mem.byte address) mem))
      ⊎ ((address % 2 ≡ 0)
          × (0xfffc < address)
          × (load_word address mem
              ≡ err (cpu_error address_too_high "load address would wrap") mem))
unfolding load_word
load_word_cases address mem bytes = elim (parity address) [
  | inl odd ↦ inl (odd, ground (arith, bit_and-one address))
  | inr even ↦ elim (lt-cases 0xfffc address) [
    | inl above ↦ inr (inr (even, above, ground (arith, bit_and-one address)))
    | inr below ↦ inr (
        inl (
          even,
          below,
          load_word-bytes address mem even below (bytes address) (bytes (address + 1)),
        ))
  ]
]

-- `Read` of `len` bytes never panics: it gives the bytes when they end below 0x10000, and refuses
-- otherwise, also where they end exactly with the memory.
pub read_cases :
    (address len : ℕ) (mem : SimpleMemory)
    → address < 65536
    → len < 65536
    → ((address + len < 65536) × (read address len mem ≡ ok (view mem address len) mem))
      ⊎ ((65536 ≤ address + len)
          × (read address len mem ≡ err (cpu_error address_too_high "read address would wrap") mem))
unfolding read
read_cases address len mem in_range fits = elim (lt-cases (address + len) 65536) [
  | inl inside ↦ inl (inside, ground arith)
  | inr outside ↦ inr (outside, ground arith)
]
