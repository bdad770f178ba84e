-- ===== src/Msp43x/SimpleMemory/Laws.antt =====
-- What a store leaves in the array of src/newmadrid/msp43x/simple_memory.go, and what a load finds.
use formaldehyde.Prelude.{
  ℕ, ◌+◌, ◌*◌, ◌/◌, ◌%◌, ◌^◌, ◌≤◌, ◌<◌, ◌≡◌, ◌≢◌, refl, arith, ◌∙◌, u8, u16, update,
}
use formaldehyde.Prelude.Outcome.{ok, ◌>>◌, >>=-ok}
use formaldehyde.Bits.{bit_and_mask, bit_and-one, bit_or_fields}
use formaldehyde.Msp43x.SimpleMemory.{SimpleMemory, load_word, store_word, load_byte}

abbrev pub IsBytes : SimpleMemory → Type 0
IsBytes mem = (a : ℕ) → mem.byte a < 256

-- The memory after `store_word`, in arithmetic.
abbrev pub stored : ℕ → ℕ → SimpleMemory → SimpleMemory
stored address value mem = record {
  byte = update (update mem.byte (u16 (address + 1)) (value / 256 % 256)) address (value % 256);
}

pub store_word-stored :
    (address value : ℕ) (mem : SimpleMemory)
    → store_word address value mem ≡ ok tt (stored address value mem)
unfolding store_word
store_word-stored address value mem =
    rw (bit_and_mask 8 (value / 2 ^ 8), bit_and_mask 8 value)
      (rw (u8_low value, u8_low (value / 256)) refl)
  where
    u8_low : (n : ℕ) → u8 (n % 256) ≡ n % 256
    u8_low n = omega arith

-- A word load at an even address up to 0xfffc is the two bytes there, the low one first.
pub load_word-bytes :
    (address : ℕ) (mem : SimpleMemory)
    → address % 2 ≡ 0
    → address ≤ 0xfffc
    → mem.byte address < 256
    → mem.byte (address + 1) < 256
    → load_word address mem ≡ ok (mem.byte (address + 1) * 256 + mem.byte address) mem
unfolding load_word
load_word-bytes address mem even below low high =
    ground (arith, bit_and-one address, bit_or_fields 8 (mem.byte (address + 1)) (mem.byte address))

-- A word that is stored at an even address up to 0xfffc is loaded back.
pub load_word-store_word :
    (address value : ℕ) (mem : SimpleMemory)
    → address % 2 ≡ 0
    → address ≤ 0xfffc
    → value < 65536
    → (store_word address value >> load_word address) mem ≡ ok value (stored address value mem)
load_word-store_word address value mem even below fits =
    >>=-ok (store_word address value) (λ _. load_word address) mem
      (store_word-stored address value mem)
    ∙ ground (arith, load_word-bytes address (stored address value mem))

-- `store_word` writes the low byte at its address and the high byte at the next one, wrapping from
-- 0xffff to 0, odd addresses included, and no other byte.
load_byte-store_word :
    (address value j : ℕ) (mem : SimpleMemory)
    → address < 65536
    → value < 65536
    → j ≢ address
    → j ≢ u16 (address + 1)
    → let after = stored address value mem in
      (store_word address value mem ≡ ok tt after)
      × (load_byte address after ≡ ok (value % 256) after)
      × (load_byte (u16 (address + 1)) after ≡ ok (value / 256) after)
      × (after.byte j ≡ mem.byte j)
unfolding load_byte
load_byte-store_word address value j mem in_range fits p q =
    (store_word-stored address value mem, ground arith, ground arith, ground arith)

-- The bytes of a memory stay bytes.
pub store_word-IsBytes :
    (address value : ℕ) (mem : SimpleMemory) → IsBytes mem → IsBytes (stored address value mem)
store_word-IsBytes address value mem h j = ground (arith, h j)
