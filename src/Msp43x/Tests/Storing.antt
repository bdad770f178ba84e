-- ===== src/Msp43x/Tests/Storing.antt =====
-- Tests of the memory, and its theorems at concrete addresses.
use formaldehyde.Prelude.{
  ℕ, ◌%◌, ◌<◌, ◌≡◌, ◌⊎◌, refl, arith, cpu_error, address_unaligned, address_too_high,
}
use formaldehyde.Prelude.Outcome.{ok, err, panic, ◌>>◌}
use formaldehyde.Msp43x.SimpleMemory.{SimpleMemory, load_6_bytes, load_word, store_word, load_byte}
use formaldehyde.Msp43x.SimpleMemory.Laws.{IsBytes, stored, load_word-store_word}
use formaldehyde.Msp43x.SimpleMemory.Bounds.{view, load_6_bytes_cases}

abbrev zeros : SimpleMemory
zeros = record { byte = λ a. 0 }

zeros-IsBytes : IsBytes zeros
zeros-IsBytes a = omega arith

wraps_at_top : load_byte 0 (stored 0xffff 0x1234 zeros) ≡ ok 0x12 (stored 0xffff 0x1234 zeros)
unfolding load_byte
wraps_at_top = refl

load_word-store_word_example :
    (store_word 0x4400 0xbeef >> load_word 0x4400) zeros ≡ ok 0xbeef (stored 0x4400 0xbeef zeros)
load_word-store_word_example =
    load_word-store_word 0x4400 0xbeef zeros (omega arith) (omega arith) (omega arith)

load_6_bytes_cases_example :
    ((0xfffa % 2 ≡ 1)
      × (load_6_bytes 0xfffa zeros
          ≡ err (cpu_error address_unaligned "insn address unaligned") zeros))
    ⊎ ((0xfffa % 2 ≡ 0)
        × (0xfffa < 0xfffa)
        × (load_6_bytes 0xfffa zeros ≡ ok (view zeros 0xfffa 6) zeros))
    ⊎ ((◌≡◌ {A = ℕ} 0xfffa 0xfffa) × (load_6_bytes 0xfffa zeros ≡ panic))
    ⊎ ((0xfffa % 2 ≡ 0)
        × (0xfffa < 0xfffa)
        × (load_6_bytes 0xfffa zeros
            ≡ err (cpu_error address_too_high "insn address would wrap") zeros))
load_6_bytes_cases_example = load_6_bytes_cases 0xfffa zeros
