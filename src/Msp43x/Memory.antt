-- ===== src/Msp43x/Memory.antt =====
-- The interface `Memory` of src/newmadrid/msp43x/cpu.go: what the CPU boots from, reads and writes.
-- `M` is the memory's state, which a load may change too, as a hook runs at it.
use formaldehyde.Prelude.{ℕ}
use formaldehyde.Prelude.Outcome.{Outcome}
use formaldehyde.Msp43x.Slice.{Slice}

pub record Memory (M : Type 0) : Type 0 where
  pub load_6_bytes : ℕ → M → Outcome M Slice
  pub load_word : ℕ → M → Outcome M ℕ
  pub load_word_direct : ℕ → M → Outcome M ℕ
  pub store_word : ℕ → ℕ → M → Outcome M (Unit {0})
  pub store_word_direct : ℕ → ℕ → M → Outcome M (Unit {0})
  pub load_byte : ℕ → M → Outcome M ℕ
  pub store_byte : ℕ → ℕ → M → Outcome M (Unit {0})
  pub read : ℕ → ℕ → M → Outcome M Slice
  pub clear : M → M
