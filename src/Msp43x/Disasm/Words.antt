-- ===== src/Msp43x/Disasm/Words.antt =====
-- The instruction word as its bit fields, and the words of a slice (src/newmadrid/msp43x/disasm.go).
use formaldehyde.Prelude.{ℕ, ◌+◌, ◌/◌, ◌%◌, ◌<◌, ◌≡◌, arith, ok}
use formaldehyde.Bits.{bit_or_fields}
use formaldehyde.Msp43x.Slice.{Slice}
use formaldehyde.Msp43x.Disasm.{word_at}

-- The slice holds the little-endian word `w` at `k`.
pub record Holds (raw : Slice) (k w : ℕ) : Type 0 where
  pub low : raw.at k ≡ w % 256
  pub high : raw.at (k + 1) ≡ w / 256
  pub inside : k + 1 < raw.len
  pub is_word : w < 65536

pub word_at-Holds : {raw : Slice} {k w : ℕ} → Holds raw k w → word_at raw k ≡ ok w
unfolding word_at
word_at-Holds {raw} {k} {w} h = ground (arith, bit_or_fields 8 (w / 256) (w % 256))
