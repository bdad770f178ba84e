-- ===== src/Prelude/Word.antt =====
-- Go's conversions between integer types of fixed width, and its shifts and complement.
use Prim.Native.Nat.{ℕ, ◌-◌, ◌*◌, ◌/◌, ◌%◌, ◌^◌}
use formaldehyde.Prelude.Tests.{ltb, if◌then◌else◌}
use formaldehyde.Prelude.Int.{ℤ, pos, negsuc}

-- `uint8(n)` and `uint16(n)` of an unsigned value.
abbrev pub u8 : ℕ → ℕ
u8 n = n % 256

abbrev pub u16 : ℕ → ℕ
u16 n = n % 65536

-- `uint8(z)` and `uint16(z)` of a signed value, which keep the low bits of its two's complement.
abbrev pub u8_of : ℤ → ℕ
u8_of (pos n) = n % 256
u8_of (negsuc n) = 255 - n % 256

abbrev pub u16_of : ℤ → ℕ
u16_of (pos n) = n % 65536
u16_of (negsuc n) = 65535 - n % 65536

-- `int8(n)` and `int16(n)`, which read the low bits as two's complement.
abbrev pub int8 : ℕ → ℤ
int8 n = if ltb (n % 256) 128 then pos (n % 256) else negsuc (255 - n % 256)

abbrev pub int16 : ℕ → ℤ
int16 n = if ltb (n % 65536) 32768 then pos (n % 65536) else negsuc (65535 - n % 65536)

infixl 75 ◌<<◌ ◌>>>◌
-- A left shift with no bits cut off, and a right shift of an unsigned value.
abbrev pub ◌<<◌ : ℕ → ℕ → ℕ
x << k = x * 2 ^ k

abbrev pub ◌>>>◌ : ℕ → ℕ → ℕ
x >>> k = x / 2 ^ k

-- `^x` of a `uint16`.
abbrev pub not16 : ℕ → ℕ
not16 x = 65535 - x % 65536

-- `int64(z)` of a sum of two `int64`s, which wraps.
abbrev pub int64 : ℤ → ℤ
int64 (pos n) = let r = n % 2 ^ 64 in if ltb r (2 ^ 63) then pos r else negsuc (2 ^ 64 - 1 - r)
int64 (negsuc n) = let r = n % 2 ^ 64 in if ltb r (2 ^ 63) then negsuc r else pos (2 ^ 64 - 1 - r)
