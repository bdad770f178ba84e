-- ===== src/Msp43x/Constants/Op2.antt =====
-- The opcodes of two operands: `Op2Mov` to `Op2And`.
use Prim.Native.Nat.{ℕ}

abbrev pub mov : ℕ
mov = 4

abbrev pub add : ℕ
add = 5

abbrev pub addc : ℕ
addc = 6

abbrev pub subc : ℕ
subc = 7

abbrev pub sub : ℕ
sub = 8

abbrev pub cmp : ℕ
cmp = 9

abbrev pub dadd : ℕ
dadd = 10

abbrev pub bit : ℕ
bit = 11

abbrev pub bic : ℕ
bic = 12

abbrev pub bis : ℕ
bis = 13

abbrev pub xor : ℕ
xor = 14

abbrev pub and : ℕ
and = 15
