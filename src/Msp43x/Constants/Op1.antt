-- ===== src/Msp43x/Constants/Op1.antt =====
-- The opcodes of one operand: `Op1Rrc` to `Op1Reti`.
use Prim.Native.Nat.{ℕ}

abbrev pub rrc : ℕ
rrc = 0

abbrev pub swpb : ℕ
swpb = 1

abbrev pub rra : ℕ
rra = 2

abbrev pub sxt : ℕ
sxt = 3

abbrev pub push : ℕ
push = 4

abbrev pub call : ℕ
call = 5

abbrev pub reti : ℕ
reti = 6
