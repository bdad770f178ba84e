-- ===== src/Msp43x/Constants/Cond.antt =====
-- The conditions of a jump: `CondJnz` to `CondJmp`.
use Prim.Native.Nat.{ℕ}

abbrev pub jnz : ℕ
jnz = 0

abbrev pub jz : ℕ
jz = 1

abbrev pub jnc : ℕ
jnc = 2

abbrev pub jc : ℕ
jc = 3

abbrev pub jn : ℕ
jn = 4

abbrev pub jge : ℕ
jge = 5

abbrev pub jl : ℕ
jl = 6

abbrev pub jmp : ℕ
jmp = 7
