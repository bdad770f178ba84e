-- ===== src/Msp43x/Operand.antt =====
-- The operands of an instruction: `src_operand`, `src_operand_store`, `dst_operand` and
-- `dst_operand_store` of src/newmadrid/msp43x/cpu.go.
use formaldehyde.Prelude.{
  ℕ, ◌+◌, ℤ, pos, ◌+ℤ◌, Bool, true, false, ◌==◌, if◌then◌else◌, u8, u16, u16_of, plain_error,
}
use formaldehyde.Prelude.Outcome.{Outcome, ok, ◌>>=◌, return, fail, modify, afterwards, lift}
use formaldehyde.Msp43x.Constants.{
  AddrMode, reg_direct, indexed, reg_indirect, indirect_incr, immediate, absolute, const_4, const_8,
  const_0, const_1, const_2, const_neg_1,
}
use formaldehyde.Msp43x.Memory.{Memory}
use formaldehyde.Msp43x.Insn.{Insn, is_byte, cg2v}
use formaldehyde.Msp43x.Cpu.{Cpu, bw_eval, bw_store, v, set_reg, on_memory}

module _ {M : Type 0} (mem : Memory M) where
  -- `if i.Byte() { … LoadByte … } else { … LoadWord … }`.
  unfoldable pub load : Insn → ℕ → Cpu M → Outcome (Cpu M) ℕ
  load i addr = if is_byte i then on_memory (mem.load_byte addr) else on_memory (mem.load_word addr)

  -- `if i.Byte() { … StoreByte … } else { … StoreWord … }`.
  unfoldable pub store : Insn → ℕ → ℕ → Cpu M → Outcome (Cpu M) (Unit {0})
  store i addr val =
      if is_byte i
      then on_memory (mem.store_byte addr (u8 val))
      else on_memory (mem.store_word addr val)

  -- What `AmIndirectIncr` adds to the register, also when the access returns an error.
  increment : Insn → Cpu M → Cpu M
  increment i cpu = set_reg i.source (u16 (cpu.regs i.source + (if is_byte i then 1 else 2))) cpu

  evaluated : Insn → ℤ → Cpu M → Outcome (Cpu M) ℕ
  evaluated i val = return (u16_of (bw_eval i val))

  src_operand_at : AddrMode → Insn → Cpu M → Outcome (Cpu M) ℕ
  unfolding load increment evaluated
  src_operand_at absolute i = do x ← on_memory (mem.load_word (u16_of i.srcx)); evaluated i (pos x)
  src_operand_at immediate i = evaluated i i.srcx
  src_operand_at reg_direct i = v i i.source >>= evaluated i
  src_operand_at indexed i = do
    base ← v i i.source
    x ← load i (u16_of (base +ℤ i.srcx))
    evaluated i (pos x)
  src_operand_at reg_indirect i = do
    addr ← v i i.source
    x ← load i (u16_of addr)
    evaluated i (pos x)
  src_operand_at indirect_incr i = do
    addr ← v i i.source
    x ← afterwards (increment i) (load i (u16_of addr))
    evaluated i (pos x)
  src_operand_at const_4 i = return 4
  src_operand_at const_8 i = return 8
  src_operand_at const_0 i = return 0
  src_operand_at const_1 i = return 1
  src_operand_at const_2 i = return 2
  src_operand_at const_neg_1 i = return 0xffff
  src_operand_at _ i = fail (plain_error "unknown/invalid source addressing mode")

  unfoldable pub src_operand : Insn → Cpu M → Outcome (Cpu M) ℕ
  unfolding src_operand_at
  src_operand i = src_operand_at i.mode i

  -- In the source the indexed and indirect cases write `uint8(v&0xff)`, which is `uint8(v)`.
  src_operand_store_at : AddrMode → Insn → ℕ → Cpu M → Outcome (Cpu M) (Unit {0})
  unfolding store increment
  src_operand_store_at absolute i val = store i (u16_of i.srcx) val
  src_operand_store_at reg_direct i val =
      if i.source == 3 then return tt else modify (bw_store i i.source val)
  src_operand_store_at indexed i val = do base ← v i i.source; store i (u16_of (base +ℤ i.srcx)) val
  src_operand_store_at reg_indirect i val = do addr ← v i i.source; store i (u16_of addr) val
  src_operand_store_at indirect_incr i val = do
    addr ← v i i.source
    afterwards (increment i) (store i (u16_of addr) val)
  src_operand_store_at _ i val = fail (plain_error "unknown/invalid source addressing mode")

  unfoldable pub src_operand_store : Insn → ℕ → Cpu M → Outcome (Cpu M) (Unit {0})
  unfolding src_operand_store_at
  src_operand_store i = src_operand_store_at i.mode i

  -- In the absolute mode the value returned is that of the byte variable `x`, which a word load
  -- leaves at 0.
  dst_absolute : Bool → Insn → Cpu M → Outcome (Cpu M) ℕ
  unfolding evaluated
  dst_absolute true i = do x ← on_memory (mem.load_byte (u16_of i.dstx)); evaluated i (pos x)
  dst_absolute false i = do w ← on_memory (mem.load_word (u16_of i.dstx)); evaluated i (pos 0)

  dst_register : Insn → Cpu M → Outcome (Cpu M) ℕ
  dst_register i cpu =
      if i.destination == 3
      then (lift (cg2v i) >>= λ z. return (u16_of z)) cpu
      else ok (cpu.regs i.destination) cpu

  dst_operand_at : AddrMode → Insn → Cpu M → Outcome (Cpu M) ℕ
  unfolding load dst_absolute dst_register evaluated
  dst_operand_at absolute i = dst_absolute (is_byte i) i
  dst_operand_at reg_direct i = do retv ← dst_register i; evaluated i (pos retv)
  dst_operand_at indexed i = do
    base ← v i i.destination
    x ← load i (u16_of (base +ℤ i.dstx))
    evaluated i (pos x)
  dst_operand_at _ i = fail (plain_error "unknown addressing mode")

  unfoldable pub dst_operand : Insn → Cpu M → Outcome (Cpu M) ℕ
  unfolding dst_operand_at
  dst_operand i = dst_operand_at i.dst_mode i

  dst_operand_store_at : AddrMode → Insn → ℕ → Cpu M → Outcome (Cpu M) (Unit {0})
  unfolding store
  dst_operand_store_at absolute i val = store i (u16_of i.dstx) val
  dst_operand_store_at reg_direct i val =
      if i.destination == 3 then return tt else modify (bw_store i i.destination val)
  dst_operand_store_at indexed i val = do
    base ← v i i.destination
    store i (u16_of (base +ℤ i.dstx)) val
  dst_operand_store_at _ i val = fail (plain_error "unknown addressing mode")

  unfoldable pub dst_operand_store : Insn → ℕ → Cpu M → Outcome (Cpu M) (Unit {0})
  unfolding dst_operand_store_at
  dst_operand_store i = dst_operand_store_at i.dst_mode i
