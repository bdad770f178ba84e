-- ===== src/Msp43x.antt =====
-- src/newmadrid/msp43x: the emulator of a simplified MSP430.
pub mod Constants
pub mod Slice
pub mod Memory
pub mod SimpleMemory
pub mod HookableMemory
pub mod Insn
pub mod Cpu
pub mod Operand
pub mod Alu
pub mod Execute
pub mod Disasm
pub mod Listing
pub mod Loader
pub mod Stabs
pub mod Step
mod TestMachine
mod Tests
