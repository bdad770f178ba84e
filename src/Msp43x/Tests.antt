-- ===== src/Msp43x/Tests.antt =====
-- Tests of the emulator, and its theorems at concrete machines.
mod Decoding
mod Arithmetic
mod Running
mod Hooking
mod Storing
mod SourceLines
mod Waiting
mod Loading
