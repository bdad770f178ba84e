-- ===== src/Bits.antt =====
-- `|` of disjoint fields and `&` with a mask, as arithmetic.
mod Step
mod Masks
pub use Masks.*
