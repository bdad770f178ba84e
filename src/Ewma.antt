-- ===== src/Ewma.antt =====
-- `EWMA` of src/matasano/ewma/ewma.go: a moving average with exponential weights, in fixed point.
-- `ilogb` stands for `uint(math.Ilogb(float64(n)))`.
pub mod Laws
mod Tests
use formaldehyde.Prelude.{ℕ, ◌+◌, ◌-◌, ◌*◌, ◌^◌, ◌%◌, ◌<<◌, ◌>>>◌, ◌==◌, if◌then◌else◌}

-- `uint64(n)` of an unsigned value.
abbrev pub u64 : ℕ → ℕ
u64 n = n % 2 ^ 64

pub record Ewma : Type 0 where
  pub internal : ℕ
  pub weight : ℕ
  pub factor : ℕ

-- The value that `var e EWMA` declares.
abbrev pub new_ewma : Ewma
new_ewma = record { internal = 0; weight = 0; factor = 0 }

-- `Read`.
unfoldable pub read : Ewma → ℕ
read self = self.internal >>> self.factor

module _ (ilogb : ℕ → ℕ) where
  -- The branch of `Add` for an average that has no sample.
  unfoldable pub start : ℕ → Ewma → Ewma
  start sample self =
      let weight = ilogb (if self.weight == 0 then 1024 else self.weight) in
      let factor = ilogb (if self.factor == 0 then 8 else self.factor) in
      record { internal = u64 (sample << factor); weight = weight; factor = factor }

  -- The state that `Add` leaves. The subtraction wraps, as everything here, at 64 bits.
  unfoldable pub add : ℕ → Ewma → Ewma
  add sample self =
      if self.internal == 0
      then start sample self
      else (let scaled = u64 (self.internal << self.weight) + (2 ^ 64 - self.internal) in
          let total = u64 (u64 scaled + u64 (sample << self.factor)) in
          record self { internal = total >>> self.weight })
