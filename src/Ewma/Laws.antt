-- ===== src/Ewma/Laws.antt =====
-- What the moving average reads after equal samples.
use formaldehyde.Prelude.{ℕ, zero, suc, ◌*◌, ◌^◌, ◌<◌, ◌+◌, ◌≤◌, ◌≡◌, ap, ◌∙◌, arith}
use Prim.Native.Nat.{min, max}
use formaldehyde.Ewma.{Ewma, new_ewma, add, start, read}

module _ (ilogb : ℕ → ℕ) where
  -- `n` equal samples.
  unfoldable pub add_times : ℕ → ℕ → Ewma → Ewma
  add_times zero sample self = self
  add_times (suc n) sample self = add ilogb sample (add_times n sample self)

  abbrev settled : ℕ → Ewma
  settled sample = record { internal = sample * 8; weight = 10; factor = 3 }

  add-settled :
      (sample : ℕ)
      → 0 < sample
      → sample * 8192 < 2 ^ 64
      → add ilogb sample (settled sample) ≡ settled sample
  unfolding add
  add-settled sample h fits = ground arith

  add-new :
      (sample : ℕ)
      → ilogb 1024 ≡ 10
      → ilogb 8 ≡ 3
      → sample * 8192 < 2 ^ 64
      → add ilogb sample new_ewma ≡ settled sample
  unfolding add start
  add-new sample e f fits = ground (arith, e, f)

  add_times-settled :
      (n sample : ℕ)
      → ilogb 1024 ≡ 10
      → ilogb 8 ≡ 3
      → 0 < sample
      → sample * 8192 < 2 ^ 64
      → add_times (suc n) sample new_ewma ≡ settled sample
  unfolding add_times
  add_times-settled zero sample e f h fits = add-new sample e f fits
  add_times-settled (suc n) sample e f h fits =
      ap (add ilogb sample) (add_times-settled n sample e f h fits) ∙ add-settled sample h fits

  -- The average of one or more equal samples is the sample, from the zero value of the type on, when
  -- the sample is not 0 and 8192 times the sample fits 64 bits.
  pub read-add_times :
      (n sample : ℕ)
      → ilogb 1024 ≡ 10
      → ilogb 8 ≡ 3
      → 0 < sample
      → sample * 8192 < 2 ^ 64
      → read (add_times (suc n) sample new_ewma) ≡ sample
  unfolding read
  read-add_times n sample e f h fits = ap read (add_times-settled n sample e f h fits) ∙ omega arith

  -- Once there is a sample, with the weights that `Add` gives to a zero value, the next average in
  -- fixed point lies between the old one and the sample, if nothing overflows 64 bits.
  pub add-between :
      (sample : ℕ) (self : Ewma)
      → self.weight ≡ 10
      → self.factor ≡ 3
      → 0 < self.internal
      → self.internal * 1024 + sample * 8 < 2 ^ 64
      → let after = add ilogb sample self in
        (min self.internal (sample * 8) ≤ after.internal)
        × (after.internal ≤ max self.internal (sample * 8))
  unfolding add
  add-between sample self e f h fits = ground (arith, e, f)
