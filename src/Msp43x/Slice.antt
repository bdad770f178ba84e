-- ===== src/Msp43x/Slice.antt =====
-- Go's byte slices as the emulator uses them: a view of an array that begins somewhere in it, has a
-- length, and can be resliced up to its capacity, which is what the array has left.
use formaldehyde.Prelude.{ℕ, ◌+◌, ◌-◌, leb, ltb, ◌&&◌, if◌then◌else◌, Result, ok, panic}

pub record Slice : Type 0 where
  pub at : ℕ → ℕ
  pub len : ℕ
  pub cap : ℕ

-- `s[k]`.
unfoldable pub index : Slice → ℕ → Result ℕ
index s k = if ltb k s.len then ok (s.at k) else panic

-- `s[0:n]`.
unfoldable pub reslice : Slice → ℕ → Result Slice
reslice s n = if leb n s.cap then ok (record s { len = n }) else panic

-- `a[lo:hi]` of an array of `size` bytes.
unfoldable pub slice_array : (ℕ → ℕ) → ℕ → ℕ → ℕ → Result Slice
slice_array a size lo hi =
    if leb lo hi && leb hi size
    then ok (record { at = λ k. a (lo + k); len = hi - lo; cap = size - lo })
    else panic
