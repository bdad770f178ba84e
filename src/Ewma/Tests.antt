-- ===== src/Ewma/Tests.antt =====
-- The moving average of a few samples.
use Prim.Native.Nat.{min, max}
use formaldehyde.Prelude.{◌*◌, ◌≤◌, ℕ, ◌≡◌, refl, arith, ◌==◌, if◌then◌else◌}
use formaldehyde.Ewma.{Ewma, new_ewma, read, add}
use formaldehyde.Ewma.Laws.{add_times, read-add_times, add-between}

-- The logarithm where `Add` asks for it.
abbrev ilogb : ℕ → ℕ
ilogb n = if n == 1024 then 10 else if n == 8 then 3 else 0

read-add_times_example : read (add_times ilogb 5 70 new_ewma) ≡ 70
read-add_times_example = read-add_times ilogb 4 70 refl refl (omega arith) (omega arith)

abbrev average : Ewma
average = record { internal = 800; weight = 10; factor = 3 }

add-between_example :
    (min 800 (3000 * 8) ≤ (add ilogb 3000 average).internal)
    × ((add ilogb 3000 average).internal ≤ max 800 (3000 * 8))
add-between_example = add-between ilogb 3000 average refl refl (omega arith) (omega arith)
