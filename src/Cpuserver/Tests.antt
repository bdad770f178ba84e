-- ===== src/Cpuserver/Tests.antt =====
-- A machine of the server on a database without keys, and the theorems on it at concrete inputs.
mod Sessions
mod Locks
use formaldehyde.Prelude.{
  ℕ, zero, suc, ◌+◌, ℤ, pos, negsuc, ◌≡◌, refl, true, false, ◌==◌, if◌then◌else◌, List, [], ◌∷◌,
  Option, none, some, codes, String, update, inr, cpu_error, address_unaligned,
}
use formaldehyde.Prelude
use formaldehyde.Prelude.Outcome.{ok}
use formaldehyde.Msp43x.SimpleMemory
use formaldehyde.Msp43x.HookableMemory
use formaldehyde.Msp43x.Step
use formaldehyde.Cpuserver.Site.{Redis, nil, running, stopped, io_sleep, fault, debug_log, set_key}
use formaldehyde.Cpuserver.Hooks.{cpu_hooks, completed}
use formaldehyde.Cpuserver.UserCpu.{UserCpu, new_user_cpu, set_state, loop}
use formaldehyde.Cpuserver.UserCpu.Laws.{idle, loop-breakpoint, loop-single_step}
use formaldehyde.Cpuserver.Handlers.{error_response}
use formaldehyde.Cpuserver.Handlers.Sleeping.{Guarded, handler}

-- A database without keys, which remembers nothing but a number of commands.
abbrev counting : Redis ℕ
counting = record {
  get = λ k n. (nil, n + 1);
  getrange = λ k a b n. (nil, n + 1);
  set = λ k v n. n + 1;
  set_number = λ k v n. n + 1;
  del = λ k n. n + 1;
  lpush = λ k v n. n + 1;
  ltrim = λ k a b n. n + 1;
  now = λ n. n;
  pause = λ n. n;
  trim = λ raw. some raw;
  dec = λ n. n ∷ [];
}

abbrev fresh : UserCpu ℕ
fresh = new_user_cpu (codes "boot") (codes "u1") 0

-- A running machine at address 0x4400 with a breakpoint of a kind there.
unfoldable at : ℤ → UserCpu ℕ
at kind = record (set_state running fresh) {
  breakpoints = λ a. if a == 0x4400 then some kind else none;
}

loop-breakpoint_example :
    loop counting 3 2 (idle counting 3 2 (suc 4)) (at (pos 0))
    ≡ ok tt (set_state stopped (at (pos 0)))
unfolding at new_user_cpu
loop-breakpoint_example = loop-breakpoint counting 3 2 4 (at (pos 0)) refl refl

-- A running machine at the odd address 0x4401 with a step breakpoint there.
unfoldable odd : UserCpu ℕ
odd = record fresh {
  mcu = record fresh.mcu {
    regs = λ r. if r == 0 then 0x4401 else 0;
    memory = record fresh.mcu.memory { world = record fresh.mcu.memory.world { state = running } };
  };
  breakpoints = λ a. if a == 0x4401 then some (pos 1) else none;
}

loop-single_step_example :
    loop counting 3 2 (idle counting 3 2 (suc 4)) odd ≡ ok tt (set_state stopped odd)
unfolding odd new_user_cpu Step.step HookableMemory.load_6_bytes SimpleMemory.load_6_bytes
loop-single_step_example =
    loop-single_step counting 3 2 4 odd (cpu_error address_unaligned "insn address unaligned")
      odd.mcu (record odd.mcu.memory { world = record odd.mcu.memory.world { state = fault } }) refl
      refl refl (inr ((cpu_error address_unaligned "insn address unaligned"), refl))
