-- ===== src/Msp43x/Tests/Hooking.antt =====
-- Hooks on the test machine.
use formaldehyde.Prelude.{
  arith, ℕ, ◌≡◌, refl, some, none, plain_error, List, [], ◌∷◌, ◌==◌, if◌then◌else◌,
}
use formaldehyde.Prelude.Outcome.{ok, err}
use formaldehyde.Msp43x.HookableMemory.{Hooks, on_mem, load_word, new_hookable_memory}
use formaldehyde.Msp43x.HookableMemory.Laws.{
  Access, read_word, write_word, plain, run, hooked, run-hook_free, IsError, load_word-IsError,
}
use formaldehyde.Msp43x.TestMachine.{Store, hooks, bytes, store}

abbrev accesses : List Access
accesses = write_word 0x200 0xbeef ∷ read_word 0x200 ∷ read_word 0x201 ∷ []

run-hook_free_example : run (hooked hooks) accesses store ≡ on_mem (run plain accesses) store
unfolding new_hookable_memory
run-hook_free_example = run-hook_free hooks accesses store (λ a. (refl, refl))

-- Hooks that always fail, and one of them at 0x200.
abbrev failing : Hooks ℕ ℕ (Unit {0})
failing = record {
  read_memory = λ h address self. err (plain_error "no") self;
  write_memory = λ h address value self. ok tt self;
}

abbrev guarded : Store
guarded = record {
  mem = bytes;
  read_hooks = λ a. if a == 0x200 then some 7 else none;
  write_hooks = λ a. none;
  world = tt;
}

load_word-IsError_example : ¬ IsError (load_word failing 0x200 guarded)
load_word-IsError_example = load_word-IsError failing 0x200 guarded refl (omega arith)
