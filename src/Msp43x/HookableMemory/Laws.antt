-- ===== src/Msp43x/HookableMemory/Laws.antt =====
-- Hooks and the plain memory below them (src/newmadrid/msp43x/hookable_memory.go).
use formaldehyde.Prelude.{ℕ, ◌%◌, ◌≤◌, ◌<◌, ◌≡◌, refl, arith, none, some, Option, List, [], ◌∷◌}
use formaldehyde.Prelude.Outcome.{Outcome, ok, err, panic, blocked, ◌>>=◌, ◌>>◌, return}
use formaldehyde.Bits.{bit_and-one}
use formaldehyde.Msp43x.SimpleMemory
use formaldehyde.Msp43x.SimpleMemory.{SimpleMemory}
use formaldehyde.Msp43x.SimpleMemory.Laws.{stored, load_word-store_word}
use formaldehyde.Msp43x.HookableMemory.{
  HookableMemory, Hooks, on_mem, load_word_direct, store_word_direct, load_word, load_byte,
  store_word, store_byte, fall_back,
}

-- An access of a program to memory.
pub data Access : Type 0 where
  read_word read_byte : ℕ → Access
  write_word write_byte : ℕ → ℕ → Access

-- The accesses on a plain memory; a write gives 0.
abbrev pub plain : Access → SimpleMemory → Outcome SimpleMemory ℕ
plain (read_word a) = SimpleMemory.load_word a
plain (read_byte a) = SimpleMemory.load_byte a
plain (write_word a v) = SimpleMemory.store_word a v >> return 0
plain (write_byte a v) = SimpleMemory.store_byte a v >> return 0

-- A sequence of accesses, up to the first error, with the values read.
abbrev pub run : {S : Type 0} → (Access → S → Outcome S ℕ) → List Access → S → Outcome S (List ℕ)
run act [] = return []
run act (a ∷ as') = act a >>= λ x. run act as' >>= λ xs. return (x ∷ xs)

-- Is an outcome an error?
abbrev pub IsError : {S A : Type 0} → Outcome S A → Type 0
IsError (err e s) = Unit
IsError _ = ⊥

module _ {R W X : Type 0} (hooks : Hooks R W X) where
  abbrev pub hooked : Access → HookableMemory R W X → Outcome (HookableMemory R W X) ℕ
  hooked (read_word a) = load_word hooks a
  hooked (read_byte a) = load_byte hooks a
  hooked (write_word a v) = store_word hooks a v >> return 0
  hooked (write_byte a v) = store_byte hooks a v >> return 0

  abbrev pub IsHookFree : HookableMemory R W X → Type 0
  IsHookFree self = (a : ℕ) → (self.read_hooks a ≡ none) × (self.write_hooks a ≡ none)

  hooked-plain :
      (a : Access) (self : HookableMemory R W X)
      → IsHookFree self
      → hooked a self ≡ on_mem (plain a) self
  unfolding load_word load_byte store_word store_byte
  hooked-plain (read_word a) self free = rw ((free a).0, load_word) refl
  hooked-plain (read_byte a) self free = rw ((free a).0, load_byte) refl
  hooked-plain (write_word a v) self free = let e = (free a).1 in ground arith
  hooked-plain (write_byte a v) self free = let e = (free a).1 in ground arith

  -- One access and then the rest, given what the access does to the plain memory.
  run_cons :
      (a : Access) (rest : List Access) (self : HookableMemory R W X) (o : Outcome SimpleMemory ℕ)
      → plain a self.mem ≡ o
      → hooked a self ≡ on_mem (plain a) self
      → ((mem' : SimpleMemory)
          → run hooked rest (record self { mem = mem' })
            ≡ on_mem (run plain rest) (record self { mem = mem' }))
      → run hooked (a ∷ rest) self ≡ on_mem (run plain (a ∷ rest)) self
  run_cons a rest self (ok x mem') e same ih = ground (arith, ih mem')
  run_cons a rest self (err x mem') e same ih = ground arith
  run_cons a rest self panic e same ih = ground arith
  run_cons a rest self blocked e same ih = ground arith

  -- With no hooks set, any sequence of accesses does to the memory, and reads from it, what it does
  -- to the plain memory and reads from that, errors and panics included.
  pub run-hook_free :
      (accesses : List Access) (self : HookableMemory R W X)
      → IsHookFree self
      → run hooked accesses self ≡ on_mem (run plain accesses) self
  run-hook_free [] self free = refl
  run-hook_free (a ∷ rest) self free =
      run_cons a rest self (plain a self.mem) refl (hooked-plain a self free)
        (λ mem'. run-hook_free rest (record self { mem = mem' }) free)

  -- The direct accesses go below the hooks: a word stored directly at an even address up to 0xfffc is
  -- loaded back directly, whatever hooks there are.
  load_word_direct-store_word_direct :
      (address value : ℕ) (self : HookableMemory R W X)
      → address % 2 ≡ 0
      → address ≤ 0xfffc
      → value < 65536
      → (store_word_direct hooks address value >> load_word_direct hooks address) self
        ≡ ok value (record self { mem = stored address value self.mem })
  unfolding store_word_direct load_word_direct
  load_word_direct-store_word_direct address value self even below fits =
      ground (arith, load_word-store_word address value self.mem even below fits)

  on_mem-IsError :
      (address : ℕ) (self : HookableMemory R W X)
      → address % 2 ≡ 0
      → address ≤ 0xfffc
      → ¬ IsError (on_mem (SimpleMemory.load_word address) self)
  unfolding SimpleMemory.load_word
  on_mem-IsError address self even below = ground (arith, bit_and-one address)

  fall_back-IsError :
      (address : ℕ) (o : Outcome (HookableMemory R W X) ℕ)
      → address % 2 ≡ 0
      → address ≤ 0xfffc
      → ¬ IsError (fall_back hooks address o)
  unfolding fall_back
  fall_back-IsError address (ok val self) even below = λ h. h
  fall_back-IsError address (err e self) even below = on_mem-IsError address self even below
  fall_back-IsError address panic even below = λ h. h
  fall_back-IsError address blocked even below = λ h. h

  word-IsError :
      (address : ℕ) (hook : Option R) (self : HookableMemory R W X)
      → address % 2 ≡ 0
      → address ≤ 0xfffc
      → ¬ IsError (elim hook [
        | some h ↦ fall_back hooks address (hooks.read_memory h address self)
        | none ↦ on_mem (SimpleMemory.load_word address) self
      ])
  word-IsError address (some h) self even below =
      fall_back-IsError address (hooks.read_memory h address self) even below
  word-IsError address none self even below = on_mem-IsError address self even below

  -- A word load at an even address up to 0xfffc never returns an error, whatever hooks there are and
  -- whatever errors they return.
  pub load_word-IsError :
      (address : ℕ) (self : HookableMemory R W X)
      → address % 2 ≡ 0
      → address ≤ 0xfffc
      → ¬ IsError (load_word hooks address self)
  unfolding load_word
  load_word-IsError address self even below =
      word-IsError address (self.read_hooks address) self even below
