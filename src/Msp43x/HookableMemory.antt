-- ===== src/Msp43x/HookableMemory.antt =====
-- src/newmadrid/msp43x/hookable_memory.go: a `SimpleMemory` with hooks at addresses.
-- A hook's method takes the memory that holds the hook. So the memory holds a hook's name, of type
-- `R` or `W`, and `Hooks` says what the named method does. `world` is what the hooks reach outside
-- the memory: the database, the machine they belong to.
pub mod Laws
use formaldehyde.Prelude.{
  ℕ, bit_and, Option, none, some, u8, cpu_error, bad_address_fault, ◌==◌, if◌then◌else◌,
}
use formaldehyde.Prelude.Outcome.{Outcome, ok, err, panic, blocked, ◌>>=◌, return}
use formaldehyde.Msp43x.Slice.{Slice}
use formaldehyde.Msp43x.SimpleMemory
use formaldehyde.Msp43x.SimpleMemory.{SimpleMemory}
use formaldehyde.Msp43x.Memory.{Memory}

pub record HookableMemory (R W X : Type 0) : Type 0 where
  pub mem : SimpleMemory
  pub read_hooks : ℕ → Option R
  pub write_hooks : ℕ → Option W
  pub world : X

-- The methods `ReadMemory` and `WriteMemory` of the interfaces `ReadHook` and `WriteHook`.
pub record Hooks (R W X : Type 0) : Type 0 where
  pub read_memory : R → ℕ → HookableMemory R W X → Outcome (HookableMemory R W X) ℕ
  pub write_memory : W → ℕ → ℕ → HookableMemory R W X → Outcome (HookableMemory R W X) (Unit {0})

-- `NewHookableMemory`, with the world that its hooks will reach.
unfoldable pub new_hookable_memory : {R W X : Type 0} → SimpleMemory → X → HookableMemory R W X
new_hookable_memory mem world = record {
  mem = mem;
  read_hooks = λ a. none;
  write_hooks = λ a. none;
  world = world;
}

-- The methods `ReadHook` and `WriteHook`: map assignments.
unfoldable pub set_read_hook :
    {R W X : Type 0} → ℕ → R → HookableMemory R W X → HookableMemory R W X
set_read_hook addr h self = record self {
  read_hooks = λ a. if a == addr then some h else self.read_hooks a;
}

unfoldable pub set_write_hook :
    {R W X : Type 0} → ℕ → W → HookableMemory R W X → HookableMemory R W X
set_write_hook addr h self = record self {
  write_hooks = λ a. if a == addr then some h else self.write_hooks a;
}

-- A call of a method of `self.mem`.
abbrev pub on_mem :
    {R W X A : Type 0}
    → (SimpleMemory → Outcome SimpleMemory A)
    → HookableMemory R W X
    → Outcome (HookableMemory R W X) A
on_mem m self = elim (m self.mem) [
  | ok a mem' ↦ ok a (record self { mem = mem' })
  | err e mem' ↦ err e (record self { mem = mem' })
  | panic ↦ panic
  | blocked ↦ blocked
]

module _ {R W X : Type 0} (hooks : Hooks R W X) where
  abbrev State : Type 0
  State = HookableMemory R W X

  unfoldable pub load_6_bytes : ℕ → State → Outcome State Slice
  load_6_bytes address self = elim (self.read_hooks address) [
    | some h ↦ err (cpu_error bad_address_fault "can't load instruction from addr") self
    | none ↦ on_mem (SimpleMemory.load_6_bytes address) self
  ]

  unfoldable pub load_word_direct : ℕ → State → Outcome State ℕ
  load_word_direct address = on_mem (SimpleMemory.load_word address)

  -- A hook's error is dropped here, and the word in memory is read after all.
  fall_back : ℕ → Outcome State ℕ → Outcome State ℕ
  fall_back address (ok val self) = ok val self
  fall_back address (err e self) = on_mem (SimpleMemory.load_word address) self
  fall_back address panic = panic
  fall_back address blocked = blocked

  unfoldable pub load_word : ℕ → State → Outcome State ℕ
  unfolding fall_back
  load_word address self = elim (self.read_hooks address) [
    | some h ↦ fall_back address (hooks.read_memory h address self)
    | none ↦ on_mem (SimpleMemory.load_word address) self
  ]

  unfoldable pub load_byte : ℕ → State → Outcome State ℕ
  load_byte address self = elim (self.read_hooks address) [
    | some h ↦ (hooks.read_memory h address >>= λ i. return (u8 (bit_and i 0xff))) self
    | none ↦ on_mem (SimpleMemory.load_byte address) self
  ]

  unfoldable pub store_word_direct : ℕ → ℕ → State → Outcome State (Unit {0})
  store_word_direct address value = on_mem (SimpleMemory.store_word address value)

  unfoldable pub store_word : ℕ → ℕ → State → Outcome State (Unit {0})
  store_word address value self = elim (self.write_hooks address) [
    | some h ↦ hooks.write_memory h address value self
    | none ↦ on_mem (SimpleMemory.store_word address value) self
  ]

  unfoldable pub store_byte : ℕ → ℕ → State → Outcome State (Unit {0})
  store_byte address value self = elim (self.write_hooks address) [
    | some h ↦ hooks.write_memory h address value self
    | none ↦ on_mem (SimpleMemory.store_byte address value) self
  ]

  unfoldable pub clear : State → State
  clear self = record self { mem = SimpleMemory.clear self.mem }

  unfoldable pub read : ℕ → ℕ → State → Outcome State Slice
  read address len = on_mem (SimpleMemory.read address len)

  -- `*HookableMemory` as a `Memory`.
  abbrev pub hookable_memory : Memory State
  hookable_memory = record {
    load_6_bytes = load_6_bytes;
    load_word = load_word;
    load_word_direct = load_word_direct;
    store_word = store_word;
    store_word_direct = store_word_direct;
    load_byte = load_byte;
    store_byte = store_byte;
    read = read;
    clear = clear;
  }
