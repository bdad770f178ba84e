-- ===== src/Cpuserver/Handlers/Reading.antt =====
-- Loads and reads through the hooks leave the memory alone.
use formaldehyde.Prelude.{
  ℕ, ◌<◌, ◌≡◌, ap, inl, inr, Option, some, none, cpu_error, bad_address_fault, refl,
}
use formaldehyde.Prelude.Outcome.{Outcome, ok, err, panic, blocked}
use formaldehyde.Msp43x.Slice.{Slice}
use formaldehyde.Msp43x.SimpleMemory
use formaldehyde.Msp43x.SimpleMemory.{SimpleMemory}
use formaldehyde.Msp43x.SimpleMemory.Bounds.{load_6_bytes_cases, read_cases}
use formaldehyde.Msp43x.HookableMemory
use formaldehyde.Msp43x.HookableMemory.{on_mem}
use formaldehyde.Cpuserver.Site.{Redis}
use formaldehyde.Cpuserver.Hooks.{Store}
use formaldehyde.Cpuserver.UserCpu.{UserCpu, mem}
use formaldehyde.Cpuserver.Handlers.{with_memory}

-- A call that leaves the state alone, with an error or without; it may panic.
abbrev pub Keeps : {S A : Type 0} → S → Outcome S A → Type 0
Keeps s (ok a t) = t ≡ s
Keeps s (err e t) = t ≡ s
Keeps s panic = Unit
Keeps s blocked = ⊥

-- The same, without a panic.
abbrev pub KeepsTotal : {S A : Type 0} → S → Outcome S A → Type 0
KeepsTotal s (ok a t) = t ≡ s
KeepsTotal s (err e t) = t ≡ s
KeepsTotal s _ = ⊥

module _ {D : Type 0} (db : Redis D) (polls depth : ℕ) where
  on_mem-Keeps :
      (m : Store D) (o : Outcome SimpleMemory Slice)
      → Keeps m.mem o
      → Keeps m (elim o [
        | ok a mem' ↦ ok a (record m { mem = mem' })
        | err e mem' ↦ err e (record m { mem = mem' })
        | panic ↦ panic
        | blocked ↦ blocked
      ])
  on_mem-Keeps m (ok a mem') h = ap (λ x. record m { mem = x }) h
  on_mem-Keeps m (err e mem') h = ap (λ x. record m { mem = x }) h
  on_mem-Keeps m panic h = tt
  on_mem-Keeps m blocked h = h

  on_mem-KeepsTotal :
      (m : Store D) (o : Outcome SimpleMemory Slice)
      → KeepsTotal m.mem o
      → KeepsTotal m (elim o [
        | ok a mem' ↦ ok a (record m { mem = mem' })
        | err e mem' ↦ err e (record m { mem = mem' })
        | panic ↦ panic
        | blocked ↦ blocked
      ])
  on_mem-KeepsTotal m (ok a mem') h = ap (λ x. record m { mem = x }) h
  on_mem-KeepsTotal m (err e mem') h = ap (λ x. record m { mem = x }) h
  on_mem-KeepsTotal m panic h = h
  on_mem-KeepsTotal m blocked h = h

  plain-Keeps :
      (address : ℕ) (mem' : SimpleMemory) → Keeps mem' (SimpleMemory.load_6_bytes address mem')
  plain-Keeps address mem' = elim (load_6_bytes_cases address mem') [
    | inl (odd, e) ↦ rw e refl
    | inr (inl (even, below, e)) ↦ rw e refl
    | inr (inr (inl (at, e))) ↦ rw e tt
    | inr (inr (inr (even, above, e))) ↦ rw e refl
  ]

  pub load_6_bytes-Keeps :
      (address : ℕ) (m : Store D) → Keeps m ((mem db polls depth).load_6_bytes address m)
  unfolding HookableMemory.load_6_bytes
  load_6_bytes-Keeps address m = go (m.read_hooks address)
    where
      go :
          (hook : Option ⊥)
          → Keeps m (elim hook [
            | some h ↦ err (cpu_error bad_address_fault "can't load instruction from addr") m
            | none ↦ on_mem (SimpleMemory.load_6_bytes address) m
          ])
      go (some h) = absurd h
      go none = on_mem-Keeps m (SimpleMemory.load_6_bytes address m.mem) (plain-Keeps address m.mem)

  plain-KeepsTotal :
      (address len : ℕ) (mem' : SimpleMemory)
      → address < 65536
      → len < 65536
      → KeepsTotal mem' (SimpleMemory.read address len mem')
  plain-KeepsTotal address len mem' a l = elim (read_cases address len mem' a l) [
    | inl (inside, e) ↦ rw e refl
    | inr (outside, e) ↦ rw e refl
  ]

  pub read-KeepsTotal :
      (address len : ℕ) (m : Store D)
      → address < 65536
      → len < 65536
      → KeepsTotal m ((mem db polls depth).read address len m)
  unfolding HookableMemory.read
  read-KeepsTotal address len m a l =
      on_mem-KeepsTotal m (SimpleMemory.read address len m.mem)
        (plain-KeepsTotal address len m.mem a l)

  -- The memory that a call left is the one that it was given.
  pub with_memory-same : (m : Store D) (u : UserCpu D) → m ≡ u.mcu.memory → with_memory m u ≡ u
  with_memory-same m u h = ap (λ x. with_memory x u) h
