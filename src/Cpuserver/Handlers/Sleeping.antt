-- ===== src/Cpuserver/Handlers/Sleeping.antt =====
-- A machine that waits for input, and the requests that reach it.
use formaldehyde.Prelude.{ℕ, ℤ, ◌≡◌, refl, List, Option, Result, none, some}
use formaldehyde.Prelude.Outcome.{ok}
use formaldehyde.Msp43x.Slice.{Slice}
use formaldehyde.Msp43x.Listing.{Format}
use formaldehyde.Cpuserver.Site.{Redis, io_sleep}
use formaldehyde.Cpuserver.UserCpu.{UserCpu, state_of}
use formaldehyde.Cpuserver.Handlers.{
  Handler, error_response, must_not_be_sleeping, post_regs, post_event, state_setter, post_boot,
  post_continue, post_step, post_stop, get_insns, post_load,
}

module _ {D : Type 0} (db : Redis D) (polls depth : ℕ) (md5_hex : List ℕ → List ℕ)
    (lines_of : List ℕ → List Slice) (parse_int : List ℕ → ℕ → ℕ → Result ℤ) where
  -- The requests whose handlers `mustNotBeSleeping` guards, with what their bodies hold.
  pub data Guarded : Type 0 where
    regs : Option (ℕ → ℤ) → Guarded
    event : Option (List ℕ × ℤ) → (List ℕ → Result ℤ) → Guarded
    boot go_on one_step stop : Guarded
    insns : Format → (List ℕ → Result ℤ) → (List ℕ → Result ℤ) → List ℕ → List ℕ → Guarded
    load : Option (List ℕ) → Guarded

  unfoldable pub handler : Guarded → Handler D
  handler (regs parsed) = post_regs parsed
  handler (event body parse_hex) = post_event body parse_hex
  handler boot = post_boot db polls depth
  handler go_on = post_continue db polls depth
  handler one_step = post_step db polls depth
  handler stop = post_stop db polls depth
  handler (insns fmt parse_hex parse_count addr cnt) =
      get_insns db polls depth fmt parse_hex parse_count addr cnt
  handler (load key) = post_load db polls depth md5_hex lines_of parse_int key

  -- While a machine waits for input, a request to set registers or breakpoints, to boot, continue,
  -- step or stop, to list instructions or to load an image is refused and leaves the machine as it is.
  handler-sleeping :
      (r : Guarded) (u : UserCpu D)
      → state_of u ≡ io_sleep
      → handler r u ≡ ok (error_response "not ready for this operation") u
  unfolding handler post_regs post_event state_setter post_boot post_continue post_step post_stop
      get_insns post_load must_not_be_sleeping
  handler-sleeping (regs none) u s = rw s refl
  handler-sleeping (regs (some parsed)) u s = rw s refl
  handler-sleeping (event none parse_hex) u s = rw s refl
  handler-sleeping (event (some body) parse_hex) u s = rw s refl
  handler-sleeping boot u s = rw s refl
  handler-sleeping go_on u s = rw s refl
  handler-sleeping one_step u s = rw s refl
  handler-sleeping stop u s = rw s refl
  handler-sleeping (insns fmt parse_hex parse_count addr cnt) u s = rw s refl
  handler-sleeping (load none) u s = rw s refl
  handler-sleeping (load (some key)) u s = rw s refl
