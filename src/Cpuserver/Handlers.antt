-- ===== src/Cpuserver/Handlers.antt =====
-- The handlers of src/newmadrid/cpuserver/cpu_interface.go that read or change a machine, from the
-- decoded request to the response. A closure that a handler sends to the machine runs between two
-- rounds of its loop, and the handler waits for it. Parsing JSON, `strconv.ParseInt`, MD5 and the
-- splitting of a text into lines are parameters.
pub mod Sleeping
pub mod Reading
pub mod Queries
use formaldehyde.Prelude.{
  ℕ, zero, suc, ◌+◌, ℤ, pos, negsuc, Bool, true, false, not, ltb, leb, ◌==◌, ◌&&◌, ◌||◌,
  if◌then◌else◌, is_neg, List, [], ◌∷◌, ◌++◌, Option, none, some, update, u16, u16_of, Error,
  plain_error, codes, String, Result,
}
use formaldehyde.Prelude
use formaldehyde.Prelude.Outcome.{
  Outcome, ok, err, panic, blocked, ◌>>=◌, ◌>>◌, return, modify, ignore_error,
}
use formaldehyde.Msp43x.Slice.{Slice}
use formaldehyde.Msp43x.HookableMemory.{Hooks, hookable_memory}
use formaldehyde.Msp43x.Insn.{Insn}
use formaldehyde.Msp43x.Disasm.{disassemble}
use formaldehyde.Msp43x.Listing.{Format, insn_string}
use formaldehyde.Msp43x.Loader.{load_hex}
use formaldehyde.Msp43x.Cpu.{Cpu, set_regs, get_regs, on_memory}
use formaldehyde.Msp43x.Step
use formaldehyde.Cpuserver.Site.{
  Redis, Reply, failed, nil, bytes, Site, CpuState, stopped, running, io_sleep,
}
use formaldehyde.Cpuserver.Hooks.{Store, write_hook, cpu_hooks, WriteHook}
use formaldehyde.Cpuserver.UserCpu.{UserCpu, state_of, set_state, on_mcu, boot_regs, mem}

-- What a handler answers.
pub data Response : Type 0 where
  error_response : String → Response
  error_of : Error → Response
  success : Bool → Response
  state_response : CpuState → Response
  regs_response : (ℕ → ℕ) → Response
  raw_response : Result Slice → Response
  insns_response : List String → Response

abbrev pub Handler : Type 0 → Type 0
Handler D = UserCpu D → Outcome (UserCpu D) Response

-- The registers after POST regs: a negative number leaves a register alone.
unfoldable pub new_regs : (ℕ → ℤ) → (ℕ → ℕ) → ℕ → ℕ
new_regs parsed regs i = if ltb i 16 && not (is_neg (parsed i)) then u16_of (parsed i) else regs i

-- POST event: -1 removes the breakpoint of an address, and any other number sets it.
unfoldable pub new_breakpoints : ℕ → ℤ → (ℕ → Option ℤ) → ℕ → Option ℤ
new_breakpoints addr (negsuc zero) bs = update bs addr none
new_breakpoints addr event bs = update bs addr (some event)

module _ {D : Type 0} where
  -- `mustNotBeSleeping`.
  unfoldable pub must_not_be_sleeping : Handler D → Handler D
  must_not_be_sleeping handler u = elim (state_of u) [
    | io_sleep ↦ ok (error_response "not ready for this operation") u
    | _ ↦ handler u
  ]

  -- GET regs and GET state.
  unfoldable pub get_regs_handler : Handler D
  get_regs_handler u = ok (regs_response u.mcu.regs) u

  unfoldable pub get_state_handler : Handler D
  get_state_handler u = ok (state_response (state_of u)) u

  -- POST regs. The answer is the same whether or not the body could be parsed.
  unfoldable pub post_regs : Option (ℕ → ℤ) → Handler D
  unfolding new_regs
  post_regs none = must_not_be_sleeping (return (success true))
  post_regs (some parsed) = must_not_be_sleeping (
      modify (λ u. record u { mcu = set_regs (new_regs parsed u.mcu.regs) u.mcu })
      >> return (success true))

  -- POST event. The texts of errors stop before the colon.
  unfoldable pub post_event : Option (List ℕ × ℤ) → (List ℕ → Result ℤ) → Handler D
  unfolding new_breakpoints
  post_event none parse_hex = must_not_be_sleeping (return (error_response "can't parse"))
  post_event (some (addr, event)) parse_hex = must_not_be_sleeping (elim (parse_hex addr) [
    | Prelude.Result.ok a ↦
        modify (λ u. record u { breakpoints = new_breakpoints (u16_of a) event u.breakpoints })
        >> return (success true)
    | Prelude.Result.err e ↦ return (error_response "can't parse address")
    | Prelude.Result.panic ↦ λ u. panic
  ])

  -- `stateSetter`, for what the callback does.
  unfoldable pub state_setter : CpuState → (UserCpu D → Outcome (UserCpu D) (Unit {0})) → Handler D
  state_setter state cb = must_not_be_sleeping λ u. elim (cb u) [
    | ok a v ↦ ok (success true) (set_state state v)
    | err e v ↦ ok (error_of e) v
    | panic ↦ panic
    | blocked ↦ blocked
  ]

-- The count of GET insns: at most 100, and 100 for a negative one.
unfoldable pub insn_count : ℤ → ℕ
insn_count (pos n) = if ltb 100 n then 100 else n
insn_count (negsuc n) = 100

-- A query parameter that is missing has a default.
unfoldable pub or_default : List ℕ → List ℕ → List ℕ
or_default [] standard = standard
or_default (c ∷ text) standard = c ∷ text

-- The machine with the memory that a call of a method of `ucpu.Mem` leaves.
abbrev pub with_memory : {D : Type 0} → Store D → UserCpu D → UserCpu D
with_memory m u = record u { mcu = record u.mcu { memory = m } }

-- A nil slice.
abbrev pub no_bytes : Slice
no_bytes = record { at = λ k. 0; len = 0; cap = 0 }

module _ {D : Type 0} (db : Redis D) (polls depth : ℕ) where
  unfoldable pub post_boot : Handler D
  post_boot = state_setter running (return tt)

  unfoldable pub post_continue : Handler D
  post_continue = state_setter running (on_mcu (Step.step (mem db polls depth)))

  unfoldable pub post_step : Handler D
  post_step = state_setter stopped (on_mcu (Step.step (mem db polls depth)))

  unfoldable pub post_stop : Handler D
  post_stop = state_setter stopped (return tt)

  -- GET memory.
  unfoldable pub get_memory :
      (List ℕ → Result ℤ) → (List ℕ → Result ℤ) → List ℕ → List ℕ → Handler D
  unfolding or_default
  get_memory parse_hex parse_len [] len u = ok (raw_response (Prelude.Result.ok no_bytes)) u
  get_memory parse_hex parse_len addr len u = elim (parse_hex addr) [
    | Prelude.Result.err e ↦ ok (raw_response (Prelude.Result.err e)) u
    | Prelude.Result.panic ↦ panic
    | Prelude.Result.ok a ↦ elim (parse_len (or_default len (codes "32"))) [
      | Prelude.Result.err e ↦ ok (raw_response (Prelude.Result.err e)) u
      | Prelude.Result.panic ↦ panic
      | Prelude.Result.ok n ↦ elim ((mem db polls depth).read (u16_of a) (u16_of n) u.mcu.memory) [
        | ok raw m ↦ ok (raw_response (Prelude.Result.ok raw)) (with_memory m u)
        | err e m ↦ ok (raw_response (Prelude.Result.err e)) (with_memory m u)
        | panic ↦ panic
        | blocked ↦ blocked
      ]
    ]
  ]

  -- GET insns: the loop over the instructions from `addr` on, with `n` left, and the texts so far. An
  -- error ends it.
  unfoldable pub insns_loop :
      Format → ℕ → ℕ → List String → UserCpu D → Outcome (UserCpu D) (List String)
  insns_loop fmt zero addr insns u = ok insns u
  insns_loop fmt (suc n) addr insns u =
      elim ((mem db polls depth).load_6_bytes (u16 addr) u.mcu.memory) [
        | err e m ↦ ok insns (with_memory m u)
        | panic ↦ panic
        | blocked ↦ blocked
        | ok raw m ↦ elim (disassemble raw) [
          | Prelude.Result.err e ↦ ok insns (with_memory m u)
          | Prelude.Result.panic ↦ panic
          | Prelude.Result.ok i ↦
              insns_loop fmt n (addr + i.width) (insns ++ insn_string fmt i ∷ []) (with_memory m u)
        ]
      ]

  -- The answer of GET insns to parsed numbers.
  unfoldable pub list_insns : Format → ℤ → ℤ → Handler D
  unfolding insns_loop insn_count
  list_insns fmt addr cnt =
      insns_loop fmt (insn_count cnt) (u16_of addr) [] >>= λ insns. return (insns_response insns)

  -- GET insns behind its guard: what cannot be parsed gives no instructions.
  unfoldable pub parse_insns :
      Format → (List ℕ → Result ℤ) → (List ℕ → Result ℤ) → List ℕ → List ℕ → Handler D
  unfolding list_insns or_default
  parse_insns fmt parse_hex parse_count [] cnt u = ok (insns_response []) u
  parse_insns fmt parse_hex parse_count addr cnt u = elim (parse_hex addr) [
    | Prelude.Result.err e ↦ ok (insns_response []) u
    | Prelude.Result.panic ↦ panic
    | Prelude.Result.ok a ↦ elim (parse_count (or_default cnt (codes "10"))) [
      | Prelude.Result.err e ↦ ok (insns_response []) u
      | Prelude.Result.panic ↦ panic
      | Prelude.Result.ok n ↦ list_insns fmt a n u
    ]
  ]

  unfoldable pub get_insns :
      Format → (List ℕ → Result ℤ) → (List ℕ → Result ℤ) → List ℕ → List ℕ → Handler D
  unfolding parse_insns
  get_insns fmt parse_hex parse_count addr cnt =
      must_not_be_sleeping (parse_insns fmt parse_hex parse_count addr cnt)

  module _ (md5_hex : List ℕ → List ℕ) (lines_of : List ℕ → List Slice)
      (parse_int : List ℕ → ℕ → ℕ → Result ℤ) where
    -- A hook's method while the goroutine of Redis runs the load. Every hook sends to the channel of
    -- that goroutine, unless it fails before, and then waits for ever: the goroutine is the one that
    -- would receive.
    unfoldable pub hook_in_redis : WriteHook → ℕ → ℕ → Store D → Outcome (Store D) (Unit {0})
    hook_in_redis h address value m =
        elim (write_hook db polls (cpu_hooks db polls depth) h address value m) [
          | ok a m' ↦ blocked
          | err e m' ↦ err e m'
          | panic ↦ blocked
          | blocked ↦ blocked
        ]

    abbrev redis_hooks : Hooks ⊥ WriteHook (Site D)
    redis_hooks = record { read_memory = λ h. absurd h; write_memory = hook_in_redis }

    -- `LoadHexFromRedis`, as one request: the hash of the image, and the image in memory.
    unfoldable pub load_raw : List ℕ → UserCpu D → Outcome (UserCpu D) (Unit {0})
    load_raw raw =
        modify (λ u. record u {
          mcu = record u.mcu {
            memory = record u.mcu.memory {
              world = record u.mcu.memory.world { hash = md5_hex raw };
            };
          };
        })
        >> on_mcu (on_memory (load_hex (hookable_memory redis_hooks) parse_int (lines_of raw)))

    load_reply : Reply → UserCpu D → Outcome (UserCpu D) (Unit {0})
    load_reply failed u = err (plain_error "redis") u
    load_reply nil u = err (plain_error "key not found") u
    load_reply (bytes raw) u = load_raw raw u

    unfoldable pub load_hex_from_redis : List ℕ → UserCpu D → Outcome (UserCpu D) (Unit {0})
    unfolding load_reply
    load_hex_from_redis key u =
        let (reply, d) = db.get key u.mcu.memory.world.redis in
        load_reply reply (record u {
          mcu = record u.mcu {
            memory = record u.mcu.memory { world = record u.mcu.memory.world { redis = d } };
          };
        })

    -- POST load.
    unfoldable pub post_load : Option (List ℕ) → Handler D
    post_load none = must_not_be_sleeping (return (success false))
    post_load (some key) = must_not_be_sleeping λ u. elim (load_hex_from_redis key u) [
      | ok a v ↦ ok (success true) (record v { image = key })
      | err e v ↦ ok (success false) v
      | panic ↦ panic
      | blocked ↦ blocked
    ]

    -- POST reset, which also a sleeping machine takes. An error of the load is dropped.
    unfoldable pub post_reset : Handler D
    post_reset u =
        (ignore_error (load_hex_from_redis u.image)
            >> modify (λ v. record v { mcu = set_regs boot_regs v.mcu })
            >> return (success true))
          u
