-- ===== src/Cpuserver/Hooks.antt =====
-- src/newmadrid/cpuserver/hooks.go: what the machine does when a program writes to an I/O address.
-- A hook may write to memory and so run a hook again: `depth` bounds how deep, and past it Go's stack
-- is used up. `polls` bounds how often the input hook asks for input before it waits for ever.
pub mod Locking
use formaldehyde.Prelude.{
  ℕ, zero, suc, ◌+◌, ℤ, pos, negsuc, ltb, ◌==◌, if◌then◌else◌, List, [], ◌∷◌, ◌++◌, Option, none,
  some, length, get_elem?, tabulate, u8, u16, codes,
}
use formaldehyde.Prelude.Outcome.{
  Outcome, ok, err, panic, blocked, ◌>>=◌, ◌>>◌, return, modify, ignore_error,
}
use formaldehyde.Msp43x.Slice.{Slice}
use formaldehyde.Msp43x.HookableMemory
use formaldehyde.Msp43x.HookableMemory.{HookableMemory, Hooks}
use formaldehyde.Cpuserver.Site.{
  Redis, Reply, failed, nil, bytes, Site, io_sleep, CpuState, key, debug_log, set_key,
}

abbrev pub m_user_input_buf_address : ℕ
m_user_input_buf_address = 0x280

abbrev pub m_user_input_buf_length : ℕ
m_user_input_buf_length = 0x282

abbrev pub m_user_output_byte : ℕ
m_user_output_byte = 0x5ce

abbrev pub m_io_lock : ℕ
m_io_lock = 0x220

abbrev pub m_io_alarm : ℕ
m_io_alarm = 0x222

abbrev pub m_io_temperature : ℕ
m_io_temperature = 0x224

abbrev pub m_io_airflow : ℕ
m_io_airflow = 0x226

abbrev pub m_log_debug_buf_location : ℕ
m_log_debug_buf_location = 0x260

abbrev pub m_log_debug_buf_length : ℕ
m_log_debug_buf_length = 0x262

-- The hooks that `NewUserCpu` sets; none of them is for reads.
pub data WriteHook : Type 0 where
  write_user_output read_user_input debug_log_hook alarm airflow lock temperature : WriteHook

abbrev pub Store : Type 0 → Type 0
Store D = HookableMemory ⊥ WriteHook (Site D)

module _ {D : Type 0} (db : Redis D) (polls : ℕ) where
  -- An assignment to what lies outside the memory.
  abbrev pub on_site : (Site D → Site D) → Store D → Outcome (Store D) (Unit {0})
  on_site f = modify (λ m. record m { world = f m.world })

  -- `userinput <- …` for a reply that is not an error.
  poll_reply : Reply → Site D → Outcome (Site D) (Option (List ℕ))
  poll_reply failed s = blocked
  poll_reply nil s = ok none s
  poll_reply (bytes raw) s =
      ok (db.trim raw) (record s { redis = db.del (key db ":input" s) s.redis })

  -- The loop of `ReadUserInputHook`.
  unfoldable pub poll : ℕ → Site D → Outcome (Site D) (List ℕ)
  unfolding poll_reply
  poll zero s = blocked
  poll (suc n) s =
      let (reply, d) = db.get (key db ":input" s) s.redis in
      elim (poll_reply reply (record s { redis = d })) [
        | ok (some raw) s' ↦ ok raw s'
        | ok none s' ↦ poll n (record s' { redis = db.pause s'.redis })
        | err e s' ↦ err e s'
        | panic ↦ panic
        | blocked ↦ blocked
      ]

  -- The state is `CpuIoSleep` while the loop runs.
  unfoldable pub await_input : Store D → Outcome (Store D) (List ℕ)
  unfolding poll
  await_input m = elim (poll polls (record m.world { state = io_sleep })) [
    | ok raw s ↦ ok raw (record m { world = record s { state = m.world.state } })
    | err e s ↦ err e (record m { world = s })
    | panic ↦ panic
    | blocked ↦ blocked
  ]

  module _ (hooks : Hooks ⊥ WriteHook (Site D)) where
    -- The loop that copies the input, from byte `i` on, with `n` bytes left.
    unfoldable pub copy_input : ℕ → ℕ → ℕ → List ℕ → Store D → Outcome (Store D) (Unit {0})
    copy_input zero i dst raw = return tt
    copy_input (suc n) i dst raw = elim (get_elem? raw i) [
      | none ↦ λ m. panic
      | some b ↦
          ignore_error (HookableMemory.store_byte hooks (u16 (dst + i)) b)
          >> copy_input n (i + 1) dst raw
    ]

    unfoldable pub read_user_input_hook : ℕ → ℕ → Store D → Outcome (Store D) (Unit {0})
    unfolding await_input copy_input
    read_user_input_hook addr length' =
        HookableMemory.load_word_direct hooks m_user_input_buf_address >>= λ dst.
        await_input >>= λ raw.
        let n = if ltb (u16 (length raw)) length' then u16 (length raw) else length' in
        copy_input n 0 dst raw >> HookableMemory.store_word_direct hooks addr n

    -- `DebugLogHook`. The slice that `Read` returns is copied here at once; in the source the goroutine
    -- of Redis reads it later, while the program may already write to that memory.
    unfoldable pub debug_log_write : ℕ → ℕ → Store D → Outcome (Store D) (Unit {0})
    debug_log_write addr value =
        HookableMemory.load_word_direct hooks m_log_debug_buf_location >>= λ loc.
        HookableMemory.read hooks loc value >>= λ data'.
        on_site (debug_log db (tabulate data'.at 0 data'.len))

    unfoldable pub alarm_hook : ℕ → ℕ → Store D → Outcome (Store D) (Unit {0})
    alarm_hook addr value =
        HookableMemory.store_word_direct hooks addr value
        >> on_site (set_key db ":alarm" value)
        >> on_site (debug_log db (codes (if value == 0 then "ALARM DISARMED" else "ALARM ARMED")))

    -- `SET name:hash completed`, when the lock is disengaged.
    unfoldable pub completed : Site D → Site D
    completed s = record s {
      redis = db.set (s.name ++ (codes ":" ++ s.hash)) (codes "completed") s.redis;
    }

    unfoldable pub lock_hook : ℕ → ℕ → Store D → Outcome (Store D) (Unit {0})
    unfolding completed
    lock_hook addr value =
        HookableMemory.store_word_direct hooks addr value
        >> on_site (set_key db ":lock" value)
        >> (if value == 0
            then on_site (debug_log db (codes "LOCK ENGAGED"))
            else (on_site (debug_log db (codes "LOCK DISENGAGED")) >> on_site completed))

    unfoldable pub temperature_hook : ℕ → ℕ → Store D → Outcome (Store D) (Unit {0})
    temperature_hook addr value =
        HookableMemory.store_word_direct hooks addr value
        >> on_site (set_key db ":temperature" value)
        >> on_site (debug_log db (codes "TEMPERATURE TARGET: " ++ db.dec (u16 value)))

    unfoldable pub airflow_hook : ℕ → ℕ → Store D → Outcome (Store D) (Unit {0})
    airflow_hook addr value =
        HookableMemory.store_word_direct hooks addr value
        >> on_site (set_key db ":airflow" value)
        >> on_site (debug_log db (codes "AIRFLOW TARGET: " ++ db.dec (u8 value)))

    output_reply : Reply → ℕ → Site D → Outcome (Site D) (Unit {0})
    output_reply failed value s = blocked
    output_reply nil value s = blocked
    output_reply (bytes raw) value s =
        ok tt (record s { redis = db.set (key db ":output" s) (raw ++ u8 value ∷ []) s.redis })

    -- With no reply the closure sends nothing, and the hook waits for ever.
    unfoldable pub write_user_output_hook : ℕ → ℕ → Store D → Outcome (Store D) (Unit {0})
    unfolding output_reply
    write_user_output_hook addr value m =
        let s = m.world in
        let (reply, d) = db.getrange (key db ":output" s) (negsuc 398) (pos 400) s.redis in
        elim (output_reply reply value (record s { redis = d })) [
          | ok a s' ↦ ok a (record m { world = s' })
          | err e s' ↦ err e (record m { world = s' })
          | panic ↦ panic
          | blocked ↦ blocked
        ]

    unfoldable pub write_hook : WriteHook → ℕ → ℕ → Store D → Outcome (Store D) (Unit {0})
    write_hook write_user_output = write_user_output_hook
    write_hook read_user_input = read_user_input_hook
    write_hook debug_log_hook = debug_log_write
    write_hook alarm = alarm_hook
    write_hook airflow = airflow_hook
    write_hook lock = lock_hook
    write_hook temperature = temperature_hook

  -- The hooks of a machine, which may run one another `depth` deep.
  unfoldable pub cpu_hooks : ℕ → Hooks ⊥ WriteHook (Site D)
  cpu_hooks zero = record { read_memory = λ h. absurd h; write_memory = λ h address value m. panic }
  cpu_hooks (suc depth) = record {
    read_memory = λ h. absurd h;
    write_memory = λ h address value m. write_hook (cpu_hooks depth) h address value m;
  }
