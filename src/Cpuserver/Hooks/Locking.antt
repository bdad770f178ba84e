-- ===== src/Cpuserver/Hooks/Locking.antt =====
-- What a program that writes to the lock does to the memory and to the database.
use formaldehyde.Prelude.{
  ℕ, suc, ◌<◌, ◌≡◌, ◌≢◌, refl, sym, ap, ◌∙◌, true, false, Bool-cases, inl, inr, ◌==◌, if◌then◌else◌,
  some, codes, List, [], ◌∷◌, ◌++◌, arith, ℤ,
}
use formaldehyde.Prelude.Outcome.{ok, ◌>>◌, ◌>>=◌}
use formaldehyde.Msp43x.SimpleMemory.Laws.{stored, store_word-stored, load_word-bytes}
use formaldehyde.Msp43x.HookableMemory
use formaldehyde.Msp43x.HookableMemory.{HookableMemory, set_write_hook, new_hookable_memory}
use formaldehyde.Cpuserver.Site.{Redis, Reply, bytes, Site, key, debug_log, set_key}
use formaldehyde.Cpuserver.Hooks.{
  Store, lock, completed, lock_hook, write_hook, cpu_hooks, m_io_lock,
}
use formaldehyde.Cpuserver.UserCpu.{new_user_cpu}

-- What Redis documents of GET after SET, LPUSH and LTRIM.
pub record IsDatabase {D : Type 0} (db : Redis D) : Type 0 where
  pub get-set : (k v : List ℕ) (d : D) → (db.get k (db.set k v d)).0 ≡ bytes v
  pub get-set_number :
      (k : List ℕ) (n : ℕ) (d : D) → (db.get k (db.set_number k n d)).0 ≡ bytes (db.dec n)
  pub get-set_other :
      (k j v : List ℕ) (d : D) → k ≢ j → (db.get k (db.set j v d)).0 ≡ (db.get k d).0
  pub get-set_number_other :
      (k j : List ℕ) (n : ℕ) (d : D) → k ≢ j → (db.get k (db.set_number j n d)).0 ≡ (db.get k d).0
  pub get-lpush_other :
      (k j v : List ℕ) (d : D) → k ≢ j → (db.get k (db.lpush j v d)).0 ≡ (db.get k d).0
  pub get-ltrim_other :
      (k j : List ℕ) (a b : ℤ) (d : D) → k ≢ j → (db.get k (db.ltrim j a b d)).0 ≡ (db.get k d).0

append-cancel : (xs ys zs : List ℕ) → xs ++ ys ≡ xs ++ zs → ys ≡ zs
append-cancel [] ys zs h = h
append-cancel (x ∷ xs) ys zs h = append-cancel xs ys zs (ap tail h)
  where
    tail : List ℕ → List ℕ
    tail [] = []
    tail (y ∷ rest) = rest

-- Two keys of one machine differ where their ends do.
keys-differ : (name xs ys : List ℕ) → xs ≢ ys → name ++ xs ≢ name ++ ys
keys-differ name xs ys h e = h (append-cancel name xs ys e)

colon-differ : (xs ys : List ℕ) → xs ≢ ys → codes ":" ++ xs ≢ codes ":" ++ ys
colon-differ xs ys h e = h (append-cancel (codes ":") xs ys e)

module _ {D : Type 0} (db : Redis D) where
  -- The key of the level that a machine runs.
  abbrev pub level_key : Site D → List ℕ
  level_key s = s.name ++ (codes ":" ++ s.hash)

  -- What GET of a key replies.
  abbrev pub reply : List ℕ → Site D → Reply
  reply k s = (db.get k s.redis).0

  reply-debug_log :
      (k entry : List ℕ) (s : Site D)
      → IsDatabase db
      → k ≢ key db ":debuglog" s
      → reply k (debug_log db entry s) ≡ reply k s
  unfolding debug_log
  reply-debug_log k entry s laws other =
      laws.get-ltrim_other k (key db ":debuglog" s) _ _ _ other
      ∙ laws.get-lpush_other k (key db ":debuglog" s) _ _ other

  lock-debuglog : (s : Site D) → key db ":lock" s ≢ key db ":debuglog" s
  lock-debuglog s =
      keys-differ s.name (codes ":lock") (codes ":debuglog")
        (colon-differ (codes "lock") (codes "debuglog") (λ e. omega (arith, ap head e)))
    where
      head : List ℕ → ℕ
      head [] = 0
      head (x ∷ xs) = x

module _ {D : Type 0} (db : Redis D) (polls depth : ℕ) where
  -- The world after the lock is opened, and after it is closed.
  abbrev opened : ℕ → Site D → Site D
  opened value s =
      completed db polls (cpu_hooks db polls depth)
        (debug_log db (codes "LOCK DISENGAGED") (set_key db ":lock" value s))

  abbrev closed : ℕ → Site D → Site D
  closed value s = debug_log db (codes "LOCK ENGAGED") (set_key db ":lock" value s)

  hook_at_lock :
      (boot name : List ℕ) (d : D) (m : Store D)
      → m.write_hooks ≡ (new_user_cpu boot name d).mcu.memory.write_hooks
      → m.write_hooks m_io_lock ≡ some lock
  unfolding new_user_cpu
  hook_at_lock boot name d m h = ap (λ f. f m_io_lock) h

  store_word-opened :
      (value : ℕ) (m : Store D)
      → m.write_hooks m_io_lock ≡ some lock
      → (value == 0) ≡ false
      → HookableMemory.store_word (cpu_hooks db polls (suc depth)) m_io_lock value m
        ≡ ok tt (record m { mem = stored m_io_lock value m.mem; world = opened value m.world })
  unfolding HookableMemory.store_word cpu_hooks write_hook lock_hook
      HookableMemory.store_word_direct
  store_word-opened value m h v =
      rw
        (
          HookableMemory.store_word,
          h,
          ◌>>◌,
          ◌>>=◌,
          lock_hook,
          HookableMemory.store_word_direct,
          store_word-stored m_io_lock value m.mem,
          v,
        )
        refl

  store_word-closed :
      (value : ℕ) (m : Store D)
      → m.write_hooks m_io_lock ≡ some lock
      → (value == 0) ≡ true
      → HookableMemory.store_word (cpu_hooks db polls (suc depth)) m_io_lock value m
        ≡ ok tt (record m { mem = stored m_io_lock value m.mem; world = closed value m.world })
  unfolding HookableMemory.store_word cpu_hooks write_hook lock_hook
      HookableMemory.store_word_direct
  store_word-closed value m h v =
      rw
        (
          HookableMemory.store_word,
          h,
          ◌>>◌,
          ◌>>=◌,
          lock_hook,
          HookableMemory.store_word_direct,
          store_word-stored m_io_lock value m.mem,
          v,
        )
        refl

  -- The word in memory after the store.
  load_stored :
      (value : ℕ) (m : Store D) (w : Site D)
      → value < 65536
      → let after = record m { mem = stored m_io_lock value m.mem; world = w } in
        HookableMemory.load_word_direct (cpu_hooks db polls (suc depth)) m_io_lock after
        ≡ ok value after
  unfolding HookableMemory.load_word_direct
  load_stored value m w fits =
      ground (arith, load_word-bytes m_io_lock (stored m_io_lock value m.mem))

  reply-opened :
      (value : ℕ) (s : Site D)
      → IsDatabase db
      → s.hash ≢ codes "lock"
      → reply db (key db ":lock" s) (opened value s) ≡ bytes (db.dec value)
  unfolding completed debug_log
  reply-opened value s laws other =
      laws.get-set_other (key db ":lock" s) (level_key db s) _ _ (
        keys-differ s.name (codes ":lock") (codes ":" ++ s.hash)
          (colon-differ (codes "lock") s.hash (λ e. other (sym e))))
      ∙ reply-debug_log db (key db ":lock" s) (codes "LOCK DISENGAGED") (set_key db ":lock" value s)
          laws (lock-debuglog db s)
      ∙ laws.get-set_number (key db ":lock" s) value s.redis

  level-opened :
      (value : ℕ) (s : Site D)
      → IsDatabase db
      → reply db (level_key db s) (opened value s) ≡ bytes (codes "completed")
  unfolding completed debug_log
  level-opened value s laws = laws.get-set (level_key db s) (codes "completed") _

  reply-closed :
      (value : ℕ) (s : Site D)
      → IsDatabase db
      → reply db (key db ":lock" s) (closed value s) ≡ bytes (db.dec value)
  reply-closed value s laws =
      reply-debug_log db (key db ":lock" s) _ (set_key db ":lock" value s) laws (lock-debuglog db s)
      ∙ laws.get-set_number (key db ":lock" s) value s.redis

  level-closed :
      (value : ℕ) (s : Site D)
      → IsDatabase db
      → s.hash ≢ codes "lock"
      → s.hash ≢ codes "debuglog"
      → reply db (level_key db s) (closed value s) ≡ reply db (level_key db s) s
  level-closed value s laws not_lock not_log =
      reply-debug_log db (level_key db s) _ (set_key db ":lock" value s) laws (
        keys-differ s.name (codes ":" ++ s.hash) (codes ":debuglog")
          (colon-differ s.hash (codes "debuglog") not_log))
      ∙ laws.get-set_number_other (level_key db s) (key db ":lock" s) value s.redis (
          keys-differ s.name (codes ":" ++ s.hash) (codes ":lock")
            (colon-differ s.hash (codes "lock") not_lock))

  -- A program that stores a word at the lock's address, on a machine with the hooks that
  -- `NewUserCpu` sets and a database that keeps what is set, does so without an error: the word can
  -- be loaded directly from there, the machine's key of the lock holds the number, and the key of the
  -- level, whose hash is not a word that other keys use, holds "completed" if the word is not 0, and
  -- what it held before if it is 0.
  pub store_word-lock :
      (boot name : List ℕ) (d : D) (value : ℕ) (m : Store D)
      → IsDatabase db
      → value < 65536
      → m.write_hooks ≡ (new_user_cpu boot name d).mcu.memory.write_hooks
      → m.world.hash ≢ codes "lock"
      → m.world.hash ≢ codes "debuglog"
      → let hooks = cpu_hooks db polls (suc depth) in
        (after : Store D) × (HookableMemory.store_word hooks 0x220 value m ≡ ok tt after)
        × (HookableMemory.load_word_direct hooks 0x220 after ≡ ok value after)
        × (reply db (key db ":lock" m.world) after.world ≡ bytes (db.dec value))
        × (reply db (level_key db m.world) after.world ≡ (
            if value == 0
            then reply db (level_key db m.world) m.world
            else bytes (codes "completed")))
  store_word-lock boot name d value m laws fits hooks not_lock not_log =
      let at_lock = hook_at_lock boot name d m hooks in
      elim (Bool-cases (value == 0)) [
        | inl e ↦ (
          record m { mem = stored m_io_lock value m.mem; world = closed value m.world },
          store_word-closed value m at_lock e,
          load_stored value m (closed value m.world) fits,
          reply-closed value m.world laws,
          rw e (level-closed value m.world laws not_lock not_log),
        )
        | inr e ↦ (
          record m { mem = stored m_io_lock value m.mem; world = opened value m.world },
          store_word-opened value m at_lock e,
          load_stored value m (opened value m.world) fits,
          reply-opened value m.world laws not_lock,
          rw e (level-opened value m.world laws),
        )
      ]
