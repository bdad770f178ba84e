-- ===== src/Cpuserver/Tests/Locks.antt =====
-- A database that keeps what is set, and a program that opens the lock on it.
use formaldehyde.Prelude.{
  ℕ, suc, ◌≡◌, ◌≢◌, refl, ap, false, Bool-cases, inl, inr, if◌then◌else◌, List, [], ◌∷◌, ◌++◌,
  Option, none, some, codes, same_text, same_text-eq, same_text_refl, arith,
}
use formaldehyde.Prelude.Outcome.{ok}
use formaldehyde.Msp43x.HookableMemory
use formaldehyde.Cpuserver.Site.{Redis, Reply, nil, bytes, key}
use formaldehyde.Cpuserver.Hooks.{Store, cpu_hooks}
use formaldehyde.Cpuserver.Hooks.Locking.{IsDatabase, reply, level_key, store_word-lock}
use formaldehyde.Cpuserver.UserCpu.{new_user_cpu}

-- The text of each key.
abbrev Table : Type 0
Table = List ℕ → Option (List ℕ)

abbrev reply_of : Option (List ℕ) → Reply
reply_of none = nil
reply_of (some v) = bytes v

abbrev put : List ℕ → Option (List ℕ) → Table → Table
put j v d = λ k. if same_text k j then v else d k

-- Lists are kept without their bounds, as the text of all entries.
abbrev pushed : List ℕ → Option (List ℕ) → List ℕ
pushed v none = v
pushed v (some old) = v ++ old

abbrev tables : Redis Table
tables = record {
  get = λ k d. (reply_of (d k), d);
  getrange = λ k a b d. (reply_of (d k), d);
  set = λ k v d. put k (some v) d;
  set_number = λ k n d. put k (some (n ∷ [])) d;
  del = λ k d. put k none d;
  lpush = λ k v d. put k (some (pushed v (d k))) d;
  ltrim = λ k a b d. d;
  now = λ d. 0;
  pause = λ d. d;
  trim = λ raw. some raw;
  dec = λ n. n ∷ [];
}

other-key : (k j : List ℕ) → k ≢ j → same_text k j ≡ false
other-key k j h = elim (Bool-cases (same_text k j)) [
  | inl e ↦ absurd (h (same_text-eq k j e))
  | inr e ↦ e
]

put_same : (k : List ℕ) (v : List ℕ) (d : Table) → reply_of (put k (some v) d k) ≡ bytes v
put_same k v d = rw (same_text_refl k) refl

put_other :
    (k j : List ℕ) (v : Option (List ℕ)) (d : Table)
    → k ≢ j
    → reply_of (put j v d k) ≡ reply_of (d k)
put_other k j v d h = rw (other-key k j h) refl

tables-IsDatabase : IsDatabase tables
tables-IsDatabase = record {
  get-set = put_same;
  get-set_number = λ k n d. put_same k (n ∷ []) d;
  get-set_other = λ k j v d h. put_other k j (some v) d h;
  get-set_number_other = λ k j n d h. put_other k j (some (n ∷ [])) d h;
  get-lpush_other = λ k j v d h. put_other k j (some (pushed v (d j))) d h;
  get-ltrim_other = λ k j a b d h. refl;
}

-- A new machine, and its memory with a level loaded.
abbrev loaded : Store Table
loaded =
    let m = (new_user_cpu (codes "boot") (codes "u1") (λ k. none)).mcu.memory in
    record m { world = record m.world { hash = codes "9e1f" } }

not_lock : codes "9e1f" ≢ codes "lock"
not_lock e = omega (arith, ap head e)
  where
    head : List ℕ → ℕ
    head [] = 0
    head (x ∷ xs) = x

not_log : codes "9e1f" ≢ codes "debuglog"
not_log e = omega (arith, ap head e)
  where
    head : List ℕ → ℕ
    head [] = 0
    head (x ∷ xs) = x

store_word-lock_example :
    (after : Store Table) × (HookableMemory.store_word (cpu_hooks tables 3 (suc 2)) 0x220 1 loaded
      ≡ ok tt after)
    × (HookableMemory.load_word_direct (cpu_hooks tables 3 (suc 2)) 0x220 after ≡ ok 1 after)
    × (reply tables (key tables ":lock" loaded.world) after.world ≡ bytes (1 ∷ []))
    × (reply tables (level_key tables loaded.world) after.world ≡ bytes (codes "completed"))
unfolding new_user_cpu
store_word-lock_example =
    store_word-lock tables 3 2 (codes "boot") (codes "u1") (λ k. none) 1 loaded tables-IsDatabase
      (omega arith) refl not_lock not_log
