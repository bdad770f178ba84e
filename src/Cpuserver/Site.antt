-- ===== src/Cpuserver/Site.antt =====
-- What the hooks of src/newmadrid/cpuserver reach: a machine's name, hash and state, and the database.
-- The database is a service outside the repository, so its commands are a parameter. A closure sent
-- to the goroutine of `RedisLand` runs at once here; that goroutine runs them one by one, in order.
use formaldehyde.Prelude.{ℕ, ℤ, pos, List, ◌++◌, take, codes, String, Option}

-- What a command returns: an error, nil, or a text.
pub data Reply : Type 0 where
  failed nil : Reply
  bytes : List ℕ → Reply

-- The commands that the server uses, on a database of type `D`. `set_number` is SET of a number,
-- `now` is the clock, `pause` is what others do while a hook sleeps, and `trim` is `bytes.Trim` with
-- "\n", `none` for a nil slice.
pub record Redis (D : Type 0) : Type 0 where
  pub get : List ℕ → D → Reply × D
  pub getrange : List ℕ → ℤ → ℤ → D → Reply × D
  pub set : List ℕ → List ℕ → D → D
  pub set_number : List ℕ → ℕ → D → D
  pub del : List ℕ → D → D
  pub lpush : List ℕ → List ℕ → D → D
  pub ltrim : List ℕ → ℤ → ℤ → D → D
  pub now : D → ℕ
  pub pause : D → D
  pub trim : List ℕ → Option (List ℕ)
  pub dec : ℕ → List ℕ

-- The constants `CpuStopped` to `CpuIoSleep`.
pub data CpuState : Type 0 where
  stopped running fault stepping io_sleep : CpuState

pub record Site (D : Type 0) : Type 0 where
  pub name : List ℕ
  pub hash : List ℕ
  pub state : CpuState
  pub redis : D

module _ {D : Type 0} (db : Redis D) where
  -- `fmt.Sprintf("%s:…", c.Name)`.
  abbrev pub key : String → Site D → List ℕ
  key suffix s = s.name ++ codes suffix

  -- `DebugLog`: at most 100 bytes of an entry are kept.
  unfoldable pub debug_log : List ℕ → Site D → Site D
  debug_log entry s =
      let line = db.dec (db.now s.redis) ++ (codes ":" ++ take 100 entry) in
      record s {
        redis =
            db.ltrim (key ":debuglog" s) (pos 0) (pos 100)
              (db.lpush (key ":debuglog" s) line s.redis);
      }

  abbrev pub set_key : String → ℕ → Site D → Site D
  set_key suffix value s = record s { redis = db.set_number (key suffix s) value s.redis }
