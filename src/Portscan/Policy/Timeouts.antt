-- ===== src/Portscan/Policy/Timeouts.antt =====
-- How long a probe waits after what answers.
use formaldehyde.Prelude.{
  ℕ, zero, suc, ◌+◌, ◌*◌, ◌/◌, ◌^◌, ◌≤◌, ◌<◌, ◌≡◌, refl, ap, ap₂, ◌∙◌, arith, Bool, true, false,
  if◌then◌else◌, Option, none, some, update, ltb, ℤ, pos, negsuc,
}
use Prim.Native.Nat.{max}
use formaldehyde.Ewma.{Ewma, new_ewma, add, u64}
use formaldehyde.Ewma.Laws.{add_times, read-add_times}
use formaldehyde.Portscan.Policy.{
  ProbeCode, success, refused, failed, timed_out, squelch, DefaultPolicy, millisecond, times, find,
  is_below, wanted, compute_timeout, millis, is_answer, all_after, or_new, host_after, hosts_after,
  elapsed,
}

at_least : (t : ℤ) (m : ℕ) → (n : ℕ) × ((if is_below t m then pos m else t) ≡ pos n) × (m ≤ n)
at_least (pos k) m = go (ltb k m) refl
  where
    go : (b : Bool) → ltb k m ≡ b → (n : ℕ) × ((if b then pos m else pos k) ≡ pos n) × (m ≤ n)
    go true e = (m, refl, omega arith)
    go false e = (k, refl, ground (arith, e))
at_least (negsuc k) m = (m, refl, omega arith)

-- A probe waits 20 milliseconds at least, whatever was seen before and although the products wrap.
compute_timeout-bound :
    (self : DefaultPolicy) (a : ℕ)
    → (n : ℕ) × (compute_timeout self a ≡ pos n) × (20 * millisecond ≤ n)
unfolding compute_timeout
compute_timeout-bound self a =
    at_least (wanted self.alltimeout (find self.timeouts a)) (20 * millisecond)

hosts_after-silent :
    (ilogb : ℕ → ℕ) (a delt b : ℕ) (code : ProbeCode) (m : Option (ℕ → Option Ewma))
    → is_answer code ≡ false
    → find (hosts_after ilogb a delt code m) b ≡ find m b
unfolding hosts_after host_after
hosts_after-silent ilogb a delt b success m h = absurd cc
hosts_after-silent ilogb a delt b refused m h = absurd cc
hosts_after-silent ilogb a delt b failed none h = refl
hosts_after-silent ilogb a delt b failed (some m) h = refl
hosts_after-silent ilogb a delt b timed_out none h = refl
hosts_after-silent ilogb a delt b timed_out (some m) h = refl
hosts_after-silent ilogb a delt b squelch none h = refl
hosts_after-silent ilogb a delt b squelch (some m) h = refl

all_after-silent :
    (ilogb : ℕ → ℕ) (delt : ℕ) (code : ProbeCode) (all : Ewma)
    → is_answer code ≡ false
    → all_after ilogb delt code all ≡ all
unfolding all_after
all_after-silent ilogb delt code all h = ground arith

-- A probe without an answer changes no timeout, that of its own host included.
compute_timeout-silent :
    (ilogb : ℕ → ℕ) (a b : ℕ) (d : ℤ) (code : ProbeCode) (self : DefaultPolicy)
    → is_answer code ≡ false
    → compute_timeout (elapsed ilogb a d code self) b ≡ compute_timeout self b
unfolding compute_timeout elapsed
compute_timeout-silent ilogb a b d code self h =
    ap₂
      (λ all e.
        let timeout = wanted all e in
        if is_below timeout (20 * millisecond) then pos (20 * millisecond) else timeout)
      (all_after-silent ilogb (millis d) code self.alltimeout h)
      (hosts_after-silent ilogb a (millis d) b code self.timeouts h)

-- `n` probes of a host that take the same time.
unfoldable pub elapsed_times : (ℕ → ℕ) → ℕ → ℕ → ℤ → ProbeCode → DefaultPolicy → DefaultPolicy
elapsed_times ilogb zero a d code self = self
elapsed_times ilogb (suc n) a d code self =
    elapsed ilogb a d code (elapsed_times ilogb n a d code self)

update_same : {A : Type 0} (f : ℕ → A) (k : ℕ) (v : A) → update f k v k ≡ v
update_same f k v = ground arith

find-hosts_after :
    (ilogb : ℕ → ℕ) (a delt : ℕ) (code : ProbeCode) (m : Option (ℕ → Option Ewma))
    → is_answer code ≡ true
    → find (hosts_after ilogb a delt code m) a
      ≡ some (add ilogb (u64 (delt + 1)) (or_new (find m a)))
unfolding hosts_after host_after
find-hosts_after ilogb a delt success none h =
    update_same (λ b. none) a (some (add ilogb (u64 (delt + 1)) new_ewma))
find-hosts_after ilogb a delt success (some m) h =
    update_same m a (some (add ilogb (u64 (delt + 1)) (or_new (m a))))
find-hosts_after ilogb a delt refused none h =
    update_same (λ b. none) a (some (add ilogb (u64 (delt + 1)) new_ewma))
find-hosts_after ilogb a delt refused (some m) h =
    update_same m a (some (add ilogb (u64 (delt + 1)) (or_new (m a))))
find-hosts_after ilogb a delt _ m h = absurd cc

-- The average of the host after its probes.
find-elapsed_times :
    (ilogb : ℕ → ℕ) (n a : ℕ) (d : ℤ) (code : ProbeCode) (self : DefaultPolicy)
    → is_answer code ≡ true
    → or_new (find self.timeouts a) ≡ new_ewma
    → find (elapsed_times ilogb (suc n) a d code self).timeouts a
      ≡ some (add_times ilogb (suc n) (u64 (millis d + 1)) new_ewma)
unfolding elapsed_times elapsed add_times
find-elapsed_times ilogb zero a d code self h e =
    find-hosts_after ilogb a (millis d) code self.timeouts h
    ∙ ap (λ x. some (add ilogb (u64 (millis d + 1)) x)) e
find-elapsed_times ilogb (suc n) a d code self h e =
    find-hosts_after ilogb a (millis d) code (elapsed_times ilogb (suc n) a d code self).timeouts h
    ∙ ap (λ o. some (add ilogb (u64 (millis d + 1)) (or_new o)))
        (find-elapsed_times ilogb n a d code self h e)

times-4 : (v : ℕ) → v * 4000000 < 2 ^ 63 → times v 4 ≡ pos (v * 4000000)
unfolding times
times-4 v h = ground (arith, h)

-- The timeout for a time of answers in whole milliseconds: four times one more, and 20 at least.
abbrev pub settled_timeout : ℕ → ℕ
settled_timeout delt = max (20 * millisecond) ((delt + 1) * 4 * millisecond)

-- The bound of `compute_timeout`.
abbrev at_least_20 : ℤ → ℤ
at_least_20 t = if is_below t (20 * millisecond) then pos (20 * millisecond) else t

clamp : (x m : ℕ) → (if is_below (pos x) m then pos m else pos x) ≡ pos (max m x)
clamp x m = ground arith

-- After one or more answers of a host that all take the same time, of less than 2 ^ 60 nanoseconds,
-- and if the host had no average before, a probe of it waits four times one millisecond more than
-- that time in whole milliseconds, rounded down, and 20 milliseconds at least, for a logarithm that is
-- right where the average asks for it.
pub compute_timeout-elapsed :
    (ilogb : ℕ → ℕ) (n a ns : ℕ) (code : ProbeCode) (self : DefaultPolicy)
    → ilogb 1024 ≡ 10
    → ilogb 8 ≡ 3
    → is_answer code ≡ true
    → or_new (find self.timeouts a) ≡ new_ewma
    → ns < 2 ^ 60
    → compute_timeout (elapsed_times ilogb (suc n) a (pos ns) code self) a
      ≡ pos (settled_timeout (ns / millisecond))
unfolding compute_timeout wanted millis
compute_timeout-elapsed ilogb n a ns code self e f h none' fits =
    let sample = u64 (u64 (ns / millisecond) + 1) in
    let exact : sample ≡ ns / millisecond + 1 = omega (arith, fits) in
    ap (λ o. at_least_20 (wanted (elapsed_times ilogb (suc n) a (pos ns) code self).alltimeout o))
      (find-elapsed_times ilogb n a (pos ns) code self h none')
    ∙ ap (λ v. at_least_20 (times v 4))
        (read-add_times ilogb n sample e f (omega (arith, exact)) (omega (arith, exact, fits))
          ∙ exact)
    ∙ ap at_least_20 (times-4 (ns / millisecond + 1) (omega (arith, fits)))
    ∙ clamp ((ns / millisecond + 1) * 4000000) (20 * millisecond)
    ∙ ap (λ (x : ℕ). pos (max (20 * millisecond) x)) (omega arith)
