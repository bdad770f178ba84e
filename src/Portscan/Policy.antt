-- ===== src/Portscan/Policy.antt =====
-- `DefaultPolicy` of src/matasano/util/portscan.go: how long a probe waits, by the answers so far. An
-- address is the number that `to4` makes of it, and the lock is left out, since it covers each method.
pub mod Timeouts
use formaldehyde.Prelude.{
  ℕ, zero, suc, ◌+◌, ◌-◌, ◌*◌, ◌/◌, ◌%◌, ◌^◌, ◌==◌, Bool, true, false, not, ◌&&◌, ◌||◌,
  if◌then◌else◌, Option, none, some, update, ltb, ℤ, pos, negsuc, ◌*ℤ◌, int64, bit_or, ◌<<◌,
}
use formaldehyde.Ewma.{Ewma, new_ewma, read, add, u64}

pub data ProbeCode : Type 0 where
  success refused failed timed_out squelch : ProbeCode

-- A nil map is `none`.
pub record DefaultPolicy : Type 0 where
  pub max_in_flight : ℕ
  pub alltimeout : Ewma
  pub timeouts : Option (ℕ → Option Ewma)

-- `to4` of the four bytes of an address.
unfoldable pub to4 : ℕ → ℕ → ℕ → ℕ → ℕ
to4 a b c d = bit_or (bit_or (bit_or (a << 24) (b << 16)) (c << 8)) d

unfoldable pub compute_first_volley : DefaultPolicy → ℕ
compute_first_volley self = self.max_in_flight

-- `time.Millisecond`, in nanoseconds.
abbrev pub millisecond : ℕ
millisecond = 1000000

-- `(time.Duration(v) * time.Millisecond) * factor`, where every step wraps at 64 bits.
unfoldable pub times : ℕ → ℕ → ℤ
times v factor = int64 (int64 (int64 (pos v) *ℤ pos millisecond) *ℤ pos factor)

-- `self.timeouts[a]`.
abbrev pub find : Option (ℕ → Option Ewma) → ℕ → Option Ewma
find none a = none
find (some m) a = m a

abbrev pub is_below : ℤ → ℕ → Bool
is_below (pos n) m = ltb n m
is_below (negsuc n) m = true

-- The timeout before the bound, by the average of all hosts and that of the host.
unfoldable pub wanted : Ewma → Option Ewma → ℤ
unfolding times
wanted all (some e) = times (read e) 4
wanted all none = if read all == 0 then pos (5 * 1000 * millisecond) else times (read all) 8

unfoldable pub compute_timeout : DefaultPolicy → ℕ → ℤ
unfolding wanted
compute_timeout self a =
    let timeout = wanted self.alltimeout (find self.timeouts a) in
    if is_below timeout (20 * millisecond) then pos (20 * millisecond) else timeout

-- `uint64(d / time.Millisecond)`, whose division rounds towards 0.
unfoldable pub millis : ℤ → ℕ
millis (pos n) = u64 (n / millisecond)
millis (negsuc n) = u64 (2 ^ 64 - (n + 1) / millisecond)

-- `code == ProbeSuccess || code == ProbeRefused`.
abbrev pub is_answer : ProbeCode → Bool
is_answer success = true
is_answer refused = true
is_answer _ = false

abbrev pub is_timeout : ProbeCode → Bool
is_timeout timed_out = true
is_timeout _ = false

-- The average of a host, which is the zero value for a host that is not there.
abbrev pub or_new : Option Ewma → Ewma
or_new none = new_ewma
or_new (some e) = e

module _ (ilogb : ℕ → ℕ) where
  -- The average of all hosts after a probe.
  unfoldable pub all_after : ℕ → ProbeCode → Ewma → Ewma
  all_after delt code all =
      if not (is_timeout code) && not (delt == 0) && is_answer code then add ilogb delt all else all

  -- The averages of the hosts after a probe, from a map that is there.
  unfoldable pub host_after : ℕ → ℕ → ProbeCode → (ℕ → Option Ewma) → ℕ → Option Ewma
  host_after a delt code m =
      if is_answer code then update m a (some (add ilogb (u64 (delt + 1)) (or_new (m a)))) else m

  unfoldable pub hosts_after :
      ℕ → ℕ → ProbeCode → Option (ℕ → Option Ewma) → Option (ℕ → Option Ewma)
  unfolding host_after
  hosts_after a delt code none =
      if is_timeout code then none else some (host_after a delt code (λ b. none))
  hosts_after a delt code (some m) = some (host_after a delt code m)

  unfoldable pub elapsed : ℕ → ℤ → ProbeCode → DefaultPolicy → DefaultPolicy
  unfolding all_after hosts_after millis
  elapsed a d code self = record self {
    alltimeout = all_after (millis d) code self.alltimeout;
    timeouts = hosts_after a (millis d) code self.timeouts;
  }
