-- ===== src/Clock.antt =====
-- crates/ssh-core/src/clock.rs: milliseconds in a `u64`, and the service's clock.
pub mod Monotone
use mcp_ssh_rs.Prelude.{ℕ, ◌+◌, ◌-◌, ◌*◌, ◌/◌, ◌^◌, min, Option, none, some, Result, ok, err, ok_or}

abbrev pub u64_max : ℕ
u64_max = 2 ^ 64 - 1

-- `u64::saturating_add` and `usize::saturating_add`; `saturating_sub` is `-`.
abbrev pub saturating_add : ℕ → ℕ → ℕ
saturating_add a b = min (a + b) u64_max

abbrev pub saturating_mul : ℕ → ℕ → ℕ
saturating_mul a b = min (a * b) u64_max

-- A field of the `timespec` that `clock_gettime` fills: `negative n` is -(n + 1).
pub data Signed : Type 0 where
  positive negative : ℕ → Signed

-- `u64::try_from`.
abbrev pub unsigned : Signed → Option ℕ
unsigned (positive n) = some n
unsigned (negative n) = none

abbrev millis_of : Option ℕ → Option ℕ → Option ℕ
millis_of none nanos = none
millis_of (some seconds) none = none
millis_of (some seconds) (some nanos) =
    some (saturating_add (saturating_mul seconds 1000) (nanos / 1000000))

-- `boot_millis`, given what `clock_gettime(CLOCK_BOOTTIME)` answers.
pub boot_millis : Option (Signed × Signed) → Option ℕ
boot_millis none = none
boot_millis (some (seconds, nanos)) = millis_of (unsigned seconds) (unsigned nanos)

pub record SystemClock : Type 0 where
  pub origin : ℕ
  pub last_good : ℕ

pub data ClockUnavailable : Type 0 where
  clock_unavailable : ClockUnavailable

-- `SystemClock::new`, at its one reading.
unfoldable pub new : Option ℕ → Result ClockUnavailable SystemClock
new reading = elim reading [
  | none ↦ err clock_unavailable
  | some origin ↦ ok (record { origin = origin; last_good = 0 })
]

-- `SystemClock::now`, at one reading of `boot_millis`: the clock after it, and its answer.
unfoldable pub now : SystemClock → Option ℕ → SystemClock × ℕ
now clock reading = elim reading [
  | none ↦ (clock, clock.last_good)
  | some millis ↦
      let elapsed = millis - clock.origin in (record clock { last_good = elapsed }, elapsed)
]
