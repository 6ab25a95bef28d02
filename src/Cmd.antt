-- ===== src/Cmd.antt =====
-- pkg/cmd: what commands share for polling. Durations are int64 nanoseconds, as in Go's time package.
pub mod Wait
pub mod Watch
pub mod Backoff
pub mod Streak
pub mod Changes
pub mod Bounds
pub mod Tests
use odh_cli.Base.{ℕ, ◌*◌, Bool, true, false, ltb}
use odh_cli.Output.{ℤ, pos, negsuc}

-- `a < b` on Go's integers.
abbrev pub int_ltb : ℤ → ℤ → Bool
int_ltb (pos a) (pos b) = ltb a b
int_ltb (pos a) (negsuc b) = false
int_ltb (negsuc a) (pos b) = true
int_ltb (negsuc a) (negsuc b) = ltb b a

-- time.Second
abbrev pub second : ℕ
second = 1_000_000_000

-- MaxPollInterval: 5 minutes
abbrev pub max_poll_interval : ℕ
max_poll_interval = 300 * second

-- MaxWaitTimeout: 30 minutes
abbrev pub max_wait_timeout : ℕ
max_wait_timeout = 1800 * second
