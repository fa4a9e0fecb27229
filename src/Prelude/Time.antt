-- ===== src/Prelude/Time.antt =====
-- Instants and durations in nanoseconds. `time.Time{}`, the zero time, is 0, and a clock reading
-- is any number of nanoseconds since then. A `time.Duration` is the bit pattern of an int64.
use Prim.Native.Nat.{ℕ, ◌+◌, ◌-◌, ◌*◌, ◌%◌}
use mathlib.Core.Bool.{Bool, false}
use m365_copilot2api_dsm.Prelude.Tests.{ltb, if◌then◌else◌}

abbrev pub second : ℕ
second = 1_000_000_000

abbrev pub minute : ℕ
minute = 60 * second

abbrev pub hour : ℕ
hour = 60 * minute

-- 2 ^ 63 and 2 ^ 64, the sign bit and the modulus of an int64.
abbrev pub sign_bit : ℕ
sign_bit = 9_223_372_036_854_775_808

abbrev pub word : ℕ
word = 18_446_744_073_709_551_616

-- int64 multiplication, with its wrap-around.
abbrev pub mul_64 : ℕ → ℕ → ℕ
mul_64 a b = (a * b) % word

-- `d > e` for an int64 pattern `d` and a nonnegative `e`.
abbrev pub longer : ℕ → ℕ → Bool
longer d e = if ltb d sign_bit then ltb e d else false

-- `t.Add(d)`.
abbrev pub add_duration : ℕ → ℕ → ℕ
add_duration t d = if ltb d sign_bit then t + d else t - (word - d)

-- `time.Time.IsZero`.
abbrev pub is_zero : ℕ → Bool
is_zero t = ltb t 1
