-- ===== src/Go/Time.antt =====
-- Package time, as far as the program uses it, and the remainder of two int64.
use telemd.Base.{ℕ, zero, suc, ◌%◌, ◌^◌, Option, none, some}
use telemd.Base.Int.{ℤ, pos, negsuc, ◌+ℤ◌, ◌*ℤ◌, wrap64, sub_ℕ}

-- A point in time: whole seconds since 1970, and nanoseconds below 10^9 on top of them.
pub record Time : Type 0 where
  pub sec : ℤ
  pub nsec : ℕ

unfoldable pub unix_nano : Time → ℤ
unfolding wrap64 ◌+ℤ◌ ◌*ℤ◌
unix_nano t = wrap64 (t.sec *ℤ pos (10 ^ 9) +ℤ pos t.nsec)

-- `a % b` for a divisor that is not zero: the sign is that of `a`.
abbrev pub rem_by : ℤ → ℕ → ℤ
rem_by (pos n) d = pos (n % d)
rem_by (negsuc n) d = sub_ℕ 0 (suc n % d)

-- `none` is the panic of a division by zero.
unfoldable pub rem : ℤ → ℤ → Option ℤ
rem a (pos zero) = none
rem a (pos (suc d)) = some (rem_by a (suc d))
rem a (negsuc d) = some (rem_by a (suc d))

-- Durations, in nanoseconds.
abbrev pub millisecond : ℕ
millisecond = 10 ^ 6

abbrev pub second : ℕ
second = 10 ^ 9
