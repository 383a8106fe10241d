-- ===== src/Timestamp.antt =====
-- nets/base/Timestamp.h and Timestamp.cpp: a time is its count of microseconds since the epoch. The
-- counts stay within `int64_t`, whose overflow is undefined in the source.
pub mod Parts
mod Tests
use nets.Prelude.{ℕ, suc, ◌+◌, ◌*◌, ◌/◌, ◌%◌, Bool}
use nets.Prelude.Int.{ℤ, pos, negsuc, ◌+ℤ◌, ◌-ℤ◌, ◌*ℤ◌, sub_ℕ, ◌≤ℤ◌, ltb_ℤ, leb_ℤ, eqb_ℤ}

pub record Timestamp : Type 0 where
  pub microseconds_since_epoch : ℤ

abbrev pub milliseconds_per_second : ℕ
milliseconds_per_second = 1000

abbrev pub microseconds_per_millisecond : ℕ
microseconds_per_millisecond = 1000

abbrev pub microseconds_per_second : ℕ
microseconds_per_second = 1000000

-- `Timestamp(TimeType)`
abbrev pub of_microseconds : ℤ → Timestamp
of_microseconds n = record { microseconds_since_epoch = n }

-- `Timestamp(TimeType secondsSinceEpoch, TimeType microseconds)`
pub of_parts : ℤ → ℤ → Timestamp
of_parts seconds micros = of_microseconds (seconds *ℤ pos microseconds_per_second +ℤ micros)

-- Division and remainder of C++ round towards zero.
abbrev negated : ℕ → ℤ
negated n = sub_ℕ 0 n

unfoldable pub quotient : ℤ → ℕ → ℤ
quotient (pos n) k = pos (n / k)
quotient (negsuc n) k = negated (suc n / k)

pub remainder : ℤ → ℕ → ℤ
remainder (pos n) k = pos (n % k)
remainder (negsuc n) k = negated (suc n % k)

module _ (t : Timestamp) where
  open t use {microseconds_since_epoch}

  pub plus_seconds : ℤ → Timestamp
  plus_seconds n = of_microseconds (microseconds_since_epoch +ℤ n *ℤ pos microseconds_per_second)

  unfoldable pub plus_milliseconds : ℤ → Timestamp
  plus_milliseconds n =
      of_microseconds (microseconds_since_epoch +ℤ n *ℤ pos microseconds_per_millisecond)

  pub plus_microseconds : ℤ → Timestamp
  plus_microseconds n = of_microseconds (microseconds_since_epoch +ℤ n)

  pub minus_seconds : ℤ → Timestamp
  minus_seconds n = of_microseconds (microseconds_since_epoch -ℤ n *ℤ pos microseconds_per_second)

  pub minus_milliseconds : ℤ → Timestamp
  minus_milliseconds n =
      of_microseconds (microseconds_since_epoch -ℤ n *ℤ pos microseconds_per_millisecond)

  unfoldable pub minus_microseconds : ℤ → Timestamp
  minus_microseconds n = of_microseconds (microseconds_since_epoch -ℤ n)

  pub seconds_since_epoch : ℤ
  seconds_since_epoch = quotient microseconds_since_epoch microseconds_per_second

  -- The source divides by the milliseconds of a second, which are as many as the microseconds of a
  -- millisecond.
  unfoldable pub milliseconds_since_epoch : ℤ
  unfolding quotient
  milliseconds_since_epoch = quotient microseconds_since_epoch milliseconds_per_second

  pub micros_part_of_timestamp : ℤ
  micros_part_of_timestamp = remainder microseconds_since_epoch microseconds_per_second

  abbrev pub is_before : Timestamp → Bool
  is_before u = ltb_ℤ microseconds_since_epoch u.microseconds_since_epoch

  abbrev pub is_at_most : Timestamp → Bool
  is_at_most u = leb_ℤ microseconds_since_epoch u.microseconds_since_epoch

  abbrev pub is_equal : Timestamp → Bool
  is_equal u = eqb_ℤ microseconds_since_epoch u.microseconds_since_epoch

-- The order of times.
infix 50 ◌≤ₜ◌
abbrev pub ◌≤ₜ◌ : Timestamp → Timestamp → Type 0
t ≤ₜ u = t.microseconds_since_epoch ≤ℤ u.microseconds_since_epoch
