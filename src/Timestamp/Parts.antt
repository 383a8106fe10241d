-- ===== src/Timestamp/Parts.antt =====
-- Seconds and microseconds of a time, and the way back.
use nets.Prelude.{ℕ, ◌<◌, ◌≡◌, ap, arith}
use nets.Prelude.Int.{ℤ, pos, ◌+ℤ◌, ◌*ℤ◌, int_laws}
use nets.Timestamp.{
  Timestamp, of_microseconds, of_parts, quotient, remainder, plus_milliseconds, minus_milliseconds,
  seconds_since_epoch, micros_part_of_timestamp,
}

-- A time from the epoch on comes apart into the seconds, and the microseconds below a million, that
-- it was made of.
parts-of_parts :
    (seconds micros : ℕ)
    → micros < 1000000
    → (seconds_since_epoch (of_parts (pos seconds) (pos micros)) ≡ pos seconds)
      × (micros_part_of_timestamp (of_parts (pos seconds) (pos micros)) ≡ pos micros)
unfolding of_parts seconds_since_epoch micros_part_of_timestamp quotient remainder ◌+ℤ◌ ◌*ℤ◌
parts-of_parts seconds micros h = ground arith

-- Any time is made of its own seconds and microseconds, before the epoch too.
of_parts-parts : (t : Timestamp) → of_parts (seconds_since_epoch t) (micros_part_of_timestamp t) ≡ t
unfolding of_parts seconds_since_epoch micros_part_of_timestamp quotient remainder ◌+ℤ◌ ◌*ℤ◌
of_parts-parts t = ground arith

-- A shift by milliseconds, and back, ends at the same time.
pub minus_milliseconds-plus_milliseconds :
    (t : Timestamp) (n : ℤ) → minus_milliseconds (plus_milliseconds t n) n ≡ t
unfolding minus_milliseconds plus_milliseconds
minus_milliseconds-plus_milliseconds t n = ap of_microseconds (omega int_laws)
