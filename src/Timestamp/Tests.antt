-- ===== src/Timestamp/Tests.antt =====
-- Times at small inputs.
use nets.Prelude.{◌≡◌, refl}
use nets.Prelude.Int.{pos, negsuc, ◌+ℤ◌, ◌*ℤ◌, ◌-ℤ◌}
use nets.Timestamp.{
  Timestamp, of_microseconds, plus_seconds, plus_milliseconds, plus_microseconds, minus_seconds,
  minus_milliseconds, minus_microseconds, milliseconds_since_epoch, quotient,
}
use nets.Timestamp.Parts.{minus_milliseconds-plus_milliseconds}

abbrev early : Timestamp
early = of_microseconds (negsuc 1500000)

minus_milliseconds-plus_milliseconds_example :
    minus_milliseconds (plus_milliseconds early (pos 2)) (pos 2) ≡ early
minus_milliseconds-plus_milliseconds_example = minus_milliseconds-plus_milliseconds early (pos 2)

shifts :
    (minus_seconds (plus_seconds (of_microseconds (pos 5)) (pos 3)) (pos 3)
      ≡ of_microseconds (pos 5))
    × (minus_microseconds (plus_microseconds (of_microseconds (pos 5)) (pos 3)) (pos 4)
        ≡ of_microseconds (pos 4))
    × (milliseconds_since_epoch (of_microseconds (negsuc 1999)) ≡ negsuc 1)
unfolding minus_seconds plus_seconds minus_microseconds plus_microseconds milliseconds_since_epoch
    quotient ◌+ℤ◌ ◌*ℤ◌ ◌-ℤ◌
shifts = (refl, refl, refl)
