-- ===== src/Units/Tests.antt =====
-- Time and lengths on concrete inputs.
use fallingsand.Prelude.{◌+◌, ◌-◌, ◌*◌, ◌≡◌, refl, arith}
use fallingsand.Prelude.Int.{pos, negsuc}
use fallingsand.Units.Calendar.{Calendar, season, winter}
use fallingsand.Units.Subcell.{approach, distance, approach-distance}

abbrev late : Calendar
late = record { age = 59 * 86_400_000 + 30_000_000 }

late_winter : season late ≡ winter
unfolding season
late_winter = refl

approach-distance_example :
    distance (approach (negsuc 999) (pos 24) (pos 100)) (pos 24)
    ≡ distance (negsuc 999) (pos 24) - 100
approach-distance_example = approach-distance (negsuc 999) (pos 24) 100 (omega arith)
