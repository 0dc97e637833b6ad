-- ===== src/Sight/Tests.antt =====
-- A shadow cast on a concrete view.
use fallingsand.Prelude.{◌≡◌, Bool, true, false, some, List, length, replicate, length-replicate}
use fallingsand.Prelude.Int.{ℤ, pos}
use fallingsand.Chunk.Fog.Texels.{FogPos}
use fallingsand.Sight.Cast.{View, aim, cast}
use fallingsand.Sight.Marks.{Sees, InCircle, InSpan}
use fallingsand.Sight.Lit.{cast_lights}

abbrev eye : FogPos
eye = record { x = 7; y = 4_294_967_290 }

-- A view that was used before.
view : View
view =
    aim
      (record {
        eye = eye;
        sight = replicate 6_561 true;
        visible = replicate 6_561 true;
        seen = some (pos 0, pos 0, pos 3, pos 3);
      })
      eye

-- Nothing blocks the sight.
clear : List Bool
clear = replicate 6_561 false

clear_long : length clear ≡ 6_561
unfolding clear
clear_long = length-replicate 6_561 false

cast_lights_example :
    (w : View) × (cast (record (aim view eye) { sight = clear }) ≡ some w)
    × (w.eye ≡ eye)
    × (w.sight ≡ clear)
    × Sees w (pos 0) (pos 0)
    × ((dx dy : ℤ) → Sees w dx dy → InCircle dx dy × InSpan w.seen dx dy)
cast_lights_example = cast_lights view eye clear clear_long
