-- ===== src/Math/Range/Tests.antt =====
-- Draws and quotients at concrete values.
use fallingsand.Prelude.{◌≡◌, refl}
use fallingsand.Prelude.Int.{negsuc}
use fallingsand.Math.{range, round_div}

range_runs : range 9_223_372_036_854_775_808 4_294_967_294 5 ≡ 2
unfolding range
range_runs = refl

-- -7 / 2 rounds away from zero.
round_div_runs : round_div (negsuc 6) 2 ≡ negsuc 3
unfolding round_div
round_div_runs = refl
