-- ===== src/Sim/Salts.antt =====
-- The salts of the simulation (the `Hash::label` constants of crates/fallingsand_sim/src), and a hash
-- at a position under a seed. A label is its bytes.
use fallingsand.Prelude.{ℕ, [], ◌∷◌}
use fallingsand.Math.{Hash, label, salt, at_pos}
use fallingsand.Coords.{CellPos}

-- `Hash::seed(tick).salt(SALT).pos(x, y)`.
unfoldable pub seeded : ℕ → Hash → CellPos → Hash
unfolding salt at_pos
seeded seed named p = at_pos (salt seed named) p.x p.y

unfoldable pub movement_salt : Hash
unfolding label
movement_salt = label (
    115 ∷ 105 ∷ 109 ∷ 117 ∷ 108 ∷ 97 ∷ 116 ∷ 105 ∷ 111 ∷ 110 ∷ 46 ∷ 109 ∷ 111 ∷ 118 ∷ 101 ∷ 109
    ∷ 101 ∷ 110 ∷ 116 ∷ [])

unfoldable pub liquid_wake_salt : Hash
unfolding label
liquid_wake_salt = label (
    115 ∷ 105 ∷ 109 ∷ 117 ∷ 108 ∷ 97 ∷ 116 ∷ 105 ∷ 111 ∷ 110 ∷ 46 ∷ 108 ∷ 105 ∷ 113 ∷ 117 ∷ 105
    ∷ 100 ∷ 95 ∷ 119 ∷ 97 ∷ 107 ∷ 101 ∷ [])

unfoldable pub turbulence_salt : Hash
unfolding label
turbulence_salt = label (
    115 ∷ 105 ∷ 109 ∷ 117 ∷ 108 ∷ 97 ∷ 116 ∷ 105 ∷ 111 ∷ 110 ∷ 46 ∷ 116 ∷ 117 ∷ 114 ∷ 98 ∷ 117 ∷ 108
    ∷ 101 ∷ 110 ∷ 99 ∷ 101 ∷ [])

unfoldable pub topple_resistance_salt : Hash
unfolding label
topple_resistance_salt = label (
    115 ∷ 105 ∷ 109 ∷ 117 ∷ 108 ∷ 97 ∷ 116 ∷ 105 ∷ 111 ∷ 110 ∷ 46 ∷ 116 ∷ 111 ∷ 112 ∷ 112 ∷ 108
    ∷ 101 ∷ 95 ∷ 114 ∷ 101 ∷ 115 ∷ 105 ∷ 115 ∷ 116 ∷ 97 ∷ 110 ∷ 99 ∷ 101 ∷ [])

unfoldable pub effect_salt : Hash
unfolding label
effect_salt = label (
    115 ∷ 105 ∷ 109 ∷ 117 ∷ 108 ∷ 97 ∷ 116 ∷ 105 ∷ 111 ∷ 110 ∷ 46 ∷ 101 ∷ 102 ∷ 102 ∷ 101 ∷ 99 ∷ 116
    ∷ [])

unfoldable pub random_tick_sample_salt : Hash
unfolding label
random_tick_sample_salt = label (
    115 ∷ 105 ∷ 109 ∷ 117 ∷ 108 ∷ 97 ∷ 116 ∷ 105 ∷ 111 ∷ 110 ∷ 46 ∷ 114 ∷ 97 ∷ 110 ∷ 100 ∷ 111 ∷ 109
    ∷ 95 ∷ 116 ∷ 105 ∷ 99 ∷ 107 ∷ 95 ∷ 115 ∷ 97 ∷ 109 ∷ 112 ∷ 108 ∷ 101 ∷ [])

unfoldable pub phase_order_salt : Hash
unfolding label
phase_order_salt = label (
    115 ∷ 105 ∷ 109 ∷ 117 ∷ 108 ∷ 97 ∷ 116 ∷ 105 ∷ 111 ∷ 110 ∷ 46 ∷ 112 ∷ 104 ∷ 97 ∷ 115 ∷ 101 ∷ 95
    ∷ 111 ∷ 114 ∷ 100 ∷ 101 ∷ 114 ∷ [])

unfoldable pub row_direction_salt : Hash
unfolding label
row_direction_salt = label (
    115 ∷ 105 ∷ 109 ∷ 117 ∷ 108 ∷ 97 ∷ 116 ∷ 105 ∷ 111 ∷ 110 ∷ 46 ∷ 114 ∷ 111 ∷ 119 ∷ 95 ∷ 100 ∷ 105
    ∷ 114 ∷ 101 ∷ 99 ∷ 116 ∷ 105 ∷ 111 ∷ 110 ∷ [])

unfoldable pub cell_shade_salt : Hash
unfolding label
cell_shade_salt = label (
    115 ∷ 105 ∷ 109 ∷ 117 ∷ 108 ∷ 97 ∷ 116 ∷ 105 ∷ 111 ∷ 110 ∷ 46 ∷ 99 ∷ 101 ∷ 108 ∷ 108 ∷ 95 ∷ 115
    ∷ 104 ∷ 97 ∷ 100 ∷ 101 ∷ [])
