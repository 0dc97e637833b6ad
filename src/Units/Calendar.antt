-- ===== src/Units/Calendar.antt =====
-- `Calendar` (crates/fallingsand_core/src/calendar.rs). The age is a `u64`; the fractions in floating
-- point are left out.
use fallingsand.Prelude.{ℕ, ◌+◌, ◌-◌, ◌*◌, ◌/◌, ◌%◌, ◌≤◌, ◌<◌, ◌≡◌, arith, ltb, ◌==◌, if◌then◌else◌}
use fallingsand.Math.{tick_rate}

abbrev pub day_units : ℕ
day_units = 86_400_000

abbrev pub age_per_tick : ℕ
age_per_tick = 288_000 / tick_rate

abbrev pub year_units : ℕ
year_units = 60 * day_units

abbrev pub season_days : ℕ
season_days = 15

pub data Season : Type 0 where
  spring summer autumn winter : Season

pub record Calendar : Type 0 where
  pub age : ℕ

-- `saturating_add`.
unfoldable pub advance : Calendar → Calendar
advance c =
    let age = c.age + age_per_tick in
    record { age = if ltb 18_446_744_073_709_551_615 age then 18_446_744_073_709_551_615 else age }

unfoldable pub day : Calendar → ℕ
day c = c.age / day_units

-- The casts to `u32` keep the value.
unfoldable pub minute_of_day : Calendar → ℕ
minute_of_day c = c.age % day_units / 60_000

unfoldable pub day_of_year : Calendar → ℕ
day_of_year c = c.age % year_units / day_units

unfoldable pub season : Calendar → Season
unfolding day_of_year
season c =
    let s = day_of_year c / season_days in
    if s == 0 then spring else if s == 1 then summer else if s == 2 then autumn else winter

-- The season that follows.
abbrev pub following : Season → Season
following spring = summer
following summer = autumn
following autumn = winter
following winter = spring

-- The calendar so many days later.
abbrev pub later : ℕ → Calendar → Calendar
later days c = record { age = c.age + days * day_units }

-- Fifteen days later it is the next season, at the same minute of the day.
pub season-later :
    (c : Calendar)
    → (season (later season_days c) ≡ following (season c))
      × (minute_of_day (later season_days c) ≡ minute_of_day c)
      × (day (later season_days c) ≡ day c + season_days)
unfolding season day_of_year minute_of_day day
season-later c = ground arith

-- A day has 1440 minutes and a year 60 days; a tick takes the calendar on by 4800 units, and at the
-- end of the 64-bit range leaves it there.
pub advance_bounds :
    (c : Calendar)
    → c.age < 18_446_744_073_709_551_616
    → (minute_of_day c < 1_440)
      × (day_of_year c < 60)
      × (c.age ≤ (advance c).age)
      × ((advance c).age < 18_446_744_073_709_551_616)
      × ((advance c).age + (c.age + age_per_tick - 18_446_744_073_709_551_615)
          ≡ c.age + age_per_tick)
unfolding minute_of_day day_of_year advance
advance_bounds c h = ground arith
