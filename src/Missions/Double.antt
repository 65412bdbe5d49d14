-- ===== src/Missions/Double.antt =====
-- The sum of two doubles that are not negative, as JavaScript adds the amounts of deposits
-- (src/hooks/useMissions.ts). A number is given in the least positive double, 2 ^ -1074, in which
-- all of them are natural numbers. A sum that overflows to Infinity is left out.
use winny.Base.{ℕ, zero, suc, ◌+◌, ◌*◌, ◌/◌, ◌%◌, ◌^◌, true, false, ltb, if◌then◌else◌}

-- How often a number is halved, with fuel, until its whole part has at most 53 bits.
unfoldable pub double_scale : ℕ → ℕ → ℕ
double_scale zero s = 0
double_scale (suc fuel) s = elim (ltb s (2 ^ 53)) [
  | true ↦ 0
  | false ↦ double_scale fuel (s / 2) + 1
]

-- The largest double is below 2 ^ 1024, that is 2 ^ 2098 in this unit.
abbrev pub scale_fuel : ℕ
scale_fuel = 2046

-- A fraction `rest / unit` of the whole number `q` is rounded to the nearest, a half to the even.
unfoldable pub round_half_even : ℕ → ℕ → ℕ → ℕ
round_half_even unit q rest =
    if ltb (rest * 2) unit then q else if ltb unit (rest * 2) then q + 1 else q + q % 2

unfoldable pub to_double : ℕ → ℕ
to_double s =
    let unit = 2 ^ double_scale scale_fuel s in round_half_even unit (s / unit) (s % unit) * unit

unfoldable pub add_double : ℕ → ℕ → ℕ
add_double a b = to_double (a + b)
