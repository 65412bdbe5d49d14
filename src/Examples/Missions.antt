-- ===== src/Examples/Missions.antt =====
-- A player's first days.
use winny.Base.{
  ◌+◌, ◌-◌, ◌*◌, ◌/◌, ◌^◌, ◌≤◌, ◌≡◌, refl, true, false, some, List, [], ◌∷◌, map, leb, arith,
}
use winny.Text.{codes}
use winny.Missions.{
  Clock, MissionsData, ms_per_day, jup_for_level, level_up, Event, deposit, round_played, win,
  claim, apply, after, initial_data, reset_weekly, new_week, Visit, load, leave, act, visits,
  first_page, one,
}
use winny.Missions.Sound.{PageSound, visits-AllSound}
use winny.Missions.Double.{add_double, to_double, double_scale, round_half_even}
use winny.Missions.Earned.{
  spent, earned, standing, reward, unclaimed_xp, IsLevelled, level_up_ends, apply-standing,
  after-conserves,
}
use winny.Missions.Days.{new_week-resets_same_day}

-- 2025-01-06, a Monday, at 15:00 UTC, five hours behind it.
abbrev clock : Clock
clock = record { now = 20094 * ms_per_day + 54000000; local_ms = λ instant. instant - 18000000 }

abbrev events : List Event
events =
    deposit clock (12 * one + one / 2) true
    ∷ round_played clock
    ∷ claim (codes "daily_deposit")
    ∷ win
    ∷ claim (codes "achievement_first_win")
    ∷ []

abbrev page_visits : List Visit
page_visits =
    load clock
    ∷ act true (deposit clock (12 * one + one / 2) true)
    ∷ act false (claim (codes "daily_deposit"))
    ∷ leave
    ∷ load clock
    ∷ act true (round_played clock)
    ∷ []

visits-AllSound_example : PageSound (visits page_visits first_page)
visits-AllSound_example = visits-AllSound page_visits

-- Odd halves are rounded to the even.
sums_rounded :
    (add_double (2 ^ 53) 1 ≡ 2 ^ 53)
    × (add_double (2 ^ 53) 3 ≡ 2 ^ 53 + 4)
    × (add_double (2 ^ 54) 3 ≡ 2 ^ 54 + 4)
    × (add_double 12 30 ≡ 42)
unfolding add_double to_double double_scale round_half_even
sums_rounded = (refl, refl, refl, refl)

level_up_ends_example :
    let (rest, reached) = level_up (350 + 2) 350 1 in
    (leb (jup_for_level reached) rest ≡ false)
    × (rest + spent reached ≡ 350 + spent 1)
    × (1 ≤ reached)
level_up_ends_example = level_up_ends 350 1 (omega arith)

initial_data-IsLevelled : IsLevelled initial_data
unfolding initial_data jup_for_level
initial_data-IsLevelled = record { begun = omega arith; below = omega arith }

apply-standing_example :
    (
      (apply (claim (codes "daily_deposit")) initial_data).total_jup,
      (apply (claim (codes "daily_deposit")) initial_data).level,
    )
    ≡ standing (earned initial_data + reward (claim (codes "daily_deposit")) initial_data)
apply-standing_example =
    apply-standing (claim (codes "daily_deposit")) initial_data initial_data-IsLevelled

after-conserves_example :
    (earned (after events initial_data) + unclaimed_xp (after events initial_data).missions
      ≡ earned initial_data + unclaimed_xp initial_data.missions)
    × IsLevelled (after events initial_data)
after-conserves_example = after-conserves events initial_data initial_data-IsLevelled

abbrev monday_player : MissionsData
monday_player = record initial_data { last_play_date = some 20094 }

new_week-resets_same_day_example :
    new_week clock monday_player
    ≡ record monday_player { missions = map reset_weekly monday_player.missions }
new_week-resets_same_day_example =
    new_week-resets_same_day clock monday_player 20094 refl (omega arith) (omega arith)
      (omega arith)
